-- ===== src/Web/Serve.antt =====
-- examples/web/handlers.go, and `decode` and `ServeHTTP` of server.go: a request from its boundary to
-- the response.
pub mod Sections
pub mod Keeps
pub mod Moves
pub mod Isolation
pub mod Owned
pub mod Registry
use pgislet.Base.{
  ℕ, ◌^◌, String, Bool, true, false, not, ◌&&◌, Option, none, some, List, [], ◌∷◌, ◌==◌,
  if◌then◌else◌,
}
use pgislet.Errors.{Err, Result, ok, err}
use pgislet.Policy.Check.{Parser}
use pgislet.Engine.Types.{Islet, Db}
use pgislet.Engine.Exec.{Env}
use pgislet.Engine.Lifecycle
use pgislet.Engine.Result.{QueryResult, no_result}
use pgislet.Engine.Execute.{Manager, execute_one}
use pgislet.Engine.Initialize.{reinitialize}
use pgislet.Web.Report.{
  Response, Table, respond, write_error, report, answer, workspace, tables, text, aborted,
}
use pgislet.Web.Removal.{World}
use pgislet.Web.Schema.{tables_from}
use pgislet.Web.Boundary.{
  Request, Library, Route, start, end, query, reset, reseed, schema, no_endpoint, assets, patterns,
  refusal,
}
use pgislet.Web.Seed.{seed, schema_query}
use pgislet.Web.Handlers.{Calls, behind_current, start_session, end_session}

-- The results of `decode`: a response that is written, or the value.
pub data Decoded : Type 0 where
  bad : Response → Decoded
  sql : String → Decoded

abbrev pub decoded : Bool → Option String → Decoded
decoded at_end none = bad (write_error 400 "request" "The request is invalid or exceeds 64 KiB.")
decoded at_end (some s) =
    if at_end
    then sql s
    else bad (write_error 400 "request" "Send only one JSON value per request.")

unfoldable pub decode : Library → Request → Decoded
decode lib r =
    if not (lib.before_semicolon (r.header "Content-Type") == "application/json")
    then bad (write_error 415 "request" "A JSON request is required.")
    else decoded (lib.at_end (2 ^ 16) r.body) (lib.decode_sql (2 ^ 16) r.body)

-- The `Result` of `Execute`, which is the zero value where the engine has none.
abbrev pub or_zero : Option QueryResult → QueryResult
or_zero (some result) = result
or_zero none = no_result

module _ (lib : Library) (p : Parser) (m : Manager) (c : Calls) where
  abbrev pub query_result : World → (Option QueryResult × Option Err) × Db → Response × World
  query_result w ((result, some e), db) = (report e (some (or_zero result)), record w { db = db })
  query_result w ((result, none), db) =
      (respond 200 (answer (or_zero result)), record w { db = db })

  abbrev pub query_behind : String → String → Islet → World → Response × World
  query_behind s key h w = query_result w (execute_one p m c.env h s w.db)

  abbrev pub run_query : Request → World → Decoded → Response × World
  run_query r w (bad response) = (response, w)
  run_query r w (sql s) =
      if lib.trim_space s == ""
      then (write_error 400 "request" "Enter SQL to execute.", w)
      else behind_current c r.cookie w (query_behind s)

  -- `s.query`.
  unfoldable pub handle_query : Request → World → Response × World
  handle_query r w = run_query r w (decode lib r)

  abbrev pub change_result : World → (Islet × Option Err) × Db → Response × World
  change_result w ((next, some e), db) = (report e none, record w { db = db })
  change_result w ((next, none), db) = (respond 200 (workspace next), record w { db = db })

  abbrev pub change_behind : Bool → String → Islet → World → Response × World
  change_behind again key h w = change_result w (
      if again
      then reinitialize p m c.env c.later seed h w.db
      else Lifecycle.reset c.env h false false w.db)

  -- `s.change`.
  unfoldable pub handle_change : Bool → Request → World → Response × World
  handle_change again r w = behind_current c r.cookie w (change_behind again)

  -- A panic has no status; 0 stands for that.
  abbrev pub listed : Islet → Option (List Table) → Response
  listed h (some ts) = respond 200 (tables ts h)
  listed h none = respond 0 aborted

  abbrev pub schema_result :
      Islet → World → (Option QueryResult × Option Err) × Db → Response × World
  schema_result h w ((result, some e), db) = (report e none, record w { db = db })
  schema_result h w ((result, none), db) =
      (listed h (tables_from [] (or_zero result).rows), record w { db = db })

  abbrev pub schema_behind : String → Islet → World → Response × World
  schema_behind key h w = schema_result h w (execute_one p m c.env h schema_query w.db)

  -- `s.schema`.
  unfoldable pub describe_schema : Request → World → Response × World
  describe_schema r w = behind_current c r.cookie w schema_behind

  -- The handler of "/".
  abbrev pub serve_assets : Request → Response
  serve_assets r =
      if not (r.method == "GET") && not (r.method == "HEAD")
      then respond 405 (text "method not allowed")
      else lib.serve_file r

  abbrev pub handle_route : Route → Request → World → Response × World
  handle_route start r w = start_session c p m r.cookie w
  handle_route end r w = end_session c r.cookie w
  handle_route query r w = handle_query r w
  handle_route reset r w = handle_change false r w
  handle_route reseed r w = handle_change true r w
  handle_route schema r w = describe_schema r w
  handle_route no_endpoint r w = (write_error 404 "not_found" "API endpoint not found.", w)
  handle_route assets r w = (serve_assets r, w)

  abbrev pub dispatch : Request → World → Option Route → Response × World
  dispatch r w none = (lib.mux_answer r, w)
  dispatch r w (some route) = handle_route route r w

  abbrev pub serve_behind : Request → World → Option Response → Response × World
  serve_behind r w (some response) = (response, w)
  serve_behind r w none = dispatch r w (lib.mux patterns r.method r.path)

  -- `s.ServeHTTP`.
  unfoldable pub serve : Request → World → Response × World
  serve r w = serve_behind r w (refusal lib r)
