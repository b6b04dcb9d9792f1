-- ===== src/Web/Stages.antt =====
-- A request of examples/web step by step, as the goroutine that runs it takes them: each section under
-- the mutex of sessions.go is one step, and so is each call of the manager. Between two steps other
-- goroutines run.
pub mod Alone
pub mod Begins
pub mod Owned
pub mod Sections
use pgislet.Base.{
  ℕ, zero, suc, String, Bool, true, false, Option, none, some, [], ◌∷◌, ◌==◌, if◌then◌else◌,
}
use pgislet.Base.Dict.{Dict}
use pgislet.Errors.{Err, Result, ok, err}
use pgislet.Policy.Check.{Parser}
use pgislet.Engine.Types.{Islet, Db}
use pgislet.Engine.Execute.{Manager}
use pgislet.Engine.Initialize.{open_islet, create_with_initialization}
use pgislet.Web.Report.{
  Response, respond, write_error, report, workspace, deleted, token, cleared, with_cookie,
}
use pgislet.Web.Sessions.{Session, Server, touch, reserve, release, store, forget, expire}
use pgislet.Web.Removal.{World}
use pgislet.Web.Removal.Steps.{Removing, finding, removal_step, proceed, iterate}
use pgislet.Web.Boundary.{
  Request, Library, Route, start, end, query, reset, reseed, schema, no_endpoint, assets, patterns,
  refusal,
}
use pgislet.Web.Seed.{seed}
use pgislet.Web.Handlers.{Calls, expired_session, has_live_cookie, show}
use pgislet.Web.Serve.{
  Decoded, bad, sql, decode, query_behind, change_behind, schema_behind, serve_assets,
}

-- What a handler does behind `current`.
pub data Work : Type 0 where
  showing : Work
  ending : Work
  querying : String → Work
  changing : Bool → Work
  describing : Work

-- What a request does next, with what it has in hand.
pub data Progress : Type 0 where
  -- the section of `start` that tests a session, that of `current`, and its call of `Open`
  testing : Progress
  entering : Work → Progress
  opening : Work → String → Session → Progress
  -- the work behind it; the calls of `remove` in `end`, and its section
  working : Work → String → Islet → Progress
  dropping : String → Removing → Progress
  forgetting : String → Progress
  -- the rest of `start`: the slot, the creation, the calls of `remove` or the session, and the deferred section
  -- behind a failure and behind a session
  reserving : Progress
  creating : Progress
  undoing : Err → Removing → Progress
  storing : Islet → Progress
  abandoning : Response → Progress
  releasing : Response → Progress
  answered : Response → Progress

module _ (lib : Library) (p : Parser) (m : Manager) (c : Calls) (q : Request) where
  -- A request up to its first section.
  abbrev pub query_stage : Decoded → Progress
  query_stage (bad response) = answered response
  query_stage (sql s) =
      if lib.trim_space s == ""
      then answered (write_error 400 "request" "Enter SQL to execute.")
      else entering (querying s)

  abbrev pub route_stage : Route → Progress
  route_stage start = testing
  route_stage end = entering ending
  route_stage query = query_stage (decode lib q)
  route_stage reset = entering (changing false)
  route_stage reseed = entering (changing true)
  route_stage schema = entering describing
  route_stage no_endpoint = answered (write_error 404 "not_found" "API endpoint not found.")
  route_stage assets = answered (serve_assets lib p m c q)

  abbrev pub picked_stage : Option Route → Progress
  picked_stage none = answered (lib.mux_answer q)
  picked_stage (some route) = route_stage route

  abbrev pub refused_stage : Option Response → Progress
  refused_stage (some response) = answered response
  refused_stage none = picked_stage (lib.mux patterns q.method q.path)

  unfoldable pub begin : Progress
  begin = refused_stage (refusal lib q)

  -- The ends of the steps of `current`.
  abbrev pub found_stage : Work → String → Option Session → Progress
  found_stage k key none = answered expired_session
  found_stage k key (some item) = opening k key item

  abbrev pub opened_stage : Work → String → Result Islet → Progress
  opened_stage k key (err e) = answered (report e none)
  opened_stage k key (ok h) = working k key h

  abbrev pub entered_by : Work → Option String → World → Progress × World
  entered_by k none w = (answered expired_session, w)
  entered_by k (some key) w =
      let (item, server) = touch c.now key w.server in
      (found_stage k key item, record w { server = server })

  abbrev pub with_token : String → Response × World → Progress × World
  with_token key (response, w) = (answered (with_cookie (token key) response), w)

  abbrev pub ended_stage : String → Option Err → Progress
  ended_stage key (some e) = answered (with_cookie (token key) (report e none))
  ended_stage key none = forgetting key

  -- A call of `remove`.
  abbrev pub removing_by :
      (Option Err → Progress) → (Removing → Progress) → Removing → World → Progress × World
  removing_by next again r w =
      let (r', db) = removal_step c.removal r w.db in (proceed next again r', record w { db = db })

  -- The error of `remove` is ignored in `start`.
  abbrev pub undone_stage : Err → Option Err → Progress
  undone_stage e o = abandoning (report e none)

  -- The calls of the handlers behind `current`.
  abbrev pub work_stage : Work → String → Islet → World → Progress × World
  work_stage showing key h w = with_token key (show c p m key h w)
  work_stage ending key h w = removing_by (ended_stage key) (dropping key) (finding h.id) w
  work_stage (querying s) key h w = with_token key (query_behind lib p m c s key h w)
  work_stage (changing again) key h w = with_token key (change_behind lib p m c again key h w)
  work_stage describing key h w = with_token key (schema_behind lib p m c key h w)

  -- The ends of the steps of `start`.
  abbrev pub slot_stage : World → Option Server → Progress × World
  slot_stage w none = (
    answered (write_error 503 "capacity" "All workspace slots are in use. Try again shortly."),
    w,
  )
  slot_stage w (some server) = (creating, record w { server = server })

  abbrev pub created_stage : World → (Islet × Option Err) × Db → Progress × World
  created_stage w ((h, some e), db) = (
    if h.id == "" then abandoning (report e none) else undoing e (finding h.id),
    record w { db = db },
  )
  created_stage w ((h, none), db) = (storing h, record w { db = db })

  unfoldable pub step : Progress → World → Progress × World
  step testing w =
      (if has_live_cookie c p m q.cookie w.server then entering showing else reserving, w)
  step (entering k) w = entered_by k q.cookie w
  step (opening k key item) w = (opened_stage k key (open_islet c.opened item.id w.db), w)
  step (working k key h) w = work_stage k key h w
  step (forgetting key) w = (
    answered (with_cookie (token key) (with_cookie cleared (respond 200 deleted))),
    record w { server = forget key w.server },
  )
  step reserving w = slot_stage w (reserve w.server)
  step creating w = created_stage w (create_with_initialization p m c.env c.later seed w.db)
  step (dropping key r) w = removing_by (ended_stage key) (dropping key) r w
  step (undoing e r) w = removing_by (undone_stage e) (undoing e) r w
  step (storing h) w =
      let item : Session = record { id = h.id; used = c.entered } in
      (
        releasing (with_cookie (token c.token) (respond 201 (workspace h))),
        record w { server = store c.token item w.server },
      )
  step (abandoning response) w = (answered response, record w { server = release w.server })
  step (releasing response) w = (answered response, record w { server = release w.server })
  step (answered response) w = (answered response, w)

  -- That many steps, with nothing between them.
  abbrev pub steps : ℕ → Progress → World → Progress × World
  steps = iterate step
