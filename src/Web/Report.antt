-- ===== src/Web/Report.antt =====
-- examples/web/errors.go, and the responses of `respond` in server.go.
pub mod Status
use pgislet.Base.{ℕ, String, Bool, Option, none, some, List, [], ◌∷◌, ◌||◌, if◌then◌else◌}
use pgislet.Base.Int.{ℤ, pos}
use pgislet.Errors.{
  Kind, Err, PgError, is, as_pg, outcome_unknown, busy, stale_generation, failed, unavailable,
  not_found, timeout, result_limit, sql_too_large, policy, runtime_connection, query,
}
use pgislet.Engine.Types.{Islet}
use pgislet.Engine.Result.{QueryResult}

-- A field that `omitempty` leaves out has its zero value.
pub record ApiError : Type 0 where
  pub kind : String
  pub message : String
  pub code : String
  pub detail : String
  pub hint : String
  pub position : ℤ

pub record Column : Type 0 where
  pub name : String
  pub type_name : String

pub record Table : Type 0 where
  pub name : String
  pub kind : String
  pub columns : List Column

-- What the handlers answer with: JSON values, a line of text or a file. `present` only renames the
-- fields of a result.
pub data Body : Type 0 where
  failure : ApiError → Option QueryResult → Body
  answer : QueryResult → Body
  workspace : Islet → Body
  deleted : Body
  tables : List Table → Islet → Body
  text : String → Body
  file : Body
  -- A handler panicked: net/http closes the connection without a response.
  aborted : Body

-- The session cookies that a response sets, in order: a token, or MaxAge -1.
pub data Cookie : Type 0 where
  token : String → Cookie
  cleared : Cookie

pub record Response : Type 0 where
  pub status : ℕ
  pub body : Body
  pub cookies : List Cookie

abbrev pub respond : ℕ → Body → Response
respond status body = record { status = status; body = body; cookies = [] }

-- `setCookie` puts its header before the others of the response.
abbrev pub with_cookie : Cookie → Response → Response
with_cookie c r = record r { cookies = c ∷ r.cookies }

abbrev pub plain : String → String → ApiError
plain kind message = record {
  kind = kind;
  message = message;
  code = "";
  detail = "";
  hint = "";
  position = pos 0;
}

abbrev pub write_error : ℕ → String → String → Response
write_error status kind message = respond status (failure (plain kind message) none)

abbrev pub internal : String
internal = "Unable to complete the operation. Check the server logs and connection."

-- The case of `ErrQuery`.
abbrev pub describe_query : Option PgError → ApiError
describe_query none = plain "query" internal
describe_query (some pe) = record {
  kind = "query";
  message = pe.message;
  code = pe.code;
  detail = pe.detail;
  hint = pe.hint;
  position = pe.position;
}

-- The switch of `report`, on what `errors.Is` and `errors.AsType` answer for its error: the status and
-- the problem.
unfoldable pub switch : (Kind → Bool) → Option PgError → ℕ × ApiError
switch carries server =
    if carries outcome_unknown
    then (500, plain "unknown" "The commit outcome is unknown. Check the data before retrying.")
    else if carries busy || carries stale_generation
    then (
      409,
      plain "busy" "Another operation is running or the workspace has changed. Try again shortly.",
    )
    else if carries failed || carries unavailable
    then (
      409,
      plain "unavailable"
          "The workspace is unavailable. Restore the sample data or clear the workspace.",
    )
    else if carries not_found
    then (401, plain "session" "Workspace not found. Reconnect to continue.")
    else if carries timeout
    then (408, plain "timeout" "Execution timed out. The operation was not committed.")
    else if carries result_limit
    then (
      422,
      plain "limit"
          "The result limit was exceeded and the entire operation was rolled back. Adjust LIMIT or narrow the query.",
    )
    else if carries sql_too_large
    then (413, plain "limit" "SQL input is too large.")
    else if carries policy
    then (
      400,
      plain "policy"
          "SQL is not allowed. Run one statement without role, session, or schema management commands.",
    )
    else if carries runtime_connection
    then (503, plain "connection" "Unable to connect to PostgreSQL.")
    else if carries query
    then (400, describe_query server)
    else (500, plain "internal" internal)

unfoldable pub describe : Err → ℕ × ApiError
describe e = switch (is e) (as_pg e)

abbrev pub report : Err → Option QueryResult → Response
report e result = let (status, problem) = describe e in respond status (failure problem result)
