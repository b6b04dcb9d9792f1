-- ===== src/Tests/Requests.antt =====
-- The theorems on the requests of examples/web at concrete ones.
use pgislet.Base.{
  String, true, false, ◌≡◌, inl, inr, refl, Option, none, some, List, [], ◌∷◌, ◌==◌, Bool-cases,
  if◌then◌else◌,
}
use pgislet.Base.Dict.{lookup}
use pgislet.Web.Report.{respond, file, text, Table}
use pgislet.Web.Sessions.{reserve}
use pgislet.Web.Sessions.Entries.{Unique}
use pgislet.Web.Removal.{World, cleanup}
use pgislet.Web.Removal.Cleaned.{Cleaned, cleanup-Cleaned}
use pgislet.Web.Boundary.{Request, Library, Route, query, reached}
use pgislet.Web.Boundary.Guarded.{IsLocal, IsGuarded, PicksMatching, reached-IsGuarded}
use pgislet.Web.Schema.{tables_from}
use pgislet.Web.Schema.RoundTrip.{rows_of, tables_of-rows_of}
use pgislet.Web.Handlers.{Calls, current, start_reserved}
use pgislet.Web.Handlers.Outcomes.{
  CurrentOutcome, current-CurrentOutcome, StartOutcome, start-StartOutcome,
}
use pgislet.Web.Serve.Moves.{Sticks}
use pgislet.Tests.{parser}
use pgislet.Tests.Islets.{calm, manager, registry}
use pgislet.Tests.Web.{removal, removal-Answers, session, fresh}

-- A server with one session that has expired and one that has not.
abbrev world : World
world = record {
  server = record {
    sessions = ("t", session) ∷ ("u", record { id = "b"; used = 3000000000000 }) ∷ [];
    pending = 0;
  };
  db = registry;
}

world-Unique : Unique world.server.sessions
unfolding lookup
world-Unique = (refl, (refl, tt))

cleanup-Cleaned_example :
    Cleaned false 3600000000000 world.server.sessions
      (cleanup (λ token. removal) false 3600000000000 world).1.server.sessions
      (cleanup (λ token. removal) false 3600000000000 world).0
      (cleanup (λ token. removal) false 3600000000000 world).1.db
cleanup-Cleaned_example =
    cleanup-Cleaned (λ token. removal) false 3600000000000 world world-Unique
      (λ token. removal-Answers)

-- A mux that knows one endpoint.
abbrev pub query_only : String → String → Option Route
query_only method path =
    if method == "POST" then (if path == "/api/query" then some query else none) else none

abbrev pub library : Library
library = record {
  split_host = λ s. none;
  is_loopback = λ s. s == "127.0.0.1";
  equal_fold = λ s t. s == t;
  parse_url = λ s. if s == "http://localhost" then some ("http", "localhost") else none;
  mux = λ ps method path. query_only method path;
  mux_answer = λ r. respond 404 (text "404 page not found");
  serve_file = λ r. respond 200 file;
  trim_space = λ s. s;
  before_semicolon = λ s. s;
  decode_sql = λ limit s. some s;
  at_end = λ limit s. true;
}

library-PicksMatching : PicksMatching library
library-PicksMatching method path route h = elim (Bool-cases (method == "POST")) [
  | inl m ↦ elim (Bool-cases (path == "/api/query")) [
    | inl p ↦ inr (inr (inl (cc (rw (m, p) at h), rw m refl, p)))
    | inr p ↦ cc (rw (m, p) at h)
  ]
  | inr m ↦ cc (rw m at h)
]

abbrev pub header : String → String
header name =
    if name == "Origin"
    then "http://localhost"
    else if name == "X-Pgislet-Request"
    then "playground"
    else if name == "Content-Type"
    then "application/json"
    else ""

abbrev pub request : Request
request = record {
  method = "POST";
  host = "localhost";
  path = "/api/query";
  tls = false;
  header = header;
  cookie = some "u";
  body = "lower";
}

request-reached : reached library request ≡ some query
unfolding reached
request-reached = refl

reached-IsGuarded_example : IsLocal library request × IsGuarded library request
reached-IsGuarded_example =
    reached-IsGuarded library request query library-PicksMatching refl request-reached

abbrev pub calls : Calls
calls = record {
  tested = 3600000000000;
  now = 3600000000000;
  entered = 3600000000000;
  opened = none;
  env = calm;
  later = calm;
  removal = removal;
  token = "v";
}

current-CurrentOutcome_example :
    CurrentOutcome calls
      (some "t")
      world
      (current calls (some "t") world).0
      (current calls (some "t") world).1
current-CurrentOutcome_example = current-CurrentOutcome calls (some "t") world

start-StartOutcome_example :
    StartOutcome parser manager calls world
      (start_reserved calls parser manager world (reserve world.server)).0
      (start_reserved calls parser manager world (reserve world.server)).1
start-StartOutcome_example = start-StartOutcome parser manager calls world

abbrev pub first_world : World
first_world = record { server = fresh; db = record { islets = []; schemas = []; roles = [] } }

pub calls-Sticks : Sticks calls
calls-Sticks = record { operation = inl refl; recovering = inl refl; deleting = inl refl }

-- A table with two columns, a view without any, and another table.
abbrev sample_tables : List Table
sample_tables =
    record {
      name = "customers";
      kind = "r";
      columns =
          record { name = "id"; type_name = "int4" }
          ∷ record { name = "name"; type_name = "text" }
          ∷ [];
    }
    ∷ record { name = "empty"; kind = "v"; columns = [] }
    ∷ record {
      name = "orders";
      kind = "r";
      columns = record { name = "id"; type_name = "int4" } ∷ [];
    }
    ∷ []

tables_of-rows_of_example : tables_from [] (rows_of sample_tables) ≡ some sample_tables
tables_of-rows_of_example = tables_of-rows_of sample_tables (tt, (refl, (refl, tt)))
