-- ===== src/Tests/Launches.antt =====
-- The theorems on the main.go of both programs of examples at concrete runs.
use pgislet.Base.{false, true, none, [], ◌≡◌, ◌⊎◌}
use pgislet.Errors.{ok}
use pgislet.Launch.{Source}
use pgislet.Launch.Ends.{EndsWell, IsLocalHost, run_web-ends, run_playground-ends}
use pgislet.Launch.Web.{Start, run_web}
use pgislet.Launch.Playground.{Performance, run_playground}
use pgislet.Tests.{parser}
use pgislet.Tests.Setup.{setup, bare}
use pgislet.Tests.Requests.{library, first_world}
use pgislet.Tests.Web.{removal}
use pgislet.Tests.Programs.{trace, plays}

abbrev source : Source
source = record {
  disposable = true;
  dsn = "";
  run_error = none;
  connection = ok "postgres://localhost:5432/pgislet";
}

abbrev start : Start
start = record {
  flags = none;
  addr = "127.0.0.1:8080";
  host = ok "127.0.0.1";
  assets = none;
  source = source;
  parsed = none;
  pooled = none;
  setup = setup;
  events = trace;
  is_closed = λ e. false;
  shutdown = none;
  removals = λ token. removal;
  now = 90;
}

run_web-ends_example :
    EndsWell "127.0.0.1:8080" (run_web library parser start bare first_world.db)
    × (((run_web library parser start bare first_world.db).acts ≡ [])
        ⊎ IsLocalHost library parser start)
run_web-ends_example = run_web-ends library parser start tt bare first_world.db

abbrev play : Performance
play = record {
  source = source;
  parsed = none;
  pooled = none;
  setup = setup;
  node_pooled = none;
  node_setup = setup;
  plays = plays;
}

run_playground-ends_example : EndsWell "" (run_playground parser play bare first_world.db)
run_playground-ends_example = run_playground-ends parser play "" bare first_world.db
