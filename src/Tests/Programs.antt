-- ===== src/Tests/Programs.antt =====
-- The theorems on the two programs of examples at concrete runs.
use pgislet.Base.{false, ◌≡◌, Option, none, some, List, [], ◌∷◌}
use pgislet.Errors.{Err}
use pgislet.Playground.{Plays, run}
use pgislet.Playground.Leaves.{IsRemoved, run-IsRemoved}
use pgislet.Web.Removal.{World}
use pgislet.Web.Removal.Each.{NoIslets}
use pgislet.Web.Shutdown.{Event, requested, ticked, interrupted, Exit, loop, run_server}
use pgislet.Web.Shutdown.Ends.{run_server-ends}
use pgislet.Tests.{parser}
use pgislet.Tests.Islets.{calm, manager}
use pgislet.Tests.Web.{removal, removal-Answers}
use pgislet.Tests.Requests.{library, request, calls, first_world}

abbrev pub plays : Plays
plays = record { env = λ i. calm; removal_a = removal; removal_b = removal }

run-IsRemoved_example :
    ((run parser manager manager plays first_world.db).0.printed_a ≡ none
      → IsRemoved
          (run parser manager manager plays first_world.db).0.a
          (run parser manager manager plays first_world.db).1)
    × ((run parser manager manager plays first_world.db).0.printed_b ≡ none
        → IsRemoved
            (run parser manager manager plays first_world.db).0.b
            (run parser manager manager plays first_world.db).1)
run-IsRemoved_example =
    run-IsRemoved parser manager manager plays removal-Answers removal-Answers first_world.db

abbrev pub trace : List Event
trace = requested calls request ∷ ticked (λ token. removal) 60 ∷ interrupted ∷ []

run_server-ends_example :
    (exit : Exit) × (o : Option Err × World) × (loop library parser manager trace first_world
      ≡ some o)
    × (run_server (λ e. false) none (λ token. removal) 90 library parser manager trace first_world
        ≡ some exit)
    × (exit.error ≡ none
        → (exit.world.server.sessions ≡ []) × NoIslets o.1.server.sessions exit.world.db)
run_server-ends_example =
    run_server-ends (λ e. false) none (λ token. removal) 90 library parser manager
      (λ token. removal-Answers) trace first_world tt
