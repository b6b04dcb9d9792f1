-- ===== src/Tests/Neighbours.antt =====
-- The theorems on runs of the server of examples/web, at a registry with two islets.
use pgislet.Base.{false, ◌≡◌, refl, List, ◌∷◌, [], none, some, inl}
use pgislet.Engine.Registry.Isolation.{Untouched}
use pgislet.Web.Removal.{World}
use pgislet.Engine.Registry.{WellFormed}
use pgislet.Engine.Registry.Reach.{Reachable, bootstrapped}
use pgislet.Web.Serve.Owned.{SticksTo}
use pgislet.Web.Shutdown.{Event, requested, ticked, interrupted, Exit, run_server}
use pgislet.Web.Shutdown.Isolation.{run_server-Untouched}
use pgislet.Web.Shutdown.Registry.{run_server-WellFormed}
use pgislet.Tests.{parser}
use pgislet.Tests.Web.{removal}
use pgislet.Tests.Islets.{manager}
use pgislet.Tests.History.{both, both-WellFormed, second_row, second_row_found}
use pgislet.Tests.Requests.{library, request, calls, calls-Sticks, first_world}

-- The session of the request is that of the first islet.
abbrev pub neighbours : World
neighbours = record {
  server = record {
    sessions = ("u", record { id = "0f"; used = 3000000000000 }) ∷ [];
    pending = 0;
  };
  db = both;
}

-- A run of the server with sessions of the first islet only, and a request under one of them.
abbrev neighbours_trace : List Event
neighbours_trace = requested calls request ∷ ticked (λ token. removal) 60 ∷ interrupted ∷ []

pub removal-SticksTo : SticksTo removal
removal-SticksTo = record { recovering = inl refl; deleting = inl refl }

run_server-Untouched_example :
    (exit : Exit) × (run_server
        (λ e. false)
        none
        (λ token. removal)
        90
        library
        parser
        manager
        neighbours_trace
        neighbours
      ≡ some exit)
    × Untouched "1e" second_row both exit.world.db
run_server-Untouched_example =
    run_server-Untouched (λ e. false) none (λ token. removal) 90 library parser manager
      neighbours_trace neighbours "1e" second_row tt
      (calls-Sticks, ((λ token. removal-SticksTo), tt)) (λ token. removal-SticksTo) both-WellFormed
      second_row_found (refl, tt)

run_server-WellFormed_example :
    (exit : Exit) × (run_server
        (λ e. false)
        none
        (λ token. removal)
        90
        library
        parser
        manager
        neighbours_trace
        first_world
      ≡ some exit)
    × Reachable exit.world.db
    × WellFormed exit.world.db
run_server-WellFormed_example =
    run_server-WellFormed (λ e. false) none (λ token. removal) 90 library parser manager
      neighbours_trace first_world tt (calls-Sticks, ((λ token. removal-SticksTo), tt))
      (λ token. removal-SticksTo) bootstrapped
