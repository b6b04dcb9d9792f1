-- ===== src/Web/Shutdown/Registry.antt =====
-- The registry of internal/engine, while `run` of examples/web/main.go serves and ends.
use pgislet.Base.{ℕ, String, Bool, ◌≡◌, Option, some, List, [], ◌∷◌}
use pgislet.Base.Dict.{Dict}
use pgislet.Errors.{Err}
use pgislet.Policy.Check.{Parser}
use pgislet.Engine.Execute.{Manager}
use pgislet.Engine.Registry.{WellFormed}
use pgislet.Engine.Registry.Reach.{Reachable, Reachable-WellFormed}
use pgislet.Web.Sessions.{Session}
use pgislet.Web.Sessions.Owned.{AllOwn}
use pgislet.Web.Removal.{World, Removal}
use pgislet.Web.Boundary.{Library}
use pgislet.Web.Serve.Owned.{SticksTo}
use pgislet.Web.Serve.Registry.{Reachable-Closed}
use pgislet.Web.Shutdown.{Event, Exit, run_server}
use pgislet.Web.Shutdown.Held.{SticksThrough, run_server-Held}
use pgislet.Web.Shutdown.Ends.{HasStop}

anyone-AllOwn : (d : Dict Session) → AllOwn (λ id. Unit) d
anyone-AllOwn [] = tt
anyone-AllOwn ((key, item) ∷ rest) = (tt, anyone-AllOwn rest)

-- Where a transaction stays aborted whose ROLLBACK TO has failed, a server that starts at a database
-- which the transactions of the package reach comes to its end if its trace has a stop, whatever
-- requests and ticks are before it, and at such a database again; so the registry stays well-formed:
-- each row with its schema, its role and a generation above zero.
pub run_server-WellFormed :
    (is_closed : Err → Bool) (shutdown : Option Err) (calls : String → Removal) (now : ℕ)
    (lib : Library) (p : Parser) (m : Manager) (events : List Event) (w : World)
    → HasStop events
    → SticksThrough events
    → ((token : String) → SticksTo (calls token))
    → Reachable w.db
    → (exit : Exit) × (run_server is_closed shutdown calls now lib p m events w ≡ some exit)
      × Reachable exit.world.db
      × WellFormed exit.world.db
run_server-WellFormed is_closed shutdown calls now lib p m events w stop through sticks reached =
    let (exit, e, held) =
      run_server-Held _ Reachable Reachable-Closed is_closed shutdown calls now sticks lib p m
        events w stop through
        (record { stored = reached; owned = anyone-AllOwn w.server.sessions }) in
    (exit, e, held.stored, Reachable-WellFormed _ held.stored)
