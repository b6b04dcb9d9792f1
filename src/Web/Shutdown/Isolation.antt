-- ===== src/Web/Shutdown/Isolation.antt =====
-- The other islets of the database, while `run` of examples/web/main.go serves and ends.
use pgislet.Base.{ℕ, String, Bool, false, ◌≡◌, refl, Option, some, List, ◌==◌}
use pgislet.Base.Dict.{lookup}
use pgislet.Errors.{Err}
use pgislet.Policy.Check.{Parser}
use pgislet.Engine.Types.{Row}
use pgislet.Engine.Execute.{Manager}
use pgislet.Engine.Registry.{WellFormed}
use pgislet.Engine.Registry.Isolation.{Untouched}
use pgislet.Engine.Registry.Alone.{Alone, Alone-Closed}
use pgislet.Web.Removal.{World, Removal}
use pgislet.Web.Sessions.Owned.{AllOwn}
use pgislet.Web.Boundary.{Library}
use pgislet.Web.Serve.Owned.{SticksTo}
use pgislet.Web.Shutdown.{Event, Exit, run_server}
use pgislet.Web.Shutdown.Held.{SticksThrough, run_server-Held}
use pgislet.Web.Shutdown.Ends.{HasStop}

-- Where a transaction stays aborted whose ROLLBACK TO has failed, a server over a well-formed registry
-- comes to its end if its trace has a stop, whatever requests and ticks are before it; and an islet of
-- which it has no session at the start has its row, the content of its schema and its role as they were
-- when it has ended.
pub run_server-Untouched :
    (is_closed : Err → Bool) (shutdown : Option Err) (calls : String → Removal) (now : ℕ)
    (lib : Library) (p : Parser) (m : Manager) (events : List Event) (w : World) (j : String)
    (r : Row)
    → HasStop events
    → SticksThrough events
    → ((token : String) → SticksTo (calls token))
    → WellFormed w.db
    → lookup j w.db.islets ≡ some r
    → AllOwn (λ id. (id == j) ≡ false) w.server.sessions
    → (exit : Exit) × (run_server is_closed shutdown calls now lib p m events w ≡ some exit)
      × Untouched j r w.db exit.world.db
run_server-Untouched is_closed shutdown calls now lib p m events w j r stop through sticks fine
      there strangers =
    let start : Alone j r w.db w.db = record {
      fine = fine;
      there = there;
      same = record { row = refl; schema = refl; role = refl };
    } in
    let (exit, e, held) =
      run_server-Held _ (Alone j r w.db) (Alone-Closed j r w.db) is_closed shutdown calls now sticks
        lib p m events w stop through (record { stored = start; owned = strangers }) in
    (exit, e, held.stored.same)
