-- ===== src/Web/Serve/Isolation.antt =====
-- The other islets, while examples/web answers a request.
use pgislet.Base.{String, false, ◌≡◌, refl, some, ◌==◌}
use pgislet.Base.Dict.{lookup}
use pgislet.Policy.Check.{Parser}
use pgislet.Engine.Types.{Row}
use pgislet.Engine.Execute.{Manager}
use pgislet.Engine.Registry.{WellFormed}
use pgislet.Engine.Registry.Isolation.{Untouched}
use pgislet.Engine.Registry.Alone.{Alone, Alone-Closed}
use pgislet.Web.Removal.{World}
use pgislet.Web.Sessions.{Session}
use pgislet.Web.Boundary.{Request, Library}
use pgislet.Web.Handlers.{Calls}
use pgislet.Web.Serve.{serve}
use pgislet.Web.Serve.Moves.{Sticks, closed-keeps}

-- In a well-formed registry, a request leaves the row, the content of the schema and the role of an
-- islet as they are, unless its cookie names a session of that islet: whatever it is, and whatever its
-- calls meet, as long as a transaction stays aborted whose ROLLBACK TO has failed.
pub serve-Untouched :
    (lib : Library) (p : Parser) (m : Manager) (c : Calls) (q : Request) (j : String) (r : Row)
    (w : World)
    → Sticks c
    → WellFormed w.db
    → lookup j w.db.islets ≡ some r
    → ((key : String) (item : Session)
        → q.cookie ≡ some key
        → lookup key w.server.sessions ≡ some item
        → (item.id == j) ≡ false)
    → Untouched j r w.db (serve lib p m c q w).1.db
serve-Untouched lib p m c q j r w sticks fine there stranger =
    let start : Alone j r w.db w.db = record {
      fine = fine;
      there = there;
      same = record { row = refl; schema = refl; role = refl };
    } in
    (closed-keeps _ (Alone j r w.db) (Alone-Closed j r w.db) p m c sticks lib q w stranger
      start).same
