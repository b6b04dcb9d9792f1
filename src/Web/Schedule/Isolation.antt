-- ===== src/Web/Schedule/Isolation.antt =====
-- The other islets, while the requests and the cleanups of examples/web interleave.
use pgislet.Base.{String, false, ◌≡◌, refl, some, List, [], ◌==◌}
use pgislet.Base.Dict.{lookup}
use pgislet.Policy.Check.{Parser}
use pgislet.Engine.Types.{Row}
use pgislet.Engine.Execute.{Manager}
use pgislet.Engine.Registry.{WellFormed}
use pgislet.Engine.Registry.Isolation.{Untouched}
use pgislet.Engine.Registry.Alone.{Alone, Alone-Closed}
use pgislet.Web.Sessions.Owned.{AllOwn}
use pgislet.Web.Removal.{World}
use pgislet.Web.Boundary.{Library}
use pgislet.Web.Schedule.{Move, play}
use pgislet.Web.Schedule.Held.{StickMoves, play-keeps}

-- However the requests that arrive and the cleanups interleave, section by section and call by call,
-- and whatever their calls meet as long as a transaction stays aborted whose ROLLBACK TO has failed:
-- over a well-formed registry, an islet of which the server has no session when nothing runs yet has its
-- row, the content of its schema and its role as they were, and the registry stays well-formed.
pub play-Untouched :
    (lib : Library) (p : Parser) (m : Manager) (moves : List Move) (w : World) (j : String)
    (r : Row)
    → StickMoves moves
    → WellFormed w.db
    → lookup j w.db.islets ≡ some r
    → AllOwn (λ id. (id == j) ≡ false) w.server.sessions
    → Untouched j r w.db (play lib p m moves (record { tasks = []; world = w })).world.db
      × WellFormed (play lib p m moves (record { tasks = []; world = w })).world.db
play-Untouched lib p m moves w j r sticks fine there strangers =
    let start : Alone j r w.db w.db = record {
      fine = fine;
      there = there;
      same = record { row = refl; schema = refl; role = refl };
    } in
    let held =
      play-keeps _ (Alone j r w.db) (Alone-Closed j r w.db) lib p m moves
        (record { tasks = []; world = w }) sticks tt
        (record { stored = start; owned = strangers }) in
    (held.stored.same, held.stored.fine)
