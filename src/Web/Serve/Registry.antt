-- ===== src/Web/Serve/Registry.antt =====
-- The requests of examples/web and the registry of internal/engine.
use pgislet.Policy.Check.{Parser}
use pgislet.Engine.Execute.{Manager}
use pgislet.Engine.Registry.{WellFormed}
use pgislet.Engine.Registry.Reach.{
  Reachable, and_then, by_create, by_reset, by_delete, by_execute, by_mark, Reachable-WellFormed,
}
use pgislet.Web.Removal.{World}
use pgislet.Web.Boundary.{Request, Library}
use pgislet.Web.Handlers.{Calls}
use pgislet.Web.Serve.{serve}
use pgislet.Engine.Types.{to_metadata}
use pgislet.Engine.Registry.Closed.{Closed}
use pgislet.Web.Serve.Moves.{Sticks, closed-keeps}

pub Reachable-Closed : Closed (λ _. Unit {0}) Reachable
Reachable-Closed = record {
  by_create = λ env initialize db r. and_then r (by_create env initialize);
  own = λ env initialize db r why. tt;
  by_reset = λ env h initialize recovering db sticks own r.
      and_then r (by_reset env h initialize recovering sticks);
  by_delete = λ env h db sticks own r. and_then r (by_delete env h sticks);
  by_execute = λ p m env id row ss initializing db own found r.
      and_then r (by_execute p m env (to_metadata id row) ss initializing);
  by_mark = λ now h db own r. and_then r (by_mark now h);
}

-- A request, whatever its calls meet as long as a transaction stays aborted whose ROLLBACK TO has
-- failed, takes the database to one that the transactions of the package
-- reach, so the registry stays well-formed: each row with its schema, its role and a generation above
-- zero.
pub serve-WellFormed :
    (lib : Library) (p : Parser) (m : Manager) (c : Calls) (r : Request) (w : World)
    → Sticks c
    → Reachable w.db
    → Reachable (serve lib p m c r w).1.db × WellFormed (serve lib p m c r w).1.db
serve-WellFormed lib p m c r w sticks reached =
    let after =
      closed-keeps _ Reachable Reachable-Closed p m c sticks lib r w (λ key item e l. tt) reached in
    (after, Reachable-WellFormed _ after)
