-- ===== src/Tests/Meanwhile.antt =====
-- The theorem on an initialization of internal/engine among other managers, where one of them recovers
-- the islet before its statements run.
use pgislet.Base.{ℕ, refl, inl, true, false, [], ◌∷◌, arith}
use pgislet.Base.Dict.{lookup, insert}
use pgislet.Engine.Types.{Db}
use pgislet.Engine.Exec.{◌>>=◌, on_error, call, commit}
use pgislet.Engine.Lifecycle.{create, reset}
use pgislet.Engine.Registry.Reach.{by_reset}
use pgislet.Engine.Workspaces.View.{view}
use pgislet.Engine.Workspaces.Lasting.{History, here, and_then}
use pgislet.Engine.Among.{initialize_among}
use pgislet.Engine.Among.Settled.{HasReached, IsSettled, initialize_among-IsSettled}
use pgislet.Tests.{parser}
use pgislet.Tests.Islets.{calm, manager}
use pgislet.Tests.History.{created_once}
use pgislet.Tests.Past.{old, created_once-WellFormed}

abbrev meanwhile : ℕ → Db → Db
meanwhile i w = (reset calm old false true w).1

meanwhile-History : (i : ℕ) (w : Db) → History old.id w (meanwhile i w)
meanwhile-History i w = and_then here (by_reset calm old false true (inl refl)) tt tt

old-HasReached : HasReached old.generation (view created_once old.id)
unfolding create ◌>>=◌ on_error call lookup commit insert
old-HasReached = omega arith

initialize_among-IsSettled_example :
    IsSettled old.generation (
      view
        (initialize_among calm old meanwhile parser manager ("lower" ∷ []) created_once).1
        old.id)
initialize_among-IsSettled_example =
    initialize_among-IsSettled calm old meanwhile refl meanwhile-History parser manager
      ("lower" ∷ []) created_once created_once-WellFormed old-HasReached
