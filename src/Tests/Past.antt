-- ===== src/Tests/Past.antt =====
-- The theorems on the workspaces of internal/engine along concrete transactions.
use pgislet.Base.{refl, inl, true, false, [], ◌∷◌, arith}
use pgislet.Base.Dict.{lookup, insert, erase}
use pgislet.Engine.Types.{Islet, Metadata, Db, active}
use pgislet.Engine.Exec.{◌>>=◌, on_error, call, commit}
use pgislet.Engine.Cleanup.{check_dependencies}
use pgislet.Engine.Lifecycle.{create, reset, advance_and_commit}
use pgislet.Engine.Registry.{WellFormed}
use pgislet.Engine.Registry.Reach.{
  bootstrapped, and_then, by_create, by_reset, Reachable-WellFormed,
}
use pgislet.Engine.Workspaces.Spec.{Moves}
use pgislet.Engine.Workspaces.View.{view}
use pgislet.Engine.Workspaces.Refines.{command, Step-Moves}
use pgislet.Engine.Workspaces.Stale.{IsPast, HasNoEffect, past_forever}
use pgislet.Engine.Workspaces.Lasting
use pgislet.Engine.Workspaces.Lasting.{History, here}
use pgislet.Tests.{parser}
use pgislet.Tests.Islets.{calm, manager}
use pgislet.Tests.History.{empty, created_once, recovered}

pub created_once-WellFormed : WellFormed created_once
created_once-WellFormed =
    Reachable-WellFormed created_once (and_then bootstrapped (by_create calm true))

recovered-WellFormed : WellFormed recovered
recovered-WellFormed =
    Reachable-WellFormed recovered (
      and_then (and_then bootstrapped (by_create calm true))
        (by_reset calm _ false true (inl refl)))

abbrev pub old : Islet
old = (create calm true empty).0.0

Step-Moves_example :
    Moves
      (view created_once)
      (view recovered)
      (command {db = created_once} {db' = recovered} (by_reset calm old false true (inl refl)))
Step-Moves_example =
    Step-Moves created_once recovered (by_reset calm old false true (inl refl))
      created_once-WellFormed tt

-- The old handle is of generation 1, the islet of generation 2, and then of generation 3.
abbrev next : Islet
next = record old { generation = 2; state = active }

abbrev reset_again : Db
reset_again = (reset calm next false false recovered).1

recovered-IsPast : IsPast old.generation (view recovered old.id)
unfolding create reset ◌>>=◌ on_error call lookup check_dependencies erase advance_and_commit commit
    insert
recovered-IsPast = omega arith

later : History old.id recovered reset_again
later = Lasting.and_then here (by_reset calm next false false (inl refl)) tt tt

abbrev old_metadata : Metadata
old_metadata = record {
  islet = old;
  schema = "pgislet_i_0f";
  role = "pgislet_r_0f";
  password = "0f";
  token = "";
}

past_forever_example :
    HasNoEffect parser manager calm old old_metadata ("lower" ∷ []) false false true reset_again
past_forever_example =
    past_forever parser manager calm old old_metadata ("lower" ∷ []) false false true recovered
      reset_again recovered-WellFormed recovered-IsPast later refl refl (inl refl)
