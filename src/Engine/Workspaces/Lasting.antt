-- ===== src/Engine/Workspaces/Lasting.antt =====
-- What lasts of a workspace while any managers run transactions of internal/engine.
use pgislet.Base.{◌<◌, String, ◌≡◌, ◌≢◌, refl, sym, ap, ◌∙◌, inl, inr, Option, none, some, arith}
use pgislet.Errors.{ok}
use pgislet.Engine.Types.{initializing, Db}
use pgislet.Engine.Registry.{WellFormed, key_cases}
use pgislet.Engine.Registry.Reach.{Step, Step-WellFormed}
use pgislet.Engine.Workspaces.Spec.{
  Workspace, Workspaces, Command, creating, resetting, deleting, executing, abandoning, Only, Moves,
  stays, creates, resets, fails_to_reset, deletes, fails_to_delete, executes, abandons,
}
use pgislet.Engine.Workspaces.View.{view}
use pgislet.Engine.Workspaces.Refines.{command, IsRead, Step-Moves}

-- The command does not create a workspace of this name.
abbrev pub Avoids : String → Command → Type 0
Avoids id (creating drawn initialize) = drawn ≢ ok id
Avoids id (resetting h initialize recovering) = Unit
Avoids id (deleting h) = Unit
Avoids id (executing name g ss first) = Unit
Avoids id (abandoning h) = Unit

-- Any number of transactions, by any managers, none of which creates an islet of this name.
pub data History (id : String) (db : Db) : Db → Type 0 where
  here : History id db db
  and_then :
      {db₁ db' : Db}
      → History id db db₁
      → (s : Step db₁ db') → IsRead s
      → Avoids id (command s)
      → History id db db'

-- It holds of a workspace that is gone, of a later generation, and of one that leaves the state
-- `initializing`.
pub record IsLasting (P : Option Workspace → Type 0) : Type 0 where
  pub gone : P none
  pub grown : (w new : Workspace) → w.generation < new.generation → P (some w) → P (some new)
  pub settled :
      (w new : Workspace)
      → new.generation ≡ w.generation
      → new.state ≢ initializing
      → P (some w)
      → P (some new)

module _ (P : Option Workspace → Type 0) (lasts : IsLasting P) (id : String) where
  Only-lasts :
      {k : String} {m m' : Workspaces} {w : Workspace} {new : Option Workspace}
      → Only k new m m'
      → m k ≡ some w
      → (P (some w) → P new)
      → P (m id)
      → P (m' id)
  Only-lasts {k} o there goes h = elim (key_cases k id) [
    | inl e ↦ rw (sym e, o.becomes) (goes (rw (sym e, there) at h))
    | inr other ↦ rw (o.others id other) h
  ]

  Moves-lasts :
      {m m' : Workspaces} {c : Command} → Moves m m' c → Avoids id c → P (m id) → P (m' id)
  Moves-lasts (stays same) avoids h = rw (same id) h
  Moves-lasts (creates k drawn free o) avoids h = elim (key_cases k id) [
    | inl e ↦ elim (avoids (drawn ∙ ap ok e)) [ ]
    | inr other ↦ rw (o.others id other) h
  ]
  Moves-lasts (resets w at idle o) avoids h = Only-lasts o at.0 (lasts.grown w _ (omega arith)) h
  Moves-lasts (fails_to_reset w at idle o) avoids h =
      Only-lasts o at.0 (lasts.settled w _ refl (λ e. cc)) h
  Moves-lasts (deletes w at idle o) avoids h = Only-lasts o at.0 (λ was. lasts.gone) h
  Moves-lasts (fails_to_delete w at idle o) avoids h =
      Only-lasts o at.0 (lasts.settled w _ refl (λ e. cc)) h
  Moves-lasts (executes w at may o) avoids h =
      Only-lasts o at.0 (lasts.settled w _ refl (λ e. cc)) h
  Moves-lasts (abandons w at waits o) avoids h =
      Only-lasts o at.0 (lasts.settled w _ refl (λ e. cc)) h

  -- What lasts of a workspace is there after any history that does not create its name again, in a
  -- registry that stays well-formed.
  pub History-lasts :
      (db : Db) {db' : Db}
      → WellFormed db
      → P (view db id)
      → History id db db'
      → WellFormed db' × P (view db' id)
  History-lasts db fine h here = (fine, h)
  History-lasts db fine h (and_then before s read avoids) =
      let (fine₁, h₁) = History-lasts db fine h before in
      (Step-WellFormed _ _ s fine₁, Moves-lasts (Step-Moves _ _ s fine₁ read) avoids h₁)
