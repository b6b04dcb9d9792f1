-- ===== src/Web/Removal/Steps.antt =====
-- `remove` of examples/web/sessions.go step by step: each call of the manager is one step.
use pgislet.Base.{
  ℕ, zero, suc, String, true, false, ◌≡◌, refl, sym, Option, none, some, inl, inr, Bool-cases, ap,
  if◌then◌else◌,
}
use mathlib.Core.Path.{subst}
use pgislet.Errors.{Err, Result, ok, err, is, not_found}
use pgislet.Engine.Types.{Islet, Db, to_metadata, is_initializing}
use pgislet.Engine.Lifecycle.{reset, delete}
use pgislet.Engine.Lifecycle.Reset.{reset-ResetOutcome}
use pgislet.Engine.Initialize.{open_islet}
use pgislet.Engine.Registry.Closed.{Closed, reset-id, open_islet-found}
use pgislet.Engine.Lifecycle.Early.{StaysAborted}
use pgislet.Web.Removal.{World, Removal, remove, remove_opened, and_delete}

-- The call of a removal that is next, or what it has returned.
pub data Removing : Type 0 where
  finding : String → Removing
  recovering : Islet → Removing
  deleting : Islet → Removing
  removed : Option Err → Removing

module _ (f : Removal) where
  abbrev pub found_islet : Result Islet → Removing
  found_islet (err e) = if is e not_found then removed none else removed (some e)
  found_islet (ok h) = if is_initializing h.state then recovering h else deleting h

  abbrev pub recovered : Islet × Option Err → Removing
  recovered (h, some e) = removed (some e)
  recovered (h, none) = deleting h

  unfoldable pub removal_step : Removing → Db → Removing × Db
  removal_step (finding id) db = (found_islet (open_islet f.opened id db), db)
  removal_step (recovering h) db =
      let (r, db') = reset f.recovering h false true db in (recovered r, db')
  removal_step (deleting h) db = let (r, db') = delete f.deleting h db in (removed r.1, db')
  removal_step (removed o) db = (removed o, db)

  -- What is left of `remove`, at once.
  abbrev pub rest_of : Removing → Db → Option Err × Db
  rest_of (finding id) db = remove f id db
  rest_of (recovering h) db = and_delete f (reset f.recovering h false true db)
  rest_of (deleting h) db = and_delete f ((h, none), db)
  rest_of (removed o) db = (o, db)

  found_islet-rest_of :
      (o : Result Islet) (db : Db) → rest_of (found_islet o) db ≡ remove_opened f db o
  found_islet-rest_of (err e) db = elim (Bool-cases (is e not_found)) [
    | inl s ↦ rw s refl
    | inr s ↦ rw s refl
  ]
  found_islet-rest_of (ok h) db = elim (Bool-cases (is_initializing h.state)) [
    | inl s ↦ rw s refl
    | inr s ↦ rw s refl
  ]

  recovered-rest_of :
      (r : Islet × Option Err) (db : Db) → rest_of (recovered r) db ≡ and_delete f (r, db)
  recovered-rest_of (h, some e) db = refl
  recovered-rest_of (h, none) db = refl

  -- A step takes from what is left what it does.
  pub step-rest_of :
      (r : Removing) (db : Db) → rest_of (removal_step r db).0 (removal_step r db).1 ≡ rest_of r db
  unfolding removal_step remove
  step-rest_of (finding id) db = found_islet-rest_of (open_islet f.opened id db) db
  step-rest_of (recovering h) db = recovered-rest_of _ _
  step-rest_of (deleting h) db = refl
  step-rest_of (removed o) db = refl

-- A goroutine behind a step of its removal.
abbrev pub proceed : {A : Type 0} → (Option Err → A) → (Removing → A) → Removing → A
proceed next again (removed o) = next o
proceed next again (finding id) = again (finding id)
proceed next again (recovering h) = again (recovering h)
proceed next again (deleting h) = again (deleting h)

-- That many steps of a goroutine.
unfoldable pub iterate : {S : Type 0} → (S → World → S × World) → ℕ → S → World → S × World
iterate one zero s w = (s, w)
iterate one (suc n) s w = let (s', w') = one s w in iterate one n s' w'

-- The islet that the removal has in hand, if any, is `Own`.
abbrev pub RemovingOwn : (String → Type 0) → Removing → Type 0
RemovingOwn Own (finding id) = Own id
RemovingOwn Own (recovering h) = Own h.id
RemovingOwn Own (deleting h) = Own h.id
RemovingOwn Own (removed o) = Unit

module _ (Own : String → Type 0) (R : Db → Type 0) (closed : Closed Own R) (f : Removal)
    (sticks_recovering : StaysAborted f.recovering)
    (sticks_deleting : StaysAborted f.deleting) where
  found_islet-own :
      (id : String) (db : Db) (o : Result Islet)
      → open_islet f.opened id db ≡ o
      → Own id
      → RemovingOwn Own (found_islet f o)
  unfolding to_metadata
  found_islet-own id db (err e) same own = elim (Bool-cases (is e not_found)) [
    | inl s ↦ rw s tt
    | inr s ↦ rw s tt
  ]
  found_islet-own id db (ok h) same own =
      let (row, there, islet) = open_islet-found id f.opened db h same in
      let named : Own h.id = subst Own (sym (ap (λ (x : Islet). x.id) islet)) own in
      elim (Bool-cases (is_initializing h.state)) [ inl s ↦ rw s named | inr s ↦ rw s named ]

  recovered-own :
      (r : Islet × Option Err) → (r.1 ≡ none → Own r.0.id) → RemovingOwn Own (recovered f r)
  recovered-own (h, some e) own = tt
  recovered-own (h, none) own = own refl

  pub removal_step-keeps :
      (r : Removing) (db : Db)
      → RemovingOwn Own r
      → R db
      → R (removal_step f r db).1 × RemovingOwn Own (removal_step f r db).0
  unfolding removal_step
  removal_step-keeps (finding id) db own stored =
      (stored, found_islet-own id db (open_islet f.opened id db) refl own)
  removal_step-keeps (recovering h) db own stored = (
    closed.by_reset f.recovering h false true db sticks_recovering own stored,
    recovered-own _ (λ fine.
        subst Own
          (sym (reset-id (reset-ResetOutcome f.recovering h false true db sticks_recovering) fine))
          own),
  )
  removal_step-keeps (deleting h) db own stored =
      (closed.by_delete f.deleting h db sticks_deleting own stored, tt)
  removal_step-keeps (removed o) db own stored = (stored, tt)
