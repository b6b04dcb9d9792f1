-- ===== src/Web/Removal/Calls.antt =====
-- The calls of `remove` of examples/web/sessions.go in a goroutine that runs alone.
use pgislet.Base.{
  ℕ, suc, ◌≤◌, arith, String, ◌≡◌, ◌∙◌, Option, none, some, inl, inr, Bool-cases, ap,
}
use pgislet.Errors.{Err, Result, ok, err, is, not_found}
use pgislet.Engine.Types.{Islet, Db, is_initializing}
use pgislet.Engine.Initialize.{open_islet}
use pgislet.Web.Sessions.{Server}
use pgislet.Web.Removal.{World, Removal, remove}
use pgislet.Web.Removal.Steps.{
  Removing, finding, recovering, deleting, found_islet, recovered, removal_step, proceed, rest_of,
  step-rest_of, iterate,
}

-- A goroutine that goes on to `next` behind its removal, and with `bound` more steps ends in `end` with
-- the result of it.
module _ {S : Type 0} (one : S → World → S × World) (f : Removal) (next : Option Err → S)
    (again : Removing → S) (bound : ℕ) (end : Server → Option Err × Db → S × World)
    (again-eq : (r : Removing) (w : World)
      → one (again r) w
        ≡ (let (r', db) = removal_step f r w.db in (proceed next again r', record w { db = db })))
    (ends : (n : ℕ) (o : Option Err) (w : World)
      → bound ≤ n
      → iterate one (suc n) (next o) w ≡ end w.server (o, w.db)) where
  abbrev removing_one : Removing → World → S × World
  removing_one r w =
      let (r', db) = removal_step f r w.db in (proceed next again r', record w { db = db })

  abbrev left : Removing → World → S × World
  left r w = end w.server (rest_of f r w.db)

  steps_again :
      (n : ℕ) (r : Removing) (w : World)
      → iterate one (suc n) (again r) w ≡ (let (s, w') = removing_one r w in iterate one n s w')
  unfolding iterate
  steps_again n r w = ap (λ (x : S × World). iterate one n x.0 x.1) (again-eq r w)

  deleted :
      (n : ℕ) (h : Islet) (w : World)
      → bound ≤ n
      → iterate one (suc (suc n)) (again (deleting h)) w ≡ left (deleting h) w
  unfolding removal_step
  deleted n h w enough = steps_again (suc n) (deleting h) w ∙ ends n _ _ enough

  was_recovered :
      (n : ℕ) (r : Islet × Option Err) (w : World)
      → bound ≤ n
      → iterate one (suc (suc n)) (proceed next again (recovered f r)) w ≡ left (recovered f r) w
  was_recovered n (h, some e) w enough = ends (suc n) (some e) w (omega arith)
  was_recovered n (h, none) w enough = deleted n h w enough

  was_recovering :
      (n : ℕ) (h : Islet) (w : World)
      → bound ≤ n
      → iterate one (suc (suc (suc n))) (again (recovering h)) w ≡ left (recovering h) w
  unfolding removal_step
  was_recovering n h w enough =
      steps_again (suc (suc n)) (recovering h) w
      ∙ was_recovered n _ _ enough
      ∙ ap (end w.server) (step-rest_of f (recovering h) w.db)

  was_found :
      (n : ℕ) (o : Result Islet) (w : World)
      → bound ≤ n
      → iterate one (suc (suc (suc n))) (proceed next again (found_islet f o)) w
        ≡ left (found_islet f o) w
  was_found n (err e) w enough = elim (Bool-cases (is e not_found)) [
    | inl s ↦ rw s (ends (suc (suc n)) none w (omega arith))
    | inr s ↦ rw s (ends (suc (suc n)) (some e) w (omega arith))
  ]
  was_found n (ok h) w enough = elim (Bool-cases (is_initializing h.state)) [
    | inl s ↦ rw s (was_recovering n h w enough)
    | inr s ↦ rw s (deleted (suc n) h w (omega arith))
  ]

  -- A removal takes at most three calls, and comes to what `remove` computes at once.
  pub steps_removing :
      (n : ℕ) (id : String) (w : World)
      → bound ≤ n
      → (let (s, w') = removing_one (finding id) w in iterate one (suc (suc (suc n))) s w')
        ≡ end w.server (remove f id w.db)
  unfolding removal_step
  steps_removing n id w enough =
      was_found n (open_islet f.opened id w.db) w enough
      ∙ ap (end w.server) (step-rest_of f (finding id) w.db)
