-- ===== src/Engine/Initialize/Fence.antt =====
-- How `initialize` of internal/engine/lifecycle.go leaves the row that its caller has fenced off.
use pgislet.Base.{
  ℕ, String, Bool, true, false, not, ◌≡◌, ◌≢◌, refl, sym, ◌∙◌, ◌⊎◌, inl, inr, Option, none, some,
  List, eqb, arith, eq_refl, Bool-cases, Option-cases,
}
use pgislet.Base.Dict.{lookup, insert, lookup-insert}
use pgislet.Errors.{Err, Result, ok, err, is, is-wrap, initialization}
use pgislet.Policy.Check.{Parser}
use pgislet.Engine.Types.{Islet, Metadata, Row, Db, initializing, to_metadata}
use pgislet.Engine.Exec.{Env, select_row, mark_failed, reopen}
use pgislet.Engine.Gateway.{lookup_islet}
use pgislet.Engine.Cleanup.{mark}
use pgislet.Engine.Lifecycle.Early.{metadata_found, same_generation}
use pgislet.Engine.Execute.{Manager, Outcome, execute}
use pgislet.Engine.Execute.Whole.{ExecuteOutcome, execute-ExecuteOutcome}
use pgislet.Engine.Initialize.{
  is_fenced, mark_unfinished, updated, open_islet, error_of, abandon, after_statements, run_for,
  initialize,
}

-- The row of the handle is still initializing, at the handle's generation.
abbrev pub is_left : Islet → Db → Bool
is_left h w = elim (lookup h.id w.islets) [ none ↦ false | some r ↦ is_fenced h r ]

-- A row of the handle's generation waits for statements that initialize it.
abbrev pub IsLeft : Islet → Db → Type 0
IsLeft h w =
    (r : Row) × (lookup h.id w.islets ≡ some r)
    × (r.generation ≡ h.generation)
    × (r.state ≡ initializing)

pub data InitializeOutcome (p : Parser) (m : Manager) (env : Env) (h : Islet) (ss : List String)
    (db : Db) (result : Islet × Option Err) (db' : Db) : Type 0 where
  abandoned :
      (e : Err)
      → result.1 ≡ some e
      → is e initialization ≡ true
      → (env.fault mark_failed ≢ none) ⊎ ¬ IsLeft h db'
      → InitializeOutcome p m env h ss db result db'
  ready :
      (r : Row) (o : Outcome)
      → lookup h.id db.islets ≡ some r
      → r.generation ≡ h.generation
      → o.1 ≡ none
      → ExecuteOutcome p m env (to_metadata h.id r) ss true db o db'
      → result.1 ≡ error_of (open_islet (env.fault reopen) h.id db')
      → InitializeOutcome p m env h ss db result db'

pub is_left-eq :
    (h : Islet) (w : Db) (r : Row) → lookup h.id w.islets ≡ some r → is_left h w ≡ is_fenced h r
is_left-eq h w r s = rw (s, is_left)

unleft : (h : Islet) (w : Db) → is_left h w ≡ false → ¬ IsLeft h w
unleft h w n (r, s, g, i) = ground (arith, rw (s, is_left) at n, g, i)

marked_open : (h : Islet) (now : ℕ) (r : Row) → is_fenced h (mark now r) ≡ false
marked_open h now r = ground arith

marked_none :
    (now : ℕ) (h : Islet) (w : Db)
    → lookup h.id w.islets ≡ none
    → is_left h (mark_unfinished now h w) ≡ false
unfolding mark_unfinished
marked_none now h w n = rw (n, mark_unfinished, is_left) (rw n refl)

marked_some :
    (now : ℕ) (h : Islet) (w : Db) (r : Row)
    → lookup h.id w.islets ≡ some r
    → is_left h (mark_unfinished now h w) ≡ false
unfolding mark_unfinished
marked_some now h w r s = elim (Bool-cases (is_fenced h r)) [
  | inl fenced ↦
      rw (s, mark_unfinished, fenced)
        (is_left-eq h (record w { islets = insert h.id (mark now r) w.islets }) (mark now r)
            (rw (lookup-insert, eq_refl))
          ∙ marked_open h now r)
  | inr other ↦ rw (s, mark_unfinished, other) (is_left-eq h w r s ∙ other)
]

pub marked_ends : (now : ℕ) (h : Islet) (w : Db) → is_left h (mark_unfinished now h w) ≡ false
marked_ends now h w = elim (Option-cases (lookup h.id w.islets)) [
  | inl n ↦ marked_none now h w n
  | inr (r, s) ↦ marked_some now h w r s
]

updated_ends :
    (fault : Option Err) (now : ℕ) (h : Islet) (w : Db)
    → (fault ≢ none) ⊎ ¬ IsLeft h (updated fault now h w)
updated_ends none now h w = inr (unleft h (mark_unfinished now h w) (marked_ends now h w))
updated_ends (some e) now h w = inl (λ n. cc)

module _ (p : Parser) (m : Manager) (env : Env) (h : Islet) (ss : List String) (db : Db) where
  abbrev Ends : (Islet × Option Err) × Db → Type 0
  Ends o = InitializeOutcome p m env h ss db o.0 o.1

  abandon_rule : (e : Err) (w : Db) → Ends (abandon env h e w)
  unfolding abandon
  abandon_rule e w =
      abandoned _ refl (is-wrap initialization _) (updated_ends (env.fault mark_failed) env.now h w)

  executed_rule :
      (r : Row) (o : Outcome) (w : Db)
      → lookup h.id db.islets ≡ some r
      → r.generation ≡ h.generation
      → ExecuteOutcome p m env (to_metadata h.id r) ss true db o w
      → Ends (after_statements env h o.1 w)
  executed_rule r (results, some e) w found gen ran = abandon_rule e w
  executed_rule r (results, none) w found gen ran = ready r (results, none) found gen refl ran refl

  looked_up :
      (found : Result Metadata)
      → lookup_islet env h.id db ≡ found
      → Ends (run_for p m env h ss db found)
  unfolding lookup_islet
  looked_up (err e) q = abandon_rule e db
  looked_up (ok md) q = elim (Bool-cases (not (eqb md.generation h.generation))) [
    | inl stale ↦ rw stale (abandon_rule _ db)
    | inr fresh ↦
        (let (r, found, same) = metadata_found (env.fault select_row) h.id db md q in
          let run : ExecuteOutcome p m env (to_metadata h.id r) ss true db
              (execute p m env md ss true db).0 (execute p m env md ss true db).1 =
            rw (sym same) (execute-ExecuteOutcome p m env md ss true db) in
          rw fresh (executed_rule r _ _ found (same_generation h r md same fresh) run))
  ]

  -- An initialization either returns an error under the sentinel for initializations, and leaves no
  -- row of its islet initializing at its generation unless the update that marks it fails; or the
  -- handle is current, its statements ran as `execute` tells and activated the row, and the only error
  -- left is that of reading the row again.
  pub initialize-InitializeOutcome :
      InitializeOutcome p m env h ss db
        (initialize p m env h ss db).0
        (initialize p m env h ss db).1
  unfolding initialize
  initialize-InitializeOutcome = looked_up (lookup_islet env h.id db) refl
