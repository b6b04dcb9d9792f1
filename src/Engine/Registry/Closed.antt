-- ===== src/Engine/Registry/Closed.antt =====
-- Predicates on the database of internal/engine that the transactions for some islets keep, and the
-- operations that are sequences of them.
use pgislet.Base.{
  ◌⊎◌, ℕ, String, List, Bool, true, false, ◌≡◌, refl, sym, ◌∙◌, Option, none, some, inl, inr,
  Bool-cases, eqb, not, ap, ◌==◌,
}
use mathlib.Core.Path.{subst}
use pgislet.Base.Dict.{lookup}
use pgislet.Errors.{Err, Result, ok, err, Result-cases}
use pgislet.Policy.Check.{Parser}
use pgislet.Engine.Types.{Islet, Metadata, Row, Db, to_metadata, active}
use pgislet.Engine.Exec.{Env, mark_failed, reopen, select_row}
use pgislet.Engine.Lifecycle.{create, reset, delete}
use pgislet.Engine.Lifecycle.Early.{StaysAborted, metadata_found}
use pgislet.Engine.Lifecycle.Reset.{ResetOutcome, early, rebuilt, reset-ResetOutcome}
use pgislet.Engine.Gateway.{lookup_islet, read_metadata}
use pgislet.Engine.Execute.{Manager, check_size, execute, batch, after_lookup}
use pgislet.Engine.Initialize.{
  initialize, run_for, abandon, after_statements, updated, and_initialize,
  create_with_initialization, reinitialize, open_islet, mark_unfinished, current_or,
}

-- Each transaction for an islet that is `Own` keeps `R`, and a creation gives one that is.
pub record Closed (Own : String → Type 0) (R : Db → Type 0) : Type 0 where
  pub by_create : (env : Env) (initialize : Bool) (db : Db) → R db → R (create env initialize db).1
  pub own :
      (env : Env) (initialize : Bool) (db : Db)
      → R db
      → ((create env initialize db).0.1 ≡ none)
        ⊎ (((create env initialize db).0.0.id == "") ≡ false)
      → Own (create env initialize db).0.0.id
  pub by_reset :
      (env : Env) (h : Islet) (initialize recovering : Bool) (db : Db)
      → StaysAborted env
      → Own h.id
      → R db
      → R (reset env h initialize recovering db).1
  pub by_delete :
      (env : Env) (h : Islet) (db : Db) → StaysAborted env → Own h.id → R db → R (delete env h db).1
  pub by_execute :
      (p : Parser) (m : Manager) (env : Env) (id : String) (r : Row) (statements : List String)
      (initializing : Bool) (db : Db)
      → Own id
      → lookup id db.islets ≡ some r
      → R db
      → R (execute p m env (to_metadata id r) statements initializing db).1
  pub by_mark : (now : ℕ) (h : Islet) (db : Db) → Own h.id → R db → R (mark_unfinished now h db)

-- `Open` answers with the row of its islet.
pub open_islet-found :
    (id : String) (o : Option Err) (db : Db) (h : Islet)
    → open_islet o id db ≡ ok h
    → (r : Row) × (lookup id db.islets ≡ some r) × (h ≡ (to_metadata id r).islet)
unfolding open_islet
open_islet-found id o db h q = elim (Result-cases (read_metadata o id db)) [
  | inl (md, s) ↦
      (let (r, found, same) = metadata_found o id db md s in
        (r, found, cc (rw (s, open_islet) at q, ap (λ (x : Metadata). x.islet) same)))
  | inr (e, s) ↦ cc (rw (s, open_islet) at q)
]

-- A reset that returns no error gives a handle of the same islet.
pub reset-id :
    {env : Env} {h : Islet} {initialize recovering : Bool} {db db' : Db}
    {result : Islet × Option Err}
    → ResetOutcome env h initialize recovering db result db'
    → result.1 ≡ none
    → result.0.id ≡ h.id
unfolding to_metadata
reset-id (early e r a) fine = cc (ap (λ (x : Islet × Option Err). x.1) r, fine)
reset-id (rebuilt r token found g i d res how) fine = rw res refl

module _ (Own : String → Type 0) (R : Db → Type 0) (closed : Closed Own R) (p : Parser)
    (m : Manager) (env : Env) where
  after_lookup-keeps :
      (h : Islet) (ss : List String) (db : Db) (o : Result Metadata)
      → lookup_islet env h.id db ≡ o
      → Own h.id
      → R db
      → R (after_lookup p m env h ss db o).1
  unfolding lookup_islet
  after_lookup-keeps h ss db (err e) o own r = r
  after_lookup-keeps h ss db (ok md) o own r =
      elim (Bool-cases (not (eqb md.generation h.generation))) [
        | inl s ↦ rw s r
        | inr s ↦
            (let (row, found, same) = metadata_found (env.fault select_row) h.id db md o in
              rw (s, same) (closed.by_execute p m env h.id row ss false db own found r))
      ]

  pub batch-keeps :
      (h : Islet) (ss : List String) (db : Db) → Own h.id → R db → R (batch p m env h ss db).1
  unfolding batch
  batch-keeps h ss db own r = elim (Result-cases (check_size m.config ss)) [
    | inr (e, q) ↦ rw q r
    | inl (_, q) ↦ rw q (after_lookup-keeps h ss db (lookup_islet env h.id db) refl own r)
  ]

  updated-keeps :
      (o : Option Err) (h : Islet) (db : Db) → Own h.id → R db → R (updated o env.now h db)
  updated-keeps none h db own r = closed.by_mark env.now h db own r
  updated-keeps (some e) h db own r = r

  abandon-keeps : (h : Islet) (e : Err) (db : Db) → Own h.id → R db → R (abandon env h e db).1
  unfolding abandon
  abandon-keeps h e db own r = updated-keeps (env.fault mark_failed) h db own r

  after_statements-keeps :
      (h : Islet) (o : Option Err) (db : Db) → Own h.id → R db → R (after_statements env h o db).1
  after_statements-keeps h none db own r = r
  after_statements-keeps h (some e) db own r = abandon-keeps h e db own r

  run_for-keeps :
      (h : Islet) (ss : List String) (db : Db) (o : Result Metadata)
      → lookup_islet env h.id db ≡ o
      → Own h.id
      → R db
      → R (run_for p m env h ss db o).1
  unfolding lookup_islet
  run_for-keeps h ss db (err e) o own r = abandon-keeps h e db own r
  run_for-keeps h ss db (ok md) o own r = elim (Bool-cases (not (eqb md.generation h.generation))) [
    | inl s ↦ rw s (abandon-keeps h _ db own r)
    | inr s ↦
        (let (row, found, same) = metadata_found (env.fault select_row) h.id db md o in
          let ran : R (execute p m env md ss true db).1 =
            rw same (closed.by_execute p m env h.id row ss true db own found r) in
          rw s (after_statements-keeps h (execute p m env md ss true db).0.1 _ own ran))
  ]

  initialize-keeps :
      (h : Islet) (ss : List String) (db : Db) → Own h.id → R db → R (initialize p m env h ss db).1
  unfolding initialize
  initialize-keeps h ss db own r = run_for-keeps h ss db (lookup_islet env h.id db) refl own r

  and_initialize-keeps :
      (ss : List String) (o : (Islet × Option Err) × Db)
      → (o.0.1 ≡ none → Own o.0.0.id)
      → R o.1
      → R (and_initialize p m env ss o).1
  and_initialize-keeps ss ((h, some e), w) own r = r
  and_initialize-keeps ss ((h, none), w) own r = initialize-keeps h ss w (own refl) r

  pub reinitialized-keeps :
      (first : Env) (h : Islet) (ss : List String) (db : Db)
      → StaysAborted first
      → Own h.id
      → R db
      → R (reinitialize p m first env ss h db).1
  unfolding reinitialize
  reinitialized-keeps first h ss db sticks own r = elim (Result-cases (check_size m.config ss)) [
    | inr (e, q) ↦ rw (reinitialize, q) r
    | inl (_, q) ↦
        rw (reinitialize, q)
          (and_initialize-keeps ss (reset first h true false db)
            (λ fine.
              subst Own (sym (reset-id (reset-ResetOutcome first h true false db sticks) fine)) own)
            (closed.by_reset first h true false db sticks own r))
  ]

  pub created-keeps :
      (first : Env) (ss : List String) (db : Db)
      → R db
      → R (create_with_initialization p m first env ss db).1
  unfolding create_with_initialization
  created-keeps first ss db r = elim (Result-cases (check_size m.config ss)) [
    | inr (e, q) ↦ rw (create_with_initialization, q) r
    | inl (_, q) ↦
        rw (create_with_initialization, q)
          (and_initialize-keeps ss (create first true db)
            (λ fine. closed.own first true db r (inl fine)) (closed.by_create first true db r))
  ]

  current_or-id :
      (h : Islet) (o : Option Err) (db : Db) → (current_or h (open_islet o h.id db)).id ≡ h.id
  unfolding to_metadata
  current_or-id h o db = elim (Result-cases (open_islet o h.id db)) [
    | inl (g, q) ↦
        (let (row, found, same) = open_islet-found h.id o db g q in
          ap (λ r. (current_or h r).id) q ∙ ap (λ (x : Islet). x.id) same)
    | inr (e, q) ↦ ap (λ r. (current_or h r).id) q
  ]

  after_statements-id :
      (h : Islet) (o : Option Err) (db : Db) → (after_statements env h o db).0.0.id ≡ h.id
  unfolding abandon
  after_statements-id h none db = current_or-id (record h { state = active }) (env.fault reopen) db
  after_statements-id h (some e) db = current_or-id h (env.fault reopen) _

  run_for-id :
      (h : Islet) (ss : List String) (db : Db) (o : Result Metadata)
      → (run_for p m env h ss db o).0.0.id ≡ h.id
  unfolding abandon
  run_for-id h ss db (err e) = current_or-id h (env.fault reopen) _
  run_for-id h ss db (ok md) = elim (Bool-cases (not (eqb md.generation h.generation))) [
    | inl s ↦ rw s (current_or-id h (env.fault reopen) _)
    | inr s ↦ rw s (after_statements-id h (execute p m env md ss true db).0.1 _)
  ]

  and_initialize-own :
      (ss : List String) (o : (Islet × Option Err) × Db)
      → ((o.0.1 ≡ none) ⊎ ((o.0.0.id == "") ≡ false) → Own o.0.0.id)
      → ((and_initialize p m env ss o).0.1 ≡ none)
        ⊎ (((and_initialize p m env ss o).0.0.id == "") ≡ false)
      → Own (and_initialize p m env ss o).0.0.id
  unfolding initialize
  and_initialize-own ss ((h, some e), w) own (inl fine) = cc
  and_initialize-own ss ((h, some e), w) own (inr named) = own (inr named)
  and_initialize-own ss ((h, none), w) own why =
      subst Own (sym (run_for-id h ss w (lookup_islet env h.id w))) (own (inl refl))

  -- The handle of a creation that returned no error, or a handle beside one.
  pub created-own :
      (first : Env) (ss : List String) (db : Db)
      → R db
      → ((create_with_initialization p m first env ss db).0.1 ≡ none)
        ⊎ (((create_with_initialization p m first env ss db).0.0.id == "") ≡ false)
      → Own (create_with_initialization p m first env ss db).0.0.id
  unfolding create_with_initialization
  created-own first ss db r why = elim (Result-cases (check_size m.config ss)) [
    | inr (e, q) ↦ elim why [
      | inl fine ↦ cc (rw (create_with_initialization, q) at fine)
      | inr named ↦ cc (rw (create_with_initialization, q) at named)
    ]
    | inl (_, q) ↦
        rw (create_with_initialization, q)
          (and_initialize-own ss (create first true db) (closed.own first true db r)
            (rw (create_with_initialization, q) at why))
  ]
