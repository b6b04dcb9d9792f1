-- ===== src/Engine/Exec/Meets.antt =====
-- Postconditions of transactions, one rule for each way to build one.
use pgislet.Base.{Bool, true, false, ◌≡◌, refl, Option, none, some}
use pgislet.Errors.{Err, Result, ok, err}
use pgislet.Engine.Types.{Db}
use pgislet.Engine.Exec.{
  Env, Call, Tx, Exec, continue, ◌>>=◌, outcome, answered, call, change, rescue, on_error, raise,
  raise_if, query_work, commit, commit_error, ended, settle, transaction, lift, pure,
}

abbrev pub Post : Type 0 → Type 1
Post A = Result A → Tx → Type 0

-- `m`, run on `t`, ends with a result and a state of `Q`.
pub record Meets {A : Type 0} (Q : Post A) (m : Exec A) (t : Tx) : Type 0 where
  pub at : Q (m t).0 (m t).1

-- What a first part must meet so that the whole meets `Q`.
abbrev pub Then : {A B : Type 0} → Post B → (A → Exec B) → Post A
Then Q f (ok a) t = Meets Q (f a) t
Then Q f (err e) t = Q (err e) t

abbrev pub Else : {A : Type 0} → Post A → (Err → Exec A) → Post A
Else Q g (ok a) t = Q (ok a) t
Else Q g (err e) t = Meets Q (g e) t

module _ {A : Type 0} (Q : Post A) where
  pub Meets-pure : (a : A) (t : Tx) → Q (ok a) t → Meets Q (pure a) t
  Meets-pure a t h = record { at = h }

  pub Meets-raise : (e : Err) (t : Tx) → Q (err e) t → Meets Q (raise e) t
  Meets-raise e t h = record { at = h }

  continue_rule :
      {B : Type 0} (r : Result B) (f : B → Exec A) (t : Tx)
      → Then Q f r t
      → Q (continue r f t).0 (continue r f t).1
  continue_rule (ok b) f t h = h.at
  continue_rule (err e) f t h = h

  pub Meets-bind :
      {B : Type 0} (m : Exec B) (f : B → Exec A) (t : Tx)
      → Meets (Then Q f) m t
      → Meets Q (m >>= f) t
  unfolding ◌>>=◌
  Meets-bind m f t h = record { at = continue_rule (m t).0 f (m t).1 h.at }

  rescue_rule :
      (r : Result A) (g : Err → Exec A) (t : Tx)
      → Else Q g r t
      → Q (rescue r g t).0 (rescue r g t).1
  rescue_rule (ok b) g t h = h
  rescue_rule (err e) g t h = h.at

  pub Meets-on_error :
      (g : Err → Exec A) (m : Exec A) (t : Tx) → Meets (Else Q g) m t → Meets Q (on_error g m) t
  unfolding on_error
  Meets-on_error g m t h = record { at = rescue_rule (m t).0 g (m t).1 h.at }

  outcome_rule :
      (fault : Option Err) (f : Db → Result (A × Db)) (t : Tx)
      → ((e : Err) → fault ≡ some e → Q (err e) t)
      → ((e : Err) → fault ≡ none → f t.work ≡ err e → Q (err e) t)
      → ((a : A) (w : Db) → fault ≡ none → f t.work ≡ ok (a, w) → Q (ok a) (record t { work = w }))
      → Q (outcome fault f t).0 (outcome fault f t).1
  outcome_rule (some e) f t hf hs ho = hf e refl
  outcome_rule none f t hf hs ho =
      elim (f t.work) as (λ r. f t.work ≡ r → Q (answered r t).0 (answered r t).1) [
        | err e ↦ λ q. hs e refl q
        | ok (a, w) ↦ λ q. ho a w refl q
      ]
        refl

  pub Meets-call :
      (env : Env) (c : Call) (f : Db → Result (A × Db)) (t : Tx)
      → ((e : Err) → env.fault c ≡ some e → Q (err e) t)
      → ((e : Err) → env.fault c ≡ none → f t.work ≡ err e → Q (err e) t)
      → ((a : A) (w : Db)
          → env.fault c ≡ none
          → f t.work ≡ ok (a, w)
          → Q (ok a) (record t { work = w }))
      → Meets Q (call env c f) t
  unfolding call
  Meets-call env c f t hf hs ho = record { at = outcome_rule (env.fault c) f t hf hs ho }

  result_rule :
      (r : Result A) (t : Tx)
      → ((e : Err) → r ≡ err e → Q (err e) t)
      → ((a : A) → r ≡ ok a → Q (ok a) t)
      → Q r t
  result_rule (ok a) t he ho = ho a refl
  result_rule (err e) t he ho = he e refl

  pub Meets-query :
      (q : Db → Result A) (t : Tx)
      → ((e : Err) → q t.work ≡ err e → Q (err e) t)
      → ((a : A) → q t.work ≡ ok a → Q (ok a) t)
      → Meets Q (query_work q) t
  Meets-query q t he ho = record { at = result_rule (q t.work) t he ho }

  pub Meets-lift :
      (r : Result A) (t : Tx)
      → ((e : Err) → r ≡ err e → Q (err e) t)
      → ((a : A) → r ≡ ok a → Q (ok a) t)
      → Meets Q (lift r) t
  Meets-lift r t he ho = record { at = result_rule r t he ho }

pub Meets-raise_if :
    (Q : Post (Unit {0})) (b : Bool) (e : Err) (t : Tx)
    → (b ≡ true → Q (err e) t)
    → (b ≡ false → Q (ok tt) t)
    → Meets Q (raise_if b e) t
Meets-raise_if Q true e t h k = record { at = h refl }
Meets-raise_if Q false e t h k = record { at = k refl }

change_rule :
    (Q : Post (Unit {0})) (fault : Option Err) (f : Db → Db) (t : Tx)
    → ((e : Err) → fault ≡ some e → Q (err e) t)
    → (fault ≡ none → Q (ok tt) (record t { work = f t.work }))
    → Q (outcome {0} fault (λ w. ok (tt, f w)) t).0 (outcome {0} fault (λ w. ok (tt, f w)) t).1
change_rule Q none f t hf ho = ho refl
change_rule Q (some e) f t hf ho = hf e refl

-- A call with an effect alone.
pub Meets-change :
    (Q : Post (Unit {0})) (env : Env) (c : Call) (f : Db → Db) (t : Tx)
    → ((e : Err) → env.fault c ≡ some e → Q (err e) t)
    → (env.fault c ≡ none → Q (ok tt) (record t { work = f t.work }))
    → Meets Q (change env c f) t
unfolding call
Meets-change Q env c f t hf ho = record { at = change_rule Q (env.fault c) f t hf ho }

ended_rule :
    (Q : Post (Option Err)) (o : Option Err) (b : Bool) (t : Tx)
    → (o ≡ none → Q (ok none) (record t { stored = t.work }))
    → ((e : Err)
        → o ≡ some e
        → b ≡ true
        → Q (ok (some (commit_error e))) (record t { stored = t.work }))
    → ((e : Err) → o ≡ some e → b ≡ false → Q (ok (some (commit_error e))) t)
    → Q (ended o b t).0 (ended o b t).1
ended_rule Q none b t done late lost = done refl
ended_rule Q (some e) true t done late lost = late e refl refl
ended_rule Q (some e) false t done late lost = lost e refl refl

-- The three ways in which a commit ends.
pub Meets-commit :
    (Q : Post (Option Err)) (env : Env) (t : Tx)
    → (env.at_commit ≡ none → Q (ok none) (record t { stored = t.work }))
    → ((e : Err)
        → env.at_commit ≡ some e
        → env.applied ≡ true
        → Q (ok (some (commit_error e))) (record t { stored = t.work }))
    → ((e : Err) → env.at_commit ≡ some e → env.applied ≡ false → Q (ok (some (commit_error e))) t)
    → Meets Q (commit env) t
unfolding commit
Meets-commit Q env t done late lost = record {
  at = ended_rule Q env.at_commit env.applied t done late lost;
}

-- What holds of a transaction as a whole.
pub Meets-transaction :
    {A : Type 0} (P : A × Option Err → Db → Type 0) (zero : A) (m : Exec (A × Option Err)) (db : Db)
    → Meets (λ r t. P (settle zero r) t.stored) m (record { stored = db; work = db })
    → P (transaction zero m db).0 (transaction zero m db).1
Meets-transaction P zero m db h = h.at
