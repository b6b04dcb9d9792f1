-- ===== src/Engine/Exec.antt =====
-- Statements in a transaction. What the driver and the server answer is the argument `Env`: it may
-- fail any call in any way. `stored` is the committed database, `work` what the open transaction
-- sees; the deferred rollback of the source forgets `work`.
pub mod Meets
use pgislet.Base.{ℕ, suc, String, Bool, true, false, Option, none, some, List, if◌then◌else◌}
use pgislet.Errors.{Kind, Err, Result, ok, err, outcome_unknown, wrap, classify, pgconn_error}
use pgislet.Engine.Types.{Db}

-- The calls of the driver in a transaction of the manager or in `initialize`, by place; each runs at
-- most once there.
pub data Call : Type 0 where
  begin_tx create_role create_schema grant_role insert_row : Call
  lock_row dependencies savepoint drop_schema rollback_to update_row fail_row : Call
  drop_objects delete_row : Call
  select_row connect enter_islet finish_islet : Call
  mark_failed reopen : Call

-- One answer to a query: column names with type identifiers, raw rows, and what the reading of the
-- rows ended with.
pub record Field : Type 0 where
  pub name : String
  pub data_type_oid : ℕ

pub record Cursor : Type 0 where
  pub fields : List Field
  pub rows : List (List (Option String))
  pub ended : Option Err
  pub tag : String
  pub affected : ℕ

pub record Env : Type 0 where
  -- The error of a call, if it fails.
  pub fault : Call → Option Err
  -- The object that `dependencySQL` finds, if any.
  pub dependent : Option String
  -- What `tx.Commit` returns, and whether the server applied the transaction if that is an error.
  pub at_commit : Option Err
  pub applied : Bool
  -- The random texts of `opaque`, in the order in which they are drawn.
  pub drawn : ℕ → Result String
  pub now : ℕ
  -- The routine names in the schema before statement i, and the answer to statement i.
  pub routines : ℕ → Result (List String)
  pub reply : ℕ → Result Cursor

pub record Tx : Type 0 where
  pub stored : Db
  pub work : Db

abbrev pub Exec {ℓ} : Type ℓ → Type ℓ
Exec A = Tx → Result A × Tx

infixl 5 ◌>>=◌ ◌>>◌
abbrev pub continue {ℓ κ} : {A : Type ℓ} {B : Type κ} → Result A → (A → Exec B) → Exec B
continue (ok a) f t = f a t
continue (err e) f t = (err e, t)

unfoldable pub ◌>>=◌ {ℓ κ} : {A : Type ℓ} {B : Type κ} → Exec A → (A → Exec B) → Exec B
◌>>=◌ m f t = let (r, t') = m t in continue r f t'

abbrev pub ◌>>◌ {ℓ} : {B : Type ℓ} → Exec (Unit {0}) → Exec B → Exec B
m >> n = m >>= λ _. n

abbrev pub pure {ℓ} : {A : Type ℓ} → A → Exec A
pure a t = (ok a, t)

abbrev pub raise {ℓ} : {A : Type ℓ} → Err → Exec A
raise e t = (err e, t)

abbrev pub lift {ℓ} : {A : Type ℓ} → Result A → Exec A
lift r t = (r, t)

-- A query of the transaction's own view.
abbrev pub query_work {ℓ} : {A : Type ℓ} → (Db → Result A) → Exec A
query_work q t = (q t.work, t)

abbrev pub raise_if : Bool → Err → Exec (Unit {0})
raise_if true e t = (err e, t)
raise_if false e t = (ok tt, t)

abbrev pub answered {ℓ} : {A : Type ℓ} → Result (A × Db) → Tx → Result A × Tx
answered (err e) t = (err e, t)
answered (ok (a, w)) t = (ok a, record t { work = w })

-- A call that fails as `Env` says, or has an effect on the transaction and a result.
abbrev pub outcome {ℓ} : {A : Type ℓ} → Option Err → (Db → Result (A × Db)) → Exec A
outcome (some e) f t = (err e, t)
outcome none f t = answered (f t.work) t

unfoldable pub call {ℓ} : {A : Type ℓ} → Env → Call → (Db → Result (A × Db)) → Exec A
call env c f = outcome (env.fault c) f

-- A call with an effect and no result that the server itself does not refuse.
abbrev pub change : Env → Call → (Db → Db) → Exec (Unit {0})
change env c f = call env c (λ w. ok (tt, f w))

-- `if err := m; err != nil { return g(err) }`.
abbrev pub rescue {ℓ} : {A : Type ℓ} → Result A → (Err → Exec A) → Exec A
rescue (ok a) g t = (ok a, t)
rescue (err e) g t = g e t

unfoldable pub on_error {ℓ} : {A : Type ℓ} → (Err → Exec A) → Exec A → Exec A
on_error g m t = let (r, t') = m t in rescue r g t'

abbrev pub wrapping {ℓ} : {A : Type ℓ} → Kind → Exec A → Exec A
wrapping kind m = on_error (λ e. raise (wrap kind e)) m

abbrev pub classifying {ℓ} : {A : Type ℓ} → Exec A → Exec A
classifying m = on_error (λ e. raise (classify e)) m

-- `commit` of connection.go: an error that is not the server's leaves the outcome unknown.
unfoldable pub commit_error : Err → Err
commit_error e = if pgconn_error e then classify e else wrap outcome_unknown e

abbrev pub ended : Option Err → Bool → Exec (Option Err)
ended none applied t = (ok none, record t { stored = t.work })
ended (some e) true t = (ok (some (commit_error e)), record t { stored = t.work })
ended (some e) false t = (ok (some (commit_error e)), t)

unfoldable pub commit : Env → Exec (Option Err)
unfolding commit_error
commit env = ended env.at_commit env.applied

-- `return v, commit(ctx, tx)`.
abbrev pub commit_with {ℓ} : {A : Type ℓ} → Env → A → Exec (A × Option Err)
commit_with env a = do e ← commit env; pure (a, e)

-- A transaction from its begin: an early `return zero, err`, or the value and the error of its end.
abbrev pub settle {ℓ} : {A : Type ℓ} → A → Result (A × Option Err) → A × Option Err
settle zero (ok r) = r
settle zero (err e) = (zero, some e)

abbrev pub transaction {ℓ} : {A : Type ℓ} → A → Exec (A × Option Err) → Db → (A × Option Err) × Db
transaction zero m db =
    let (r, t) = m (record { stored = db; work = db }) in (settle zero r, t.stored)
