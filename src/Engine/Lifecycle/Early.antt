-- ===== src/Engine/Lifecycle/Early.antt =====
-- Early returns of the transactions of internal/engine/lifecycle.go: the locked read of the row, and
-- `failLifecycle`.
use pgislet.Base.{
  String, Bool, true, false, ◌≡◌, ◌≢◌, refl, ◌⊎◌, inl, inr, not, Option, none, some, arith, eqb,
  Option-cases,
}
use pgislet.Base.Dict.{lookup, insert}
use pgislet.Errors.{
  sentinel, deadline_exceeded, no_rows, pg, other, foreign, wrapped, joined, not_found, is-wrap,
  Err, is, lifecycle, stale_generation, ok, err,
}
use pgislet.Errors.Classify.{TellsMissing, classify-TellsMissing}
use pgislet.Engine.Types.{Islet, Metadata, Row, Db, failed, to_metadata}
use pgislet.Engine.Exec.{Env, lock_row, rollback_to, fail_row, Tx, commit_error}
use pgislet.Engine.Exec.Meets.{
  Post, Meets, Meets-bind, Meets-on_error, Meets-change, Meets-raise, Meets-raise_if, Meets-query,
  Meets-pure, Meets-commit,
}
use pgislet.Engine.Gateway.{read_metadata, read_error, update_islet}
use pgislet.Engine.Cleanup.{lock_metadata, mark, fail_lifecycle, undo_cleanup}

-- PostgreSQL refuses every command of an aborted transaction, so where ROLLBACK TO fails the UPDATE
-- behind it fails too.
abbrev pub StaysAborted : Env → Type 0
StaysAborted env = (env.fault rollback_to ≡ none) ⊎ ((e : Err) × (env.fault fail_row ≡ some e))

-- The error that a commit returns.
abbrev pub commit_result : Option Err → Option Err
commit_result none = none
commit_result (some e) = some (commit_error e)

pub commit_result-none : (o : Option Err) → commit_result o ≡ none → o ≡ none
commit_result-none none p = refl
commit_result-none (some e) p = cc

-- The UPDATE of `failLifecycle` on a row that is there.
abbrev pub failed_db : Env → String → Row → Db → Db
failed_db env id r db = record db {
  islets =
      insert id (record r { state = failed; init_token = none; updated_at = env.now }) db.islets;
}

pub failed_db-eq :
    (env : Env) (id : String) (r : Row) (db : Db)
    → lookup id db.islets ≡ some r
    → update_islet id (mark env.now) db ≡ failed_db env id r db
failed_db-eq env id r db found = rw (update_islet, found) refl

-- How `reset` and `Delete` can end early: with no effect, or, for a current handle of a row that is
-- not `blocked`, with the row marked as failed, the content and the generation as they were, and a
-- lifecycle error.
pub data Early (env : Env) (h : Islet) (blocked : Row → Bool) (db : Db) (e : Err) (db' : Db)
    : Type 0 where
  kept : db' ≡ db → Early env h blocked db e db'
  marked :
      (r : Row)
      → lookup h.id db.islets ≡ some r
      → r.generation ≡ h.generation
      → blocked r ≡ false
      → is e lifecycle ≡ true
      → db' ≡ failed_db env h.id r db
      → Early env h blocked db e db'

-- Why the locked read can fail: no row, an error of the call, or a handle of another generation.
abbrev pub Refusal : Env → Islet → Db → Err → Type 0
Refusal env h w e =
    (lookup h.id w.islets ≡ none)
    ⊎ (((d : Err) × (env.fault lock_row ≡ some d) × (e ≡ read_error d))
        ⊎ ((r : Row) × (lookup h.id w.islets ≡ some r)
            × (r.generation ≢ h.generation)
            × (e ≡ sentinel stale_generation)))

-- The only errors of a read under which the row counts as missing.
pub read_error-TellsMissing : (e : Err) → is (read_error e) not_found ≡ true → TellsMissing e
unfolding read_error
read_error-TellsMissing no_rows h = inl refl
read_error-TellsMissing (sentinel k) h = classify-TellsMissing (sentinel k) h
read_error-TellsMissing deadline_exceeded h = classify-TellsMissing deadline_exceeded h
read_error-TellsMissing (pg p) h = classify-TellsMissing (pg p) h
read_error-TellsMissing (other t) h = classify-TellsMissing (other t) h
read_error-TellsMissing (foreign t e) h = classify-TellsMissing (foreign t e) h
read_error-TellsMissing (wrapped k e i) h = classify-TellsMissing (wrapped k e i) h
read_error-TellsMissing (joined es) h = classify-TellsMissing (joined es) h

pub metadata_found :
    (o : Option Err) (id : String) (w : Db) (md : Metadata)
    → read_metadata o id w ≡ ok md
    → (r : Row) × (lookup id w.islets ≡ some r) × (md ≡ to_metadata id r)
unfolding read_metadata
metadata_found (some e) id w md h = cc
metadata_found none id w md h = elim (Option-cases (lookup id w.islets)) [
  | inl n ↦ cc (rw (n, read_metadata) at h)
  | inr (r, s) ↦ (r, s, cc (rw (s, read_metadata) at h))
]

pub metadata_refused :
    (o : Option Err) (id : String) (w : Db) (e : Err)
    → read_metadata o id w ≡ err e
    → (lookup id w.islets ≡ none) ⊎ ((d : Err) × (o ≡ some d) × (e ≡ read_error d))
unfolding read_metadata
metadata_refused (some d) id w e h = inr (d, refl, cc h)
metadata_refused none id w e h = elim (Option-cases (lookup id w.islets)) [
  | inl n ↦ inl n
  | inr (r, s) ↦ cc (rw (s, read_metadata) at h)
]

module _ (h : Islet) (r : Row) (md : Metadata) (same : md ≡ to_metadata h.id r) where
  pub same_generation : not (eqb md.generation h.generation) ≡ false → r.generation ≡ h.generation
  unfolding to_metadata
  same_generation s = ground (arith, same)

  other_generation : not (eqb md.generation h.generation) ≡ true → r.generation ≢ h.generation
  unfolding to_metadata
  other_generation s = ground (arith, same)

widen : {A B C : Type 0} → A ⊎ B → A ⊎ (B ⊎ C)
widen (inl a) = inl a
widen (inr b) = inr (inl b)

-- `lockMetadata` changes nothing, and succeeds on the row of a current handle only.
pub lock_rule :
    (R : Post Metadata) (env : Env) (h : Islet) (t : Tx)
    → ((e : Err) → Refusal env h t.work e → R (err e) t)
    → ((r : Row)
        → lookup h.id t.work.islets ≡ some r
        → r.generation ≡ h.generation
        → R (ok (to_metadata h.id r)) t)
    → Meets R (lock_metadata env h) t
unfolding lock_metadata to_metadata
lock_rule R env h t he ho = Meets-bind _ _ _ _ (
    Meets-query _ _ _ (λ e q. he e (widen (metadata_refused _ _ _ e q)))
      (λ md q.
        let (r, found, same) = metadata_found _ _ _ md q in
        Meets-bind _ _ _ _ (
          Meets-raise_if _ _ _ _
            (λ s. he _ (inr (inr (r, found, other_generation h r md same s, refl))))
            (λ s. Meets-pure _ _ _ (rw same (ho r found (same_generation h r md same s)))))))

pub none-ne-some : {A : Type 0} {o : Option A} {a : A} → o ≡ none → o ≡ some a → ⊥
none-ne-some p q = cc

module _ (env : Env) (h : Islet) (blocked : Row → Bool) (db : Db) where
  -- `R` is what the rest of a transaction makes of an early return.
  abbrev pub Passes : {A : Type 0} → Post A → Type 0
  Passes R = (e : Err) (t : Tx) → Early env h blocked db e t.stored → R (err e) t

  pub fail_lifecycle_rule :
      {A : Type 0} (r : Row) (R : Post A) (md : Metadata) (cause : Err) (t : Tx)
      → lookup h.id db.islets ≡ some r
      → r.generation ≡ h.generation
      → blocked r ≡ false
      → Passes R
      → md.id ≡ h.id
      → t.stored ≡ db
      → (t.work ≡ db) ⊎ ((e : Err) × (env.fault fail_row ≡ some e))
      → Meets R (fail_lifecycle env md cause) t
  unfolding fail_lifecycle
  fail_lifecycle_rule r R md cause t found gen fine pass same s w = Meets-bind _ _ _ _ (
      Meets-on_error _ _ _ _ (
        Meets-change _ _ _ _ _ (λ e f. Meets-raise _ _ _ (pass _ _ (kept s)))
          (λ f. Meets-bind _ _ _ _ (
            Meets-commit _ env _
              (λ n.
                Meets-raise _ _ _ (pass _ _ (marked r found gen fine (is-wrap _ _) (at_mark f))))
              (λ e n a.
                Meets-raise _ _ _ (pass _ _ (marked r found gen fine (is-wrap _ _) (at_mark f))))
              (λ e n a. Meets-raise _ _ _ (pass _ _ (kept s)))))))
    where
      at_mark :
          env.fault fail_row ≡ none
          → update_islet md.id (mark env.now) t.work ≡ failed_db env h.id r db
      at_mark f = elim w [
        | inl e ↦ rw (same, e) (failed_db-eq env h.id r db found)
        | inr (e, g) ↦ cc
      ]

  refused_mark :
      StaysAborted env
      → {e : Err} → env.fault rollback_to ≡ some e
      → (d : Err) × (env.fault fail_row ≡ some d)
  refused_mark (inl n) f = cc
  refused_mark (inr g) f = g

  pub undo_rule :
      {A : Type 0} (r : Row) (R : Post A) (md : Metadata) (cause : Err) (t : Tx)
      → lookup h.id db.islets ≡ some r
      → r.generation ≡ h.generation
      → blocked r ≡ false
      → Passes R
      → StaysAborted env
      → md.id ≡ h.id
      → t.stored ≡ db
      → Meets R (undo_cleanup env md db cause) t
  undo_rule r R md cause t found gen fine pass sticks same s = Meets-bind _ _ _ _ (
      Meets-on_error _ _ _ _ (
        Meets-change _ _ _ _ _
          (λ e f. Meets-pure _ _ _ (
            fail_lifecycle_rule r R md cause t found gen fine pass same s
              (inr (refused_mark sticks f))))
          (λ f. fail_lifecycle_rule r R md cause _ found gen fine pass same s (inl refl))))
