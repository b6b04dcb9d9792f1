-- ===== src/Engine/Lifecycle/Delete.antt =====
-- The outcomes of `Delete` of internal/engine/lifecycle.go.
use pgislet.Base.{
  String, Bool, Bool-cases, true, false, ◌≡◌, ◌≢◌, refl, ◌⊎◌, inl, inr, Option, none, some, arith,
}
use pgislet.Base.Dict.{lookup, erase}
use pgislet.Errors.{not_found, Err, is, ok}
use pgislet.Errors.Classify.{TellsMissing}
use pgislet.Engine.Types.{Islet, Metadata, Row, Db, to_metadata, is_initializing}
use pgislet.Engine.Exec.{Env, lock_row, Exec, settle}
use pgislet.Engine.Exec.Meets.{
  Post, Then, Meets, Meets-bind, Meets-on_error, Meets-change, Meets-call, Meets-raise,
  Meets-raise_if, Meets-lift, Meets-pure, Meets-commit, Meets-transaction,
}
use pgislet.Engine.Cleanup.{check_dependencies}
use pgislet.Engine.Lifecycle.{delete, remove_islet, drop_all, absent, found}
use pgislet.Engine.Lifecycle.Early.{
  read_error-TellsMissing, StaysAborted, commit_result, Early, kept, lock_rule, Refusal,
  none-ne-some, fail_lifecycle_rule, undo_rule,
}

-- Rows that `Delete` refuses.
abbrev pub being_initialized : Row → Bool
being_initialized r = is_initializing r.state

-- The database after a delete: the row, the schema and the role of the islet are gone.
abbrev pub removed_db : String → Row → Db → Db
removed_db id r db = record {
  islets = erase id db.islets;
  schemas = erase r.schema_name db.schemas;
  roles = erase r.role_name db.roles;
}

pub data DeleteOutcome (env : Env) (h : Islet) (db : Db) (result : Unit {0} × Option Err) (db' : Db)
    : Type 0 where
  early :
      (e : Err)
      → result ≡ (tt, some e)
      → Early env h being_initialized db e db'
      → DeleteOutcome env h db result db'
  -- Success without a row, or where the locked read has said that there is none.
  gone :
      result ≡ (tt, none)
      → db' ≡ db
      → (lookup h.id db.islets ≡ none)
        ⊎ ((e : Err) × (env.fault lock_row ≡ some e) × TellsMissing e)
      → DeleteOutcome env h db result db'
  deleted :
      (r : Row)
      → lookup h.id db.islets ≡ some r
      → r.generation ≡ h.generation
      → is_initializing r.state ≡ false
      → result ≡ (tt, commit_result env.at_commit)
      → (db' ≡ removed_db h.id r db) ⊎ ((env.at_commit ≢ none) × (db' ≡ db))
      → DeleteOutcome env h db result db'

drop_objects-eq :
    (r : Row) (w w₁ : Db)
    → drop_all r.schema_name r.role_name w ≡ ok (tt, w₁)
    → w₁ ≡ record w { schemas = erase r.schema_name w.schemas; roles = erase r.role_name w.roles }
unfolding drop_all
drop_objects-eq r w w₁ p = ground arith

gone_only :
    (env : Env) (h : Islet) (db : Db) (e : Err)
    → Refusal env h db e
    → is e not_found ≡ true
    → (lookup h.id db.islets ≡ none) ⊎ ((d : Err) × (env.fault lock_row ≡ some d) × TellsMissing d)
unfolding is
gone_only env h db e (inl n) i = inl n
gone_only env h db e (inr (inl (d, f, same))) i =
    inr (d, f, read_error-TellsMissing d (rw same at i))
gone_only env h db e (inr (inr (r, l, g, s))) i = cc (rw (s, is) at i)

module _ (env : Env) (h : Islet) (db : Db) where
  abbrev Q : Post (Unit {0} × Option Err)
  Q r t = DeleteOutcome env h db (settle tt r) t.stored

  remove_rule :
      (r : Row)
      → StaysAborted env
      → lookup h.id db.islets ≡ some r
      → r.generation ≡ h.generation
      → is_initializing r.state ≡ false
      → Meets Q (remove_islet env h (to_metadata h.id r)) (record { stored = db; work = db })
  unfolding remove_islet check_dependencies to_metadata
  remove_rule r sticks found gen fine = Meets-bind _ _ _ _ (
      Meets-on_error _ _ _ _ (
        Meets-bind _ _ _ _ (
          Meets-change _ _ _ _ _
            (λ e f.
              fail_lifecycle_rule env h being_initialized db r _ _ _ _ found gen fine
                (λ e _ o. early e refl o) refl refl (inl refl))
            (λ f.
              Meets-lift _ _ _
                (λ e d.
                  fail_lifecycle_rule env h being_initialized db r _ _ _ _ found gen fine
                    (λ e _ o. early e refl o) refl refl (inl refl))
                (λ _ d. Meets-bind _ _ _ _ (
                  Meets-change _ _ _ _ _ (λ e g. early e refl (kept refl))
                    (λ g. Meets-bind _ _ _ _ (record {
                      at = Meets-bind _ _ _ _ (
                          Meets-on_error _ _ _ _ (
                            Meets-call _ _ _ _ _
                              (λ e k.
                                undo_rule env h being_initialized db r _ _ _ _ found gen fine
                                  (λ e _ o. early e refl o) sticks refl refl)
                              (λ e _ k.
                                undo_rule env h being_initialized db r _ _ _ _ found gen fine
                                  (λ e _ o. early e refl o) sticks refl refl)
                              (λ _ w₁ _ p. Meets-bind _ _ _ _ (
                                Meets-on_error _ _ _ _ (
                                  Meets-change _ _ _ _ _
                                    (λ e k. Meets-raise _ _ _ (early _ refl (kept refl)))
                                    (λ k. Meets-bind _ _ _ _ (
                                      Meets-commit _ env _
                                        (λ c.
                                          Meets-pure _ _ _
                                            (deleted r found gen fine (rw c) (inl (at_end w₁ p))))
                                        (λ e c a.
                                          Meets-pure _ _ _
                                            (deleted r found gen fine (rw c) (inl (at_end w₁ p))))
                                        (λ e c a. Meets-pure _ _ _ (
                                          deleted r found gen fine (rw c)
                                            (inr (λ z. none-ne-some z c, refl)))))))))));
                    }))))))))
    where
      at_end :
          (w₁ : Db)
          → drop_all r.schema_name r.role_name db ≡ ok (tt, w₁)
          → record w₁ { islets = erase h.id w₁.islets } ≡ removed_db h.id r db
      at_end w₁ p = rw (drop_objects-eq r db w₁ p)

  absent_rule :
      (e : Err) (k : Option Metadata → Exec (Unit {0} × Option Err))
      → Refusal env h db e
      → (is e not_found ≡ true → Meets Q (k none) (record { stored = db; work = db }))
      → Meets (Then Q k) (absent e) (record { stored = db; work = db })
  absent_rule e k why h' = elim (Bool-cases (is e not_found)) [
    | inl i ↦ rw i (record { at = h' i })
    | inr i ↦ rw i (record { at = early e refl (kept refl) })
  ]

-- Whatever the server and the driver answer, as long as a transaction stays aborted whose ROLLBACK TO
-- has failed, a delete does one of three things: it returns an error early, without effect or with the
-- row of a current handle marked as failed; or it succeeds without effect because the row is gone or the
-- locked read has answered by an error that says so; or the handle was current and its islet not being
-- initialized, and it removes the row, the schema and the role of that islet and nothing else, and is
-- lost whole only if the commit returns an error.
pub delete-DeleteOutcome :
    (env : Env) (h : Islet) (db : Db)
    → StaysAborted env
    → DeleteOutcome env h db (delete env h db).0 (delete env h db).1
unfolding delete
delete-DeleteOutcome env h db sticks = Meets-transaction (DeleteOutcome env h db) _ _ db (
    Meets-bind _ _ _ _ (
      Meets-on_error _ _ _ _ (
        Meets-change _ _ _ _ _ (λ e f. Meets-raise _ _ _ (early _ refl (kept refl)))
          (λ f. Meets-bind _ _ _ _ (
            Meets-on_error _ _ _ _ (
              Meets-bind _ _ _ _ (
                lock_rule _ env h _
                  (λ e why.
                    absent_rule env h db e _ why
                      (λ i. Meets-pure _ _ _ (gone refl refl (gone_only env h db e why i))))
                  (λ r found gen. Meets-pure _ _ _ (
                    Meets-bind _ _ _ _ (
                      Meets-raise_if _ _ _ _ (λ i. early _ refl (kept refl))
                        (λ i. remove_rule env h db r sticks found gen i)))))))))))
