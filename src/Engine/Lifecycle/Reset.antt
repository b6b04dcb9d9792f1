-- ===== src/Engine/Lifecycle/Reset.antt =====
-- The outcomes of `reset` of internal/engine/lifecycle.go.
use pgislet.Base.{
  ◌+◌, String, Bool, false, ◌≡◌, ◌≢◌, refl, ◌⊎◌, inl, inr, not, ◌&&◌, Option, none, some, [], arith,
  ◌==◌, if◌then◌else◌,
}
use pgislet.Base.Dict.{lookup, insert, erase}
use pgislet.Errors.{Err, ok}
use pgislet.Engine.Types.{
  active, initializing, Islet, no_islet, Row, Db, to_metadata, is_initializing,
}
use pgislet.Engine.Exec.{Env, settle}
use pgislet.Engine.Exec.Meets.{
  Post, Meets, Meets-bind, Meets-on_error, Meets-change, Meets-call, Meets-raise, Meets-raise_if,
  Meets-lift, Meets-pure, Meets-commit, Meets-transaction,
}
use pgislet.Engine.Cleanup.{remove_schema, add_schema, check_dependencies}
use pgislet.Engine.Lifecycle.{
  reset, advance_and_commit, advance_islet, rebuild, draw_token, first_state,
}
use pgislet.Engine.Lifecycle.Early.{
  StaysAborted, commit_result, Early, kept, lock_rule, none-ne-some, fail_lifecycle_rule, undo_rule,
}

-- Rows that `reset` refuses.
abbrev pub fenced_off : Bool → Row → Bool
fenced_off recovering r = is_initializing r.state && not recovering

-- The database after a reset: one row at the next generation, its schema empty, nothing else touched.
abbrev pub rebuilt_db : Env → String → Row → Bool → String → Db → Db
rebuilt_db env id r initialize token db = record {
  islets =
      insert id
        (record r {
          state = if initialize then initializing else active;
          generation = r.generation + 1;
          init_token = if token == "" then none else some token;
          updated_at = env.now;
        })
        db.islets;
  schemas = insert r.schema_name [] (erase r.schema_name db.schemas);
  roles = db.roles;
}

abbrev pub next_handle : Env → Islet → Bool → Islet → Islet
next_handle env h initialize old = record old {
  generation = h.generation + 1;
  state = if initialize then initializing else active;
  updated_at = env.now;
}

pub data ResetOutcome (env : Env) (h : Islet) (initialize recovering : Bool) (db : Db)
    (result : Islet × Option Err) (db' : Db) : Type 0 where
  early :
      (e : Err)
      → result ≡ (no_islet, some e)
      → Early env h (fenced_off recovering) db e db'
      → ResetOutcome env h initialize recovering db result db'
  -- The end, and a commit that the server applied or not.
  rebuilt :
      (r : Row) (token : String)
      → lookup h.id db.islets ≡ some r
      → r.generation ≡ h.generation
      → (is_initializing r.state && not recovering) ≡ false
      → draw_token env 0 initialize ≡ ok token
      → result
        ≡ (next_handle env h initialize (to_metadata h.id r).islet, commit_result env.at_commit)
      → (db' ≡ rebuilt_db env h.id r initialize token db) ⊎ ((env.at_commit ≢ none) × (db' ≡ db))
      → ResetOutcome env h initialize recovering db result db'

abbrev Q : Env → Islet → Bool → Bool → Db → Post (Islet × Option Err)
Q env h initialize recovering db r t =
    ResetOutcome env h initialize recovering db (settle no_islet r) t.stored

remove_schema-eq :
    (name : String) (w w₁ : Db)
    → remove_schema name w ≡ ok (tt, w₁)
    → w₁ ≡ record w { schemas = erase name w.schemas }
remove_schema-eq name w w₁ p = ground arith

add_schema-eq :
    (name : String) (w w₁ : Db)
    → add_schema name w ≡ ok (tt, w₁)
    → w₁ ≡ record w { schemas = insert name [] w.schemas }
add_schema-eq name w w₁ p = ground arith

module _ (env : Env) (h : Islet) (initialize recovering : Bool) (db : Db) where
  advanced-eq :
      (r : Row) (w₁ w₂ w : Db) (token : String) (next : Islet)
      → lookup h.id db.islets ≡ some r
      → r.generation ≡ h.generation
      → remove_schema r.schema_name db ≡ ok (tt, w₁)
      → add_schema r.schema_name w₁ ≡ ok (tt, w₂)
      → advance_islet (to_metadata h.id r) h.id (first_state initialize) token env.now w₂
        ≡ ok (next, w)
      → (next ≡ next_handle env h initialize (to_metadata h.id r).islet)
        × (w ≡ rebuilt_db env h.id r initialize token db)
  unfolding to_metadata
  advanced-eq r w₁ w₂ w token next found gen p q u =
      let emptied = add_schema-eq r.schema_name w₁ w₂ q in
      let dropped = remove_schema-eq r.schema_name db w₁ p in
      ground (arith, rw (emptied, dropped, found, advance_islet) at u)

  advance_rule :
      (r : Row) (w₁ w₂ : Db)
      → lookup h.id db.islets ≡ some r
      → r.generation ≡ h.generation
      → (is_initializing r.state && not recovering) ≡ false
      → remove_schema r.schema_name db ≡ ok (tt, w₁)
      → add_schema r.schema_name w₁ ≡ ok (tt, w₂)
      → Meets
          (Q env h initialize recovering db)
          (advance_and_commit env h (to_metadata h.id r) initialize)
          (record { stored = db; work = w₂ })
  unfolding advance_and_commit to_metadata
  advance_rule r w₁ w₂ found gen fine p q = Meets-bind _ _ _ _ (
      Meets-lift _ _ _ (λ e d. early e refl (kept refl))
        (λ token d. Meets-bind _ _ _ _ (
          Meets-on_error _ _ _ _ (
            Meets-call _ _ _ _ _ (λ e f. Meets-raise _ _ _ (early _ refl (kept refl)))
              (λ e n f. Meets-raise _ _ _ (early _ refl (kept refl)))
              (λ next w n u.
                let (en, ew) = advanced-eq r w₁ w₂ w token next found gen p q u in
                Meets-bind _ _ _ _ (
                  Meets-commit _ env _
                    (λ c. Meets-pure _ _ _ (rebuilt r token found gen fine d (rw (en, c)) (inl ew)))
                    (λ e c a.
                      Meets-pure _ _ _ (rebuilt r token found gen fine d (rw (en, c)) (inl ew)))
                    (λ e c a. Meets-pure _ _ _ (
                      rebuilt r token found gen fine d (rw (en, c))
                        (inr (λ z. none-ne-some z c, refl))))))))))

  rebuild_rule :
      (r : Row)
      → StaysAborted env
      → lookup h.id db.islets ≡ some r
      → r.generation ≡ h.generation
      → (is_initializing r.state && not recovering) ≡ false
      → Meets
          (Q env h initialize recovering db)
          (rebuild env h (to_metadata h.id r) initialize)
          (record { stored = db; work = db })
  unfolding rebuild check_dependencies to_metadata
  rebuild_rule r sticks found gen fine = Meets-bind _ _ _ _ (
      Meets-on_error _ _ _ _ (
        Meets-bind _ _ _ _ (
          Meets-change _ _ _ _ _
            (λ e f.
              fail_lifecycle_rule env h (fenced_off recovering) db r _ _ _ _ found gen fine
                (λ e _ o. early e refl o) refl refl (inl refl))
            (λ f.
              Meets-lift _ _ _
                (λ e d.
                  fail_lifecycle_rule env h (fenced_off recovering) db r _ _ _ _ found gen fine
                    (λ e _ o. early e refl o) refl refl (inl refl))
                (λ _ d. Meets-bind _ _ _ _ (
                  Meets-change _ _ _ _ _ (λ e g. early e refl (kept refl))
                    (λ g. Meets-bind _ _ _ _ (record {
                      at = Meets-bind _ _ _ _ (
                          Meets-on_error _ _ _ _ (
                            Meets-bind _ _ _ _ (
                              Meets-call _ _ _ _ _
                                (λ e k.
                                  undo_rule env h (fenced_off recovering) db r _ _ _ _ found gen
                                    fine (λ e _ o. early e refl o) sticks refl refl)
                                (λ e _ k.
                                  undo_rule env h (fenced_off recovering) db r _ _ _ _ found gen
                                    fine (λ e _ o. early e refl o) sticks refl refl)
                                (λ _ w₁ _ p.
                                  Meets-call _ _ _ _ _
                                    (λ e k.
                                      undo_rule env h (fenced_off recovering) db r _ _ _ _ found gen
                                        fine (λ e _ o. early e refl o) sticks refl refl)
                                    (λ e _ k.
                                      undo_rule env h (fenced_off recovering) db r _ _ _ _ found gen
                                        fine (λ e _ o. early e refl o) sticks refl refl)
                                    (λ _ w₂ _ q. advance_rule r w₁ w₂ found gen fine p q)))));
                    }))))))))

-- Whatever the server and the driver answer, as long as a transaction stays aborted whose ROLLBACK TO
-- has failed, a reset does one of three things: it returns early and changes nothing; or the handle was
-- current and not fenced off by an initialization, and it marks the row as failed, keeps the content
-- and the generation, and returns a lifecycle error; or, for such a handle, it
-- advances the generation by one, empties the schema of that islet and touches nothing else, with
-- the new handle beside the result of the commit, and is lost whole only if that is an error.
pub reset-ResetOutcome :
    (env : Env) (h : Islet) (initialize recovering : Bool) (db : Db)
    → StaysAborted env
    → ResetOutcome env h initialize recovering db
        (reset env h initialize recovering db).0
        (reset env h initialize recovering db).1
unfolding reset
reset-ResetOutcome env h initialize recovering db sticks =
    Meets-transaction (ResetOutcome env h initialize recovering db) _ _ db (
      Meets-bind _ _ _ _ (
        Meets-on_error _ _ _ _ (
          Meets-change _ _ _ _ _ (λ e f. Meets-raise _ _ _ (early _ refl (kept refl)))
            (λ f. Meets-bind _ _ _ _ (
              lock_rule _ env h _ (λ e _. early _ refl (kept refl))
                (λ r found gen. Meets-bind _ _ _ _ (
                  Meets-raise_if _ _ _ _ (λ i. early _ refl (kept refl))
                    (λ i. rebuild_rule env h initialize recovering db r sticks found gen i))))))))
