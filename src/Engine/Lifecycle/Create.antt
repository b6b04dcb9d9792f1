-- ===== src/Engine/Lifecycle/Create.antt =====
-- The outcomes of `create` of internal/engine/lifecycle.go.
use pgislet.Base.{String, Bool, ◌≡◌, ◌≢◌, refl, ◌⊎◌, inl, inr, Option, none, some, [], arith}
use pgislet.Base.Dict.{lookup, insert}
use pgislet.Errors.{Err, ok}
use pgislet.Engine.Types.{Islet, no_islet, Metadata, Row, Db}
use pgislet.Engine.Exec.{Env, settle}
use pgislet.Engine.Exec.Meets.{
  Meets, Meets-bind, Meets-on_error, Meets-change, Meets-call, Meets-raise, Meets-lift, Meets-pure,
  Meets-commit, Meets-transaction,
}
use pgislet.Engine.Cleanup.{add_schema, add_schema}
use pgislet.Engine.Lifecycle.{
  create, create_objects, add_role, insert_islet, new_metadata, new_row, draw_token, draw_token,
  first_state,
}
use pgislet.Engine.Lifecycle.Early.{commit_result, none-ne-some}

-- The database after a create: one row, one empty schema and one role more.
abbrev pub created_db : Metadata → Db → Db
created_db md db = record {
  islets = insert md.id (new_row md) db.islets;
  schemas = insert md.schema [] db.schemas;
  roles = insert md.role md.password db.roles;
}

-- The names that it takes were free.
pub record IsFresh (md : Metadata) (db : Db) : Type 0 where
  pub row : lookup md.id db.islets ≡ none
  pub schema : lookup md.schema db.schemas ≡ none
  pub role : lookup md.role db.roles ≡ none

pub data CreateOutcome (env : Env) (initialize : Bool) (db : Db) (result : Islet × Option Err)
    (db' : Db) : Type 0 where
  refused :
      (e : Err)
      → result ≡ (no_islet, some e)
      → db' ≡ db
      → CreateOutcome env initialize db result db'
  created :
      (id password token : String)
      → env.drawn 0 ≡ ok id
      → env.drawn 1 ≡ ok password
      → draw_token env 2 initialize ≡ ok token
      → IsFresh (new_metadata id password token (first_state initialize) env.now) db
      → result ≡ (
        (new_metadata id password token (first_state initialize) env.now).islet,
        commit_result env.at_commit,
      )
      → (db' ≡ created_db (new_metadata id password token (first_state initialize) env.now) db)
        ⊎ ((env.at_commit ≢ none) × (db' ≡ db))
      → CreateOutcome env initialize db result db'

add_role-eq :
    (name password : String) (w w₁ : Db)
    → add_role name password w ≡ ok (tt, w₁)
    → (lookup name w.roles ≡ none) × (w₁ ≡ record w { roles = insert name password w.roles })
add_role-eq name password w w₁ p = ground arith

add_schema-eq :
    (name : String) (w w₁ : Db)
    → add_schema name w ≡ ok (tt, w₁)
    → (lookup name w.schemas ≡ none) × (w₁ ≡ record w { schemas = insert name [] w.schemas })
add_schema-eq name w w₁ p = ground arith

insert_islet-eq :
    (id : String) (r : Row) (w w₁ : Db)
    → insert_islet id r w ≡ ok (tt, w₁)
    → (lookup id w.islets ≡ none) × (w₁ ≡ record w { islets = insert id r w.islets })
insert_islet-eq id r w w₁ p = ground arith

built :
    (md : Metadata) (db w₁ w₂ w₃ : Db)
    → add_role md.role md.password db ≡ ok (tt, w₁)
    → add_schema md.schema w₁ ≡ ok (tt, w₂)
    → insert_islet md.id (new_row md) w₂ ≡ ok (tt, w₃)
    → IsFresh md db × (w₃ ≡ created_db md db)
built md db w₁ w₂ w₃ p q u =
    let (a, e₁) = add_role-eq md.role md.password db w₁ p in
    let (b, e₂) = add_schema-eq md.schema w₁ w₂ q in
    let (c, e₃) = insert_islet-eq md.id (new_row md) w₂ w₃ u in
    (record { row = rw (e₂, e₁) at c; schema = rw e₁ at b; role = a }, rw (e₃, e₂, e₁))

objects_rule :
    (env : Env) (initialize : Bool) (db : Db) (id password token : String)
    → env.drawn 0 ≡ ok id
    → env.drawn 1 ≡ ok password
    → draw_token env 2 initialize ≡ ok token
    → Meets
        (λ r t. CreateOutcome env initialize db (settle no_islet r) t.stored)
        (create_objects env (new_metadata id password token (first_state initialize) env.now))
        (record { stored = db; work = db })
unfolding create_objects
objects_rule env initialize db id password token di dp dt = Meets-bind _ _ _ _ (
    Meets-on_error _ _ _ _ (
      Meets-change _ _ _ _ _ (λ e f. Meets-raise _ _ _ (refused _ refl refl))
        (λ f. Meets-bind _ _ _ _ (
          Meets-on_error _ _ _ _ (
            Meets-call _ _ _ _ _ (λ e f. Meets-raise _ _ _ (refused _ refl refl))
              (λ e _ f. Meets-raise _ _ _ (refused _ refl refl))
              (λ _ w₁ _ p. Meets-bind _ _ _ _ (
                Meets-on_error _ _ _ _ (
                  Meets-call _ _ _ _ _ (λ e f. Meets-raise _ _ _ (refused _ refl refl))
                    (λ e _ f. Meets-raise _ _ _ (refused _ refl refl))
                    (λ _ w₂ _ q. Meets-bind _ _ _ _ (
                      Meets-on_error _ _ _ _ (
                        Meets-change _ _ _ _ _ (λ e f. Meets-raise _ _ _ (refused _ refl refl))
                          (λ f. Meets-bind _ _ _ _ (
                            Meets-on_error _ _ _ _ (
                              Meets-call _ _ _ _ _ (λ e f. Meets-raise _ _ _ (refused _ refl refl))
                                (λ e _ f. Meets-raise _ _ _ (refused _ refl refl))
                                (λ _ w₃ _ u.
                                  (let (fresh, same) = built _ db w₁ w₂ w₃ p q u in
                                    Meets-bind _ _ _ _ (
                                      Meets-commit _ env _
                                        (λ c. Meets-pure _ _ _ (
                                          created id password token di dp dt fresh (rw c)
                                            (inl same)))
                                        (λ e c a. Meets-pure _ _ _ (
                                          created id password token di dp dt fresh (rw c)
                                            (inl same)))
                                        (λ e c a. Meets-pure _ _ _ (
                                          created id password token di dp dt fresh (rw c)
                                            (inr (λ z. none-ne-some z c, refl)))))))))))))))))))))

-- A create returns early with no effect, or draws its names and its secret, finds them free, and adds
-- one row of generation 1, one empty schema and one role, with a handle that fits the row; only a
-- commit that returns an error may lose all of it.
pub create-CreateOutcome :
    (env : Env) (initialize : Bool) (db : Db)
    → CreateOutcome env initialize db (create env initialize db).0 (create env initialize db).1
unfolding create
create-CreateOutcome env initialize db =
    Meets-transaction (CreateOutcome env initialize db) _ _ db (
      Meets-bind _ _ _ _ (
        Meets-lift _ _ _ (λ e f. refused e refl refl)
          (λ id di. Meets-bind _ _ _ _ (
            Meets-lift _ _ _ (λ e f. refused e refl refl)
              (λ password dp. Meets-bind _ _ _ _ (
                Meets-lift _ _ _ (λ e f. refused e refl refl)
                  (λ token dt. objects_rule env initialize db id password token di dp dt)))))))
