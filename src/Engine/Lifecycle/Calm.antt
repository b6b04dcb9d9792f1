-- ===== src/Engine/Lifecycle/Calm.antt =====
-- `create`, `reset` and `Delete` of internal/engine/lifecycle.go where no call fails.
use Prim.Native.String.{◌++◌ as ◌then◌}
use pgislet.Base.{
  ℕ, ◌+◌, String, Bool, true, false, Option, some, [], ◌==◌, if◌then◌else◌, ◌≡◌, refl, not, ◌&&◌,
  none, List, arith, eqb, eq_refl,
}
use pgislet.Base.Dict.{Dict, lookup, insert, erase, lookup-erase}
use pgislet.Errors.{ok}
use pgislet.Engine.Types.{active, initializing, Islet, Row, Db, to_metadata, is_initializing}
use pgislet.Engine.Exec.{
  Env, Call, begin_tx, create_role, grant_role, insert_row, lock_row, dependencies, savepoint,
  drop_schema, create_schema, update_row, drop_objects, delete_row, ◌>>=◌, on_error, call, commit,
}
use pgislet.Engine.Gateway.{read_metadata}
use pgislet.Engine.Cleanup.{lock_metadata, check_dependencies, remove_schema, add_schema}
use pgislet.Engine.Lifecycle.{
  reset, rebuild, delete, remove_islet, advance_and_commit, drop_all, remove_role, create,
  create_objects, add_role, insert_islet, advance_islet,
}
use pgislet.Engine.Lifecycle.Delete.{removed_db}

-- No call fails, nothing outside the schema depends on it, and the commit is confirmed.
pub record IsCalm (env : Env) : Type 0 where
  pub fault : (c : Call) → env.fault c ≡ none
  pub dependent : env.dependent ≡ none
  pub commit : env.at_commit ≡ none

eqb_refl : (n : ℕ) → not (eqb n n) ≡ false
eqb_refl n = ground arith

erased : (k : String) (m : Dict (List String)) → lookup k (erase k m) ≡ none
erased k m = rw (lookup-erase, eq_refl)

-- Where no call fails, the handle is of the row's generation and not fenced off, and the schema
-- exists, `Reset` and `Recover` succeed: the new handle, active and at the next generation, comes without
-- an error, the schema is empty, and the row is active at that generation, without a token.
pub reset_succeeds :
    (env : Env) (h : Islet) (recovering : Bool) (db : Db) (r : Row) (content : List String)
    → IsCalm env
    → lookup h.id db.islets ≡ some r
    → r.generation ≡ h.generation
    → (is_initializing r.state && not recovering) ≡ false
    → lookup r.schema_name db.schemas ≡ some content
    → reset env h false recovering db ≡ (
      (
        record {
          id = h.id;
          generation = h.generation + 1;
          state = active;
          created_at = r.created_at;
          updated_at = env.now;
        },
        none,
      ),
      record {
        islets =
            insert h.id
              (record r {
                state = active;
                generation = h.generation + 1;
                init_token = none;
                updated_at = env.now;
              })
              db.islets;
        schemas = insert r.schema_name [] (erase r.schema_name db.schemas);
        roles = db.roles;
      },
    )
unfolding reset rebuild lock_metadata check_dependencies advance_and_commit ◌>>=◌ on_error call
    read_metadata to_metadata commit
reset_succeeds env h recovering db r content calm found gen free there =
    rw
      (
        calm.fault begin_tx,
        calm.fault lock_row,
        read_metadata,
        found,
        gen,
        eqb_refl h.generation,
        free,
      )
      (rw
        (
          calm.fault dependencies,
          calm.dependent,
          calm.fault savepoint,
          calm.fault drop_schema,
          remove_schema,
          there,
          calm.fault create_schema,
          add_schema,
          erased r.schema_name db.schemas,
        )
        (rw (calm.fault update_row, advance_islet, found, gen, calm.commit) refl))

-- Where no call fails, the handle is of the row's generation, the islet is not being initialized, and
-- its schema and role exist, `Delete` succeeds: the row, the schema and the role are gone.
pub delete_succeeds :
    (env : Env) (h : Islet) (db : Db) (r : Row) (content : List String) (password : String)
    → IsCalm env
    → lookup h.id db.islets ≡ some r
    → r.generation ≡ h.generation
    → is_initializing r.state ≡ false
    → lookup r.schema_name db.schemas ≡ some content
    → lookup r.role_name db.roles ≡ some password
    → delete env h db ≡ ((tt, none), removed_db h.id r db)
unfolding delete remove_islet lock_metadata check_dependencies ◌>>=◌ on_error call read_metadata
    to_metadata commit drop_all lookup erase
delete_succeeds env h db r content password calm found gen free there known =
    rw
      (
        calm.fault begin_tx,
        calm.fault lock_row,
        read_metadata,
        found,
        gen,
        eqb_refl h.generation,
        free,
      )
      (rw
        (
          calm.fault dependencies,
          calm.dependent,
          calm.fault savepoint,
          calm.fault drop_objects,
          remove_schema,
          there,
          remove_role,
          known,
        )
        (rw (calm.fault delete_row, calm.commit) refl))

-- The token of a new islet: one is drawn, and is not empty, where it is to be initialized.
abbrev pub Draws : Env → Bool → Option String → Type 0
Draws env true token = (t : String) × (env.drawn 2 ≡ ok t) × ((t == "") ≡ false) × (token ≡ some t)
Draws env false token = token ≡ none

-- The databases before and behind a creation of the islet `id`.
abbrev pub Creates : Env → Bool → Option String → String → String → Db → Type 0
Creates env initialize token id password db =
    let state = if initialize then initializing else active in
    create env initialize db ≡ (
      (
        record {
          id = id;
          generation = 1;
          state = state;
          created_at = env.now;
          updated_at = env.now;
        },
        none,
      ),
      record {
        islets =
            insert id
              (record {
                schema_name = "pgislet_i_" then id;
                role_name = "pgislet_r_" then id;
                password = password;
                state = state;
                generation = 1;
                init_token = token;
                created_at = env.now;
                updated_at = env.now;
              })
              db.islets;
        schemas = insert ("pgislet_i_" then id) [] db.schemas;
        roles = insert ("pgislet_r_" then id) password db.roles;
      },
    )

-- Where no call fails, the random texts are drawn and the names that they give are free, `Create`
-- succeeds: the handle of generation 1, initializing or active, comes without an error, and there is one
-- row, one empty schema and one role more, under the names and with the password that were drawn; the row
-- has the handle's state and generation, and the token that was drawn for an initialization.
pub create_succeeds :
    (env : Env) (initialize : Bool) (db : Db) (id password : String) (token : Option String)
    → IsCalm env
    → env.drawn 0 ≡ ok id
    → env.drawn 1 ≡ ok password
    → Draws env initialize token
    → lookup id db.islets ≡ none
    → lookup ("pgislet_i_" then id) db.schemas ≡ none
    → lookup ("pgislet_r_" then id) db.roles ≡ none
    → Creates env initialize token id password db
unfolding create create_objects ◌>>=◌ on_error call commit
create_succeeds env true db id password token calm i p (t, drawn, full, kept) row schema role =
    rw (i, p, drawn, kept)
      (rw
        (
          calm.fault begin_tx,
          calm.fault create_role,
          add_role,
          role,
          calm.fault create_schema,
          add_schema,
          schema,
        )
        (rw (calm.fault grant_role, calm.fault insert_row, insert_islet, row, calm.commit, full)
          refl))
create_succeeds env false db id password token calm i p kept row schema role =
    rw (i, p, kept)
      (rw
        (
          calm.fault begin_tx,
          calm.fault create_role,
          add_role,
          role,
          calm.fault create_schema,
          add_schema,
          schema,
        )
        (rw (calm.fault grant_role, calm.fault insert_row, insert_islet, row, calm.commit) refl))
