-- ===== src/Engine/Lifecycle.antt =====
-- internal/engine/lifecycle.go: `create`, `reset` and `Delete`, each one management transaction.
-- `Create`, `Reset` and `Recover` are calls of these with fixed flags.
pub mod Early
pub mod Create
pub mod Reset
pub mod Delete
pub mod Calm
use pgislet.Engine.Cleanup.{
  add_schema, check_dependencies, current, dependency_result, fail_lifecycle, join_cause,
  lock_metadata, mark, remove_schema, undo_cleanup,
}
use Prim.Native.String.{◌++◌ as ◌then◌}
use pgislet.Base.{
  ℕ, suc, ◌+◌, String, Bool, true, false, not, ◌&&◌, ◌||◌, Option, none, some, List, [], ◌==◌, eqb,
  if◌then◌else◌,
}
use pgislet.Base.Dict.{Dict, lookup, insert, erase}
use pgislet.Errors.{
  Err, Result, ok, err, pg, other, sentinel, no_rows, not_found, unavailable, stale_generation,
  lifecycle, external_dependency, wrap, joined, nil, cons, is,
}
use pgislet.Engine.Types.{
  State, active, initializing, failed, is_initializing, Islet, no_islet, Metadata, Row, Db,
  null_if_empty, to_metadata,
}
use pgislet.Engine.Exec.{
  Env, Call, begin_tx, create_role, create_schema, grant_role, insert_row, lock_row, dependencies,
  savepoint, drop_schema, rollback_to, update_row, fail_row, drop_objects, delete_row, Tx, Exec,
  ◌>>=◌, ◌>>◌, pure, raise, lift, raise_if, call, query_work, change, on_error, wrapping, commit,
  commit_with, transaction,
}
use pgislet.Engine.Gateway.{exception, update_islet, read_metadata}

-- INSERT INTO pgislet_internal.islets: the primary key is unique.
abbrev pub insert_islet : String → Row → Db → Result (Unit {0} × Db)
insert_islet id r w = elim (lookup id w.islets) [
  | some taken ↦ exception "23505" "duplicate key value"
  | none ↦ ok (tt, record w { islets = insert id r w.islets })
]

abbrev pub add_role : String → String → Db → Result (Unit {0} × Db)
add_role name password w = elim (lookup name w.roles) [
  | some taken ↦ exception "42710" "role already exists"
  | none ↦ ok (tt, record w { roles = insert name password w.roles })
]

-- The token is drawn third, and only for an islet that is to be initialized.
abbrev pub draw_token : Env → ℕ → Bool → Result String
draw_token env i true = env.drawn i
draw_token env i false = ok ""

abbrev pub first_state : Bool → State
first_state initialize = if initialize then initializing else active

abbrev pub new_metadata : String → String → String → State → ℕ → Metadata
new_metadata id password token state now = record {
  islet = record { id = id; generation = 1; state = state; created_at = now; updated_at = now };
  schema = "pgislet_i_" then id;
  role = "pgislet_r_" then id;
  password = password;
  token = token;
}

abbrev pub new_row : Metadata → Row
new_row md = record {
  schema_name = md.schema;
  role_name = md.role;
  password = md.password;
  state = md.state;
  generation = 1;
  init_token = null_if_empty md.token;
  created_at = md.created_at;
  updated_at = md.updated_at;
}

-- The statements of `create`, with the times that RETURNING gives in `md` from the start.
unfoldable pub create_objects : Env → Metadata → Exec (Islet × Option Err)
create_objects env md = do
  wrapping lifecycle (change env begin_tx (λ w. w))
  wrapping lifecycle (call env create_role (add_role md.role md.password))
  wrapping lifecycle (call env create_schema (add_schema md.schema))
  wrapping lifecycle (change env grant_role (λ w. w))
  wrapping lifecycle (call env insert_row (insert_islet md.id (new_row md)))
  commit_with env md.islet

-- `m.create`.
unfoldable pub create : Env → Bool → Db → (Islet × Option Err) × Db
unfolding create_objects
create env initialize = transaction no_islet (do
  id ← lift (env.drawn 0)
  password ← lift (env.drawn 1)
  token ← lift (draw_token env 2 initialize)
  create_objects env (new_metadata id password token (first_state initialize) env.now))

abbrev pub remove_role : String → Db → Result (Unit {0} × Db)
remove_role name w = elim (lookup name w.roles) [
  | none ↦ exception "42704" "role does not exist"
  | some password ↦ ok (tt, record w { roles = erase name w.roles })
]

-- The columns that the UPDATE of `reset` writes.
abbrev pub advance : State → String → ℕ → Row → Row
advance state token now r = record r {
  state = state;
  generation = r.generation + 1;
  init_token = null_if_empty token;
  updated_at = now;
}

-- That UPDATE, with the columns that it returns scanned into `md`.
abbrev pub advance_islet : Metadata → String → State → String → ℕ → Db → Result (Islet × Db)
advance_islet md id state token now w = elim (lookup id w.islets) [
  | none ↦ err no_rows
  | some r ↦ ok (
    record md.islet { generation = r.generation + 1; state = state; updated_at = now },
    record w { islets = insert id (advance state token now r) w.islets },
  )
]

-- The end of `reset`: the new generation, and the commit.
unfoldable pub advance_and_commit : Env → Islet → Metadata → Bool → Exec (Islet × Option Err)
advance_and_commit env h md initialize = do
  token ← lift (draw_token env 0 initialize)
  next ←
      wrapping lifecycle
        (call env update_row (advance_islet md h.id (first_state initialize) token env.now))
  commit_with env next

-- The part of `reset` behind its guards.
unfoldable pub rebuild : Env → Islet → Metadata → Bool → Exec (Islet × Option Err)
rebuild env h md initialize = do
  on_error (fail_lifecycle env md) (check_dependencies env)
  change env savepoint (λ w. w)
  saved ← current
  on_error (undo_cleanup env md saved) (do
    call env drop_schema (remove_schema md.schema)
    call env create_schema (add_schema md.schema))
  advance_and_commit env h md initialize

-- `m.reset`: `Reset` is `reset h false false`, `Recover` is `reset h false true`.
unfoldable pub reset : Env → Islet → Bool → Bool → Db → (Islet × Option Err) × Db
unfolding rebuild lock_metadata
reset env h initialize recovering = transaction no_islet (do
  wrapping lifecycle (change env begin_tx (λ w. w))
  md ← lock_metadata env h
  raise_if (is_initializing md.state && not recovering) (sentinel unavailable)
  rebuild env h md initialize)

-- `errors.Is(err, ErrNotFound)` ends `Delete` without an error.
abbrev pub absent : Err → Exec (Option Metadata)
absent e = if is e not_found then pure none else raise e

abbrev pub found : Exec Metadata → Exec (Option Metadata)
found m = on_error absent (m >>= λ md. pure (some md))

-- DROP SCHEMA, the three REVOKEs and DROP ROLE, sent as one text.
unfoldable pub drop_all : String → String → Db → Result (Unit {0} × Db)
drop_all schema role w = elim (remove_schema schema w) [
  | err e ↦ err e
  | ok (_, w') ↦ remove_role role w'
]

-- The part of `Delete` behind its guards.
unfoldable pub remove_islet : Env → Islet → Metadata → Exec (Unit {0} × Option Err)
remove_islet env h md = do
  on_error (fail_lifecycle env md) (check_dependencies env)
  change env savepoint (λ w. w)
  saved ← current
  on_error (undo_cleanup env md saved) (call env drop_objects (drop_all md.schema md.role))
  wrapping lifecycle (change env delete_row (λ w. record w { islets = erase h.id w.islets }))
  commit_with env tt

-- `m.Delete`.
unfoldable pub delete : Env → Islet → Db → (Unit {0} × Option Err) × Db
unfolding remove_islet lock_metadata
delete env h = transaction tt (do
  wrapping lifecycle (change env begin_tx (λ w. w))
  there ← found (lock_metadata env h)
  elim there [
    | none ↦ pure (tt, none)
    | some md ↦ (do
      raise_if (is_initializing md.state) (sentinel unavailable)
      remove_islet env h md)
  ])
