-- ===== src/Engine/Cleanup.antt =====
-- What the management transactions of internal/engine/lifecycle.go share: the locked read, the check of
-- dependencies.go, the schema statements, and `failLifecycle`.
use pgislet.Base.{ℕ, String, not, Option, none, some, [], eqb}
use pgislet.Base.Dict.{lookup, insert, erase}
use pgislet.Errors.{
  Err, Result, ok, err, other, sentinel, stale_generation, lifecycle, external_dependency, wrap,
  joined, nil, cons,
}
use pgislet.Engine.Types.{failed, Islet, Metadata, Row, Db}
use pgislet.Engine.Exec.{
  Env, lock_row, dependencies, rollback_to, fail_row, Exec, ◌>>=◌, ◌>>◌, pure, raise, lift,
  raise_if, query_work, change, on_error, commit,
}
use pgislet.Engine.Gateway.{exception, update_islet, read_metadata}

-- CREATE SCHEMA, and `m.createSchema`.
abbrev pub add_schema : String → Db → Result (Unit {0} × Db)
add_schema name w = elim (lookup name w.schemas) [
  | some taken ↦ exception "42P06" "schema already exists"
  | none ↦ ok (tt, record w { schemas = insert name [] w.schemas })
]

-- `lockMetadata`: SELECT ... FOR UPDATE NOWAIT. A row that another transaction holds is a fault.
unfoldable pub lock_metadata : Env → Islet → Exec Metadata
unfolding read_metadata
lock_metadata env h = do
  md ← query_work (read_metadata (env.fault lock_row) h.id)
  raise_if (not (eqb md.generation h.generation)) (sentinel stale_generation)
  pure md

abbrev pub dependency_result : Option String → Result (Unit {0})
dependency_result none = ok tt
dependency_result (some object) = err (wrap external_dependency (other object))

-- `checkDependencies` of dependencies.go.
unfoldable pub check_dependencies : Env → Exec (Unit {0})
check_dependencies env = do change env dependencies (λ w. w); lift (dependency_result env.dependent)

abbrev pub mark : ℕ → Row → Row
mark now r = record r { state = failed; init_token = none; updated_at = now }

-- `errors.Join(cause, e)` for an error `cause`.
abbrev pub join_cause : Err → Option Err → Err
join_cause cause none = joined (cons cause nil)
join_cause cause (some e) = joined (cons cause (cons e nil))

-- `m.failLifecycle`: it commits the mark, and always returns an error.
unfoldable pub fail_lifecycle {ℓ} : {A : Type ℓ} → Env → Metadata → Err → Exec A
unfolding commit
fail_lifecycle env md cause = do
  on_error (λ e. raise (wrap lifecycle (join_cause cause (some e))))
      (change env fail_row (update_islet md.id (mark env.now)))
  ended ← commit env
  raise (wrap lifecycle (join_cause cause ended))

-- DROP SCHEMA ... CASCADE.
abbrev pub remove_schema : String → Db → Result (Unit {0} × Db)
remove_schema name w = elim (lookup name w.schemas) [
  | none ↦ exception "3F000" "schema does not exist"
  | some content ↦ ok (tt, record w { schemas = erase name w.schemas })
]

-- What an error after SAVEPOINT cleanup leads to; the error of ROLLBACK TO is ignored.
abbrev pub undo_cleanup {ℓ} : {A : Type ℓ} → Env → Metadata → Db → Err → Exec A
undo_cleanup env md saved e = do
  on_error (λ _. pure tt) (change env rollback_to (λ _. saved))
  fail_lifecycle env md e

abbrev pub current : Exec Db
current t = (ok t.work, t)
