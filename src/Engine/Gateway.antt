-- ===== src/Engine/Gateway.antt =====
-- The functions pgislet_api.enter and pgislet_api.finish of internal/engine/bootstrap.go, which a
-- runtime connection calls, and `lookup` and `readMetadata` of registry.go.
use pgislet.Base.{ℕ, String, Bool, true, false, not, Option, none, some, ◌==◌, eqb, if◌then◌else◌}
use pgislet.Base.Dict.{lookup, insert}
use pgislet.Base.Int.{pos}
use pgislet.Errors.{Err, Result, ok, err, pg, no_rows, sentinel, not_found, classify, ◌>>◌}
use pgislet.Engine.Types.{State, active, initializing, failed, Metadata, Row, Db, to_metadata}
use pgislet.Engine.Exec.{Env, select_row}

-- RAISE EXCEPTION.
abbrev pub exception {ℓ} : {A : Type ℓ} → String → String → Result A
exception code message =
    err (pg (record { code = code; message = message; detail = ""; hint = ""; position = pos 0 }))

-- `((state='active' AND p_token IS NULL) OR (state='initializing' AND p_token IS NOT NULL AND
-- init_token=p_token)) IS TRUE`: a comparison with NULL is not true.
abbrev pub may_enter : State → Option String → Option String → Bool
may_enter active init_token none = true
may_enter initializing (some t) (some token) = t == token
may_enter _ init_token token = false

abbrev pub is_failed : State → Bool
is_failed failed = true
is_failed _ = false

unfoldable pub enter_row : Row → String → ℕ → Option String → Result (Unit {0})
enter_row r session_user generation token =
    if not (r.role_name == session_user)
    then exception "PI001" "islet not found"
    else if not (eqb r.generation generation)
    then exception "PI002" "stale generation"
    else if is_failed r.state
    then exception "PI004" "islet failed"
    else if may_enter r.state r.init_token token
    then ok tt
    else exception "PI003" "islet unavailable"

-- `enter(p_id,p_generation,p_token)`, called by `session_user`. The row stays locked; that another
-- transaction holds it is a fault of the call.
unfoldable pub enter : Db → String → String → ℕ → Option String → Result (Unit {0})
unfolding enter_row
enter w session_user id generation token = elim (lookup id w.islets) [
  | none ↦ exception "PI001" "islet not found"
  | some r ↦ enter_row r session_user generation token
]

-- UPDATE pgislet_internal.islets SET ... WHERE id=...
abbrev pub update_islet : String → (Row → Row) → Db → Db
update_islet id f w = elim (lookup id w.islets) [
  | none ↦ w
  | some r ↦ record w { islets = insert id (f r) w.islets }
]

-- `finish(p_id,p_generation,p_token)`.
unfoldable pub finish : ℕ → String → String → ℕ → Option String → Db → Result (Unit {0} × Db)
unfolding enter
finish now session_user id generation token w = elim token [
  | none ↦ exception "PI003" "initialization token required"
  | some t ↦ (do
    enter w session_user id generation (some t)
    ok (
      tt,
      update_islet id (λ r. record r { state = active; init_token = none; updated_at = now }) w,
    ))
]

-- The error of `row.Scan` in `readMetadata`.
unfoldable pub read_error : Err → Err
read_error no_rows = sentinel not_found
read_error e = classify e

-- `readMetadata` of the row that a query for one id gives, with the call's own error.
unfoldable pub read_metadata : Option Err → String → Db → Result Metadata
unfolding read_error to_metadata
read_metadata (some e) id w = err (read_error e)
read_metadata none id w = elim (lookup id w.islets) [
  | none ↦ err (read_error no_rows)
  | some r ↦ ok (to_metadata id r)
]

-- `m.lookup`.
unfoldable pub lookup_islet : Env → String → Db → Result Metadata
unfolding read_metadata
lookup_islet env id db = read_metadata (env.fault select_row) id db
