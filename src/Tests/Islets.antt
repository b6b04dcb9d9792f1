-- ===== src/Tests/Islets.antt =====
-- The theorems on internal/engine at a registry with one islet.
use pgislet.Base.{String, true, false, ◌≡◌, ◌↔◌, refl, inl, none, some, [], ◌∷◌, length, arith}
use pgislet.Base.Int.{pos, ◌≤ℤ◌, ◌-ℤ◌}
use pgislet.Base.Dict.{lookup, insert, erase}
use pgislet.Policy.Routines.{function}
use pgislet.Policy.Check.{check, walk_fields, examine, names_statement, case_of, visit}
use pgislet.Policy.Json.{get, names}
use pgislet.Policy.Sets.{statements, builtins}
use pgislet.Engine.Gateway.{lookup_islet, enter}
use pgislet.Errors.{ok, sentinel, stale_generation}
use pgislet.Engine.Types.{Islet, Metadata, Row, Db, active, to_metadata}
use pgislet.Engine.Exec.{Env, Cursor, ◌>>=◌, on_error, call, commit}
use pgislet.Engine.Cleanup.{check_dependencies}
use pgislet.Engine.Lifecycle.{first_state, new_metadata, create, reset, delete, advance_and_commit}
use pgislet.Engine.Lifecycle.Create.{IsFresh, CreateOutcome, create-CreateOutcome}
use pgislet.Engine.Lifecycle.Reset.{ResetOutcome, reset-ResetOutcome}
use pgislet.Engine.Lifecycle.Delete.{removed_db, DeleteOutcome, delete-DeleteOutcome}
use pgislet.Engine.Lifecycle.Calm.{
  IsCalm, Creates, create_succeeds, reset_succeeds, delete_succeeds,
}
use pgislet.Engine.Initialize.{initialize}
use pgislet.Engine.Initialize.Fence.{InitializeOutcome, initialize-InitializeOutcome}
use pgislet.Engine.Result.{Budget, query, conclude, scan_rows, charge_fields}
use pgislet.Engine.Result.Bounds.{QueryCases, whole, query_cases}
use pgislet.Engine.Execute.{Manager, check_size, execute, batch, local_functions}
use pgislet.Engine.Execute.Size.{total_len, check_size_iff}
use pgislet.Engine.Execute.Whole.{ExecuteOutcome, execute-ExecuteOutcome}
use pgislet.Engine.Execute.Fresh.{BatchOutcome, batch-BatchOutcome}
use pgislet.Tests.{one_row_config, parser}

abbrev pub one_row : Cursor
one_row = record {
  fields = record { name = "n"; data_type_oid = 23 } ∷ [];
  rows = (some "1" ∷ []) ∷ [];
  ended = none;
  tag = "SELECT 1";
  affected = 1;
}

-- A server that fails no call.
abbrev pub calm : Env
calm = record {
  fault = λ c. none;
  dependent = none;
  at_commit = none;
  applied = true;
  drawn = λ n. ok "0f";
  now = 7;
  routines = λ i. ok [];
  reply = λ i. ok one_row;
}

abbrev pub row : Row
row = record {
  schema_name = "pgislet_i_a";
  role_name = "pgislet_r_a";
  password = "secret";
  state = active;
  generation = 3;
  init_token = none;
  created_at = 1;
  updated_at = 2;
}

abbrev pub registry : Db
registry = record {
  islets = ("a", row) ∷ [];
  schemas = ("pgislet_i_a", []) ∷ [];
  roles = ("pgislet_r_a", "secret") ∷ [];
}

abbrev pub handle : Islet
handle = record { id = "a"; generation = 3; state = active; created_at = 1; updated_at = 2 }

abbrev pub manager : Manager
manager = record { config = one_row_config; reserved = [] }

abbrev budgets : Budget
budgets = record { rows_left = pos 1; bytes_left = pos 100 }

create-CreateOutcome_example :
    CreateOutcome calm true registry (create calm true registry).0 (create calm true registry).1
create-CreateOutcome_example = create-CreateOutcome calm true registry

reset-ResetOutcome_example :
    ResetOutcome calm handle false false registry
      (reset calm handle false false registry).0
      (reset calm handle false false registry).1
reset-ResetOutcome_example = reset-ResetOutcome calm handle false false registry (inl refl)

delete-DeleteOutcome_example :
    DeleteOutcome calm handle registry
      (delete calm handle registry).0
      (delete calm handle registry).1
delete-DeleteOutcome_example = delete-DeleteOutcome calm handle registry (inl refl)

query_cases_example : QueryCases one_row budgets (query (ok one_row) budgets)
query_cases_example = query_cases one_row budgets

check_size_iff_example : (check_size one_row_config ("lower" ∷ "upper" ∷ []) ≡ ok tt) ↔ (
    (pos (length {A = String} ("lower" ∷ "upper" ∷ [])) ≤ℤ one_row_config.max_batch_statements)
    × (pos (total_len ("lower" ∷ "upper" ∷ [])) ≤ℤ one_row_config.max_sql_bytes))
check_size_iff_example = check_size_iff one_row_config ("lower" ∷ "upper" ∷ []) (ground arith)

execute-ExecuteOutcome_example :
    ExecuteOutcome parser manager calm
      (to_metadata "a" row)
      ("lower" ∷ [])
      false
      registry
      (execute parser manager calm (to_metadata "a" row) ("lower" ∷ []) false registry).0
      (execute parser manager calm (to_metadata "a" row) ("lower" ∷ []) false registry).1
execute-ExecuteOutcome_example =
    execute-ExecuteOutcome parser manager calm (to_metadata "a" row) ("lower" ∷ []) false registry

batch-BatchOutcome_example :
    BatchOutcome parser manager calm handle
      ("lower" ∷ [])
      registry
      (batch parser manager calm handle ("lower" ∷ []) registry).0
      (batch parser manager calm handle ("lower" ∷ []) registry).1
batch-BatchOutcome_example = batch-BatchOutcome parser manager calm handle ("lower" ∷ []) registry

-- A reset empties the schema and moves to the next generation.
reset_advances : reset calm handle false false registry ≡ (
  ((record handle { generation = 4; updated_at = 7 }), none),
  record registry { islets = ("a", record row { generation = 4; updated_at = 7 }) ∷ [] },
)
unfolding reset ◌>>=◌ on_error call lookup check_dependencies erase advance_and_commit commit insert
reset_advances = refl

-- The old handle is refused after it.
stale_refused :
    batch parser manager calm (record handle { generation = 2 }) ("lower" ∷ []) registry
    ≡ (([], some (sentinel stale_generation)), registry)
unfolding batch check_size ◌-ℤ◌ lookup_islet lookup
stale_refused = refl

lower_ran :
    batch parser manager calm handle ("lower" ∷ []) registry
    ≡ ((whole one_row ∷ [], none), record registry { schemas = ("pgislet_i_a", "lower" ∷ []) ∷ [] })
unfolding batch check_size ◌-ℤ◌ lookup_islet lookup insert ◌>>=◌ on_error call enter
    check_dependencies commit check get walk_fields examine names_statement case_of visit statements
    function names builtins query conclude local_functions scan_rows charge_fields
lower_ran = refl

-- The hypotheses of success.
pub calm-IsCalm : IsCalm calm
calm-IsCalm = record { fault = λ c. refl; dependent = refl; commit = refl }

pub row_found : lookup "a" registry.islets ≡ some row
unfolding lookup
row_found = refl

pub schema_found : lookup "pgislet_i_a" registry.schemas ≡ some []
unfolding lookup
schema_found = refl

pub role_found : lookup "pgislet_r_a" registry.roles ≡ some "secret"
unfolding lookup
role_found = refl

abbrev drawn_metadata : Metadata
drawn_metadata = new_metadata "0f" "0f" "0f" (first_state true) 7

drawn_metadata-IsFresh : IsFresh drawn_metadata registry
unfolding lookup
drawn_metadata-IsFresh = record { row = refl; schema = refl; role = refl }

create_succeeds_example : Creates calm true (some "0f") "0f" "0f" registry
unfolding lookup
create_succeeds_example =
    create_succeeds calm true registry "0f" "0f" (some "0f") calm-IsCalm refl refl
      ("0f", refl, refl, refl) refl refl refl

reset_succeeds_example : reset calm handle false false registry ≡ (
  (
    record { id = "a"; generation = 4; state = active; created_at = 1; updated_at = calm.now },
    none,
  ),
  record {
    islets =
        insert "a"
          (record row { state = active; generation = 4; init_token = none; updated_at = calm.now })
          registry.islets;
    schemas = insert "pgislet_i_a" [] (erase "pgislet_i_a" registry.schemas);
    roles = registry.roles;
  },
)
reset_succeeds_example =
    reset_succeeds calm handle false registry row [] calm-IsCalm row_found refl refl schema_found

delete_succeeds_example : delete calm handle registry ≡ ((tt, none), removed_db "a" row registry)
delete_succeeds_example =
    delete_succeeds calm handle registry row [] "secret" calm-IsCalm row_found refl refl
      schema_found role_found

-- The row is active, so the initialization is refused, and nothing is left to mark.
initialize-InitializeOutcome_example :
    InitializeOutcome parser manager calm handle
      ("lower" ∷ [])
      registry
      (initialize parser manager calm handle ("lower" ∷ []) registry).0
      (initialize parser manager calm handle ("lower" ∷ []) registry).1
initialize-InitializeOutcome_example =
    initialize-InitializeOutcome parser manager calm handle ("lower" ∷ []) registry
