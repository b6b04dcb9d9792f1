-- ===== src/Tests.antt =====
-- The theorems at concrete inputs, and runs of the operations on them: configuration, errors and
-- policy here, the engine in the children.
mod Islets
mod Web
mod Requests
mod Neighbours
mod Interleaved
mod Setup
mod Programs
mod History
mod Past
mod Meanwhile
mod Launches
use pgislet.Base.{
  ℕ, String, Bool, true, false, ◌≡◌, ◌≢◌, ◌⊎◌, ◌↔◌, refl, inl, inr, Option, none, some, List, [],
  ◌∷◌, length, arith,
}
use pgislet.Base.Int.{ℤ, pos, ◌≤ℤ◌}
use pgislet.Base.Dict.{lookup}
use pgislet.Config.{Config, with_defaults, normalized}
use pgislet.Config.Limits.{IsUsable, IsAcceptable, normalized-IsUsable, normalized_accepts}
use pgislet.Errors.{
  PgError, Err, Errs, Result, ok, err, is, is_deadline, as_pg, classify, code_kind, pg, foreign,
  other, sentinel, not_found,
}
use pgislet.Errors.Classify.{is-classify_pg, is-classify_keeps}
use pgislet.Policy.Json.{Json, Items, Fields, text, array, object, get, names}
use pgislet.Policy.Routines.{function}
use pgislet.Policy.Check.{Parser, check, walk_fields, examine, names_statement, case_of, visit}
use pgislet.Policy.Sets.{statements, builtins}
use pgislet.Policy.Admitted.{Admitted}
use pgislet.Policy.Sound.{check-Admitted}

abbrev zero_config : Config
zero_config = record {
  dsn = "";
  operation_timeout = pos 0;
  statement_timeout = pos 0;
  lock_timeout = pos 0;
  idle_transaction_timeout = pos 0;
  max_sql_bytes = pos 0;
  max_batch_statements = pos 0;
  max_rows = pos 0;
  max_result_bytes = pos 0;
}

abbrev one_row_config : Config
one_row_config = record zero_config {
  max_sql_bytes = pos 64;
  max_batch_statements = pos 2;
  max_rows = pos 1;
  max_result_bytes = pos 100;
}

normalized_zero : normalized zero_config ≡ some (with_defaults zero_config)
unfolding normalized
normalized_zero = refl

normalized_accepts_example :
    ((d : Config) × (normalized zero_config ≡ some d)) ↔ IsAcceptable zero_config
normalized_accepts_example = normalized_accepts zero_config

-- The tree of `SELECT f(...)`.
abbrev sole_field : String → Json → Json
sole_field key value = object (Fields.field key value Fields.end)

abbrev sole_item : Json → Json
sole_item value = array (Items.cons value Items.nil)

abbrev select_call : String → Json
select_call f = sole_field "SelectStmt" (
    sole_field "targetList" (
      sole_item (
        sole_field "FuncCall"
          (sole_field "funcname" (sole_item (sole_field "String" (sole_field "sval" (text f))))))))

-- A parser for which every text is that statement, with the text for the name.
abbrev parser : Parser
parser = record {
  parse_to_json = ok;
  unmarshal =
      λ f. ok (Fields.field "stmts" (sole_item (sole_field "stmt" (select_call f))) Fields.end);
}

lower_accepted : check parser "pgislet_i_a" "lower" [] ≡ ok tt
unfolding check get walk_fields examine names_statement case_of visit statements function names
    lookup builtins
lower_accepted = refl

check-Admitted_example : Admitted parser "pgislet_i_a" [] 17 true "lower"
check-Admitted_example = check-Admitted parser "pgislet_i_a" [] "lower" lower_accepted

file_refused :
    check parser "pgislet_i_a" "pg_read_file" [] ≡ err (other "function is not in the SQL policy")
unfolding check get walk_fields examine names_statement case_of visit statements function names
    lookup builtins
file_refused = refl
