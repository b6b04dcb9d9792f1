-- ===== src/Tests/History.antt =====
-- The theorems on the registry of internal/engine along concrete transactions.
use pgislet.Base.{◌≡◌, refl, inl, true, false, some, none, [], ◌∷◌, ◌==◌}
use pgislet.Base.Dict.{lookup, insert}
use pgislet.Engine.Types.{Islet, Row, Db}
use pgislet.Engine.Exec.{◌>>=◌, on_error, call, commit}
use pgislet.Engine.Cleanup.{check_dependencies}
use pgislet.Engine.Lifecycle.{create, reset, delete, new_row, new_metadata, first_state}
use pgislet.Engine.Registry.{WellFormed}
use pgislet.Engine.Registry.Reach.{
  Reachable, bootstrapped, and_then, by_create, by_reset, Reachable-WellFormed,
}
use pgislet.Engine.Registry.Isolation.{Untouched, operations-Untouched}
use pgislet.Engine.Execute.{batch}
use pgislet.Errors.{ok}
use pgislet.Policy.Check.{check, walk_fields, examine, names_statement, case_of, visit}
use pgislet.Policy.Routines.{function}
use pgislet.Policy.Json.{get, names}
use pgislet.Policy.Sets.{statements, builtins}
use pgislet.Engine.Types.{to_metadata}
use pgislet.Base.Int.{◌-ℤ◌}
use pgislet.Engine.Gateway.{lookup_islet, read_metadata, enter, enter_row, finish}
use pgislet.Engine.Result.{query, conclude, scan_rows, charge_fields}
use pgislet.Engine.Execute.{
  check_size, check_sizes, local_functions, execute, complete, run_statements, connect_runtime,
  admit,
}
use pgislet.Engine.Lifecycle.{create_objects}
use pgislet.Engine.Initialize.{initialize, create_with_initialization, open_islet}
use pgislet.Tests.{parser}
use pgislet.Tests.Islets.{calm, manager}

abbrev pub empty : Db
empty = record { islets = []; schemas = []; roles = [] }

abbrev pub created_once : Db
created_once = (create calm true empty).1

abbrev pub recovered : Db
recovered = (reset calm (create calm true empty).0.0 false true created_once).1

-- An islet that is created for an initialization, and recovered.
recovered-Reachable : Reachable recovered
recovered-Reachable =
    and_then (and_then bootstrapped (by_create calm true)) (by_reset calm _ false true (inl refl))

Reachable-WellFormed_example : WellFormed recovered
Reachable-WellFormed_example = Reachable-WellFormed recovered recovered-Reachable

-- A second islet beside the first.
abbrev pub both : Db
both = (create (record calm { drawn = λ n. ok "1e" }) false created_once).1

pub both-WellFormed : WellFormed both
both-WellFormed = Reachable-WellFormed both (
    and_then (and_then bootstrapped (by_create calm true))
      (by_create (record calm { drawn = λ n. ok "1e" }) false))

abbrev pub second_row : Row
second_row = new_row (new_metadata "1e" "1e" "" (first_state false) 7)

pub second_row_found : lookup "1e" both.islets ≡ some second_row
unfolding create ◌>>=◌ on_error call lookup commit insert
second_row_found = refl

abbrev first : Islet
first = (create calm true empty).0.0

first-id : (first.id == "1e") ≡ false
unfolding create ◌>>=◌ on_error call lookup commit insert
first-id = refl

operations-Untouched_example :
    Untouched "1e" second_row both (batch parser manager calm first ("lower" ∷ []) both).1
    × Untouched "1e" second_row both (reset calm first false true both).1
    × Untouched "1e" second_row both (delete calm first both).1
operations-Untouched_example =
    operations-Untouched parser manager calm first ("lower" ∷ []) false true "1e" second_row both
      both-WellFormed (inl refl) first-id second_row_found

-- A creation with an initialization, from the empty registry to the active islet.
initialized : (create_with_initialization parser manager calm calm ("lower" ∷ []) empty).0.1 ≡ none
unfolding create_with_initialization check_size check_sizes ◌-ℤ◌ lookup_islet read_metadata
    to_metadata lookup insert ◌>>=◌ on_error call enter enter_row check_dependencies commit check
    get walk_fields examine names_statement case_of visit statements function names builtins query
    conclude local_functions scan_rows charge_fields create initialize execute complete finish
    run_statements connect_runtime open_islet create_objects admit
initialized = refl
