-- ===== src/Tests/Setup.antt =====
-- The theorems on the construction of a manager, on connection strings and on quoting, at concrete
-- inputs.
use pgislet.Base.{true, false, ◌≡◌, ◌↔◌, refl, none, some, [], ◌∷◌, ◌++◌, ◌==◌}
use pgislet.Base.Int.{pos}
use pgislet.Errors.{ok, err, no_rows}
use pgislet.Config.{normalized, with_defaults}
use pgislet.Engine.Execute.{Manager}
use pgislet.Engine.Bootstrap.{Catalog, Setup}
use pgislet.Engine.Identifiers.{Bytes, literal}
use pgislet.Engine.Identifiers.Literal.{read_literal, read_literal-literal}
use pgislet.Connection.{Params, Net, build, build_dsn, any_code}
use pgislet.Connection.Accepted.{IsAcceptable, IsPrinted, build_dsn_iff}
use pgislet.Tests.{zero_config}
use pgislet.Engine.Runtime.{ConnConfig, runtime_config, pool_params}
use pgislet.Engine.Runtime.Limits.{IsConfined, IsManaged, connections-IsBinding}
use pgislet.Tests.Islets.{row}
use pgislet.Engine.Types.{to_metadata}
use pgislet.Base.{String}
use pgislet.Base.Int.{ℤ}

abbrev pub setup : Setup
setup = record {
  fault = λ c. none;
  server_version = pos 180000;
  owned = true;
  public = err no_rows;
  names = ok "lower" ∷ ok "upper" ∷ [];
  names_ended = none;
  at_commit = none;
  applied = true;
}

abbrev pub bare : Catalog
bare = record {
  schemas = false;
  version = none;
  registry = false;
  restricted = false;
  gateway = false;
}

abbrev made : Manager
made = record {
  config = with_defaults zero_config;
  reserved = ("lower", false) ∷ ("upper", false) ∷ [];
}

-- A text with quotes, and what follows its literal.
abbrev tricky : Bytes
tricky = 39 ∷ 59 ∷ 39 ∷ 39 ∷ []

read_literal-literal_example : read_literal (literal tricky ++ 59 ∷ []) ≡ some (tricky, 59 ∷ [])
read_literal-literal_example = read_literal-literal tricky (59 ∷ []) refl

abbrev random : Bytes
random =
    0 ∷ 1 ∷ 15 ∷ 16 ∷ 17 ∷ 255 ∷ 254 ∷ 240 ∷ 160 ∷ 161 ∷ 171 ∷ 9 ∷ 0 ∷ 1 ∷ 15 ∷ 16 ∷ 17 ∷ 255 ∷ 254
    ∷ 240 ∷ 160 ∷ 161 ∷ 171 ∷ 9 ∷ []

abbrev name : Bytes
name =
    48 ∷ 48 ∷ 48 ∷ 49 ∷ 48 ∷ 102 ∷ 49 ∷ 48 ∷ 49 ∷ 49 ∷ 102 ∷ 102 ∷ 102 ∷ 101 ∷ 102 ∷ 48 ∷ 97 ∷ 48
    ∷ 97 ∷ 49 ∷ 97 ∷ 98 ∷ 48 ∷ 57 ∷ 48 ∷ 48 ∷ 48 ∷ 49 ∷ 48 ∷ 102 ∷ 49 ∷ 48 ∷ 49 ∷ 49 ∷ 102 ∷ 102
    ∷ 102 ∷ 101 ∷ 102 ∷ 48 ∷ 97 ∷ 48 ∷ 97 ∷ 49 ∷ 97 ∷ 98 ∷ 48 ∷ 57 ∷ []

abbrev net : Net
net = record {
  join_host_port = λ host port. host;
  itoa = λ n. "5432";
  is_ip = λ s. s == "::1";
  print = λ t. t.host;
}

abbrev params : Params
params = record {
  host = "::1";
  port = pos 0;
  database = "app";
  username = "app";
  password = "secret";
  ssl_mode = "";
}

build_dsn_iff_example :
    (build_dsn net (some params) ≡ ok "::1")
    ↔ (IsAcceptable net params × IsPrinted net params "::1")
build_dsn_iff_example = build_dsn_iff net params "::1"

dsn_built : build_dsn net (some params) ≡ ok "::1"
unfolding build any_code
dsn_built = refl

-- The texts of numbers do not matter here.
abbrev print_number : ℤ → String
print_number n = "10000"

abbrev parsed : ConnConfig String
parsed = record {
  database = "app";
  user = "postgres";
  password = "postgres";
  runtime_params = ("statement_timeout", "0") ∷ [];
  default_query_exec_mode = "cache_statement";
}

normal_zero : normalized zero_config ≡ some (with_defaults zero_config)
unfolding normalized
normal_zero = refl

connections-IsBinding_example :
    IsConfined print_number
      (λ s. s)
      (with_defaults zero_config)
      (to_metadata "a" row)
      (runtime_config print_number
        (λ s. s)
        "exec"
        parsed
        (with_defaults zero_config)
        (to_metadata "a" row))
    × IsManaged print_number
        (with_defaults zero_config)
        (pool_params print_number (with_defaults zero_config) parsed.runtime_params)
connections-IsBinding_example =
    connections-IsBinding print_number (λ s. s) "exec" parsed parsed.runtime_params zero_config
      (with_defaults zero_config) (to_metadata "a" row) normal_zero
