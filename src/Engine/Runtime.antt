-- ===== src/Engine/Runtime.antt =====
-- `runtimeConfig` of internal/engine/connection.go, and the runtime parameters that `New` of manager.go
-- gives to the connections of the pool.
pub mod Limits
use Prim.Native.String.{◌++◌ as ◌then◌}
use pgislet.Base.{ℕ, suc, ◌/◌, String, List, [], ◌∷◌}
use pgislet.Base.Int.{ℤ, pos, negsuc, sub_ℕ}
use pgislet.Base.Dict.{Dict, insert}
use pgislet.Config.{Config, millisecond}
use pgislet.Engine.Types.{Metadata}

-- The fields of pgx.ConnConfig that the package reads or writes; `Mode` is pgx.QueryExecMode.
pub record ConnConfig (Mode : Type 0) : Type 0 where
  pub database : String
  pub user : String
  pub password : String
  pub runtime_params : Dict String
  pub default_query_exec_mode : Mode

-- `d.Milliseconds()`, which rounds towards zero.
unfoldable pub milliseconds : ℤ → ℤ
milliseconds (pos n) = pos (n / millisecond)
milliseconds (negsuc n) = sub_ℕ 0 (suc n / millisecond)

-- fmt.Sprint of an integer; `ident`, a call of pgx; and pgx.QueryExecModeExec.
module _ {Mode : Type 0} (sprint : ℤ → String) (ident : String → String) (exec_mode : Mode) where
  -- `m.runtimeConfig`.
  unfoldable pub runtime_config : ConnConfig Mode → Config → Metadata → ConnConfig Mode
  unfolding milliseconds
  runtime_config runtime config md = record runtime {
    user = md.role;
    password = md.password;
    runtime_params =
        ("search_path", ident md.schema then ",pg_catalog")
        ∷ ("standard_conforming_strings", "on")
        ∷ ("statement_timeout", sprint (milliseconds config.statement_timeout))
        ∷ ("lock_timeout", sprint (milliseconds config.lock_timeout))
        ∷ (
          "idle_in_transaction_session_timeout",
          sprint (milliseconds config.idle_transaction_timeout),
        )
        ∷ ("application_name", "pgislet-runtime")
        ∷ [];
    default_query_exec_mode = exec_mode;
  }

-- The four assignments to `pc.ConnConfig.RuntimeParams`.
module _ (sprint : ℤ → String) where
  unfoldable pub pool_params : Config → Dict String → Dict String
  unfolding milliseconds
  pool_params cfg given =
      insert "idle_in_transaction_session_timeout"
        (sprint (milliseconds cfg.idle_transaction_timeout))
        (insert "lock_timeout" (sprint (milliseconds cfg.lock_timeout)) (
          insert "statement_timeout" (sprint (milliseconds cfg.operation_timeout))
            (insert "search_path" "pg_catalog" given)))
