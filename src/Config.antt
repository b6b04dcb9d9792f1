-- ===== src/Config.antt =====
-- internal/engine/config.go: the limits of a manager, their defaults and their validation.
-- A `time.Duration` is an integer number of nanoseconds.
pub mod Limits
use pgislet.Base.{ℕ, ◌*◌, ◌^◌, String, Bool, Option, none, some, ◌||◌, if◌then◌else◌}
use pgislet.Base.Int.{ℤ, pos, ltb_ℤ, eq_ℤ}

pub record Config : Type 0 where
  pub dsn : String
  pub operation_timeout : ℤ
  pub statement_timeout : ℤ
  pub lock_timeout : ℤ
  pub idle_transaction_timeout : ℤ
  pub max_sql_bytes : ℤ
  pub max_batch_statements : ℤ
  pub max_rows : ℤ
  pub max_result_bytes : ℤ

abbrev pub millisecond : ℕ
millisecond = 1000000

abbrev pub second : ℕ
second = 1000 * millisecond

-- `if field == 0 { field = value }`.
abbrev pub default : ℤ → ℕ → ℤ
default field value = if eq_ℤ field (pos 0) then pos value else field

pub with_defaults : Config → Config
with_defaults cfg = record {
  dsn = cfg.dsn;
  operation_timeout = default cfg.operation_timeout (30 * second);
  statement_timeout = default cfg.statement_timeout (10 * second);
  lock_timeout = default cfg.lock_timeout second;
  idle_transaction_timeout = default cfg.idle_transaction_timeout (15 * second);
  max_sql_bytes = default cfg.max_sql_bytes (2 ^ 20);
  max_batch_statements = default cfg.max_batch_statements 100;
  max_rows = default cfg.max_rows 1000;
  max_result_bytes = default cfg.max_result_bytes (4 * 2 ^ 20);
}

pub out_of_range : Config → Bool
out_of_range cfg =
    ltb_ℤ cfg.operation_timeout (pos millisecond)
    || ltb_ℤ cfg.statement_timeout (pos millisecond)
    || ltb_ℤ cfg.lock_timeout (pos millisecond)
    || ltb_ℤ cfg.idle_transaction_timeout (pos millisecond)
    || ltb_ℤ cfg.max_sql_bytes (pos 1)
    || ltb_ℤ cfg.max_batch_statements (pos 1)
    || ltb_ℤ cfg.max_rows (pos 1)
    || ltb_ℤ cfg.max_result_bytes (pos 1)

-- `none` is the error "pgislet: invalid limits", on which `New` gives no manager.
unfoldable pub normalized : Config → Option Config
unfolding with_defaults out_of_range
normalized cfg = let c = with_defaults cfg in if out_of_range c then none else some c
