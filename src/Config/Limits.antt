-- ===== src/Config/Limits.antt =====
-- What a manager may rely on in a normalized configuration.
use pgislet.Base.{ℕ, ◌*◌, ◌^◌, ◌<◌, ◌≤◌, ◌↔◌, ◌∙◌, ap, ◌≡◌, ◌⊎◌, false, some, arith, guard_passed}
use pgislet.Base.Int.{ℤ, pos, ◌≤ℤ◌}
use pgislet.Config.{Config, normalized, default, millisecond, second, with_defaults, out_of_range}

-- The ranges that the package documents.
pub record IsUsable (c : Config) : Type 0 where
  pub operation : pos millisecond ≤ℤ c.operation_timeout
  pub statement : pos millisecond ≤ℤ c.statement_timeout
  pub lock : pos millisecond ≤ℤ c.lock_timeout
  pub idle : pos millisecond ≤ℤ c.idle_transaction_timeout
  pub sql_bytes : pos 1 ≤ℤ c.max_sql_bytes
  pub batch : pos 1 ≤ℤ c.max_batch_statements
  pub rows : pos 1 ≤ℤ c.max_rows
  pub result_bytes : pos 1 ≤ℤ c.max_result_bytes

in_range-IsUsable : (c : Config) → out_of_range c ≡ false → IsUsable c
unfolding out_of_range
in_range-IsUsable c h = ground arith

IsUsable-in_range : (c : Config) → IsUsable c → out_of_range c ≡ false
unfolding out_of_range
IsUsable-in_range c u = ground arith

default_keeps : (v : ℤ) (n m : ℕ) → 0 < m → pos m ≤ℤ v → default v n ≡ v
default_keeps v n m p h = ground arith

with_defaults-IsUsable : (c : Config) → IsUsable c → with_defaults c ≡ c
unfolding with_defaults
with_defaults-IsUsable c u = rw (
  default_keeps c.operation_timeout (30 * second) millisecond (omega arith) u.operation,
  default_keeps c.statement_timeout (10 * second) millisecond (omega arith) u.statement,
  default_keeps c.lock_timeout second millisecond (omega arith) u.lock,
  default_keeps c.idle_transaction_timeout (15 * second) millisecond (omega arith) u.idle,
  default_keeps c.max_sql_bytes (2 ^ 20) 1 (omega arith) u.sql_bytes,
  default_keeps c.max_batch_statements 100 1 (omega arith) u.batch,
  default_keeps c.max_rows 1000 1 (omega arith) u.rows,
  default_keeps c.max_result_bytes (4 * 2 ^ 20) 1 (omega arith) u.result_bytes,
)

normalized-eq : (c : Config) → IsUsable (with_defaults c) → normalized c ≡ some (with_defaults c)
unfolding normalized
normalized-eq c u = rw (IsUsable-in_range (with_defaults c) u)

normalized-inv :
    (c d : Config) → normalized c ≡ some d → IsUsable (with_defaults c) × (with_defaults c ≡ d)
unfolding normalized
normalized-inv c d h =
    let (fine, e) = guard_passed (out_of_range (with_defaults c)) (with_defaults c) d h in
    (in_range-IsUsable _ fine, e)

-- A configuration that `normalized` accepts has every limit in its documented range, and is a fixed
-- point: normalizing it again changes nothing.
pub normalized-IsUsable :
    (c d : Config) → normalized c ≡ some d → IsUsable d × (normalized d ≡ some d)
normalized-IsUsable c d h =
    let (u, e) = normalized-inv c d h in
    let v : IsUsable d = rw e at u in
    (v, normalized-eq d (rw (with_defaults-IsUsable d v) v) ∙ ap some (with_defaults-IsUsable d v))

-- The source's rule for a field: zero selects the default, any other value must reach the minimum.
abbrev pub InRange : ℕ → ℤ → Type 0
InRange least v = (v ≡ pos 0) ⊎ (pos least ≤ℤ v)

pub record IsAcceptable (c : Config) : Type 0 where
  pub operation : InRange millisecond c.operation_timeout
  pub statement : InRange millisecond c.statement_timeout
  pub lock : InRange millisecond c.lock_timeout
  pub idle : InRange millisecond c.idle_transaction_timeout
  pub sql_bytes : InRange 1 c.max_sql_bytes
  pub batch : InRange 1 c.max_batch_statements
  pub rows : InRange 1 c.max_rows
  pub result_bytes : InRange 1 c.max_result_bytes

InRange-default : (m n : ℕ) (v : ℤ) → m ≤ n → InRange m v ↔ (pos m ≤ℤ default v n)
InRange-default m n v h = (λ r. ground arith, λ r. ground arith)

IsAcceptable-iff : (c : Config) → IsAcceptable c ↔ IsUsable (with_defaults c)
unfolding with_defaults
IsAcceptable-iff c = (
  λ a. record {
    operation =
        (InRange-default millisecond (30 * second) c.operation_timeout (omega arith)).0 a.operation;
    statement =
        (InRange-default millisecond (10 * second) c.statement_timeout (omega arith)).0 a.statement;
    lock = (InRange-default millisecond second c.lock_timeout (omega arith)).0 a.lock;
    idle =
        (InRange-default millisecond (15 * second) c.idle_transaction_timeout (omega arith)).0
          a.idle;
    sql_bytes = (InRange-default 1 (2 ^ 20) c.max_sql_bytes (omega arith)).0 a.sql_bytes;
    batch = (InRange-default 1 100 c.max_batch_statements (omega arith)).0 a.batch;
    rows = (InRange-default 1 1000 c.max_rows (omega arith)).0 a.rows;
    result_bytes =
        (InRange-default 1 (4 * 2 ^ 20) c.max_result_bytes (omega arith)).0 a.result_bytes;
  },
  λ u. record {
    operation =
        (InRange-default millisecond (30 * second) c.operation_timeout (omega arith)).1 u.operation;
    statement =
        (InRange-default millisecond (10 * second) c.statement_timeout (omega arith)).1 u.statement;
    lock = (InRange-default millisecond second c.lock_timeout (omega arith)).1 u.lock;
    idle =
        (InRange-default millisecond (15 * second) c.idle_transaction_timeout (omega arith)).1
          u.idle;
    sql_bytes = (InRange-default 1 (2 ^ 20) c.max_sql_bytes (omega arith)).1 u.sql_bytes;
    batch = (InRange-default 1 100 c.max_batch_statements (omega arith)).1 u.batch;
    rows = (InRange-default 1 1000 c.max_rows (omega arith)).1 u.rows;
    result_bytes =
        (InRange-default 1 (4 * 2 ^ 20) c.max_result_bytes (omega arith)).1 u.result_bytes;
  },
)

-- `normalized` accepts a configuration exactly when each of its numbers is zero or at least the
-- documented minimum: one millisecond for a duration, one for a count or a size.
pub normalized_accepts : (c : Config) → ((d : Config) × (normalized c ≡ some d)) ↔ IsAcceptable c
normalized_accepts c = (
  λ (d, h). (IsAcceptable-iff c).1 (normalized-inv c d h).0,
  λ a. (with_defaults c, normalized-eq c ((IsAcceptable-iff c).0 a)),
)
