-- ===== src/Engine/Runtime/Limits.antt =====
-- What the connections of a manager of internal/engine are bound by.
use Prim.Native.String.{◌++◌ as ◌then◌}
use pgislet.Base.{ℕ, ◌+◌, ◌*◌, ◌/◌, ◌≤◌, String, ◌≡◌, refl, Option, some, arith}
use pgislet.Base.Int.{ℤ, pos, negsuc, ◌≤ℤ◌}
use pgislet.Base.Dict.{Dict, lookup, lookup-insert}
use pgislet.Config.{Config, millisecond, normalized}
use pgislet.Config.Limits.{IsUsable, normalized-IsUsable}
use pgislet.Engine.Types.{Metadata}
use pgislet.Engine.Runtime.{ConnConfig, milliseconds, runtime_config, pool_params}

-- A parameter is a positive number of milliseconds, the limit rounded down: not the 0 by which
-- PostgreSQL is told that there is no limit.
pub record IsBinding (sprint : ℤ → String) (parameter : Option String) (limit : ℤ) : Type 0 where
  pub count : ℕ
  pub written : parameter ≡ some (sprint (pos count))
  pub positive : 1 ≤ count
  pub within : pos (count * millisecond) ≤ℤ limit
  pub close : limit ≤ℤ pos (count * millisecond + 999999)

below_zero : (n : ℕ) → pos millisecond ≤ℤ negsuc n → ⊥
below_zero n h = omega arith

binding :
    (sprint : ℤ → String) (parameter : Option String) (limit : ℤ)
    → parameter ≡ some (sprint (milliseconds limit))
    → pos millisecond ≤ℤ limit
    → IsBinding sprint parameter limit
unfolding milliseconds
binding sprint parameter (pos n) written least = record {
  count = n / millisecond;
  written = written;
  positive = omega arith;
  within = omega arith;
  close = omega arith;
}
binding sprint parameter (negsuc n) written least = elim (below_zero n least) [ ]

-- The connections of an islet's own role, with the statements of callers.
pub record IsConfined {Mode : Type 0} (sprint : ℤ → String) (ident : String → String)
    (limits : Config) (md : Metadata) (c : ConnConfig Mode) : Type 0 where
  pub user : c.user ≡ md.role
  pub password : c.password ≡ md.password
  pub path : lookup "search_path" c.runtime_params ≡ some (ident md.schema then ",pg_catalog")
  pub statement :
      IsBinding sprint (lookup "statement_timeout" c.runtime_params) limits.statement_timeout
  pub lock : IsBinding sprint (lookup "lock_timeout" c.runtime_params) limits.lock_timeout
  pub idle :
      IsBinding sprint
        (lookup "idle_in_transaction_session_timeout" c.runtime_params)
        limits.idle_transaction_timeout

-- The connections of the management role, with the transactions of operations.
pub record IsManaged (sprint : ℤ → String) (limits : Config) (params : Dict String) : Type 0 where
  pub path : lookup "search_path" params ≡ some "pg_catalog"
  pub statement : IsBinding sprint (lookup "statement_timeout" params) limits.operation_timeout
  pub lock : IsBinding sprint (lookup "lock_timeout" params) limits.lock_timeout
  pub idle :
      IsBinding sprint
        (lookup "idle_in_transaction_session_timeout" params)
        limits.idle_transaction_timeout

module _ (sprint : ℤ → String) (limits : Config) (fine : IsUsable limits) where
  confined :
      {Mode : Type 0} (ident : String → String) (exec_mode : Mode) (runtime : ConnConfig Mode)
      (md : Metadata)
      → IsConfined sprint ident limits md (runtime_config sprint ident exec_mode runtime limits md)
  unfolding runtime_config lookup
  confined ident exec_mode runtime md = record {
    user = refl;
    password = refl;
    path = refl;
    statement = binding sprint _ limits.statement_timeout refl fine.statement;
    lock = binding sprint _ limits.lock_timeout refl fine.lock;
    idle = binding sprint _ limits.idle_transaction_timeout refl fine.idle;
  }

  managed : (given : Dict String) → IsManaged sprint limits (pool_params sprint limits given)
  unfolding pool_params
  managed given = record {
    path = rw (lookup-insert, lookup-insert, lookup-insert, lookup-insert) refl;
    statement =
        binding sprint _ limits.operation_timeout
          (rw (lookup-insert, lookup-insert, lookup-insert) refl) fine.operation;
    lock = binding sprint _ limits.lock_timeout (rw (lookup-insert, lookup-insert) refl) fine.lock;
    idle = binding sprint _ limits.idle_transaction_timeout (rw lookup-insert refl) fine.idle;
  }

-- With the limits of a configuration that `normalized` accepts, a runtime connection logs in as the role
-- of its islet, with that islet's schema first in its search path, and the connections of the pool
-- search pg_catalog only; on both, each timeout is a positive number of milliseconds, the limit rounded
-- down, whatever parameters the connection string gave.
pub connections-IsBinding :
    {Mode : Type 0} (sprint : ℤ → String) (ident : String → String) (exec_mode : Mode)
    (runtime : ConnConfig Mode) (given : Dict String) (cfg limits : Config) (md : Metadata)
    → normalized cfg ≡ some limits
    → IsConfined sprint ident limits md (runtime_config sprint ident exec_mode runtime limits md)
      × IsManaged sprint limits (pool_params sprint limits given)
connections-IsBinding sprint ident exec_mode runtime given cfg limits md h =
    let (fine, _) = normalized-IsUsable cfg limits h in
    (confined sprint limits fine ident exec_mode runtime md, managed sprint limits fine given)
