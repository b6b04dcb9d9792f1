-- ===== src/Engine/Bootstrap/Outcome.antt =====
-- What `bootstrap` of internal/engine/bootstrap.go and `New` of manager.go end in.
use pgislet.Base.{Bool, true, ◌≡◌, ◌⊎◌, none, some}
use pgislet.Base.Int.{pos, ◌≤ℤ◌, ltb_ℤ}
use pgislet.Base.Dict.{Dict}
use pgislet.Errors.{◌>>=◌, Err, Result, ok, err, no_rows}
use pgislet.Engine.Exec.{commit_error}
use pgislet.Engine.Bootstrap.Names.{Reserves}
use pgislet.Engine.Bootstrap.{Catalog, Setup, installed}

-- What the server has shown when `bootstrap` goes on to its commit: PostgreSQL 17 or 18, internal
-- schemas of its own role, no other version of them, and no schema that is open to everybody.
pub record IsSupported (s : Setup) (c : Catalog) : Type 0 where
  pub lower : pos 170000 ≤ℤ s.server_version
  pub upper : ltb_ℤ s.server_version (pos 190000) ≡ true
  pub owned : s.owned ≡ true
  pub version : (c.version ≡ none) ⊎ (c.version ≡ some (pos 1))
  pub closed : s.public ≡ err no_rows

-- How `bootstrap` ends: with an error and no effect; or behind its commit.
pub data BootstrapOutcome (s : Setup) (c : Catalog) (result : Result (Dict Bool)) (c' : Catalog)
    : Type 0 where
  refused : (e : Err) → result ≡ err e → c' ≡ c → BootstrapOutcome s c result c'
  unconfirmed :
      (e : Err)
      → IsSupported s c
      → s.at_commit ≡ some e
      → result ≡ err (commit_error e)
      → (c' ≡ installed c) ⊎ (c' ≡ c)
      → BootstrapOutcome s c result c'
  finished :
      (reserved : Dict Bool)
      → IsSupported s c
      → Reserves s.names reserved
      → result ≡ ok reserved
      → c' ≡ installed c
      → BootstrapOutcome s c result c'
