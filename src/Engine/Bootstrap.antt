-- ===== src/Engine/Bootstrap.antt =====
-- `bootstrap` of internal/engine/bootstrap.go, and `New` of manager.go.
pub mod Names
pub mod Outcome
pub mod Reserved
use pgislet.Base.{
  ℕ, String, Bool, true, false, not, ◌||◌, Option, none, some, List, [], ◌∷◌, if◌then◌else◌,
}
use pgislet.Base.Int.{ℤ, pos, ltb_ℤ, eq_ℤ}
use pgislet.Base.Dict.{Dict, insert}
use pgislet.Errors.{Err, Result, ok, err, other, no_rows, wrap, unsupported, refuse_if, ◌>>=◌, ◌>>◌}
use pgislet.Config.{Config, normalized}
use pgislet.Engine.Exec.{commit_error}
use pgislet.Engine.Execute.{Manager}

-- What the transaction of `bootstrap` sets up: the two internal schemas, the row of
-- pgislet_internal.version, the registry, the rights taken from PUBLIC, and the gateway functions.
pub record Catalog : Type 0 where
  pub schemas : Bool
  pub version : Option ℤ
  pub registry : Bool
  pub restricted : Bool
  pub gateway : Bool

-- The calls of the driver, by place.
pub data SetupCall : Type 0 where
  begin_setup select_server lock_setup create_schemas select_owner create_version : SetupCall
  read_version create_registry revoke_database create_gateway select_names : SetupCall

pub record Setup : Type 0 where
  -- The error of a call, if it fails.
  pub fault : SetupCall → Option Err
  pub server_version : ℤ
  -- Whether the ownership query finds both schemas with the role of the connection.
  pub owned : Bool
  -- The answer to the query for a schema that grants PUBLIC access; no row is `no_rows`.
  pub public : Result String
  -- The routine names of pg_catalog as they are scanned, and what the rows ended with.
  pub names : List (Result String)
  pub names_ended : Option Err
  pub at_commit : Option Err
  pub applied : Bool

abbrev pub failing : Option Err → Result (Unit {0})
failing none = ok tt
failing (some e) = err e

abbrev pub as_unsupported : Result (Unit {0}) → Result (Unit {0})
as_unsupported (ok _) = ok tt
as_unsupported (err e) = err (wrap unsupported e)

-- INSERT ... VALUES(true,1) ON CONFLICT DO NOTHING.
abbrev pub version_after : Option ℤ → ℤ
version_after none = pos 1
version_after (some v) = v

-- The result of the query for PUBLIC access.
abbrev pub check_public : Result String → Result (Unit {0})
check_public (ok schema) = err (wrap unsupported (other "schema grants PUBLIC access"))
check_public (err no_rows) = ok tt
check_public (err e) = err e

-- The loop over the rows: `m.reserved[name] = false`.
unfoldable pub scan_names : List (Result String) → Dict Bool → Result (Dict Bool)
scan_names [] reserved = ok reserved
scan_names (err e ∷ rest) reserved = err e
scan_names (ok name ∷ rest) reserved = scan_names rest (insert name false reserved)

abbrev pub installed : Catalog → Catalog
installed c = record {
  schemas = true;
  version = some (version_after c.version);
  registry = true;
  restricted = true;
  gateway = true;
}

-- `return commit(ctx, tx)`, where a result of the commit says whether the server applied it.
abbrev pub conclude_with :
    Catalog → Result (Dict Bool) → Option Err → Bool → Result (Dict Bool) × Catalog
conclude_with c (err e) commit applied = (err e, c)
conclude_with c (ok reserved) none applied = (ok reserved, installed c)
conclude_with c (ok reserved) (some e) true = (err (commit_error e), installed c)
conclude_with c (ok reserved) (some e) false = (err (commit_error e), c)

-- `m.reserved` and the limits, or the error of `m.bootstrap`.
abbrev pub with_reserved : Config → Result (Dict Bool) × Catalog → Result Manager × Catalog
with_reserved cfg (err e, c) = (err e, c)
with_reserved cfg (ok reserved, c) = (ok (record { config = cfg; reserved = reserved }), c)

module _ (s : Setup) where
  -- `if err != nil { return err }` behind a call.
  abbrev pub do_call : SetupCall → Result (Unit {0})
  do_call c = failing (s.fault c)

  abbrev pub wrong_server : Bool
  wrong_server = ltb_ℤ s.server_version (pos 170000) || not (ltb_ℤ s.server_version (pos 190000))

  -- The transaction up to its commit, in its stages.
  pub connect_server : Result (Unit {0})
  connect_server = do
    as_unsupported (do_call begin_setup)
    as_unsupported (do_call select_server)
    refuse_if wrong_server (wrap unsupported (other "PostgreSQL 17 or 18 required"))

  pub make_schemas : Result (Unit {0})
  make_schemas = do do_call lock_setup; as_unsupported (do_call create_schemas)

  pub check_owner : Result (Unit {0})
  check_owner = do
    do_call select_owner
    refuse_if (not s.owned)
        (wrap unsupported (other "internal schemas must belong to management identity"))

  pub check_version : Catalog → Result (Unit {0})
  check_version c = do
    do_call create_version
    do_call read_version
    refuse_if (not (eq_ℤ (version_after c.version) (pos 1)))
        (wrap unsupported (other "unsupported internal schema version"))

  pub open_registry : Result (Unit {0})
  open_registry = do do_call create_registry; do_call revoke_database; check_public s.public

  -- With the rows of the last query, and `rows.Err()` behind them.
  pub load_names : Result (Dict Bool)
  unfolding scan_names
  load_names = do
    do_call create_gateway
    do_call select_names
    reserved ← scan_names s.names []
    failing s.names_ended
    ok reserved

  unfoldable pub prepare : Catalog → Result (Dict Bool)
  unfolding connect_server make_schemas check_owner check_version open_registry load_names
  prepare c = do
    connect_server
    make_schemas
    check_owner
    check_version c
    open_registry
    load_names

  -- `m.bootstrap`, with the map `m.reserved` that it leaves if it returns no error.
  unfoldable pub bootstrap : Catalog → Result (Dict Bool) × Catalog
  unfolding prepare
  bootstrap c = conclude_with c (prepare c) s.at_commit s.applied

  -- A connection string that pgxpool refuses and a pool that cannot be made are the errors `parsed` and
  -- `pooled`.
  abbrev pub pool_made : Config → Catalog → Option Err → Option Err → Result Manager × Catalog
  pool_made cfg c (some e) pooled = (err e, c)
  pool_made cfg c none (some e) = (err e, c)
  pool_made cfg c none none = with_reserved cfg (bootstrap c)

  -- `New`.
  unfoldable pub new_manager : Config → Option Err → Option Err → Catalog → Result Manager × Catalog
  new_manager cfg parsed pooled c = elim (normalized cfg) [
    | none ↦ (err (other "pgislet: invalid limits"), c)
    | some limits ↦ pool_made limits c parsed pooled
  ]
