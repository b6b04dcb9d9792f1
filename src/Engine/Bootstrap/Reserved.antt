-- ===== src/Engine/Bootstrap/Reserved.antt =====
-- What a manager of `New` of internal/engine/manager.go has.
use pgislet.Base.{String, false, ◌≡◌, some, List}
use pgislet.Base.Dict.{Dict, lookup}
use pgislet.Config.{Config}
use pgislet.Config.Limits.{IsUsable}
use pgislet.Engine.Execute.{Manager, local_functions}
use pgislet.Engine.Bootstrap.{Catalog, Setup, installed}
use pgislet.Engine.Bootstrap.Names.{IsListed}
use pgislet.Engine.Bootstrap.Outcome.{IsSupported}

-- A manager has limits in their ranges and a supported database that is set up, and whatever routines
-- a workspace has, none with the name of a routine of pg_catalog is taken for one of its own.
pub record IsReady (s : Setup) (c : Catalog) (m : Manager) (c' : Catalog) : Type 0 where
  pub usable : IsUsable m.config
  pub supported : IsSupported s c
  pub set_up : c' ≡ installed c
  pub guarded :
      (name : String) (found : List String)
      → IsListed name s.names
      → lookup name (local_functions m.reserved found) ≡ some false
