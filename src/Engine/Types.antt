-- ===== src/Engine/Types.antt =====
-- The records of internal/engine/types.go and registry.go, and the database that the transactions of
-- the package change.
use pgislet.Base.{ℕ, String, Bool, true, false, Option, none, some, List, ◌==◌, if◌then◌else◌}
use pgislet.Base.Dict.{Dict}

-- The column `state`; `unset` is the "" of a zero `Islet`. No code writes `deleting`.
pub data State : Type 0 where
  unset active initializing failed deleting : State

abbrev pub is_initializing : State → Bool
is_initializing initializing = true
is_initializing _ = false

pub record Islet : Type 0 where
  pub id : String
  pub generation : ℕ
  pub state : State
  pub created_at : ℕ
  pub updated_at : ℕ

abbrev pub no_islet : Islet
no_islet = record { id = ""; generation = 0; state = unset; created_at = 0; updated_at = 0 }

pub record Metadata : Type 0 where
  pub islet : Islet
  pub open islet use *
  pub schema : String
  pub role : String
  pub password : String
  pub token : String

-- A row of pgislet_internal.islets, without its primary key.
pub record Row : Type 0 where
  pub schema_name : String
  pub role_name : String
  pub password : String
  pub state : State
  pub generation : ℕ
  pub init_token : Option String
  pub created_at : ℕ
  pub updated_at : ℕ

-- The registry by id, the dedicated schemas by name, each with the statements that were run in it
-- since it was created, and the runtime roles by name, each with its password.
pub record Db : Type 0 where
  pub islets : Dict Row
  pub schemas : Dict (List String)
  pub roles : Dict String

-- SQL's NULLIF(s,'') and COALESCE(t,'').
abbrev pub null_if_empty : String → Option String
null_if_empty s = if s == "" then none else some s

abbrev pub or_empty : Option String → String
or_empty (some s) = s
or_empty none = ""

-- The columns that `metadataSQL` selects, scanned by `readMetadata`.
unfoldable pub to_metadata : String → Row → Metadata
to_metadata id r = record {
  islet = record {
    id = id;
    generation = r.generation;
    state = r.state;
    created_at = r.created_at;
    updated_at = r.updated_at;
  };
  schema = r.schema_name;
  role = r.role_name;
  password = r.password;
  token = or_empty r.init_token;
}
