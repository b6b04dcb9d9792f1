-- ===== src/Engine/Workspaces/View.antt =====
-- The registry and the schemas as a map of workspaces.
use pgislet.Base.{
  String, false, ◌≡◌, ◌==◌, refl, sym, ap, ◌∙◌, inl, inr, Option, none, some, List, [],
  Option-cases,
}
use pgislet.Base.Dict.{Dict, lookup, insert}
use pgislet.Engine.Types.{Row, Db}
use pgislet.Engine.Registry.{at_other, at_same}
use pgislet.Engine.Workspaces.Spec.{Workspace, Workspaces, Only}

abbrev pub content_of : Option (List String) → List String
content_of none = []
content_of (some c) = c

abbrev pub seen : Dict (List String) → Row → Workspace
seen schemas r = record {
  state = r.state;
  generation = r.generation;
  content = content_of (lookup r.schema_name schemas);
}

abbrev seen_row : Dict (List String) → Option Row → Option Workspace
seen_row schemas none = none
seen_row schemas (some r) = some (seen schemas r)

-- The workspaces of a database.
abbrev pub view : Db → Workspaces
view db id = seen_row db.schemas (lookup id db.islets)

pub view-found :
    (db : Db) (id : String) (r : Row)
    → lookup id db.islets ≡ some r
    → view db id ≡ some (seen db.schemas r)
view-found db id r s = ap (seen_row db.schemas) s

pub view-absent : (db : Db) (id : String) → lookup id db.islets ≡ none → view db id ≡ none
view-absent db id n = ap (seen_row db.schemas) n

pub view-same : {db db' : Db} → db' ≡ db → (j : String) → view db' j ≡ view db j
view-same e j = ap (λ w. view w j) e

-- Another name, whose row is as it was, and whose schema too if it has one.
view-other :
    (db db' : Db) (j : String)
    → lookup j db'.islets ≡ lookup j db.islets
    → ((r : Row)
        → lookup j db.islets ≡ some r
        → lookup r.schema_name db'.schemas ≡ lookup r.schema_name db.schemas)
    → view db' j ≡ view db j
view-other db db' j row schema = elim (Option-cases (lookup j db.islets)) [
  | inl n ↦ view-absent db' j (row ∙ n) ∙ sym (view-absent db j n)
  | inr (r, s) ↦
      view-found db' j r (row ∙ s)
      ∙ ap
          (λ o.
            some (record { state = r.state; generation = r.generation; content = content_of o }))
          (schema r s)
      ∙ sym (view-found db j r s)
]

-- One row, and its schema, are changed at most.
pub record IsLocal (id : String) (db db' : Db) : Type 0 where
  pub rows : (j : String) → (id == j) ≡ false → lookup j db'.islets ≡ lookup j db.islets
  pub schemas :
      (j : String) (r : Row)
      → (id == j) ≡ false
      → lookup j db.islets ≡ some r
      → lookup r.schema_name db'.schemas ≡ lookup r.schema_name db.schemas

pub local-others :
    {id : String} {db db' : Db}
    → IsLocal id db db'
    → (j : String) → (id == j) ≡ false
    → view db' j ≡ view db j
local-others {id} {db} {db'} l j other =
    view-other db db' j (l.rows j other) (λ r there. l.schemas j r other there)

-- The workspace that becomes the one of a row and a content.
pub becomes-Only :
    (id : String) (db db' : Db) (new : Row) (o : Option (List String))
    → IsLocal id db db'
    → lookup id db'.islets ≡ some new
    → lookup new.schema_name db'.schemas ≡ o
    → Only id
        (some (record { state = new.state; generation = new.generation; content = content_of o }))
        (view db)
        (view db')
becomes-Only id db db' new o l found schema = record {
  becomes =
      view-found db' id new found
      ∙ ap
          (λ o.
            some
              (record { state = new.state; generation = new.generation; content = content_of o }))
          schema;
  others = local-others l;
}

-- A change of one row that keeps the name of its schema.
pub row-Only :
    (id : String) (db : Db) (r new : Row)
    → new.schema_name ≡ r.schema_name
    → Only id
        (some (record {
          state = new.state;
          generation = new.generation;
          content = (seen db.schemas r).content;
        }))
        (view db)
        (view (record db { islets = insert id new db.islets }))
row-Only id db r new same =
    becomes-Only id db (record db { islets = insert id new db.islets }) new
      (lookup r.schema_name db.schemas)
      (record {
        rows = λ j other. at_other id j new db.islets other;
        schemas = λ j r other there. refl;
      })
      (at_same id id new db.islets refl) (ap (λ n. lookup n db.schemas) same)
