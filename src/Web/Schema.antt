-- ===== src/Web/Schema.antt =====
-- The tables that the handler `schema` of examples/web/handlers.go makes of the rows of its query.
pub mod RoundTrip
use pgislet.Base.{String, Option, none, some, List, [], ◌∷◌, ◌++◌, ◌==◌, if◌then◌else◌}
use pgislet.Engine.Result.{RawRow}
use pgislet.Web.Report.{Table, Column}

-- A row of the query: a table, its kind, and a column with its type unless `row[2] == nil`. A type
-- assertion or an index that fails is a panic, `none`.
pub record Entry : Type 0 where
  pub name : String
  pub kind : String
  pub column : Option Column

abbrev pub column_of : Option String → List (Option String) → Option (Option Column)
column_of none rest = some none
column_of (some name) (some type_name ∷ _) =
    some (some (record { name = name; type_name = type_name }))
column_of (some name) _ = none

-- `row[0].(string)`, `row[1].(string)`, and the columns behind them.
abbrev pub entry_of : RawRow → Option Entry
entry_of (some name ∷ some kind ∷ column ∷ rest) = elim (column_of column rest) [
  | none ↦ none
  | some c ↦ some (record { name = name; kind = kind; column = c })
]
entry_of _ = none

-- `current.Columns = append(current.Columns, ...)`.
abbrev pub with_column : Option Column → Table → Table
with_column none t = t
with_column (some c) t = record t { columns = t.columns ++ c ∷ [] }

abbrev pub new_table : Entry → Table
new_table e = record { name = e.name; kind = e.kind; columns = [] }

-- One round of the loop: a new table behind the others unless the last one has the name, and the column
-- at the end of the last one.
unfoldable pub add_entry : Entry → List Table → List Table
add_entry e [] = with_column e.column (new_table e) ∷ []
add_entry e (t ∷ []) =
    if t.name == e.name
    then with_column e.column t ∷ []
    else t ∷ with_column e.column (new_table e) ∷ []
add_entry e (t ∷ u ∷ ts) = t ∷ add_entry e (u ∷ ts)

unfoldable pub tables_from : List Table → List RawRow → Option (List Table)
unfolding add_entry
tables_from ts [] = some ts
tables_from ts (row ∷ rows) = elim (entry_of row) [
  | none ↦ none
  | some e ↦ tables_from (add_entry e ts) rows
]
