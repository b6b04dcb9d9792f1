-- ===== src/Web/Schema/RoundTrip.antt =====
-- The rows that describe tables, and what the handler `schema` of examples/web/handlers.go makes of them.
use pgislet.Base.{
  String, true, false, ◌≡◌, refl, ◌∙◌, ap, Option, none, some, List, [], ◌∷◌, ◌++◌, map, ◌==◌,
  eq_refl,
}
use mathlib.Core.List.{append-nil, append_assoc}
use pgislet.Engine.Result.{RawRow}
use pgislet.Web.Report.{Table, Column}
use pgislet.Web.Schema.{Entry, add_entry, tables_from, with_column, new_table}

-- The outer join gives a table without columns one row.
abbrev column_row : Table → Column → RawRow
column_row t c = some t.name ∷ some t.kind ∷ some c.name ∷ some c.type_name ∷ []

abbrev column_rows : Table → List Column → List RawRow
column_rows t [] = (some t.name ∷ some t.kind ∷ none ∷ none ∷ []) ∷ []
column_rows t (c ∷ cs) = column_row t c ∷ map (column_row t) cs

abbrev pub rows_of : List Table → List RawRow
rows_of [] = []
rows_of (t ∷ ts) = column_rows t t.columns ++ rows_of ts

abbrev Differs : Option String → String → Type 0
Differs none name = Unit
Differs (some last) name = (last == name) ≡ false

-- No two neighbours have one name; the first differs from the name before.
abbrev pub Apart : Option String → List Table → Type 0
Apart last [] = Unit
Apart last (t ∷ ts) = Differs last t.name × Apart (some t.name) ts

abbrev last_name : List Table → Option String
last_name [] = none
last_name (t ∷ []) = some t.name
last_name (t ∷ u ∷ ts) = last_name (u ∷ ts)

last_name-append : (xs : List Table) (t : Table) → last_name (xs ++ t ∷ []) ≡ some t.name
last_name-append [] t = refl
last_name-append (x ∷ []) t = refl
last_name-append (x ∷ y ∷ xs) t = last_name-append (y ∷ xs) t

add_new :
    (e : Entry) (xs : List Table)
    → Differs (last_name xs) e.name
    → add_entry e xs ≡ xs ++ with_column e.column (new_table e) ∷ []
unfolding add_entry
add_new e [] d = refl
add_new e (x ∷ []) d = rw d refl
add_new e (x ∷ y ∷ xs) d = ap (λ ts. x ∷ ts) (add_new e (y ∷ xs) d)

add_same :
    (e : Entry) (xs : List Table) (t : Table)
    → (t.name == e.name) ≡ true
    → add_entry e (xs ++ t ∷ []) ≡ xs ++ with_column e.column t ∷ []
unfolding add_entry
add_same e [] t same = rw same refl
add_same e (x ∷ []) t same = rw same refl
add_same e (x ∷ y ∷ xs) t same = ap (λ ts. x ∷ ts) (add_same e (y ∷ xs) t same)

-- The rows of a table's further columns fill it.
columns_fill :
    (xs : List Table) (t : Table) (cs : List Column) (more : List RawRow)
    → tables_from (xs ++ t ∷ []) (map (column_row t) cs ++ more)
      ≡ tables_from (xs ++ record t { columns = t.columns ++ cs } ∷ []) more
unfolding tables_from
columns_fill xs t [] more = rw (append-nil t.columns) refl
columns_fill xs t (c ∷ cs) more =
    let e : Entry = record { name = t.name; kind = t.kind; column = some c } in
    ap (λ ts. tables_from ts (map (column_row t) cs ++ more)) (add_same e xs t (eq_refl t.name))
    ∙ columns_fill xs (record t { columns = t.columns ++ c ∷ [] }) cs more
    ∙ ap (λ cs. tables_from (xs ++ record t { columns = cs } ∷ []) more)
        (append_assoc t.columns (c ∷ []) cs)

abbrev table : String → String → List Column → Table
table name kind columns = record { name = name; kind = kind; columns = columns }

table_fills :
    (xs : List Table) (name kind : String) (cs : List Column) (more : List RawRow)
    → Differs (last_name xs) name
    → tables_from xs (column_rows (table name kind cs) cs ++ more)
      ≡ tables_from (xs ++ table name kind cs ∷ []) more
unfolding tables_from
table_fills xs name kind [] more d =
    let e : Entry = record { name = name; kind = kind; column = none } in
    ap (λ ts. tables_from ts more) (add_new e xs d)
table_fills xs name kind (c ∷ cs) more d =
    let e : Entry = record { name = name; kind = kind; column = some c } in
    ap (λ ts. tables_from ts (map (column_row (table name kind [])) cs ++ more)) (add_new e xs d)
    ∙ columns_fill xs (table name kind (c ∷ [])) cs more

tables_from-rows_of :
    (xs ts : List Table) → Apart (last_name xs) ts → tables_from xs (rows_of ts) ≡ some (xs ++ ts)
unfolding tables_from
tables_from-rows_of xs [] a = rw (append-nil xs) refl
tables_from-rows_of xs (t ∷ ts) (d, a) =
    table_fills xs t.name t.kind t.columns (rows_of ts) d
    ∙ tables_from-rows_of (xs ++ t ∷ []) ts (rw (last_name-append xs t) a)
    ∙ ap some (append_assoc xs (t ∷ []) ts)

-- The handler gives back any list of tables from the rows that describe them, in order, those without
-- columns too, provided that no two neighbours have one name; the query orders its rows by name.
pub tables_of-rows_of : (ts : List Table) → Apart none ts → tables_from [] (rows_of ts) ≡ some ts
tables_of-rows_of ts a = tables_from-rows_of [] ts a
