-- ===== src/Engine/Result/Bounds.antt =====
-- The answers that `query` of internal/engine/result.go returns whole, and those it cuts.
use pgislet.Engine.Result.Room.{
  HasRoom, charge_fields-eq, fields_size, never_negative, not_negative, answer_size, rows_size-eq,
  scan_fits, scan_stops, spend, sub_sub,
}
use pgislet.Base.{
  ◌+◌, true, false, ◌≡◌, ◌⊎◌, refl, ap, ◌∙◌, inl, inr, none, some, List, [], ◌∷◌, length,
  Bool-cases, Option-cases,
}
use pgislet.Base.Int.{pos, ◌-ℤ◌, ltb_ℤ, ◌≤ℤ◌, int_laws}
use pgislet.Errors.{Err, ok, result_limit, is, wrap}
use pgislet.Engine.Exec.{Field, Cursor}
use pgislet.Engine.Result.{RawRow, QueryResult, Budget, Scan, Answered, scan_rows, conclude, query}

-- An answer fits a budget if its rows are none or no more than the rows left, and its column names,
-- with four bytes each, and its values, with one byte each, no more than the bytes left.
pub record Fits (fs : List Field) (rs : List RawRow) (b : Budget) : Type 0 where
  pub rows : (rs ≡ []) ⊎ (pos (length rs) ≤ℤ b.rows_left)
  pub bytes : pos (fields_size fs + answer_size rs) ≤ℤ b.bytes_left

-- The whole answer as a result.
abbrev pub whole : Cursor → QueryResult
whole c = record {
  columns = c.fields;
  rows = c.rows;
  command_tag = c.tag;
  rows_affected = c.affected;
  truncated = false;
}

abbrev pub left_after : Cursor → Budget → Budget
left_after c b = record {
  rows_left = b.rows_left -ℤ pos (length c.rows);
  bytes_left = b.bytes_left -ℤ pos (fields_size c.fields + answer_size c.rows);
}

module _ (fs : List Field) (b : Budget) where
  abbrev charged : Budget
  charged = record b { bytes_left = b.bytes_left -ℤ pos (fields_size fs) }

  Fits-HasRoom : (rs : List RawRow) → Fits fs rs b → HasRoom charged rs
  Fits-HasRoom [] f = tt
  Fits-HasRoom (r ∷ rs) f =
      (elim f.rows [ inl n ↦ cc | inr l ↦ l ], omega (int_laws, f.bytes, rows_size-eq (r ∷ rs)))

  HasRoom-Fits :
      (rs : List RawRow)
      → HasRoom charged rs
      → ltb_ℤ (spend charged rs).bytes_left (pos 0) ≡ false
      → Fits fs rs b
  HasRoom-Fits [] h n = record {
    rows = inl refl;
    bytes = omega (int_laws, not_negative (spend charged []).bytes_left n);
  }
  HasRoom-Fits (r ∷ rs) h n = record {
    rows = inr h.0;
    bytes =
        omega (int_laws, not_negative (spend charged (r ∷ rs)).bytes_left n, rows_size-eq (r ∷ rs));
  }

  Fits-end : (rs : List RawRow) → Fits fs rs b → ltb_ℤ (spend charged rs).bytes_left (pos 0) ≡ false
  Fits-end rs f =
      never_negative (spend charged rs).bytes_left (omega (int_laws, f.bytes, rows_size-eq rs))

-- Truncated, with an error of the result limit.
abbrev pub IsCut : Answered → Type 0
IsCut a =
    (a.result.truncated ≡ true) × ((e : Err) × (a.error ≡ some e) × (is e result_limit ≡ true))

conclude_stopped : (c : Cursor) (s : Scan) → s.stopped ≡ true → IsCut (conclude c s)
unfolding conclude is wrap
conclude_stopped c s h = rw h (refl, (_, refl, refl))

conclude_negative :
    (c : Cursor) (s : Scan)
    → c.ended ≡ none
    → s.stopped ≡ false
    → ltb_ℤ s.left.bytes_left (pos 0) ≡ true
    → IsCut (conclude c s)
unfolding conclude is
conclude_negative c s e h n = rw (h, e, n) (refl, (_, refl, refl))

conclude-whole :
    (c : Cursor) (left : Budget)
    → c.ended ≡ none
    → ltb_ℤ left.bytes_left (pos 0) ≡ false
    → conclude c (record { read = c.rows; left = left; stopped = false })
      ≡ record { result = whole c; error = none; left = left }
unfolding conclude
conclude-whole c left e n = rw (e, conclude, n)

query-eq :
    (c : Cursor) (b : Budget)
    → query (ok c) b ≡ conclude c (scan_rows c.rows [] (charged c.fields b))
unfolding query
query-eq c b = rw charge_fields-eq

spend-charged : (c : Cursor) (b : Budget) → spend (charged c.fields b) c.rows ≡ left_after c b
spend-charged c b = rw (sub_sub, rows_size-eq c.rows)

ended_first :
    (c : Cursor) (s : Scan) (e : Err)
    → c.ended ≡ some e
    → s.stopped ≡ false
    → (conclude c s).error ≡ some e
unfolding conclude
ended_first c s e n h = rw (h, n) refl

-- The three ends of an answer.
abbrev pub QueryCases : Cursor → Budget → Answered → Type 0
QueryCases c b a =
    ((c.ended ≡ none)
      × Fits c.fields c.rows b
      × (a ≡ record { result = whole c; error = none; left = left_after c b }))
    ⊎ (((¬ Fits c.fields c.rows b) × IsCut a)
        ⊎ ((e : Err) × (c.ended ≡ some e) × (a.error ≡ some e)))

scanned_cases :
    (c : Cursor) (b : Budget)
    → QueryCases c b (conclude c (scan_rows c.rows [] (charged c.fields b)))
scanned_cases c b =
    let s = scan_rows c.rows [] (charged c.fields b) in
    let all = λ (f : Fits c.fields c.rows b).
      scan_fits c.rows [] (charged c.fields b) (Fits-HasRoom c.fields b c.rows f) in
    elim (Bool-cases s.stopped) [
      | inl stop ↦
          inr
            (inl (λ f. cc (ap (λ (s : Scan). s.stopped) (all f), stop), conclude_stopped c s stop))
      | inr go ↦ elim (Option-cases c.ended) [
        | inr (d, ended) ↦ inr (inr (d, ended, ended_first c s d ended go))
        | inl e ↦
            (let room = scan_stops c.rows [] (charged c.fields b) go in
              let same = scan_fits c.rows [] (charged c.fields b) room in
              elim (Bool-cases (ltb_ℤ (spend (charged c.fields b) c.rows).bytes_left (pos 0))) [
                | inl low ↦ inr (
                    inl (
                      λ f. cc (Fits-end c.fields b c.rows f, low),
                      conclude_negative c s e go (rw same low),
                    ))
                | inr high ↦ inl (
                  e,
                  HasRoom-Fits c.fields b c.rows room high,
                  rw same (
                      conclude-whole c _ e high
                      ∙ ap (λ l. record { result = whole c; error = none; left = l })
                          (spend-charged c b)),
                )
              ])
      ]
    ]

-- An answer to a statement has one of three ends. The server has ended it without an error and it fits
-- what is left of the budgets, each name of a column with four bytes and each value with one: then it
-- is returned whole, with its cost taken from both budgets. Or it does not fit: then the result is
-- marked as truncated and comes with an error that is found under the sentinel of the result limit. Or
-- the server has ended it with an error, which is returned.
pub query_cases : (c : Cursor) (b : Budget) → QueryCases c b (query (ok c) b)
query_cases c b = rw query-eq (scanned_cases c b)
