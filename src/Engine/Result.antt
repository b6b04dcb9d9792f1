-- ===== src/Engine/Result.antt =====
-- internal/engine/result.go: `query`, which reads an answer within the budgets of a batch. The
-- measured duration is left out.
mod Room
pub mod Bounds
use Prim.Native.String.{len}
use pgislet.Base.{
  ℕ, ◌+◌, String, Bool, true, false, ◌||◌, Option, none, some, List, [], ◌∷◌, ◌++◌, if◌then◌else◌,
}
use pgislet.Base.Int.{ℤ, pos, ◌-ℤ◌, ltb_ℤ}
use pgislet.Errors.{Err, Result, ok, err, other, sentinel, result_limit, wrap}
use pgislet.Engine.Exec.{Field, Cursor}

abbrev pub RawRow : Type 0
RawRow = List (Option String)

-- The struct `Result`, whose columns are the fields of the answer.
pub record QueryResult : Type 0 where
  pub columns : List Field
  pub rows : List RawRow
  pub command_tag : String
  pub rows_affected : ℕ
  pub truncated : Bool

abbrev pub no_result : QueryResult
no_result = record {
  columns = [];
  rows = [];
  command_tag = "";
  rows_affected = 0;
  truncated = false;
}

-- `rowsLeft` and `bytesLeft`, which the queries of a batch share.
pub record Budget : Type 0 where
  pub rows_left : ℤ
  pub bytes_left : ℤ

abbrev pub value_size : Option String → ℕ
value_size none = 1
value_size (some s) = len s + 1

-- `size` of a row: a nil value has length 0.
unfoldable pub row_size : RawRow → ℕ
row_size [] = 0
row_size (v ∷ vs) = value_size v + row_size vs

-- The loop over the field descriptions.
unfoldable pub charge_fields : List Field → ℤ → ℤ
charge_fields [] bytes = bytes
charge_fields (f ∷ fs) bytes = charge_fields fs (bytes -ℤ pos (len f.name + 4))

-- `*rowsLeft <= 0 || size > *bytesLeft`.
abbrev pub over_budget : Budget → RawRow → Bool
over_budget b raw = ltb_ℤ b.rows_left (pos 1) || ltb_ℤ b.bytes_left (pos (row_size raw))

-- The rows read so far, the budget left, and whether the loop stopped for lack of it.
pub record Scan : Type 0 where
  pub read : List RawRow
  pub left : Budget
  pub stopped : Bool

-- The loop over the rows.
unfoldable pub scan_rows : List RawRow → List RawRow → Budget → Scan
unfolding row_size
scan_rows [] read b = record { read = read; left = b; stopped = false }
scan_rows (raw ∷ rest) read b =
    let next = scan_rows rest (read ++ raw ∷ []) (record {
      rows_left = b.rows_left -ℤ pos 1;
      bytes_left = b.bytes_left -ℤ pos (row_size raw);
    }) in
    if over_budget b raw then record { read = read; left = b; stopped = true } else next

pub record Answered : Type 0 where
  pub result : QueryResult
  pub error : Option Err
  pub left : Budget

-- The end of `query`, behind the loops.
unfoldable pub conclude : Cursor → Scan → Answered
conclude c s =
    let partial : QueryResult = record {
      columns = c.fields;
      rows = s.read;
      command_tag = "";
      rows_affected = 0;
      truncated = false;
    } in
    let cut : QueryResult = record partial { truncated = true } in
    if s.stopped
    then record {
      result = cut;
      error = some (wrap result_limit (other "batch row or byte budget exceeded"));
      left = s.left;
    }
    else elim c.ended [
      | some e ↦ record { result = partial; error = some e; left = s.left }
      | none ↦
          if ltb_ℤ s.left.bytes_left (pos 0)
          then record { result = cut; error = some (sentinel result_limit); left = s.left }
          else record {
            result = record partial { command_tag = c.tag; rows_affected = c.affected };
            error = none;
            left = s.left;
          }
    ]

-- `m.query`, for the answer of the server to its statement.
unfoldable pub query : Result Cursor → Budget → Answered
query (err e) b = record { result = no_result; error = some e; left = b }
query (ok c) b =
    conclude c (scan_rows c.rows [] (record b { bytes_left = charge_fields c.fields b.bytes_left }))
