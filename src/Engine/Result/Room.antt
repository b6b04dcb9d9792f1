-- ===== src/Engine/Result/Room.antt =====
-- The loops of `query` in internal/engine/result.go against the room that the budgets leave.
use Prim.Native.String.{len}
use mathlib.Core.List.{append_assoc, append-nil}
use pgislet.Base.{
  ℕ, suc, ◌+◌, false, ◌≡◌, refl, none, some, sym, ◌∙◌, inl, inr, List, [], ◌∷◌, ◌++◌, length, arith,
  Bool-cases,
}
use pgislet.Base.Int.{ℤ, pos, ◌-ℤ◌, ltb_ℤ, ◌≤ℤ◌, int_laws}
use pgislet.Engine.Exec.{Field}
use pgislet.Engine.Result.{RawRow, Budget, row_size, charge_fields, over_budget, scan_rows}

abbrev pub fields_size : List Field → ℕ
fields_size [] = 0
fields_size (f ∷ fs) = len f.name + 4 + fields_size fs

abbrev pub rows_size : List RawRow → ℕ
rows_size [] = 0
rows_size (r ∷ rs) = row_size r + rows_size rs

pub not_negative : (a : ℤ) → ltb_ℤ a (pos 0) ≡ false → pos 0 ≤ℤ a
not_negative a h = ground arith

pub never_negative : (a : ℤ) → pos 0 ≤ℤ a → ltb_ℤ a (pos 0) ≡ false
never_negative a h = ground arith

pub sub_zero : (b : ℤ) → b -ℤ pos 0 ≡ b
sub_zero b = omega int_laws

pub sub_sub : (b : ℤ) (m n : ℕ) → b -ℤ pos m -ℤ pos n ≡ b -ℤ pos (m + n)
sub_sub b m n = omega int_laws

pub charge_fields-eq : (fs : List Field) (b : ℤ) → charge_fields fs b ≡ b -ℤ pos (fields_size fs)
unfolding charge_fields
charge_fields-eq [] b = sym (sub_zero b)
charge_fields-eq (f ∷ fs) b =
    charge_fields-eq fs (b -ℤ pos (len f.name + 4)) ∙ sub_sub b (len f.name + 4) (fields_size fs)

-- The bytes of the values of a row, where a NULL has none.
abbrev pub row_bytes : RawRow → ℕ
row_bytes [] = 0
row_bytes (none ∷ vs) = row_bytes vs
row_bytes (some s ∷ vs) = len s + row_bytes vs

-- The bytes of all values, and one more for each.
abbrev pub answer_size : List RawRow → ℕ
answer_size [] = 0
answer_size (r ∷ rs) = row_bytes r + length r + answer_size rs

row_size-eq : (r : RawRow) → row_size r ≡ row_bytes r + length r
unfolding row_size
row_size-eq [] = refl
row_size-eq (none ∷ vs) = let e = row_size-eq vs in omega arith
row_size-eq (some s ∷ vs) = let e = row_size-eq vs in omega arith

pub rows_size-eq : (rs : List RawRow) → rows_size rs ≡ answer_size rs
rows_size-eq [] = refl
rows_size-eq (r ∷ rs) = let e = row_size-eq r in let e' = rows_size-eq rs in omega arith

-- Both budgets have room for the rows; without rows, nothing is asked of them.
abbrev pub HasRoom : Budget → List RawRow → Type 0
HasRoom b [] = Unit
HasRoom b (r ∷ rs) =
    (pos (length (r ∷ rs)) ≤ℤ b.rows_left) × (pos (rows_size (r ∷ rs)) ≤ℤ b.bytes_left)

abbrev pub spend : Budget → List RawRow → Budget
spend b rs = record {
  rows_left = b.rows_left -ℤ pos (length rs);
  bytes_left = b.bytes_left -ℤ pos (rows_size rs);
}

abbrev pub spend_one : Budget → RawRow → Budget
spend_one b r = record {
  rows_left = b.rows_left -ℤ pos 1;
  bytes_left = b.bytes_left -ℤ pos (row_size r);
}

pub HasRoom-first :
    (b : Budget) (r : RawRow) (rs : List RawRow) → HasRoom b (r ∷ rs) → over_budget b r ≡ false
HasRoom-first b r rs (h, k) = ground arith

pub HasRoom-rest :
    (b : Budget) (r : RawRow) (rs : List RawRow) → HasRoom b (r ∷ rs) → HasRoom (spend_one b r) rs
HasRoom-rest b r [] h = tt
HasRoom-rest b r (r' ∷ rs) (h, k) = (omega int_laws, omega int_laws)

pub not_over :
    (b : Budget) (r : RawRow)
    → over_budget b r ≡ false
    → (pos 1 ≤ℤ b.rows_left) × (pos (row_size r) ≤ℤ b.bytes_left)
not_over b r h = (ground arith, ground arith)

pub HasRoom-cons :
    (b : Budget) (r : RawRow) (rs : List RawRow)
    → over_budget b r ≡ false
    → HasRoom (spend_one b r) rs
    → HasRoom b (r ∷ rs)
HasRoom-cons b r [] h k = (ground arith, ground arith)
HasRoom-cons b r (r' ∷ rs) h (k, l) =
    let first = not_over b r h in (omega (int_laws, first.0), omega (int_laws, first.1))

pub spend-spend_one :
    (b : Budget) (r : RawRow) (rs : List RawRow) → spend (spend_one b r) rs ≡ spend b (r ∷ rs)
spend-spend_one b r rs =
    let e : 1 + length rs ≡ suc (length rs) = omega arith in rw (sub_sub, sub_sub, e)

pub scan_fits :
    (rs read : List RawRow) (b : Budget)
    → HasRoom b rs
    → scan_rows rs read b ≡ record { read = read ++ rs; left = spend b rs; stopped = false }
unfolding scan_rows
scan_fits [] read b h = rw (append-nil read, sub_zero, sub_zero)
scan_fits (r ∷ rs) read b h = rw (
  HasRoom-first b r rs h,
  scan_fits rs (read ++ r ∷ []) (spend_one b r) (HasRoom-rest b r rs h),
  append_assoc,
  spend-spend_one b r rs,
)

pub scan_stops :
    (rs read : List RawRow) (b : Budget) → (scan_rows rs read b).stopped ≡ false → HasRoom b rs
unfolding scan_rows
scan_stops [] read b h = tt
scan_stops (r ∷ rs) read b h = elim (Bool-cases (over_budget b r)) [
  | inl over ↦ cc (rw over at h)
  | inr fits ↦
      HasRoom-cons b r rs fits (scan_stops rs (read ++ r ∷ []) (spend_one b r) (rw fits at h))
]
