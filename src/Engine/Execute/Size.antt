-- ===== src/Engine/Execute/Size.antt =====
-- What `checkSize` of internal/engine/execute.go lets through.
use Prim.Native.String.{len}
use pgislet.Base.{
  ℕ, ◌+◌, String, true, false, ◌≡◌, ◌↔◌, refl, inl, inr, List, [], ◌∷◌, length, arith, Bool-cases,
}
use pgislet.Base.Int.{ℤ, pos, ◌-ℤ◌, ltb_ℤ, ◌≤ℤ◌}
use pgislet.Config.{Config}
use pgislet.Errors.{ok}
use pgislet.Engine.Execute.{check_size, check_sizes}

-- The bytes of all statements together.
abbrev pub total_len : List String → ℕ
total_len [] = 0
total_len (sql ∷ rest) = len sql + total_len rest

room : (most : ℤ) (size n : ℕ) → ltb_ℤ (most -ℤ pos size) (pos n) ≡ false → pos (size + n) ≤ℤ most
unfolding ◌-ℤ◌
room most size n h = ground arith

no_room :
    (most : ℤ) (size n k : ℕ)
    → ltb_ℤ (most -ℤ pos size) (pos n) ≡ true
    → pos (size + (n + k)) ≤ℤ most
    → ⊥
unfolding ◌-ℤ◌
no_room most size n k h f = ground arith

check_sizes-fits :
    (most : ℤ) (size : ℕ) (ss : List String)
    → pos size ≤ℤ most
    → check_sizes most size ss ≡ ok tt
    → pos (size + total_len ss) ≤ℤ most
unfolding check_sizes
check_sizes-fits most size [] f h = ground arith
check_sizes-fits most size (sql ∷ rest) f h =
    elim (Bool-cases (ltb_ℤ (most -ℤ pos size) (pos (len sql)))) [
      | inl over ↦ cc (rw over at h)
      | inr fits ↦ omega (
        arith,
        check_sizes-fits most (size + len sql) rest (room most size (len sql) fits) (rw fits at h),
      )
    ]

fits-check_sizes :
    (most : ℤ) (size : ℕ) (ss : List String)
    → pos (size + total_len ss) ≤ℤ most
    → check_sizes most size ss ≡ ok tt
unfolding check_sizes
fits-check_sizes most size [] f = refl
fits-check_sizes most size (sql ∷ rest) f =
    elim (Bool-cases (ltb_ℤ (most -ℤ pos size) (pos (len sql)))) [
      | inl over ↦ absurd (no_room most size (len sql) (total_len rest) over f)
      | inr fits ↦ rw fits (fits-check_sizes most (size + len sql) rest (omega arith))
    ]

-- With a byte limit that is not negative, `checkSize` accepts a batch exactly when its statements are
-- no more than the limit of statements, and their bytes together no more than the limit of bytes:
-- the running subtraction never lets a total through that is too large, and refuses no other.
pub check_size_iff :
    (cfg : Config) (ss : List String)
    → pos 0 ≤ℤ cfg.max_sql_bytes
    → (check_size cfg ss ≡ ok tt)
      ↔ ((pos (length ss) ≤ℤ cfg.max_batch_statements) × (pos (total_len ss) ≤ℤ cfg.max_sql_bytes))
unfolding check_size
check_size_iff cfg ss least = (
  λ h. elim (Bool-cases (ltb_ℤ cfg.max_batch_statements (pos (length ss)))) [
    | inl over ↦ cc (rw over at h)
    | inr fits ↦
        (ground arith, omega (arith, check_sizes-fits cfg.max_sql_bytes 0 ss least (rw fits at h)))
  ],
  λ (few, small). elim (Bool-cases (ltb_ℤ cfg.max_batch_statements (pos (length ss)))) [
    | inl over ↦ absurd (ground arith)
    | inr fits ↦ rw fits (fits-check_sizes cfg.max_sql_bytes 0 ss (omega arith))
  ],
)
