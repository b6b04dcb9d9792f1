-- ===== src/Engine/Identifiers/Hex.antt =====
-- The random names of internal/engine/identifiers.go.
use pgislet.Base.{ℕ, ◌+◌, ◌*◌, ◌<◌, ◌≤◌, ◌-◌, ◌⊎◌, [], ◌∷◌, ltb, if◌then◌else◌}
use pgislet.Engine.Identifiers.{Bytes}

-- The bytes 0 ... 9 and a ... f.
abbrev pub IsDigit : ℕ → Type 0
IsDigit c = ((48 ≤ c) × (c < 58)) ⊎ ((97 ≤ c) × (c < 103))

abbrev pub All : (ℕ → Type 0) → Bytes → Type 0
All p [] = Unit
All p (c ∷ s) = p c × All p s

abbrev pub IsByte : ℕ → Type 0
IsByte b = b < 256

abbrev pub digit_value : ℕ → ℕ
digit_value c = if ltb c 58 then c - 48 else c - 87

-- Pairs of digits back to bytes.
abbrev pub decode_hex : Bytes → Bytes
decode_hex [] = []
decode_hex (c ∷ []) = []
decode_hex (c ∷ d ∷ s) = (16 * digit_value c + digit_value d) ∷ decode_hex s
