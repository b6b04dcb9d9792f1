-- ===== src/Engine/Identifiers.antt =====
-- internal/engine/identifiers.go: the quoting of texts for SQL, and random names. A Go string is the
-- list of its bytes here. `ident` is a call of pgx.
pub mod Literal
pub mod Hex
use pgislet.Base.{ℕ, ◌+◌, ◌/◌, ◌%◌, List, [], ◌∷◌, ◌++◌, ltb, eqb, if◌then◌else◌}
use pgislet.Errors.{Result, ok, err}

abbrev pub Bytes : Type 0
Bytes = List ℕ

-- The byte of a single quote.
abbrev pub quote : ℕ
quote = 39

-- strings.ReplaceAll of a quote by two.
unfoldable pub replace_quotes : Bytes → Bytes
replace_quotes [] = []
replace_quotes (c ∷ s) =
    if eqb c quote then quote ∷ quote ∷ replace_quotes s else c ∷ replace_quotes s

unfoldable pub literal : Bytes → Bytes
unfolding replace_quotes
literal s = quote ∷ (replace_quotes s ++ quote ∷ [])

-- The digits 0 ... 9 and a ... f.
abbrev pub hex_digit : ℕ → ℕ
hex_digit n = if ltb n 10 then 48 + n else 87 + n

-- hex.EncodeToString.
unfoldable pub encode_hex : Bytes → Bytes
encode_hex [] = []
encode_hex (b ∷ bs) = hex_digit (b / 16) ∷ hex_digit (b % 16) ∷ encode_hex bs

-- `opaque`, on what rand.Read makes of its 24 bytes.
unfoldable pub opaque : Result Bytes → Result Bytes
unfolding encode_hex
opaque (err e) = err e
opaque (ok b) = ok (encode_hex b)
