-- ===== src/Engine/Identifiers/Literal.antt =====
-- What the server reads where the program has written a literal of internal/engine/identifiers.go.
use pgislet.Base.{
  ℕ, false, ◌≡◌, refl, ◌∙◌, ap, inl, inr, Option, none, some, [], ◌∷◌, ◌++◌, eqb, if◌then◌else◌,
  arith, Bool-cases,
}
use mathlib.Core.List.{append_assoc}
use pgislet.Engine.Identifiers.{Bytes, quote, replace_quotes, literal}

abbrev pub prepend : ℕ → Option (Bytes × Bytes) → Option (Bytes × Bytes)
prepend c none = none
prepend c (some (content, rest)) = some (c ∷ content, rest)

-- The rest of a string constant of SQL behind its opening quote, with standard_conforming_strings on: a
-- doubled quote is a quote of the content, and a single one ends it.
unfoldable pub scan : Bytes → Option (Bytes × Bytes)
scan [] = none
scan (c ∷ []) = if eqb c quote then some ([], []) else none
scan (c ∷ d ∷ s) =
    let doubled = prepend quote (scan s) in
    let longer = prepend c (scan (d ∷ s)) in
    if eqb c quote then (if eqb d quote then doubled else some ([], d ∷ s)) else longer

-- A string constant at the start of a text: its content, and the text behind it.
abbrev pub read_literal : Bytes → Option (Bytes × Bytes)
read_literal [] = none
read_literal (c ∷ s) = if eqb c quote then scan s else none

-- What stands behind a literal does not begin with a quote.
abbrev pub Unquoted : Bytes → Type 0
Unquoted [] = Unit
Unquoted (c ∷ s) = eqb c quote ≡ false

scan-other : (c : ℕ) (s : Bytes) → eqb c quote ≡ false → scan (c ∷ s) ≡ prepend c (scan s)
unfolding scan
scan-other c [] n = rw n refl
scan-other c (d ∷ s) n = rw n refl

scan-end : (rest : Bytes) → Unquoted rest → scan (quote ∷ rest) ≡ some ([], rest)
unfolding scan
scan-end [] u = refl
scan-end (d ∷ rest) u = rw u refl

scan-replace_quotes :
    (s rest : Bytes) → Unquoted rest → scan (replace_quotes s ++ quote ∷ rest) ≡ some (s, rest)
unfolding replace_quotes scan
scan-replace_quotes [] rest u = scan-end rest u
scan-replace_quotes (c ∷ s) rest u = elim (Bool-cases (eqb c quote)) [
  | inl e ↦
      (let same : c ≡ quote = ground (e, arith) in
        rw same (ap (prepend quote) (scan-replace_quotes s rest u)))
  | inr n ↦ rw n (scan-other c _ n ∙ ap (prepend c) (scan-replace_quotes s rest u))
]

-- Whatever bytes a text has, the server reads its literal as that text, and what the program has
-- written behind it stays outside.
pub read_literal-literal :
    (s rest : Bytes) → Unquoted rest → read_literal (literal s ++ rest) ≡ some (s, rest)
unfolding literal
read_literal-literal s rest u =
    ap scan (append_assoc (replace_quotes s) (quote ∷ []) rest) ∙ scan-replace_quotes s rest u
