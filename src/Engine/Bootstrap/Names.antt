-- ===== src/Engine/Bootstrap/Names.antt =====
-- The names of pg_catalog that `bootstrap` of internal/engine/bootstrap.go reserves.
use pgislet.Base.{String, Bool, false, ◌≡◌, ◌⊎◌, inl, inr, some, ◌∙◌, sym, List, [], ◌∷◌}
use pgislet.Base.Dict.{Dict, lookup, insert}
use pgislet.Errors.{Result, ok, err}
use pgislet.Engine.Registry.{key_cases, at_same, at_other, insert_cases}
use pgislet.Engine.Bootstrap.{scan_names}

-- The name is one of those that the catalog query answers.
abbrev pub IsListed : String → List (Result String) → Type 0
IsListed name [] = ⊥
IsListed name (ok other ∷ rest) = (other ≡ name) ⊎ IsListed name rest
IsListed name (err e ∷ rest) = IsListed name rest

scan_names-keeps :
    (name : String) (names : List (Result String)) (before after : Dict Bool)
    → scan_names names before ≡ ok after
    → lookup name before ≡ some false
    → lookup name after ≡ some false
unfolding scan_names
scan_names-keeps name [] before after h s = cc (h, s)
scan_names-keeps name (err e ∷ rest) before after h s = cc h
scan_names-keeps name (ok other ∷ rest) before after h s =
    scan_names-keeps name rest (insert other false before) after h (elim (key_cases other name) [
      | inl e ↦ at_same other name false before e
      | inr n ↦ at_other other name false before n ∙ s
    ])

pub scan_names-lookup :
    (name : String) (names : List (Result String)) (before after : Dict Bool)
    → scan_names names before ≡ ok after
    → IsListed name names
    → lookup name after ≡ some false
unfolding scan_names
scan_names-lookup name [] before after h l = elim l [ ]
scan_names-lookup name (err e ∷ rest) before after h l = cc h
scan_names-lookup name (ok other ∷ rest) before after h (inl e) =
    scan_names-keeps name rest (insert other false before) after h
      (at_same other name false before e)
scan_names-lookup name (ok other ∷ rest) before after h (inr l) =
    scan_names-lookup name rest (insert other false before) after h l

scan_names-only :
    (name : String) (b : Bool) (names : List (Result String)) (before after : Dict Bool)
    → scan_names names before ≡ ok after
    → lookup name after ≡ some b
    → (IsListed name names × (b ≡ false)) ⊎ (lookup name before ≡ some b)
unfolding scan_names
scan_names-only name b [] before after h s = inr (cc (h, s))
scan_names-only name b (err e ∷ rest) before after h s = cc h
scan_names-only name b (ok other ∷ rest) before after h s =
    elim (scan_names-only name b rest (insert other false before) after h s) [
      | inl (l, f) ↦ inl (inr l, f)
      | inr earlier ↦ elim (insert_cases other name false b before earlier) [
        | inl (same, f) ↦ inl (inl same, sym f)
        | inr (n, l) ↦ inr l
      ]
    ]

-- The reserved names are those that the query answers, each with no routine of a workspace.
abbrev pub Reserves : List (Result String) → Dict Bool → Type 0
Reserves names reserved =
    ((name : String) → IsListed name names → lookup name reserved ≡ some false)
    × ((name : String) (b : Bool) → lookup name reserved ≡ some b → IsListed name names)

pub scan_names-Reserves :
    (names : List (Result String)) (reserved : Dict Bool)
    → scan_names names [] ≡ ok reserved
    → Reserves names reserved
unfolding lookup
scan_names-Reserves names reserved h = (
  λ name l. scan_names-lookup name names [] reserved h l,
  λ name b s. elim (scan_names-only name b names [] reserved h s) [
    | inl (l, f) ↦ l
    | inr earlier ↦ cc earlier
  ],
)
