-- ===== src/Engine/Execute/Locals.antt =====
-- `localFunctions` of internal/engine/execute.go: the names that the manager has reserved.
use pgislet.Base.{String, Bool, true, false, ◌≡◌, inl, inr, some, List, [], ◌∷◌, Option-cases, ◌∙◌}
use pgislet.Base.Dict.{Dict, lookup, insert}
use pgislet.Engine.Execute.{reserved_names, add_routines, local_functions}
use pgislet.Engine.Registry.{at_same, at_other, key_cases}

insert-false :
    (name other : String) (names : Dict Bool)
    → lookup name names ≡ some false
    → lookup name (insert other false names) ≡ some false
insert-false name other names s = elim (key_cases other name) [
  | inl e ↦ at_same other name false names e
  | inr n ↦ at_other other name false names n ∙ s
]

reserved_names-keeps :
    (name : String) (reserved names : Dict Bool)
    → lookup name names ≡ some false
    → lookup name (reserved_names reserved names) ≡ some false
unfolding reserved_names
reserved_names-keeps name [] names s = s
reserved_names-keeps name ((other, b) ∷ rest) names s =
    reserved_names-keeps name rest (insert other false names) (insert-false name other names s)

reserved_names-lookup :
    (name : String) (b : Bool) (reserved names : Dict Bool)
    → lookup name reserved ≡ some b
    → lookup name (reserved_names reserved names) ≡ some false
unfolding reserved_names lookup
reserved_names-lookup name b [] names s = cc s
reserved_names-lookup name b ((other, v) ∷ rest) names s = elim (key_cases other name) [
  | inl e ↦
      reserved_names-keeps name rest (insert other false names) (at_same other name false names e)
  | inr n ↦ reserved_names-lookup name b rest (insert other false names) (rw n at s)
]

add_routines-keeps :
    (name : String) (b : Bool) (reserved : Dict Bool) (found : List String) (names : Dict Bool)
    → lookup name reserved ≡ some b
    → lookup name names ≡ some false
    → lookup name (add_routines reserved found names) ≡ some false
unfolding add_routines
add_routines-keeps name b reserved [] names r s = s
add_routines-keeps name b reserved (other ∷ rest) names r s =
    elim (Option-cases (lookup other reserved)) [
      | inl n ↦ rw n (
          add_routines-keeps name b reserved rest (insert other true names) r
            (elim (key_cases other name) [
              | inl e ↦ cc (n, r, e)
              | inr d ↦ at_other other name true names d ∙ s
            ]))
      | inr (v, t) ↦ rw t (add_routines-keeps name b reserved rest names r s)
    ]

-- Whatever routines the workspace has, a reserved name is not local.
pub local_functions-reserved :
    (name : String) (b : Bool) (reserved : Dict Bool) (found : List String)
    → lookup name reserved ≡ some b
    → lookup name (local_functions reserved found) ≡ some false
unfolding local_functions
local_functions-reserved name b reserved found r =
    add_routines-keeps name b reserved found (reserved_names reserved []) r
      (reserved_names-lookup name b reserved [] r)
