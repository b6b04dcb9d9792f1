-- ===== src/Base/Dict.antt =====
-- A Go map with string keys as an association list: `m[k]`, `m[k] = v` and `delete(m, k)`.
use Prim.Native.String.{String}
use mathlib.Core.Path.{◌≡◌, refl}
use mathlib.Core.List.{List, [], ◌∷◌}
use mathlib.Core.Option.{Option, none, some}
use native.Mathlib.Omega.{arith}
use text.Mathlib.Text.{◌==◌}
use text.Mathlib.TextEquality.{eq_iff}
use pgislet.Base.Tests.{if◌then◌else◌}

abbrev pub Dict {ℓ} : Type ℓ → Type ℓ
Dict V = List (String × V)

module _ {ℓ} {V : Type ℓ} where
  unfoldable pub lookup : String → Dict V → Option V
  lookup key [] = none
  lookup key ((name, value) ∷ rest) = if name == key then some value else lookup key rest

  unfoldable pub erase : String → Dict V → Dict V
  erase key [] = []
  erase key ((name, value) ∷ rest) =
      let kept = erase key rest in if name == key then kept else (name, value) ∷ kept

  unfoldable pub insert : String → V → Dict V → Dict V
  insert key new [] = (key, new) ∷ []
  insert key new ((name, old) ∷ rest) =
      if name == key then (key, new) ∷ rest else (name, old) ∷ insert key new rest

  pub lookup-erase :
      (key other : String) (d : Dict V)
      → lookup other (erase key d) ≡ (if key == other then none else lookup other d)
  unfolding lookup erase
  lookup-erase key other [] = ground arith
  lookup-erase key other ((name, value) ∷ rest) =
      ground
        (lookup-erase key other rest, arith, eq_iff name key, eq_iff name other, eq_iff key other)

  pub lookup-insert :
      (key other : String) (new : V) (d : Dict V)
      → lookup other (insert key new d) ≡ (if key == other then some new else lookup other d)
  unfolding lookup insert
  lookup-insert key other new [] = refl
  lookup-insert key other new ((name, old) ∷ rest) = ground (
    lookup-insert key other new rest,
    arith,
    eq_iff name key,
    eq_iff name other,
    eq_iff key other,
  )

module _ {ℓ} {V : Type ℓ} where
  pub insert-insert : (k : String) (u v : V) (m : Dict V) → insert k v (insert k u m) ≡ insert k v m
  unfolding insert
  insert-insert k u v [] = ground (arith, eq_iff k k)
  insert-insert k u v ((j, w) ∷ m) = ground (arith, eq_iff k k, eq_iff j k, insert-insert k u v m)

  pub insert_same : (k : String) (v : V) (m : Dict V) → lookup k m ≡ some v → insert k v m ≡ m
  unfolding insert lookup
  insert_same k v [] h = cc
  insert_same k v ((j, w) ∷ m) h = ground (arith, eq_iff j k, insert_same k v m)
