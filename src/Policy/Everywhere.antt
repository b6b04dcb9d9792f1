-- ===== src/Policy/Everywhere.antt =====
-- What holds at every member of every object of a tree, and the rule by which `walk` of
-- internal/policy/policy.go establishes it.
use mathlib.Core.Path.{subst}
use pgislet.Base.{String, Bool, ◌≡◌}
use pgislet.Base.Dict.{Dict}
use pgislet.Errors.{ok, >>=-eq-ok}
use pgislet.Policy.Json.{
  Json, Items, Fields, null, bool, number, text, array, object, nil, cons, end, field,
}
use pgislet.Policy.Routines.{Walk}
use pgislet.Policy.Check.{walk, walk_items, walk_fields}

module _ (P : String → Json → Type 0) where
  abbrev mutual
    pub Everywhere : Json → Type 0
    Everywhere (array xs) = EverywhereItems xs
    Everywhere (object fs) = EverywhereFields fs
    Everywhere _ = Unit

    pub EverywhereItems : Items → Type 0
    EverywhereItems nil = Unit
    EverywhereItems (cons x xs) = Everywhere x × EverywhereItems xs

    pub EverywhereFields : Fields → Type 0
    EverywhereFields end = Unit
    EverywhereFields (field key value rest) = P key value × Everywhere value × EverywhereFields rest

pub ok-injective : {A : Type 0} {a b : A} → ok a ≡ ok b → a ≡ b
ok-injective h = cc

module _ (visit : String → Json → Walk) (P : String → Json → Type 0) (I : Dict Bool → Type 0)
    (step : (key : String) (value : Json) (l l' : Dict Bool)
      → I l
      → visit key value l ≡ ok l'
      → P key value × I l') where
  leaf : (l l' : Dict Bool) → I l → ok l ≡ ok l' → Unit {0} × I l'
  leaf l l' i h = (tt, subst I (ok-injective h) i)

  mutual
    unfolding walk walk_items walk_fields

    walk_rule : (v : Json) (l l' : Dict Bool) → I l → walk visit v l ≡ ok l' → Everywhere P v × I l'
    walk_rule (array xs) l l' i h = walk_items_rule xs l l' i h
    walk_rule (object fs) l l' i h = walk_fields_rule fs l l' i h
    walk_rule null l l' i h = leaf l l' i h
    walk_rule (bool b) l l' i h = leaf l l' i h
    walk_rule (number n) l l' i h = leaf l l' i h
    walk_rule (text s) l l' i h = leaf l l' i h

    walk_items_rule :
        (xs : Items) (l l' : Dict Bool)
        → I l
        → walk_items visit xs l ≡ ok l'
        → EverywhereItems P xs × I l'
    walk_items_rule nil l l' i h = leaf l l' i h
    walk_items_rule (cons x xs) l l' i h =
        let (m, e, r) = >>=-eq-ok (walk visit x l) (walk_items visit xs) h in
        let (px, im) = walk_rule x l m i e in
        let (pxs, i') = walk_items_rule xs m l' im r in ((px, pxs), i')

    pub walk_fields_rule :
        (fs : Fields) (l l' : Dict Bool)
        → I l
        → walk_fields visit fs l ≡ ok l'
        → EverywhereFields P fs × I l'
    walk_fields_rule end l l' i h = leaf l l' i h
    walk_fields_rule (field key value rest) l l' i h =
        let (m, e, r) = >>=-eq-ok (visit key value l) _ h in
        let (n, e', r') = >>=-eq-ok (walk visit value m) (walk_fields visit rest) r in
        let (pk, im) = step key value l m i e in
        let (pv, in') = walk_rule value m n im e' in
        let (pr, i') = walk_fields_rule rest n l' in' r' in ((pk, pv, pr), i')
