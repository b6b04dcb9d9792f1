-- ===== src/Policy/Calls.antt =====
-- The calls that the method `function` of internal/policy/policy.go lets through.
use pgislet.Base.{
  String, ◌≡◌, ◌≢◌, refl, ◌⊎◌, inl, inr, Bool, true, false, not, ◌&&◌, some, List, arith, eq_iff,
  ◌==◌, if◌then◌else◌,
}
use pgislet.Base.Dict.{Dict, lookup}
use pgislet.Errors.{Err, Result, ok, err, refuse_if, ◌>>◌}
use pgislet.Policy.Routines.{namespace, function, holds}
use pgislet.Policy.Admitted.{CallIsAllowed, catalog, own}

-- What the map that the checker passes on keeps of the caller's.
abbrev pub Keeps : Dict Bool → Dict Bool → Type 0
Keeps start l = (name : String) → lookup name start ≡ some false → lookup name l ≡ some false

-- The three exits of `function`, for any tests.
exits :
    (a b c d : Bool) (e₁ e₂ e₃ : Err)
    → ◌≡◌ {A = Result (Unit {0})}
        (refuse_if (not a) e₁
          >> (refuse_if b e₂ >> (if c then ok tt else if d then ok tt else err e₃)))
        (ok tt)
    → (a ≡ true) × (b ≡ false) × ((c ≡ true) ⊎ (d ≡ true))
exits false b c d e₁ e₂ e₃ h = cc
exits true true c d e₁ e₂ e₃ h = cc
exits true false true d e₁ e₂ e₃ h = (refl, refl, inl refl)
exits true false false true e₁ e₂ e₃ h = (refl, refl, inr refl)
exits true false false false e₁ e₂ e₃ h = cc

near_own :
    (ns schema : String)
    → (not (ns == "") && not (ns == "pg_catalog") && not (ns == schema)) ≡ false
    → not (ns == "pg_catalog") ≡ true
    → (ns ≡ "") ⊎ (ns ≡ schema)
near_own ns schema near far = ground (arith, eq_iff ns "", eq_iff ns schema, eq_iff ns "pg_catalog")

near_catalog :
    (ns schema : String)
    → (not (ns == "") && not (ns == "pg_catalog") && not (ns == schema)) ≡ false
    → not (ns == schema) ≡ true
    → (ns ≡ "") ⊎ (ns ≡ "pg_catalog")
near_catalog ns schema near far =
    ground (arith, eq_iff ns "", eq_iff ns schema, eq_iff ns "pg_catalog")

and_true : (a b : Bool) → (a && b) ≡ true → (a ≡ true) × (b ≡ true)
and_true true b h = (refl, h)
and_true false b h = cc

module _ (schema : String) (start l : Dict Bool) (kept : Keeps start l) where
  holds-ne-reserved :
      (name : String) → holds (lookup name l) ≡ true → lookup name start ≢ some false
  holds-ne-reserved name h e = cc (rw (kept name e) at h)

  pub function-CallIsAllowed :
      (parts : List String) → function schema l parts ≡ ok tt → CallIsAllowed schema start parts
  unfolding function
  function-CallIsAllowed parts h =
      let (shape, near, way) = exits _ _ _ _ _ _ _ h in
      elim way [
        | inl c ↦
            (let (far, mine) = and_true _ _ c in
              own shape (near_own (namespace parts) schema near far) (holds-ne-reserved _ mine))
        | inr d ↦
            (let (far, listed) = and_true _ _ d in
              catalog shape (near_catalog (namespace parts) schema near far) listed)
      ]
