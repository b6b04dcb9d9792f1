-- ===== src/Policy/Guards.antt =====
-- What the passed tests of the checker of internal/policy/policy.go say.
use pgislet.Base.{
  ℕ, ◌<◌, String, ◌≡◌, ◌≢◌, refl, ◌⊎◌, inl, inr, Bool, true, false, not, ◌&&◌, ◌||◌, Option, some,
  arith, eq_iff, ◌==◌, eqb, Bool-cases,
}
use pgislet.Errors.{Err, ok, refuse_if}
use pgislet.Policy.Json.{Json, bool, str}
use pgislet.Policy.Routines.{reserved}
use pgislet.Policy.Check.{is_true, not_permanent}
use pgislet.Policy.Admitted.{IsPermanent}

pub not-false : (b : Bool) → not b ≡ false → b ≡ true
not-false true h = refl
not-false false h = cc

pub or_false : (a b : Bool) → (a || b) ≡ false → (a ≡ false) × (b ≡ false)
or_false false b h = (refl, h)
or_false true b h = cc

pub ne_of_test : (s t : String) → (s == t) ≡ false → s ≢ t
ne_of_test s t h e = cc (rw ((eq_iff s t).1 e) at h)

pub two_ne : (s t u : String) → (s == t || s == u) ≡ false → (s ≢ t) × (s ≢ u)
two_ne s t u h = let (a, b) = or_false _ _ h in (ne_of_test s t a, ne_of_test s u b)

pub is_true-ne : (v : Json) → is_true v ≡ false → v ≢ bool true
is_true-ne v h e = cc (rw e at h)

pub named_ok : (a b : Bool) → (a && not b) ≡ false → (a ≡ false) ⊎ (b ≡ true)
named_ok a b h = ground arith

pub refused-eq-ok : (t : Bool) (e : Err) → refuse_if t e ≡ ok tt → t ≡ false
refused-eq-ok true e h = cc
refused-eq-ok false e h = refl

pub size_pos : (single : Bool) (n : ℕ) → (eqb n 0 || single && not (eqb n 1)) ≡ false → 0 < n
size_pos single n h = ground arith

pub size_one :
    (single : Bool) (n : ℕ)
    → (eqb n 0 || single && not (eqb n 1)) ≡ false
    → (single ≡ false) ⊎ (n ≡ 1)
size_one single n h = ground arith

pub persistent_ok :
    (key : String) (v : Json)
    → (key == "relpersistence" && not_permanent v) ≡ false
    → (key ≢ "relpersistence") ⊎ IsPermanent v
persistent_ok key v h = elim (Bool-cases (key == "relpersistence")) [
  | inl named ↦ inr (two_ne _ _ _ (rw named at h))
  | inr other ↦ inl (ne_of_test _ _ other)
]

pub tablespace_ok :
    (key : String) (v : Json)
    → (key == "tablespacename" && not (str v == "")) ≡ false
    → (key ≢ "tablespacename") ⊎ (str v ≡ "")
tablespace_ok key v h = ground (arith, eq_iff key "tablespacename", eq_iff (str v) "")

pub unreserved : (o : Option Bool) → reserved o ≡ false → o ≢ some false
unreserved o h e = cc (rw e at h)
