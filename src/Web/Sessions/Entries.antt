-- ===== src/Web/Sessions/Entries.antt =====
-- The entries that the loop of `Cleanup` of examples/web/sessions.go takes out of the map of sessions, and
-- those that it leaves.
use pgislet.Base.{
  ℕ, String, Bool, true, false, ◌≡◌, refl, inl, inr, none, some, [], ◌∷◌, arith, Bool-cases, eq_iff,
  ◌==◌,
}
use mathlib.Core.Path.{subst}
use pgislet.Base.Dict.{Dict, lookup}
use pgislet.Web.Sessions.{Session, is_expired, taken, left}

-- A Go map has a key once.
abbrev pub Unique : Dict Session → Type 0
Unique [] = Unit
Unique ((key, item) ∷ rest) = (lookup key rest ≡ none) × Unique rest

-- Each entry of the first list is what the second answers for its key.
abbrev pub Entries : Dict Session → Dict Session → Type 0
Entries [] old = Unit
Entries ((key, item) ∷ rest) old = (lookup key old ≡ some item) × Entries rest old

-- What the first map answers, the second answers too.
abbrev pub Within : Dict Session → Dict Session → Type 0
Within m old = (k : String) (i : Session) → lookup k m ≡ some i → lookup k old ≡ some i

behind :
    (j k : String) (v i : Session) (m : Dict Session)
    → lookup j m ≡ none
    → lookup k m ≡ some i
    → lookup k ((j, v) ∷ m) ≡ some i
unfolding lookup
behind j k v i m n s = ground (arith, eq_iff j k, n, s)

Entries-behind :
    (xs : Dict Session) (j : String) (v : Session) (m : Dict Session)
    → lookup j m ≡ none
    → Entries xs m
    → Entries xs ((j, v) ∷ m)
Entries-behind [] j v m n e = tt
Entries-behind ((k, i) ∷ xs) j v m n (s, e) = (behind j k v i m n s, Entries-behind xs j v m n e)

at_head : (j : String) (v : Session) (m : Dict Session) → lookup j ((j, v) ∷ m) ≡ some v
unfolding lookup
at_head j v m = ground (arith, eq_iff j j)

module _ (all : Bool) (now : ℕ) where
  pub taken-Entries : (m : Dict Session) → Unique m → Entries (taken all now m) m
  unfolding taken
  taken-Entries [] u = tt
  taken-Entries ((j, v) ∷ m) (n, u) =
      let more = Entries-behind (taken all now m) j v m n (taken-Entries m u) in
      elim (Bool-cases (is_expired all now v)) [
        | inl e ↦ rw e (at_head j v m, more)
        | inr l ↦ rw l more
      ]

  pub left-Within : (m : Dict Session) → Unique m → Within (left all now m) m
  unfolding left lookup
  left-Within [] u k i s = s
  left-Within ((j, v) ∷ m) (n, u) k i s = elim (Bool-cases (is_expired all now v)) [
    | inl e ↦ behind j k v i m n (left-Within m u k i (rw e at s))
    | inr l ↦ elim (Bool-cases (j == k)) [
      | inl same ↦ rw same (rw (l, same) at s)
      | inr other ↦ rw other (left-Within m u k i (rw (l, other) at s))
    ]
  ]

  pub left-keeps :
      (m : Dict Session) (k : String) (i : Session)
      → lookup k m ≡ some i
      → is_expired all now i ≡ false
      → lookup k (left all now m) ≡ some i
  unfolding left lookup
  left-keeps [] k i s l = s
  left-keeps ((j, v) ∷ m) k i s l = elim (Bool-cases (j == k)) [
    | inl same ↦ (let here : v ≡ i = cc (rw same at s) in rw (here, l, same) refl)
    | inr other ↦ elim (Bool-cases (is_expired all now v)) [
      | inl e ↦ rw e (left-keeps m k i (rw other at s) l)
      | inr a ↦ rw (a, other) (left-keeps m k i (rw other at s) l)
    ]
  ]

  pub taken-keeps :
      (m : Dict Session) (k : String) (i : Session)
      → lookup k m ≡ some i
      → is_expired all now i ≡ true
      → lookup k (taken all now m) ≡ some i
  unfolding taken lookup
  taken-keeps [] k i s l = s
  taken-keeps ((j, v) ∷ m) k i s l = elim (Bool-cases (j == k)) [
    | inl same ↦ (let here : v ≡ i = cc (rw same at s) in rw (here, l, same) refl)
    | inr other ↦ elim (Bool-cases (is_expired all now v)) [
      | inl e ↦ rw (e, other) (taken-keeps m k i (rw other at s) l)
      | inr a ↦ rw a (taken-keeps m k i (rw other at s) l)
    ]
  ]

  left-none : (m : Dict Session) (k : String) → lookup k m ≡ none → lookup k (left all now m) ≡ none
  unfolding left lookup
  left-none [] k n = n
  left-none ((j, v) ∷ m) k n = elim (Bool-cases (j == k)) [
    | inl same ↦ cc (rw same at n)
    | inr other ↦ elim (Bool-cases (is_expired all now v)) [
      | inl e ↦ rw e (left-none m k (rw other at n))
      | inr a ↦ rw (a, other) (left-none m k (rw other at n))
    ]
  ]

  pub left-drops :
      (m : Dict Session) (k : String) (i : Session)
      → Unique m
      → lookup k m ≡ some i
      → is_expired all now i ≡ true
      → lookup k (left all now m) ≡ none
  unfolding left lookup
  left-drops [] k i u s l = cc
  left-drops ((j, v) ∷ m) k i (n, u) s l = elim (Bool-cases (j == k)) [
    | inl same ↦
        (let here : v ≡ i = cc (rw same at s) in
          let e : is_expired all now v ≡ true = rw here l in
          rw e (left-none m k (subst (λ x. lookup x m ≡ none) ((eq_iff j k).0 same) n)))
    | inr other ↦ elim (Bool-cases (is_expired all now v)) [
      | inl e ↦ rw e (left-drops m k i u (rw other at s) l)
      | inr a ↦ rw (a, other) (left-drops m k i u (rw other at s) l)
    ]
  ]
