-- ===== src/Web/Sessions/Owned.antt =====
-- The islets of the sessions of examples/web/sessions.go: each section keeps that all of them are
-- `Own`, where the session that it enters is one of such an islet.
use pgislet.Base.{
  ℕ, String, Bool, ◌≡◌, refl, Option, none, some, [], ◌∷◌, arith, inl, inr, Bool-cases,
  Option-cases, ◌==◌,
}
use mathlib.Core.Path.{subst}
use pgislet.Base.Dict.{Dict, lookup, insert, erase}
use pgislet.Web.Sessions.{
  Session, Server, touch, refreshed, store, forget, reserve, release, taken, left, is_alive,
  is_expired,
}

module _ (Own : String → Type 0) where
  -- Each of these sessions is one of an islet that is `Own`.
  abbrev pub AllOwn : Dict Session → Type 0
  AllOwn [] = Unit
  AllOwn ((key, item) ∷ rest) = Own item.id × AllOwn rest

  pub lookup-own :
      (key : String) (item : Session) (d : Dict Session)
      → lookup key d ≡ some item
      → AllOwn d
      → Own item.id
  unfolding lookup
  lookup-own key item [] q own = cc
  lookup-own key item ((name, old) ∷ rest) q (o, own) = elim (Bool-cases (name == key)) [
    | inl s ↦ (let same : old ≡ item = cc (rw s at q) in subst (λ (i : Session). Own i.id) same o)
    | inr s ↦ lookup-own key item rest (rw s at q) own
  ]

  insert-AllOwn :
      (key : String) (item : Session) (d : Dict Session)
      → Own item.id
      → AllOwn d
      → AllOwn (insert key item d)
  unfolding insert
  insert-AllOwn key item [] new own = (new, tt)
  insert-AllOwn key item ((name, old) ∷ rest) new (o, own) = elim (Bool-cases (name == key)) [
    | inl s ↦ rw s (new, own)
    | inr s ↦ rw s (o, insert-AllOwn key item rest new own)
  ]

  erase-AllOwn : (key : String) (d : Dict Session) → AllOwn d → AllOwn (erase key d)
  unfolding erase
  erase-AllOwn key [] own = own
  erase-AllOwn key ((name, old) ∷ rest) (o, own) = elim (Bool-cases (name == key)) [
    | inl s ↦ rw s (erase-AllOwn key rest own)
    | inr s ↦ rw s (o, erase-AllOwn key rest own)
  ]

  pub taken-AllOwn : (all : Bool) (now : ℕ) (d : Dict Session) → AllOwn d → AllOwn (taken all now d)
  unfolding taken
  taken-AllOwn all now [] own = own
  taken-AllOwn all now ((key, item) ∷ rest) (o, own) = elim (Bool-cases (is_expired all now item)) [
    | inl s ↦ rw s (o, taken-AllOwn all now rest own)
    | inr s ↦ rw s (taken-AllOwn all now rest own)
  ]

  pub left-AllOwn : (all : Bool) (now : ℕ) (d : Dict Session) → AllOwn d → AllOwn (left all now d)
  unfolding left
  left-AllOwn all now [] own = own
  left-AllOwn all now ((key, item) ∷ rest) (o, own) = elim (Bool-cases (is_expired all now item)) [
    | inl s ↦ rw s (left-AllOwn all now rest own)
    | inr s ↦ rw s (o, left-AllOwn all now rest own)
  ]

  refreshed-AllOwn :
      (now : ℕ) (key : String) (s : Server) (o : Option Session)
      → lookup key s.sessions ≡ o
      → AllOwn s.sessions
      → AllOwn (refreshed now key s o).1.sessions
  refreshed-AllOwn now key s none found own = own
  refreshed-AllOwn now key s (some item) found own = elim (Bool-cases (is_alive now item)) [
    | inl a ↦ rw a (insert-AllOwn key _ s.sessions (lookup-own key item s.sessions found own) own)
    | inr a ↦ rw a own
  ]

  pub touch-AllOwn :
      (now : ℕ) (key : String) (s : Server)
      → AllOwn s.sessions
      → AllOwn (touch now key s).1.sessions
  unfolding touch
  touch-AllOwn now key s own = refreshed-AllOwn now key s (lookup key s.sessions) refl own

  pub touch-own :
      (now : ℕ) (key : String) (s : Server) (item : Session)
      → (touch now key s).0 ≡ some item
      → AllOwn s.sessions
      → Own item.id
  unfolding touch
  touch-own now key s item q own = elim (Option-cases (lookup key s.sessions)) [
    | inl n ↦ cc (rw n at q)
    | inr (old, found) ↦ elim (Bool-cases (is_alive now old)) [
      | inl a ↦
          (let same : record old { used = now } ≡ item = cc (rw (found, a) at q) in
            subst (λ (i : Session). Own i.id) same (lookup-own key old s.sessions found own))
      | inr d ↦ cc (rw (found, d) at q)
    ]
  ]

  pub store-AllOwn :
      (token : String) (item : Session) (s : Server)
      → Own item.id
      → AllOwn s.sessions
      → AllOwn (store token item s).sessions
  unfolding store
  store-AllOwn token item s new own = insert-AllOwn token item s.sessions new own

  pub forget-AllOwn :
      (key : String) (s : Server) → AllOwn s.sessions → AllOwn (forget key s).sessions
  unfolding forget
  forget-AllOwn key s own = erase-AllOwn key s.sessions own

  pub release-AllOwn : (s : Server) → AllOwn s.sessions → AllOwn (release s).sessions
  unfolding release
  release-AllOwn s own = own

  pub reserve-AllOwn :
      (s s' : Server) → reserve s ≡ some s' → AllOwn s.sessions → AllOwn s'.sessions
  unfolding reserve
  reserve-AllOwn s s' q own = subst AllOwn (ground arith) own
