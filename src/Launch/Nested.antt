-- ===== src/Launch/Nested.antt =====
-- What a run brings up, it takes down in the opposite order.
use mathlib.Core.List.{append_assoc}
use pgislet.Base.{
  ℕ, eqb, arith, ◌∙◌, if◌then◌else◌, String, Bool, true, false, ◌≡◌, refl, inl, inr, Option, none,
  some, List, [], ◌∷◌, ◌++◌, ◌==◌, Bool-cases,
}
use pgislet.Errors.{Err, Result, ok, err}
use pgislet.Engine.Execute.{Manager}
use pgislet.Launch.{
  Act, started, terminated, opened, closed, listening, Launched, Source, returned, between,
  with_manager, with_dsn, in_container, started_container, with_database,
}

-- What is up, the last first, behind an act that fits it: a manager closes before the container that
-- was started first, and only a manager's run listens.
abbrev behind : Act → List Act → Option (List Act)
behind started up = some (started ∷ up)
behind (opened i) up = some (opened i ∷ up)
behind terminated (started ∷ up) = some up
behind (closed i) (opened j ∷ up) = if eqb i j then some up else none
behind (listening a) (opened i ∷ up) = some (opened i ∷ up)
behind _ up = none

-- The acts fit, one after the other, and leave nothing up.
unfoldable pub closes : List Act → List Act → Bool
closes [] [] = true
closes (act ∷ up) [] = false
closes up (act ∷ acts) = elim (behind act up) [ none ↦ false | some up' ↦ closes up' acts ]

-- All that is listened on is `a`.
abbrev pub OnlyListens : String → List Act → Type 0
OnlyListens a [] = Unit
OnlyListens a (listening b ∷ acts) = (b ≡ a) × OnlyListens a acts
OnlyListens a (started ∷ acts) = OnlyListens a acts
OnlyListens a (terminated ∷ acts) = OnlyListens a acts
OnlyListens a (opened i ∷ acts) = OnlyListens a acts
OnlyListens a (closed i ∷ acts) = OnlyListens a acts

OnlyListens-append :
    (a : String) (xs ys : List Act) → OnlyListens a xs → OnlyListens a ys → OnlyListens a (xs ++ ys)
OnlyListens-append a [] ys h k = k
OnlyListens-append a (listening b ∷ xs) ys (e, h) k = (e, OnlyListens-append a xs ys h k)
OnlyListens-append a (started ∷ xs) ys h k = OnlyListens-append a xs ys h k
OnlyListens-append a (terminated ∷ xs) ys h k = OnlyListens-append a xs ys h k
OnlyListens-append a (opened i ∷ xs) ys h k = OnlyListens-append a xs ys h k
OnlyListens-append a (closed i ∷ xs) ys h k = OnlyListens-append a xs ys h k

-- A run that has come to its end, that leaves up what was up before it, and listens on `a` at most.
-- `Top` are the acts over which it may run.
pub record IsTidy {S : Type 0} (Top : List Act → Type 0) (a : String) (l : Launched S)
    : Type 0 where
  pub result : Option Err
  pub ended : l.exit ≡ some result
  pub neutral : (up rest : List Act) → Top up → closes up (l.acts ++ rest) ≡ closes up rest
  pub listens : OnlyListens a l.acts

abbrev pub Any : List Act → Type 0
Any up = Unit

abbrev pub InManager : List Act → Type 0
InManager (opened i ∷ up) = Unit
InManager _ = ⊥

closes-closed :
    (i : ℕ) (up rest : List Act) → closes (opened i ∷ up) (closed i ∷ rest) ≡ closes up rest
unfolding closes
closes-closed i up rest = ground arith

module _ {S : Type 0} (a : String) where
  pub returned-IsTidy :
      {Top : List Act → Type 0} (e : Option Err) (s : S) → IsTidy Top a (returned e s)
  returned-IsTidy e s = record {
    result = e;
    ended = refl;
    neutral = λ up rest t. refl;
    listens = tt;
  }

  manager-IsTidy :
      (i : ℕ) (l : Launched S)
      → IsTidy InManager a l
      → IsTidy Any a (between (opened i) (closed i) l)
  unfolding closes
  manager-IsTidy i l tidy = record {
    result = tidy.result;
    ended = tidy.ended;
    neutral = λ up rest t.
        rw (tidy.ended, append_assoc l.acts (closed i ∷ []) rest)
          (tidy.neutral (opened i ∷ up) (closed i ∷ rest) tt ∙ closes-closed i up rest);
    listens = rw tidy.ended (OnlyListens-append a l.acts (closed i ∷ []) tidy.listens tt);
  }

  container-IsTidy : (l : Launched S) → IsTidy Any a l → IsTidy Any a (between started terminated l)
  unfolding closes
  container-IsTidy l tidy = record {
    result = tidy.result;
    ended = tidy.ended;
    neutral = λ up rest t.
        rw (tidy.ended, append_assoc l.acts (terminated ∷ []) rest)
          (tidy.neutral (started ∷ up) (terminated ∷ rest) tt);
    listens = rw tidy.ended (OnlyListens-append a l.acts (terminated ∷ []) tidy.listens tt);
  }

  pub with_manager-IsTidy :
      (i : ℕ) (r : Result Manager) (s : S) (body : Manager → Launched S)
      → ((m : Manager) → IsTidy InManager a (body m))
      → IsTidy Any a (with_manager i r s body)
  with_manager-IsTidy i (err e) s body tidy = returned-IsTidy (some e) s
  with_manager-IsTidy i (ok m) s body tidy = manager-IsTidy i (body m) (tidy m)

  module _ (s : S) (body : String → Launched S)
      (tidy : (dsn : String) → IsTidy Any a (body dsn)) where
    with_dsn-IsTidy : (dsn : String) → IsTidy Any a (with_dsn dsn s body)
    with_dsn-IsTidy dsn = elim (Bool-cases (dsn == "")) [
      | inl e ↦ rw e (returned-IsTidy _ s)
      | inr n ↦ rw n (tidy dsn)
    ]

    in_container-IsTidy : (c : Result String) → IsTidy Any a (in_container c s body)
    in_container-IsTidy (err e) = returned-IsTidy (some e) s
    in_container-IsTidy (ok dsn) = with_dsn-IsTidy dsn

    started-IsTidy :
        (e : Option Err) (c : Result String) → IsTidy Any a (started_container e c s body)
    started-IsTidy (some e) c = returned-IsTidy (some e) s
    started-IsTidy none c = container-IsTidy (in_container c s body) (in_container-IsTidy c)

    pub with_database-IsTidy : (source : Source) → IsTidy Any a (with_database source s body)
    unfolding with_database
    with_database-IsTidy source = elim (Bool-cases source.disposable) [
      | inl d ↦ rw d (started-IsTidy source.run_error source.connection)
      | inr n ↦ rw n (with_dsn-IsTidy source.dsn)
    ]
