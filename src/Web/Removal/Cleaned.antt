-- ===== src/Web/Removal/Cleaned.antt =====
-- What `Cleanup` of examples/web/sessions.go does to the sessions and their islets.
use pgislet.Base.{
  ◌+◌, true, ◌⊎◌, inl, inr, sym, ◌∙◌, ◌==◌, eq_iff, arith, Bool-cases, [], ◌∷◌, ℕ, ◌≤◌, String,
  Bool, false, ◌≡◌, refl, Option, none, some, length, ap,
}
use pgislet.Base.Dict.{Dict, lookup}
use pgislet.Errors.{Err, Errs, nil, cons}
use pgislet.Engine.Types.{Db}
use pgislet.Web.Sessions.{Session, Server, is_expired, taken, left, expire}
use pgislet.Web.Sessions.Capacity.{length-taken_left}
use pgislet.Web.Sessions.Entries.{
  Unique, Within, taken-Entries, left-Within, left-keeps, taken-keeps, left-drops,
}
use pgislet.Web.Removal.{World, Removal, cleanup, join}
use pgislet.Web.Removal.Gone.{Answers}
use pgislet.Web.Removal.Each.{
  NoIslets, Accounted, each-length, each-keeps, each-Within, each-Accounted, each-finished,
}

-- A session is to go: it has not been used for 30 minutes, or all are.
abbrev pub HasExpired : Bool → ℕ → Session → Type 0
HasExpired all now i = (all ≡ true) ⊎ (i.used + 1800000000000 ≤ now)

expired_test :
    (all : Bool) (now : ℕ) (i : Session) → HasExpired all now i → is_expired all now i ≡ true
expired_test all now i h = ground (h, arith)

kept_test :
    (all : Bool) (now : ℕ) (i : Session) → ¬ HasExpired all now i → is_expired all now i ≡ false
kept_test all now i h = ground (h, arith)

-- The sessions before and after a cleanup, its error, and the database after it.
pub record Cleaned (all : Bool) (now : ℕ) (before after : Dict Session) (error : Option Err)
    (db' : Db) : Type 0 where
  -- A session that has not expired stays as it is.
  pub keeps :
      (k : String) (i : Session)
      → lookup k before ≡ some i
      → ¬ HasExpired all now i
      → lookup k after ≡ some i
  -- No session appears or changes.
  pub within : Within after before
  pub size : length after ≤ length before
  -- No islet of an expired session is lost.
  pub accounted :
      (k : String) (i : Session)
      → lookup k before ≡ some i
      → HasExpired all now i
      → (lookup k after ≡ some i) ⊎ (lookup i.id db'.islets ≡ none)
  -- Without an error the expired sessions and their islets are gone.
  pub finished :
      error ≡ none
      → (k : String) (i : Session) → lookup k before ≡ some i
      → HasExpired all now i
      → (lookup k after ≡ none) × (lookup i.id db'.islets ≡ none)

fate :
    (d after : Dict Session) (db : Db) (k : String) (i : Session)
    → Accounted d after db
    → lookup k d ≡ some i
    → (lookup k after ≡ some i) ⊎ (lookup i.id db.islets ≡ none)
unfolding lookup
fate [] after db k i a s = cc
fate ((j, v) ∷ d) after db k i (a, more) s = elim (Bool-cases (j == k)) [
  | inl same ↦
      (let here : v ≡ i = cc (rw same at s) in
        let key : j ≡ k = (eq_iff j k).0 same in
        elim a [ inl back ↦ inl (cc (back, here, key)) | inr gone ↦ inr (rw (sym here) gone) ])
  | inr other ↦ fate d after db k i more (rw other at s)
]

NoIslets-lookup :
    (d : Dict Session) (db : Db) (k : String) (i : Session)
    → NoIslets d db
    → lookup k d ≡ some i
    → lookup i.id db.islets ≡ none
unfolding lookup
NoIslets-lookup [] db k i a s = cc
NoIslets-lookup ((j, v) ∷ d) db k i (a, more) s = elim (Bool-cases (j == k)) [
  | inl same ↦ (let here : v ≡ i = cc (rw same at s) in rw (sym here) a)
  | inr other ↦ NoIslets-lookup d db k i more (rw other at s)
]

join-none : (es : Errs) → join es ≡ none → es ≡ nil
join-none nil h = refl
join-none (cons e es) h = cc

-- Without an error, exactly the expired sessions are gone and with each of them its islet; here a key may
-- stand twice.
pub cleanup-finished :
    (calls : String → Removal) (all : Bool) (now : ℕ) (w : World)
    → ((token : String) → Answers (calls token))
    → (cleanup calls all now w).0 ≡ none
    → ((cleanup calls all now w).1.server.sessions ≡ left all now w.server.sessions)
      × NoIslets (taken all now w.server.sessions) (cleanup calls all now w).1.db
unfolding cleanup expire
cleanup-finished calls all now w answers fine =
    let start : World = record w {
      server = record w.server { sessions = left all now w.server.sessions };
    } in
    let (server, gone) =
      each-finished calls answers (taken all now w.server.sessions) start (join-none _ fine) in
    (ap (λ (s : Server). s.sessions) server, gone)

-- A cleanup keeps every session that is younger than 30 minutes, unless it removes all, brings in none
-- and changes none, and does not raise their number; each expired session is put back or its islet is
-- gone, and if the cleanup returns no error, then exactly the expired sessions are gone and with each of
-- them its islet. Every token stands once in the map. Any call may fail, but the reads of a row do not
-- answer by an error that it is missing, and a transaction stays aborted whose ROLLBACK TO has failed.
pub cleanup-Cleaned :
    (calls : String → Removal) (all : Bool) (now : ℕ) (w : World)
    → Unique w.server.sessions
    → ((token : String) → Answers (calls token))
    → Cleaned all now w.server.sessions
        (cleanup calls all now w).1.server.sessions
        (cleanup calls all now w).0
        (cleanup calls all now w).1.db
unfolding cleanup expire
cleanup-Cleaned calls all now w unique answers =
    let old = w.server.sessions in
    let start : World = record w { server = record w.server { sessions = left all now old } } in
    let entries = taken-Entries all now old unique in
    record {
      keeps = λ k i l e.
          each-keeps calls old (taken all now old) start k i entries l
            (left-keeps all now old k i l (kept_test all now i e));
      within =
          each-Within calls old (taken all now old) start entries (left-Within all now old unique);
      size =
          ground
            (each-length calls (taken all now old) start, length-taken_left all now old, arith);
      accounted = λ k i l e.
          fate (taken all now old) _ _ k i
            (each-Accounted calls answers old (taken all now old) start entries)
            (taken-keeps all now old k i l (expired_test all now i e));
      finished = λ fine k i l e.
          let (same, gone) = cleanup-finished calls all now w answers fine in
          (
            ap (lookup k) same ∙ left-drops all now old k i unique l (expired_test all now i e),
            NoIslets-lookup (taken all now old) _ k i gone
                (taken-keeps all now old k i l (expired_test all now i e)),
          );
    }
