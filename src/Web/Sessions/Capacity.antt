-- ===== src/Web/Sessions/Capacity.antt =====
-- How many sessions the server of examples/web/sessions.go holds, in any interleaving of requests and
-- cleanups.
use pgislet.Base.{
  ℕ, suc, ◌+◌, ◌≤◌, String, Bool, ◌≡◌, refl, some, [], ◌∷◌, length, arith, Option-cases, inl, inr,
  Bool-cases,
}
use pgislet.Base.Dict.{Dict, lookup, insert, erase}
use pgislet.Web.Sessions.{
  Session, Server, max_sessions, touch, is_alive, reserve, release, store, forget, taken, left,
  expire,
}

-- A server after some sections, in any order in which the mutex lets the requests and the cleanups
-- run. The indices count the sessions that cleanups have put back, the starts that hold a slot and
-- have entered no session, and those that have entered theirs and still hold the slot.
pub data Run : ℕ → ℕ → ℕ → Server → Type 0 where
  new : Run 0 0 0 (record { sessions = []; pending = 0 })
  touched :
      {n w d : ℕ} {s : Server} (now : ℕ) (key : String)
      → Run n w d s
      → Run n w d (touch now key s).1
  reserved : {n w d : ℕ} {s s' : Server} → reserve s ≡ some s' → Run n w d s → Run n (suc w) d s'
  entered :
      {n w d : ℕ} {s : Server} (key : String) (item : Session)
      → Run n (suc w) d s
      → Run n w (suc d) (store key item s)
  abandoned : {n w d : ℕ} {s : Server} → Run n (suc w) d s → Run n w d (release s)
  released : {n w d : ℕ} {s : Server} → Run n w (suc d) s → Run n w d (release s)
  forgotten : {n w d : ℕ} {s : Server} (key : String) → Run n w d s → Run n w d (forget key s)
  expired :
      {n w d : ℕ} {s : Server} (all : Bool) (now : ℕ) → Run n w d s → Run n w d (expire all now s).1
  put_back :
      {n w d : ℕ} {s : Server} (key : String) (item : Session)
      → Run n w d s
      → Run (suc n) w d (store key item s)

module _ {V : Type 0} where
  pub length-insert : (k : String) (v : V) (m : Dict V) → length (insert k v m) ≤ suc (length m)
  unfolding insert
  length-insert k v [] = ground arith
  length-insert k v ((j, u) ∷ m) = ground (arith, length-insert k v m)

  length-insert_same :
      (k : String) (v u : V) (m : Dict V) → lookup k m ≡ some u → length (insert k v m) ≡ length m
  unfolding insert lookup
  length-insert_same k v u [] h = cc
  length-insert_same k v u ((j, w) ∷ m) h = ground (arith, length-insert_same k v u m)

  length-erase : (k : String) (m : Dict V) → length (erase k m) ≤ length m
  unfolding erase
  length-erase k [] = ground arith
  length-erase k ((j, u) ∷ m) = ground (arith, length-erase k m)

pub length-taken_left :
    (all : Bool) (now : ℕ) (m : Dict Session)
    → length (taken all now m) + length (left all now m) ≡ length m
unfolding taken left
length-taken_left all now [] = refl
length-taken_left all now ((j, item) ∷ m) = ground (arith, length-taken_left all now m)

pub touch-keeps :
    (now : ℕ) (key : String) (s : Server)
    → (length (touch now key s).1.sessions ≡ length s.sessions)
      × ((touch now key s).1.pending ≡ s.pending)
unfolding touch
touch-keeps now key s = elim (Option-cases (lookup key s.sessions)) [
  | inl n ↦ rw n (refl, refl)
  | inr (item, found) ↦ rw found (elim (Bool-cases (is_alive now item)) [
    | inl a ↦ rw a (length-insert_same key _ item s.sessions found, refl)
    | inr d ↦ rw d (refl, refl)
  ])
]

pub reserve-inv :
    (s s' : Server)
    → reserve s ≡ some s'
    → (suc (length s.sessions + s.pending) ≤ max_sessions)
      × (s'.sessions ≡ s.sessions)
      × (s'.pending ≡ suc s.pending)
unfolding reserve
reserve-inv s s' h = ground arith

-- In every interleaving, the sessions and the starts that may still enter one are at most 32 and one
-- for each session that a cleanup has put back; `pending` is the number of starts that hold a slot.
-- So without a failed removal there are never more than 32 sessions.
pub Run-bounded :
    {n w d : ℕ} {s : Server}
    → Run n w d s
    → (length s.sessions + w ≤ max_sessions + n) × (s.pending ≡ w + d)
unfolding release store forget expire
Run-bounded new = (ground arith, refl)
Run-bounded (touched {s = s} now key r) = ground (arith, Run-bounded r, touch-keeps now key s)
Run-bounded (reserved {s = s} h r) = ground (arith, Run-bounded r, reserve-inv s _ h)
Run-bounded (entered {s = s} key item r) =
    ground (arith, Run-bounded r, length-insert key item s.sessions)
Run-bounded (abandoned r) = ground (arith, Run-bounded r)
Run-bounded (released r) = ground (arith, Run-bounded r)
Run-bounded (forgotten {s = s} key r) = ground (arith, Run-bounded r, length-erase key s.sessions)
Run-bounded (expired {s = s} all now r) =
    ground (arith, Run-bounded r, length-taken_left all now s.sessions)
Run-bounded (put_back {s = s} key item r) =
    ground (arith, Run-bounded r, length-insert key item s.sessions)
