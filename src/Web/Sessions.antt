-- ===== src/Web/Sessions.antt =====
-- examples/web/sessions.go: the sessions of the server, by token, and the sections in which the code
-- holds the mutex; other requests run between two sections. A time is a number of nanoseconds of a
-- clock that does not go back, and a section reads it once.
pub mod Capacity
pub mod Entries
pub mod Owned
use pgislet.Base.{
  ℕ, suc, ◌+◌, ◌-◌, ◌*◌, String, Bool, true, false, not, ◌||◌, Option, none, some, List, [], ◌∷◌,
  length, ltb, leb, if◌then◌else◌,
}
use pgislet.Base.Dict.{Dict, lookup, insert, erase}
use pgislet.Config.{second}

abbrev pub session_ttl : ℕ
session_ttl = 30 * (60 * second)

abbrev pub max_sessions : ℕ
max_sessions = 32

pub record Session : Type 0 where
  pub id : String
  pub used : ℕ

-- The fields of `Server` that the mutex guards. `pending` counts starts under way: each lowers it
-- once, behind raising it.
pub record Server : Type 0 where
  pub sessions : Dict Session
  pub pending : ℕ

-- `time.Since(item.used) < sessionTTL`.
abbrev pub is_alive : ℕ → Session → Bool
is_alive now item = ltb (now - item.used) session_ttl

abbrev pub refreshed : ℕ → String → Server → Option Session → Option Session × Server
refreshed now key s none = (none, s)
refreshed now key s (some item) =
    let item' = record item { used = now } in
    if is_alive now item
    then (some item', record s { sessions = insert key item' s.sessions })
    else (none, s)

-- The section of `current`.
unfoldable pub touch : ℕ → String → Server → Option Session × Server
touch now key s = refreshed now key s (lookup key s.sessions)

abbrev pub alive_in : ℕ → Option Session → Bool
alive_in now none = false
alive_in now (some item) = is_alive now item

-- The sections of `start`: the test of a session, the reservation of a slot, its release, and the
-- entry of a session.
unfoldable pub has_session : ℕ → String → Server → Bool
has_session now key s = alive_in now (lookup key s.sessions)

unfoldable pub reserve : Server → Option Server
reserve s =
    if leb max_sessions (length s.sessions + s.pending)
    then none
    else some (record s { pending = s.pending + 1 })

unfoldable pub release : Server → Server
release s = record s { pending = s.pending - 1 }

unfoldable pub store : String → Session → Server → Server
store key item s = record s { sessions = insert key item s.sessions }

-- The section of `end`.
unfoldable pub forget : String → Server → Server
forget key s = record s { sessions = erase key s.sessions }

-- `all || time.Since(item.used) >= sessionTTL`.
abbrev pub is_expired : Bool → ℕ → Session → Bool
is_expired all now item = all || not (is_alive now item)

-- What the loop of `Cleanup` takes out of the map, and what it leaves.
unfoldable pub taken : Bool → ℕ → Dict Session → Dict Session
taken all now [] = []
taken all now ((key, item) ∷ rest) =
    let more = taken all now rest in if is_expired all now item then (key, item) ∷ more else more

unfoldable pub left : Bool → ℕ → Dict Session → Dict Session
left all now [] = []
left all now ((key, item) ∷ rest) =
    let more = left all now rest in if is_expired all now item then more else (key, item) ∷ more

-- The first section of `Cleanup`.
unfoldable pub expire : Bool → ℕ → Server → Dict Session × Server
expire all now s = (taken all now s.sessions, record s { sessions = left all now s.sessions })
