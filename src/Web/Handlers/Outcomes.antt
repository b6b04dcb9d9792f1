-- ===== src/Web/Handlers/Outcomes.antt =====
-- What `current` and `start` of examples/web/sessions.go end in.
use pgislet.Base.{
  ℕ, suc, ◌+◌, ◌≤◌, String, true, false, ◌≡◌, refl, sym, ◌∙◌, ◌⊎◌, Option, none, some, inl, inr,
  Bool-cases, ap, length, leb, ◌-◌, arith,
}
use pgislet.Base.Dict.{lookup, insert}
use pgislet.Errors.{Err, err, Result-cases}
use pgislet.Policy.Check.{Parser}
use pgislet.Engine.Types.{Islet, Row, Db, to_metadata}
use pgislet.Engine.Execute.{Manager}
use pgislet.Engine.Initialize.{open_islet, create_with_initialization}
use pgislet.Web.Report.{Response, report, respond, workspace, with_cookie, token}
use pgislet.Web.Sessions.{
  Session, Server, touch, refreshed, is_alive, reserve, release, store, max_sessions,
}
use pgislet.Web.Removal.{World}
use pgislet.Engine.Registry.Closed.{open_islet-found}
use pgislet.Web.Seed.{seed}
use pgislet.Web.Handlers.{
  Calls, Gate, refused, passed, current, opened_gate, open_session, start_reserved, start_result,
  remove_created,
}

-- `current` lets a request through only with the cookie of a session younger than the limit, to the
-- islet of that session, which it keeps alive; otherwise it changes no more than that age.
pub data CurrentOutcome (c : Calls) (cookie : Option String) (w : World) (gate : Gate) (w' : World)
    : Type 0 where
  stranger :
      (response : Response)
      → ((key : String) (item : Session)
          → cookie ≡ some key
          → lookup key w.server.sessions ≡ some item
          → item.used + 1800000000000 ≤ c.now)
      → gate ≡ refused response
      → response.status ≡ 401
      → w' ≡ w
      → CurrentOutcome c cookie w gate w'
  known :
      (key : String) (item : Session)
      → cookie ≡ some key
      → lookup key w.server.sessions ≡ some item
      → suc c.now ≤ item.used + 1800000000000
      → w' ≡ record w {
        server = record w.server {
          sessions = insert key (record item { used = c.now }) w.server.sessions;
        };
      }
      → ((e : Err) × (open_islet c.opened item.id w.db ≡ err e) × (gate ≡ refused (report e none)))
        ⊎ ((r : Row) × (lookup item.id w.db.islets ≡ some r)
            × (gate ≡ passed key (to_metadata item.id r).islet))
      → CurrentOutcome c cookie w gate w'

too_old : (now : ℕ) (i : Session) → is_alive now i ≡ false → i.used + 1800000000000 ≤ now
too_old now i h = ground (h, arith)

young : (now : ℕ) (i : Session) → is_alive now i ≡ true → suc now ≤ i.used + 1800000000000
young now i h = ground (h, arith)

module _ (c : Calls) where
  opened_cases :
      (key id : String) (db : Db)
      → ((e : Err) × (open_islet c.opened id db ≡ err e)
          × (opened_gate c key (open_islet c.opened id db) ≡ refused (report e none)))
        ⊎ ((r : Row) × (lookup id db.islets ≡ some r)
            × (opened_gate c key (open_islet c.opened id db) ≡ passed key (to_metadata id r).islet))
  opened_cases key id db = elim (Result-cases (open_islet c.opened id db)) [
    | inl (h, s) ↦
        (let (r, found, same) = open_islet-found id c.opened db h s in
          inr (r, found, ap (opened_gate c key) s ∙ ap (passed key) same))
    | inr (e, s) ↦ inl (e, s, ap (opened_gate c key) s)
  ]

  found_cases :
      (key : String) (w : World) (o : Option Session)
      → lookup key w.server.sessions ≡ o
      → let (item, server) = refreshed c.now key w.server o in
        CurrentOutcome c (some key) w (open_session c key w.db item) (record w { server = server })
  found_cases key w none s = stranger _ (λ k i e l. cc (s, l, e)) refl refl refl
  found_cases key w (some item) s = elim (Bool-cases (is_alive c.now item)) [
    | inl a ↦ rw a (known key item refl s (young c.now item a) refl (opened_cases key item.id w.db))
    | inr d ↦ rw d (
        stranger _
          (λ k i e l. (let same : item ≡ i = cc (s, l, e) in rw (sym same) (too_old c.now item d)))
          refl refl refl)
  ]

  -- Without the cookie of a session that is younger than 30 minutes, `current` answers 401 and changes
  -- nothing; with one it makes the session as young as the clock says, and lets the request through to
  -- the islet of that session, by its row, or reports why `Open` failed.
  pub current-CurrentOutcome :
      (cookie : Option String) (w : World)
      → CurrentOutcome c cookie w (current c cookie w).0 (current c cookie w).1
  unfolding current touch
  current-CurrentOutcome none w = stranger _ (λ key item e. cc e) refl refl refl
  current-CurrentOutcome (some key) w = found_cases key w (lookup key w.server.sessions) refl

-- How a start without a live session ends: no slot is free; or the creation fails, and the sessions and
-- `pending` are what they were, the islet that was left behind being removed again; or the new islet
-- has a session under the token of the response.
pub data StartOutcome (p : Parser) (m : Manager) (c : Calls) (w : World) (response : Response)
    (w' : World) : Type 0 where
  full :
      max_sessions ≤ length w.server.sessions + w.server.pending
      → response.status ≡ 503
      → w' ≡ w
      → StartOutcome p m c w response w'
  failed :
      (h : Islet) (e : Err) (db : Db)
      → suc (length w.server.sessions + w.server.pending) ≤ max_sessions
      → create_with_initialization p m c.env c.later seed w.db ≡ ((h, some e), db)
      → response ≡ report e none
      → w' ≡ record { server = w.server; db = remove_created c p m h db }
      → StartOutcome p m c w response w'
  started :
      (h : Islet) (db : Db)
      → suc (length w.server.sessions + w.server.pending) ≤ max_sessions
      → create_with_initialization p m c.env c.later seed w.db ≡ ((h, none), db)
      → response ≡ with_cookie (token c.token) (respond 201 (workspace h))
      → w' ≡ record {
        server = store c.token (record { id = h.id; used = c.entered }) w.server;
        db = db;
      }
      → StartOutcome p m c w response w'

module _ (p : Parser) (m : Manager) (c : Calls) (w : World) where
  abbrev reserved_server : Server
  reserved_server = record w.server { pending = w.server.pending + 1 }

  lowered : w.server.pending + 1 - 1 ≡ w.server.pending
  lowered = omega arith

  release-reserved : release reserved_server ≡ w.server
  unfolding release
  release-reserved = ap (λ n. record w.server { pending = n }) lowered

  release-store :
      (key : String) (item : Session)
      → release (store key item reserved_server) ≡ store key item w.server
  unfolding release store
  release-store key item =
      ap (λ n. record { sessions = insert key item w.server.sessions; pending = n }) lowered

  created_cases :
      (o : (Islet × Option Err) × Db)
      → suc (length w.server.sessions + w.server.pending) ≤ max_sessions
      → create_with_initialization p m c.env c.later seed w.db ≡ o
      → StartOutcome p m c w
          (start_result c p m reserved_server o).0
          (start_result c p m reserved_server o).1
  created_cases ((h, some e), db) room o =
      failed h e db room o refl (
        ap (λ (s : Server). record { server = s; db = remove_created c p m h db }) release-reserved)
  created_cases ((h, none), db) room o =
      started h db room o refl
        (ap (λ (s : Server). record { server = s; db = db }) (release-store c.token _))

  -- A start without a live session, whatever its calls meet.
  pub start-StartOutcome :
      StartOutcome p m c w
        (start_reserved c p m w (reserve w.server)).0
        (start_reserved c p m w (reserve w.server)).1
  unfolding reserve
  start-StartOutcome =
      elim (Bool-cases (leb max_sessions (length w.server.sessions + w.server.pending))) [
        | inl b ↦ rw b (full (ground (b, arith)) refl refl)
        | inr b ↦ rw b (
            created_cases (create_with_initialization p m c.env c.later seed w.db)
              (ground (b, arith)) refl)
      ]
