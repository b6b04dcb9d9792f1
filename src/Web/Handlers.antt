-- ===== src/Web/Handlers.antt =====
-- `current`, `start` and `end` of examples/web/sessions.go. A handler is a sequence of sections under
-- the mutex and of operations of the manager; what other requests do between them is in
-- Web/Schedule.
pub mod Outcomes
use pgislet.Base.{ℕ, String, Bool, false, Option, none, some, ◌==◌, if◌then◌else◌}
use pgislet.Errors.{Err, Result, ok, err}
use pgislet.Policy.Check.{Parser}
use pgislet.Engine.Types.{Islet, Db}
use pgislet.Engine.Exec.{Env}
use pgislet.Engine.Execute.{Manager}
use pgislet.Engine.Initialize.{open_islet, create_with_initialization}
use pgislet.Web.Report.{
  Response, respond, write_error, report, workspace, deleted, token, cleared, with_cookie,
}
use pgislet.Web.Sessions.{Session, Server, touch, has_session, reserve, release, store, forget}
use pgislet.Web.Removal.{World, Removal, remove}
use pgislet.Web.Seed.{seed}

-- What the calls of one request meet: the clock when `start` tests its session, in `current`, and
-- when `start` enters one; the error of `Open` in `current`, if any; the environment of the operation
-- behind it, and that of the initialization behind a creation or a reset; those of `remove`; and the
-- random token in hexadecimal.
pub record Calls : Type 0 where
  pub tested : ℕ
  pub now : ℕ
  pub entered : ℕ
  pub opened : Option Err
  pub env : Env
  pub later : Env
  pub removal : Removal
  pub token : String

-- The two results of `current`: a response that is written, or a handle and the token of its session.
pub data Gate : Type 0 where
  refused : Response → Gate
  passed : String → Islet → Gate

abbrev pub expired_session : Response
expired_session = write_error 401 "session" "The workspace has expired. Reconnect to continue."

module _ (c : Calls) where
  abbrev pub opened_gate : String → Result Islet → Gate
  opened_gate key (err e) = refused (report e none)
  opened_gate key (ok h) = passed key h

  abbrev pub open_session : String → Db → Option Session → Gate
  open_session key db none = refused expired_session
  open_session key db (some item) = opened_gate key (open_islet c.opened item.id db)

  -- `s.current`.
  unfoldable pub current : Option String → World → Gate × World
  current none w = (refused expired_session, w)
  current (some key) w =
      let (item, server) = touch c.now key w.server in
      (open_session key w.db item, record w { server = server })

  -- `h, ok := s.current(w, r); if !ok { return }`, with the cookie that `current` sets.
  abbrev pub let_in : Gate × World → (String → Islet → World → Response × World) → Response × World
  let_in (refused response, w) handler = (response, w)
  let_in (passed key h, w) handler =
      let (response, w') = handler key h w in (with_cookie (token key) response, w')

  abbrev pub behind_current :
      Option String → World → (String → Islet → World → Response × World) → Response × World
  behind_current cookie w handler = let_in (current cookie w) handler

  -- `s.end`.
  abbrev pub end_result : String → World → Option Err × Db → Response × World
  end_result key w (some e, db) = (report e none, record w { db = db })
  end_result key w (none, db) =
      (with_cookie cleared (respond 200 deleted), record { server = forget key w.server; db = db })

  abbrev pub end_behind : String → Islet → World → Response × World
  end_behind key h w = end_result key w (remove c.removal h.id w.db)

  unfoldable pub end_session : Option String → World → Response × World
  end_session cookie w = behind_current cookie w end_behind

  module _ (p : Parser) (m : Manager) where
    -- `if h.ID != "" { _ = s.remove(context.Background(), h.ID) }`.
    abbrev pub remove_created : Islet → Db → Db
    remove_created h db = if h.id == "" then db else (remove c.removal h.id db).1

    -- The end of `start`; the deferred section lowers `pending` on both paths.
    abbrev pub start_result : Server → (Islet × Option Err) × Db → Response × World
    start_result server ((h, some e), db) =
        (report e none, record { server = release server; db = remove_created h db })
    start_result server ((h, none), db) =
        let item : Session = record { id = h.id; used = c.entered } in
        (
          with_cookie (token c.token) (respond 201 (workspace h)),
          record { server = release (store c.token item server); db = db },
        )

    abbrev pub start_reserved : World → Option Server → Response × World
    start_reserved w none =
        (write_error 503 "capacity" "All workspace slots are in use. Try again shortly.", w)
    start_reserved w (some server) =
        start_result server (create_with_initialization p m c.env c.later seed w.db)

    abbrev pub has_live_cookie : Option String → Server → Bool
    has_live_cookie none s = false
    has_live_cookie (some key) s = has_session c.tested key s

    abbrev pub show : String → Islet → World → Response × World
    show key h w = (respond 200 (workspace h), w)

    -- `s.start`.
    unfoldable pub start_session : Option String → World → Response × World
    start_session cookie w =
        if has_live_cookie cookie w.server
        then behind_current cookie w show
        else start_reserved w (reserve w.server)
