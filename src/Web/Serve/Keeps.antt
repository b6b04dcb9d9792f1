-- ===== src/Web/Serve/Keeps.antt =====
-- What the handlers of examples/web keep of the sessions and the database: a predicate that every
-- section and every operation of the manager keeps is kept by whole requests.
pub mod Requests
use pgislet.Base.{
  ◌⊎◌, String, true, false, ◌≡◌, refl, Option, none, some, Option-cases, Bool-cases, inl, inr, ◌==◌,
}
use pgislet.Errors.{Err}
use mathlib.Core.Path.{subst}
use pgislet.Base.Dict.{lookup}
use pgislet.Policy.Check.{Parser}
use pgislet.Engine.Types.{Islet, Db, to_metadata}
use pgislet.Engine.Lifecycle
use pgislet.Engine.Result.{QueryResult}
use pgislet.Engine.Execute.{Manager, execute_one}
use pgislet.Engine.Initialize.{create_with_initialization, reinitialize}
use pgislet.Web.Report.{Response}
use pgislet.Web.Sessions.{Session, Server, touch, reserve, release, store, forget}
use pgislet.Web.Removal.{World, remove}
use pgislet.Web.Boundary.{
  Request, Library, Route, patterns, start, end, query, reset, reseed, schema, no_endpoint, assets,
  refusal,
}
use pgislet.Web.Seed.{seed, schema_query}
use pgislet.Web.Handlers.{
  Calls, Gate, refused, passed, current, let_in, behind_current, end_result, end_behind,
  end_session, start_result, start_reserved, start_session, has_live_cookie, show,
}
use pgislet.Web.Handlers.Outcomes.{stranger, known, current-CurrentOutcome}
use pgislet.Web.Serve.{
  Decoded, bad, sql, decode, run_query, query_behind, handle_query, query_result, handle_change,
  change_behind, change_result, schema_result, schema_behind, describe_schema, handle_route, serve,
}

-- The session that the cookie names, if there is one, is one of an islet that is `Own`.
abbrev pub Admits : (String → Type 0) → Option String → World → Type 0
Admits Own cookie w =
    (key : String) (item : Session)
    → cookie ≡ some key
    → lookup key w.server.sessions ≡ some item
    → Own item.id

module _ (p : Parser) (m : Manager) (c : Calls) where
  -- The parts of a request that change something, each of which keeps `P` where the islet that it
  -- works on is one of the session's own.
  pub record Keeps (Own : String → Type 0) (P Reserving : World → Type 0) : Type 0 where
    pub touched :
        (key : String) (w : World) → P w → P (record w { server = (touch c.now key w.server).1 })
    pub removed :
        (id : String) (w : World)
        → Own id
        → P w
        → P (record w { db = (remove c.removal id w.db).1 })
    pub forgotten : (key : String) (w : World) → P w → P (record w { server = forget key w.server })
    pub executed :
        (h : Islet) (s : String) (w : World)
        → Own h.id
        → P w
        → P (record w { db = (execute_one p m c.env h s w.db).1 })
    pub rebuilt :
        (h : Islet) (w : World)
        → Own h.id
        → P w
        → P (record w { db = (Lifecycle.reset c.env h false false w.db).1 })
    pub reseeded :
        (h : Islet) (w : World)
        → Own h.id
        → P w
        → P (record w { db = (reinitialize p m c.env c.later seed h w.db).1 })
    -- A start that holds a slot, up to the end of its creation, and its ends.
    pub reserved :
        (server : Server) (w : World)
        → reserve w.server ≡ some server
        → P w
        → Reserving (record {
          server = server;
          db = (create_with_initialization p m c.env c.later seed w.db).1;
        })
    pub made :
        (w : World)
        → P w
        → ((create_with_initialization p m c.env c.later seed w.db).0.1 ≡ none)
          ⊎ (((create_with_initialization p m c.env c.later seed w.db).0.0.id == "") ≡ false)
        → Own (create_with_initialization p m c.env c.later seed w.db).0.0.id
    pub cleared :
        (id : String) (w : World)
        → Own id
        → Reserving w
        → Reserving (record w { db = (remove c.removal id w.db).1 })
    pub abandoned : (w : World) → Reserving w → P (record w { server = release w.server })
    pub entered :
        (item : Session) (w : World)
        → Own item.id
        → Reserving w
        → P (record w { server = release (store c.token item w.server) })

  module _ (Own : String → Type 0) (P Reserving : World → Type 0)
      (keeps : Keeps Own P Reserving) where
    -- A handler behind `current` that keeps `P`.
    abbrev IsKeeping : (String → Islet → World → Response × World) → Type 0
    IsKeeping handler =
        (key : String) (h : Islet) (w : World) → Own h.id → P w → P (handler key h w).1

    current-keeps : (cookie : Option String) (w : World) → P w → P (current c cookie w).1
    unfolding current
    current-keeps none w r = r
    current-keeps (some key) w r = keeps.touched key w r

    let_in-keeps :
        (g : Gate × World) (handler : String → Islet → World → Response × World)
        → IsKeeping handler
        → ((key : String) (h : Islet) → g.0 ≡ passed key h → Own h.id)
        → P g.1
        → P (let_in c g handler).1
    let_in-keeps (refused response, w) handler safe own r = r
    let_in-keeps (passed key h, w) handler safe own r = safe key h w (own key h refl) r

    admitted :
        (cookie : Option String) (w : World)
        → Admits Own cookie w
        → (key : String) (h : Islet) → (current c cookie w).0 ≡ passed key h
        → Own h.id
    unfolding to_metadata
    admitted cookie w own key h q = elim (current-CurrentOutcome c cookie w) [
      | stranger response why g status same ↦ cc (g, q)
      | known k item named found alive same (inl (e, failed, g)) ↦ cc (g, q)
      | known k item named found alive same (inr (row, there, g)) ↦
          (let same_islet : (to_metadata item.id row).islet ≡ h = cc (g, q) in
            subst (λ (x : Islet). Own x.id) same_islet (own k item named found))
    ]

    pub behind_current-keeps :
        (handler : String → Islet → World → Response × World) (cookie : Option String) (w : World)
        → IsKeeping handler
        → Admits Own cookie w
        → P w
        → P (behind_current c cookie w handler).1
    behind_current-keeps handler cookie w safe own r =
        let_in-keeps (current c cookie w) handler safe (admitted cookie w own)
          (current-keeps cookie w r)

    pub end_result-keeps :
        (key : String) (w : World) (o : Option Err × Db)
        → P (record w { db = o.1 })
        → P (end_result c key w o).1
    end_result-keeps key w (some e, db) r = r
    end_result-keeps key w (none, db) r = keeps.forgotten key (record w { db = db }) r

    start_result-keeps :
        (server : Server) (o : (Islet × Option Err) × Db)
        → ((o.0.1 ≡ none) ⊎ ((o.0.0.id == "") ≡ false) → Own o.0.0.id)
        → Reserving (record { server = server; db = o.1 })
        → P (start_result c p m server o).1
    start_result-keeps server ((h, some e), db) own r = elim (Bool-cases (h.id == "")) [
      | inl n ↦ rw n (keeps.abandoned (record { server = server; db = db }) r)
      | inr n ↦ rw n (
          keeps.abandoned _
            (keeps.cleared h.id (record { server = server; db = db }) (own (inr n)) r))
    ]
    start_result-keeps server ((h, none), db) own r =
        keeps.entered _ (record { server = server; db = db }) (own (inl refl)) r

    start_reserved-keeps :
        (w : World) (o : Option Server)
        → reserve w.server ≡ o
        → P w
        → P (start_reserved c p m w o).1
    start_reserved-keeps w none o r = r
    start_reserved-keeps w (some server) o r =
        start_result-keeps server _ (keeps.made w r) (keeps.reserved server w o r)

    pub start_session-keeps :
        (cookie : Option String) (w : World)
        → Admits Own cookie w
        → P w
        → P (start_session c p m cookie w).1
    unfolding start_session
    start_session-keeps cookie w own r = elim (Bool-cases (has_live_cookie c p m cookie w.server)) [
      | inl l ↦ rw l (behind_current-keeps (show c p m) cookie w (λ key h w own r. r) own r)
      | inr l ↦ rw l (start_reserved-keeps w (reserve w.server) refl r)
    ]
