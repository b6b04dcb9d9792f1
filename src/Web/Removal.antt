-- ===== src/Web/Removal.antt =====
-- `remove` and `Cleanup` of examples/web/sessions.go. The order in which Go ranges over a map is that
-- of the association list, which is any.
pub mod Gone
pub mod Absent
pub mod Each
pub mod Cleaned
pub mod Calm
pub mod Steps
pub mod Calls
use pgislet.Base.{ℕ, String, Bool, false, true, Option, none, some, [], ◌∷◌, if◌then◌else◌}
use pgislet.Base.Dict.{Dict}
use pgislet.Errors.{Err, Errs, nil, cons, joined, present, is, not_found, Result, ok, err}
use pgislet.Engine.Types.{Islet, Db, is_initializing}
use pgislet.Engine.Exec.{Env}
use pgislet.Engine.Lifecycle.{reset, delete}
use pgislet.Engine.Initialize.{open_islet}
use pgislet.Web.Sessions.{Session, Server, expire, store}

pub record World : Type 0 where
  pub server : Server
  pub db : Db

-- What the calls of the manager meet: the error of `Open`, if any, and the environments of `Recover`
-- and `Delete`.
pub record Removal : Type 0 where
  pub opened : Option Err
  pub recovering : Env
  pub deleting : Env

module _ (f : Removal) where
  -- `if h.State == "initializing" { h, err = s.manager.Recover(ctx, h) }`.
  abbrev pub recover_first : Islet → Db → (Islet × Option Err) × Db
  recover_first h db =
      if is_initializing h.state then reset f.recovering h false true db else ((h, none), db)

  abbrev pub and_delete : (Islet × Option Err) × Db → Option Err × Db
  and_delete ((h, some e), w) = (some e, w)
  and_delete ((h, none), w) = let (r, w') = delete f.deleting h w in (r.1, w')

  abbrev pub remove_opened : Db → Result Islet → Option Err × Db
  remove_opened db (err e) = if is e not_found then (none, db) else (some e, db)
  remove_opened db (ok h) = and_delete (recover_first h db)

  -- `s.remove`.
  unfoldable pub remove : String → Db → Option Err × Db
  remove id db = remove_opened db (open_islet f.opened id db)

-- `if err != nil { s.sessions[token] = item }`.
abbrev pub restored : Option Err → String → Session → Server → Server
restored none token item s = s
restored (some e) token item s = store token item s

-- errors.Join of no errors is nil.
abbrev pub join : Errs → Option Err
join nil = none
join es = some (joined es)

module _ (calls : String → Removal) where
  -- The second loop of `Cleanup`, over what the first has taken out.
  unfoldable pub remove_each : Dict Session → World → Errs × World
  unfolding remove
  remove_each [] w = (nil, w)
  remove_each ((token, item) ∷ rest) w =
      let (failure, db) = remove (calls token) item.id w.db in
      let next : World = record { server = restored failure token item w.server; db = db } in
      let (failures, w') = remove_each rest next in (present failure failures, w')

  -- `s.Cleanup`.
  unfoldable pub cleanup : Bool → ℕ → World → Option Err × World
  cleanup all now w =
      let (expired, server) = expire all now w.server in
      let (failures, w') = remove_each expired (record w { server = server }) in (join failures, w')
