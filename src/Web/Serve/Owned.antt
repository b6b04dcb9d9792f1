-- ===== src/Web/Serve/Owned.antt =====
-- The islets of the sessions of examples/web, while it answers requests: a request and a cleanup work
-- on the islets of the sessions there are, and enter one of a new islet.
use pgislet.Base.{ℕ, String, Bool, Option, none, some, [], ◌∷◌}
use pgislet.Base.Dict.{Dict}
use pgislet.Errors.{Err}
use pgislet.Policy.Check.{Parser}
use pgislet.Engine.Types.{Db}
use pgislet.Engine.Lifecycle.Early.{StaysAborted}
use pgislet.Engine.Execute.{Manager}
use pgislet.Engine.Registry.Closed.{Closed}
use pgislet.Web.Sessions.{Session, Server, expire}
use pgislet.Web.Sessions.Owned.{
  AllOwn, lookup-own, taken-AllOwn, left-AllOwn, touch-AllOwn, store-AllOwn, forget-AllOwn,
  release-AllOwn, reserve-AllOwn,
}
use pgislet.Web.Removal.{World, Removal, remove_each, cleanup, restored}
use pgislet.Web.Boundary.{Request, Library}
use pgislet.Web.Handlers.{Calls}
use pgislet.Web.Serve.{serve}
use pgislet.Web.Serve.Keeps.{Keeps}
use pgislet.Web.Serve.Keeps.Requests.{serve-keeps}
use pgislet.Web.Serve.Moves.{Sticks, closed-Keeps, remove-keeps}

-- A failed ROLLBACK TO aborts what follows it, in both environments of a removal.
pub record SticksTo (f : Removal) : Type 0 where
  pub recovering : StaysAborted f.recovering
  pub deleting : StaysAborted f.deleting

module _ (Own : String → Type 0) (R : Db → Type 0) where
  -- The database is as `R` says, and the sessions are of islets that are `Own`.
  pub record Held (w : World) : Type 0 where
    pub stored : R w.db
    pub owned : AllOwn Own w.server.sessions

  module _ (closed : Closed Own R) where
    pub Held-Keeps : (p : Parser) (m : Manager) (c : Calls) → Sticks c → Keeps p m c Own Held Held
    Held-Keeps p m c sticks =
        let base = closed-Keeps Own R closed p m c sticks in
        record {
          touched = λ key w r. record {
            stored = r.stored;
            owned = touch-AllOwn Own c.now key w.server r.owned;
          };
          removed =
              λ id w own r. record { stored = base.removed id w own r.stored; owned = r.owned };
          forgotten = λ key w r. record {
            stored = r.stored;
            owned = forget-AllOwn Own key w.server r.owned;
          };
          executed =
              λ h s w own r. record { stored = base.executed h s w own r.stored; owned = r.owned };
          rebuilt = λ h w own r. record { stored = base.rebuilt h w own r.stored; owned = r.owned };
          reseeded =
              λ h w own r. record { stored = base.reseeded h w own r.stored; owned = r.owned };
          reserved = λ server w o r. record {
            stored = base.reserved server w o r.stored;
            owned = reserve-AllOwn Own w.server server o r.owned;
          };
          made = λ w r why. base.made w r.stored why;
          cleared =
              λ id w own r. record { stored = base.cleared id w own r.stored; owned = r.owned };
          abandoned =
              λ w r. record { stored = r.stored; owned = release-AllOwn Own w.server r.owned };
          entered = λ item w own r. record {
            stored = r.stored;
            owned = release-AllOwn Own _ (store-AllOwn Own c.token item w.server own r.owned);
          };
        }

    pub serve-Held :
        (lib : Library) (p : Parser) (m : Manager) (c : Calls) (q : Request) (w : World)
        → Sticks c
        → Held w
        → Held (serve lib p m c q w).1
    serve-Held lib p m c q w sticks r =
        serve-keeps p m c Own Held Held (Held-Keeps p m c sticks) lib q w
          (λ key item named found. lookup-own Own key item w.server.sessions found r.owned) r

    module _ (calls : String → Removal) (sticks : (token : String) → SticksTo (calls token)) where
      restored-AllOwn :
          (o : Option Err) (token : String) (item : Session) (s : Server)
          → Own item.id
          → AllOwn Own s.sessions
          → AllOwn Own (restored o token item s).sessions
      restored-AllOwn none token item s new own = own
      restored-AllOwn (some e) token item s new own = store-AllOwn Own token item s new own

      each-Held :
          (d : Dict Session) (w : World) → AllOwn Own d → Held w → Held (remove_each calls d w).1
      unfolding remove_each
      each-Held [] w own r = r
      each-Held ((token, item) ∷ rest) w (o, own) r = each-Held rest _ own (record {
        stored =
            remove-keeps Own R closed (calls token) (sticks token).recovering
              (sticks token).deleting item.id w.db o r.stored;
        owned = restored-AllOwn _ token item w.server o r.owned;
      })

      pub cleanup-Held :
          (all : Bool) (now : ℕ) (w : World) → Held w → Held (cleanup calls all now w).1
      unfolding cleanup expire
      cleanup-Held all now w r =
          each-Held _ _ (taken-AllOwn Own all now w.server.sessions r.owned) (record {
            stored = r.stored;
            owned = left-AllOwn Own all now w.server.sessions r.owned;
          })
