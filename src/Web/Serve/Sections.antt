-- ===== src/Web/Serve/Sections.antt =====
-- Every request of examples/web, run alone, is a sequence of the sections of Sessions/Capacity, and so
-- is a cleanup.
use pgislet.Base.{ℕ, String, suc, ◌+◌, ◌≤◌, Bool, Option, none, some, [], ◌∷◌, length, arith}
use pgislet.Base.Dict.{Dict}
use pgislet.Errors.{Err}
use pgislet.Policy.Check.{Parser}
use pgislet.Engine.Execute.{Manager}
use pgislet.Web.Sessions.{Session, Server, taken, expire}
use pgislet.Web.Sessions.Capacity.{
  Run, touched, reserved, entered, abandoned, released, forgotten, expired, put_back,
}
use pgislet.Web.Removal.{World, Removal, remove, remove_each, cleanup, restored}
use pgislet.Web.Boundary.{Request, Library}
use pgislet.Web.Handlers.{Calls}
use pgislet.Web.Serve.{serve}
use pgislet.Web.Serve.Keeps.{Keeps}
use pgislet.Web.Serve.Keeps.Requests.{serve-keeps}

module _ (n w d : ℕ) where
  abbrev Safe : World → Type 0
  Safe world = Run n w d world.server

  abbrev Holding : World → Type 0
  Holding world = Run n (suc w) d world.server

  pub sections-Keeps :
      (p : Parser) (m : Manager) (c : Calls) → Keeps p m c (λ _. Unit {0}) Safe Holding
  sections-Keeps p m c = record {
    touched = λ key world r. touched c.now key r;
    removed = λ id world own r. r;
    forgotten = λ key world r. forgotten key r;
    executed = λ h s world own r. r;
    rebuilt = λ h world own r. r;
    reseeded = λ h world own r. r;
    reserved = λ server world o r. reserved o r;
    made = λ world r why. tt;
    cleared = λ id world own r. r;
    abandoned = λ world r. abandoned r;
    entered = λ item world own r. released (entered c.token item r);
  }

  -- Whatever a request is and whatever its calls meet, the server after it is one that the sections
  -- lead to, with no more sessions put back and no slot kept: so 32 sessions stay the limit.
  pub serve-Run :
      (lib : Library) (p : Parser) (m : Manager) (c : Calls) (r : Request) (world : World)
      → Run n w d world.server
      → Run n w d (serve lib p m c r world).1.server
  serve-Run lib p m c r world =
      serve-keeps p m c _ Safe Holding (sections-Keeps p m c) lib r world (λ key item e l. tt)

module _ (w d : ℕ) (calls : String → Removal) where
  restored-Run :
      (n : ℕ) (o : Option Err) (token : String) (item : Session) (s : Server)
      → Run n w d s
      → (k : ℕ) × (k ≤ suc n) × Run k w d (restored o token item s)
  restored-Run n none token item s r = (n, omega arith, r)
  restored-Run n (some e) token item s r = (suc n, omega arith, put_back token item r)

  each-Run :
      (n : ℕ) (m : Dict Session) (world : World)
      → Run n w d world.server
      → (k : ℕ) × (k ≤ n + length m) × Run k w d (remove_each calls m world).1.server
  unfolding remove_each
  each-Run n [] world r = (n, omega arith, r)
  each-Run n ((token, item) ∷ rest) world r =
      let (k, some_back, r') =
        restored-Run n (remove (calls token) item.id world.db).0 token item world.server r in
      let (l, more_back, r'') = each-Run k rest _ r' in (l, omega arith, r'')

  -- A cleanup that runs alone is a sequence of the sections too, and puts at most as many sessions back
  -- as it took out.
  pub cleanup-Run :
      (n : ℕ) (all : Bool) (now : ℕ) (world : World)
      → Run n w d world.server
      → (k : ℕ) × (k ≤ n + length (taken all now world.server.sessions))
        × Run k w d (cleanup calls all now world).1.server
  unfolding cleanup expire
  cleanup-Run n all now world r =
      each-Run n (taken all now world.server.sessions) _ (expired all now r)
