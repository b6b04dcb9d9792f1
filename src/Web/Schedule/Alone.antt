-- ===== src/Web/Schedule/Alone.antt =====
-- A cleanup of examples/web that runs alone: its steps come to what Web/Removal computes at once.
use pgislet.Base.{
  ℕ, zero, suc, ◌*◌, ◌≤◌, String, Bool, ◌≡◌, refl, Option, none, some, [], ◌∷◌, length, arith,
}
use pgislet.Base.Dict.{Dict}
use pgislet.Errors.{Err}
use pgislet.Web.Sessions.{Session, taken, expire, store}
use pgislet.Web.Removal.{World, Removal, remove_each, cleanup, restored}
use pgislet.Web.Removal.Calls.{steps_removing}
use pgislet.Web.Removal.Steps.{iterate}
use pgislet.Web.Schedule.{Sweep, waiting, removing, taking, removed_one, sweep, sweeps}

module _ (calls : String → Removal) (all : Bool) (now : ℕ) where
  abbrev run : ℕ → Sweep → World → Sweep × World
  run = sweeps calls all now

  sweeps_done : (n : ℕ) (w : World) → run n (removing []) w ≡ (removing [], w)
  unfolding iterate sweep
  sweeps_done zero w = refl
  sweeps_done (suc n) w = sweeps_done n w

  -- The end of a cleanup that has these sessions left.
  abbrev swept : Dict Session → World → Sweep × World
  swept d w = (removing [], (remove_each calls d w).1)

  sweeps_one :
      (rest : Dict Session) (token : String) (item : Session) (n : ℕ) (o : Option Err) (w : World)
      → ((n : ℕ) (w : World) → 4 * length rest ≤ n → run n (removing rest) w ≡ swept rest w)
      → 4 * length rest ≤ n
      → run (suc n) (removed_one calls all now token item rest o) w
        ≡ swept rest (record { server = restored o token item w.server; db = w.db })
  unfolding iterate sweep
  sweeps_one rest token item n none w more enough = more (suc n) w (omega arith)
  sweeps_one rest token item n (some e) w more enough =
      more n (record w { server = store token item w.server }) enough

  -- What is left of a cleanup takes at most four steps for each session.
  sweeps_each :
      (d : Dict Session) (n : ℕ) (w : World) → 4 * length d ≤ n → run n (removing d) w ≡ swept d w
  unfolding iterate sweep remove_each
  sweeps_each [] n w enough = sweeps_done n w
  sweeps_each ((token, item) ∷ rest) zero w enough = ground (arith, enough)
  sweeps_each ((token, item) ∷ rest) (suc zero) w enough = ground (arith, enough)
  sweeps_each ((token, item) ∷ rest) (suc (suc zero)) w enough = ground (arith, enough)
  sweeps_each ((token, item) ∷ rest) (suc (suc (suc zero))) w enough = ground (arith, enough)
  sweeps_each ((token, item) ∷ rest) (suc (suc (suc (suc n)))) w enough =
      steps_removing (sweep calls all now) (calls token) (removed_one calls all now token item rest)
        (taking token item rest) (4 * length rest)
        (λ server o. swept rest (record { server = restored o.0 token item server; db = o.1 }))
        (λ r w. refl)
        (λ k o w more. sweeps_one rest token item k o w (λ l v. sweeps_each rest l v) more) n
        item.id w (ground (arith, enough))

  -- A cleanup that runs alone ends within one step and four for each session that it takes out, in the
  -- state that `Cleanup` computes at once.
  pub sweeps-cleanup :
      (n : ℕ) (w : World)
      → suc (4 * length (taken all now w.server.sessions)) ≤ n
      → run n waiting w ≡ (removing [], (cleanup calls all now w).1)
  unfolding iterate sweep cleanup expire
  sweeps-cleanup zero w enough = ground (arith, enough)
  sweeps-cleanup (suc n) w enough =
      sweeps_each (taken all now w.server.sessions) n
        (record w { server = (expire all now w.server).1 }) (ground (arith, enough))
