-- ===== src/Launch.antt =====
-- What the main.go of both programs of examples do around their work: a container that may be started for
-- the run, and managers, each with its deferred end.
pub mod Nested
pub mod Web
pub mod Playground
pub mod Ends
use pgislet.Base.{ℕ, String, Bool, Option, none, some, List, [], ◌∷◌, ◌++◌, ◌==◌, if◌then◌else◌}
use pgislet.Errors.{Err, Result, ok, err, other}
use pgislet.Engine.Execute.{Manager}

-- What a run brings up and takes down, managers by their number, and the address on which it listens.
pub data Act : Type 0 where
  started terminated : Act
  opened closed : ℕ → Act
  listening : String → Act

-- What a run has done so far, what it leaves, and the error that it returns; `none` if it has not come
-- to its end.
pub record Launched (S : Type 0) : Type 0 where
  pub exit : Option (Option Err)
  pub acts : List Act
  pub state : S

-- The flags -container and -dsn, the error of postgres.Run, and the answer of db.ConnectionString.
pub record Source : Type 0 where
  pub disposable : Bool
  pub dsn : String
  pub run_error : Option Err
  pub connection : Result String

abbrev at_exit : Option (Option Err) → Act → List Act
at_exit none act = []
at_exit (some e) act = act ∷ []

module _ {S : Type 0} where
  abbrev pub returned : Option Err → S → Launched S
  returned e s = record { exit = some e; acts = []; state = s }

  -- `defer`, behind what `act` ends.
  abbrev pub between : Act → Act → Launched S → Launched S
  between first last l = record l { acts = first ∷ (l.acts ++ at_exit l.exit last) }

  -- `if err != nil { return err }` and `defer manager.Close()` behind `New`.
  abbrev pub with_manager : ℕ → Result Manager → S → (Manager → Launched S) → Launched S
  with_manager i (err e) s body = returned (some e) s
  with_manager i (ok m) s body = between (opened i) (closed i) (body m)

  -- `if *dsn == ""`.
  abbrev pub with_dsn : String → S → (String → Launched S) → Launched S
  with_dsn dsn s body =
      if dsn == ""
      then returned (some (other "provide -container, -dsn, or PGISLET_DSN")) s
      else body dsn

  abbrev pub in_container : Result String → S → (String → Launched S) → Launched S
  in_container (err e) s body = returned (some e) s
  in_container (ok dsn) s body = with_dsn dsn s body

  abbrev pub started_container : Option Err → Result String → S → (String → Launched S) → Launched S
  started_container (some e) connection s body = returned (some e) s
  started_container none connection s body =
      between started terminated (in_container connection s body)

  -- `if *disposable`, with the deferred `db.Terminate`, whose error is only printed.
  unfoldable pub with_database : Source → S → (String → Launched S) → Launched S
  with_database source s body =
      if source.disposable
      then started_container source.run_error source.connection s body
      else with_dsn source.dsn s body
