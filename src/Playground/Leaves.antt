-- ===== src/Playground/Leaves.antt =====
-- What a run of examples/playground leaves in the registry.
use pgislet.Base.{String, false, ◌≡◌, refl, Option, none, some}
use pgislet.Base.Dict.{lookup}
use pgislet.Errors.{Err, Result, ok, err}
use pgislet.Policy.Check.{Parser}
use pgislet.Engine.Types.{Islet, Db}
use pgislet.Engine.Lifecycle.{create}
use pgislet.Engine.Execute.{Manager}
use pgislet.Engine.Initialize.{open_islet, create_with_initialization}
use pgislet.Web.Removal.{Removal, remove, remove_opened, and_delete}
use pgislet.Web.Removal.Gone.{Answers, remove-gone}
use pgislet.Web.Removal.Absent.{remove-absent}
use pgislet.Playground.{
  Plays, Played, clean_up, cleaned_islet, recovered_islet, deleted_islet, learners, play_both,
  with_a, with_b, run,
}

module _ (f : Removal) where
  deleted-same : (o : (Islet × Option Err) × Db) → deleted_islet f o ≡ and_delete f o
  deleted-same ((h, some e), db) = refl
  deleted-same ((h, none), db) = refl

  cleaned-same : (db : Db) (o : Result Islet) → cleaned_islet f db o ≡ remove_opened f db o
  cleaned-same db (ok h) = deleted-same (recovered_islet f (h, db))
  cleaned-same db (err e) = refl

  -- The cleanup of this program ends as the removal of the web program does.
  pub clean_up-remove : (id : String) (db : Db) → clean_up f id db ≡ remove f id db
  unfolding clean_up remove
  clean_up-remove id db = cleaned-same db (open_islet f.opened id db)

  clean_up-gone :
      (id : String) (db : Db)
      → Answers f
      → (clean_up f id db).0 ≡ none
      → lookup id (clean_up f id db).1.islets ≡ none
  clean_up-gone id db a fine =
      rw (clean_up-remove id db) (remove-gone f a id db (rw (clean_up-remove id db) at fine))

  clean_up-absent :
      (j id : String) (db : Db)
      → Answers f
      → lookup j db.islets ≡ none
      → lookup j (clean_up f id db).1.islets ≡ none
  clean_up-absent j id db a n = rw (clean_up-remove id db) (remove-absent j f a id db n)

-- An islet that was created is not in the registry.
abbrev pub IsRemoved : Option String → Db → Type 0
IsRemoved none db = Unit
IsRemoved (some id) db = lookup id db.islets ≡ none

module _ (p : Parser) (m node : Manager) (c : Plays) (a : Answers c.removal_a)
    (b : Answers c.removal_b) where
  abbrev Leaves : Played × Db → Type 0
  Leaves (r, db) = (r.printed_a ≡ none → IsRemoved r.a db) × (r.printed_b ≡ none → IsRemoved r.b db)

  with_b-removes :
      (h : Islet) (o : (Islet × Option Err) × Db)
      → (with_b p m node c h o).0.printed_b ≡ none
      → IsRemoved (with_b p m node c h o).0.b (with_b p m node c h o).1
  with_b-removes h ((g, some e), db) fine = tt
  with_b-removes h ((g, none), db) fine =
      clean_up-gone c.removal_b g.id (play_both p m node c h g db).1 b fine

  IsRemoved-clean_up :
      (o : Option String) (id : String) (db : Db)
      → IsRemoved o db
      → IsRemoved o (clean_up c.removal_a id db).1
  IsRemoved-clean_up none id db r = tt
  IsRemoved-clean_up (some j) id db r = clean_up-absent c.removal_a j id db a r

  with_a-Leaves : (o : (Islet × Option Err) × Db) → Leaves (with_a p m node c o)
  with_a-Leaves ((h, some e), db) = (λ fine. tt, λ fine. tt)
  with_a-Leaves ((h, none), db) =
      let behind = with_b p m node c h (create (c.env 1) false db) in
      (
        clean_up-gone c.removal_a h.id behind.1 a,
        λ fine.
            IsRemoved-clean_up behind.0.b h.id behind.1
              (with_b-removes h (create (c.env 1) false db) fine),
      )

  -- Wherever a run ends, with an error, a panic or none, each islet that it has created without an error
  -- is out of the registry if its cleanup prints nothing. In the cleanups any call may fail, but the reads
  -- of a row do not answer by an error that it is missing, and a transaction stays aborted whose ROLLBACK
  -- TO has failed.
  pub run-IsRemoved :
      (db : Db)
      → ((run p m node c db).0.printed_a ≡ none
          → IsRemoved (run p m node c db).0.a (run p m node c db).1)
        × ((run p m node c db).0.printed_b ≡ none
            → IsRemoved (run p m node c db).0.b (run p m node c db).1)
  unfolding run
  run-IsRemoved db = with_a-Leaves (create_with_initialization p m (c.env 0) (c.env 13) learners db)
