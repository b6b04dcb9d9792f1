-- ===== src/Web/Removal/Calm.antt =====
-- `remove` of examples/web/sessions.go where no call fails.
use pgislet.Base.{
  String, true, false, ◌≡◌, refl, ◌∙◌, inl, inr, Option, none, some, List, [], Bool-cases, ap,
}
use pgislet.Base.Dict.{lookup}
use pgislet.Errors.{Err, ok}
use pgislet.Engine.Types.{Islet, active, Row, Db, to_metadata, is_initializing}
use pgislet.Engine.Gateway.{read_metadata}
use pgislet.Engine.Lifecycle.{delete, advance}
use pgislet.Engine.Lifecycle.Reset.{rebuilt_db, next_handle}
use pgislet.Engine.Lifecycle.Delete.{removed_db}
use pgislet.Engine.Lifecycle.Calm.{IsCalm, reset_succeeds, delete_succeeds}
use pgislet.Engine.Initialize.{open_islet}
use pgislet.Engine.Registry.{at_same, erased_same}
use pgislet.Web.Removal.{Removal, remove, remove_opened, and_delete, recover_first}

-- The islet of a row is gone with everything that is its own.
pub record IsGone (id schema_name role_name : String) (db : Db) : Type 0 where
  pub row : lookup id db.islets ≡ none
  pub schema : lookup schema_name db.schemas ≡ none
  pub role : lookup role_name db.roles ≡ none

removed-IsGone :
    (id : String) (r : Row) (db : Db) → IsGone id r.schema_name r.role_name (removed_db id r db)
removed-IsGone id r db = record {
  row = erased_same id id db.islets refl;
  schema = erased_same r.schema_name r.schema_name db.schemas refl;
  role = erased_same r.role_name r.role_name db.roles refl;
}

open_islet-eq :
    (id : String) (db : Db) (r : Row)
    → lookup id db.islets ≡ some r
    → open_islet none id db ≡ ok (to_metadata id r).islet
unfolding open_islet read_metadata
open_islet-eq id db r found = rw (open_islet, read_metadata, found) refl

module _ (f : Removal) (id : String) (db : Db) (r : Row) (content : List String) (password : String)
    (recovering : IsCalm f.recovering) (deleting : IsCalm f.deleting)
    (found : lookup id db.islets ≡ some r) (schema : lookup r.schema_name db.schemas ≡ some content)
    (role : lookup r.role_name db.roles ≡ some password) where
  abbrev h : Islet
  h = (to_metadata id r).islet

  abbrev after : Db
  after = rebuilt_db f.recovering id r false "" db

  abbrev next : Islet
  next = next_handle f.recovering h false h

  recover_first-active : is_initializing r.state ≡ false → recover_first f h db ≡ ((h, none), db)
  unfolding to_metadata
  recover_first-active s = rw s refl

  recover_first-initializing :
      is_initializing r.state ≡ true → recover_first f h db ≡ ((next, none), after)
  unfolding to_metadata
  recover_first-initializing s =
      rw s
        (reset_succeeds f.recovering h true db r content recovering found refl (rw s refl) schema)

  delete-active :
      is_initializing r.state ≡ false → delete f.deleting h db ≡ ((tt, none), removed_db id r db)
  unfolding to_metadata
  delete-active s =
      delete_succeeds f.deleting h db r content password deleting found refl s schema role

  abbrev new_row : Row
  new_row = advance active "" f.recovering.now r

  delete-recovered : delete f.deleting next after ≡ ((tt, none), removed_db id new_row after)
  unfolding to_metadata
  delete-recovered =
      delete_succeeds f.deleting next after new_row [] password deleting
        (at_same id id new_row db.islets refl) refl refl
        (at_same r.schema_name r.schema_name [] _ refl) role

  remove-eq :
      (h' : Islet) (w w' : Db)
      → f.opened ≡ none
      → recover_first f h db ≡ ((h', none), w)
      → delete f.deleting h' w ≡ ((tt, none), w')
      → remove f id db ≡ (none, w')
  unfolding remove
  remove-eq h' w w' opened recover deleted =
      ap (λ o. remove_opened f db (open_islet o id db)) opened
      ∙ ap (remove_opened f db) (open_islet-eq id db r found)
      ∙ ap (and_delete f) recover
      ∙ ap (λ (x : (Unit {0} × Option Err) × Db). (x.0.1, x.1)) deleted

  -- Where no call fails, a removal succeeds, whether the islet is active, failed or was left
  -- initializing: its row, its schema and its role are gone.
  pub remove_succeeds :
      f.opened ≡ none
      → ((remove f id db).0 ≡ none) × IsGone id r.schema_name r.role_name (remove f id db).1
  remove_succeeds opened = elim (Bool-cases (is_initializing r.state)) [
    | inl s ↦
        rw (remove-eq next after _ opened (recover_first-initializing s) delete-recovered)
          (refl, removed-IsGone id new_row after)
    | inr s ↦
        rw (remove-eq h db _ opened (recover_first-active s) (delete-active s))
          (refl, removed-IsGone id r db)
  ]
