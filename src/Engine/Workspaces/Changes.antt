-- ===== src/Engine/Workspaces/Changes.antt =====
-- What the changes that the transactions of internal/engine make to a well-formed registry are to its
-- workspaces.
use Prim.Native.String.{◌++◌ as ◌then◌}
use mathlib.Core.Path.{subst}
use pgislet.Base.{
  ℕ, ◌+◌, String, Bool, true, false, ◌≡◌, ◌==◌, refl, sym, ap, ◌∙◌, Option, none, some, List, [],
  ◌++◌,
}
use pgislet.Base.Dict.{Dict, lookup, insert, erase}
use pgislet.Engine.Types.{State, active, Metadata, Row, Db}
use pgislet.Engine.Exec.{Env}
use pgislet.Engine.Gateway.{update_islet}
use pgislet.Engine.Lifecycle.{first_state, new_metadata, new_row, advance}
use pgislet.Engine.Lifecycle.Create.{created_db}
use pgislet.Engine.Lifecycle.Reset.{rebuilt_db}
use pgislet.Engine.Lifecycle.Delete.{removed_db}
use pgislet.Engine.Execute.Whole.{activated}
use pgislet.Engine.Execute.Runs.{appended, appended-some}
use pgislet.Engine.Registry.{WellFormed, at_other, at_same, erased_other, erased_same, apart}
use pgislet.Engine.Workspaces.Spec.{Workspace, Workspaces, may_run, Only}
use pgislet.Engine.Workspaces.View.{
  seen, view, view-absent, content_of, local-others, becomes-Only, row-Only,
}

pub in_state :
    {id : String} {m m' : Workspaces} {s t : State} {g : ℕ} {c : List String}
    → s ≡ t
    → Only id (some (record { state = s; generation = g; content = c })) m m'
    → Only id (some (record { state = t; generation = g; content = c })) m m'
in_state {id} {m} {m'} {s} {t} {g} {c} e o =
    subst (λ s. Only id (some (record { state = s; generation = g; content = c })) m m') e o

pub after :
    {id : String} {new : Option Workspace} (db db₁ db' : Db)
    → db' ≡ db₁
    → Only id new (view db) (view db₁)
    → Only id new (view db) (view db')
after {id} {new} db db₁ db' e o = subst (λ w. Only id new (view db) (view w)) (sym e) o

pub updated-Only :
    (id : String) (db : Db) (r : Row) (f : Row → Row)
    → (f r).schema_name ≡ r.schema_name
    → lookup id db.islets ≡ some r
    → Only id
        (some (record {
          state = (f r).state;
          generation = (f r).generation;
          content = (seen db.schemas r).content;
        }))
        (view db)
        (view (update_islet id f db))
updated-Only id db r f same found =
    after db (record db { islets = insert id (f r) db.islets }) (update_islet id f db)
      (rw (found, update_islet) refl) (row-Only id db r (f r) same)

running : (s : State) → may_run s false ≡ true → s ≡ active
running State.active h = refl
running State.unset h = cc
running State.initializing h = cc
running State.failed h = cc
running State.deleting h = cc

module _ (db : Db) (fine : WellFormed db) (id : String) where
  schema_apart :
      (name : String) (j : String) (r : Row)
      → name ≡ ("pgislet_i_" then id)
      → (id == j) ≡ false
      → lookup j db.islets ≡ some r
      → (name == r.schema_name) ≡ false
  schema_apart name j r own other there =
      rw (own, (fine.backed j r there).schema_name) (apart "pgislet_i_" id j other)

  pub created-Only :
      (password token : String) (s : State) (now : ℕ)
      → Only id
          (some (record { state = s; generation = 1; content = [] }))
          (view db)
          (view (created_db (new_metadata id password token s now) db))
  created-Only password token s now =
      let md = new_metadata id password token s now in
      becomes-Only id db (created_db md db) (new_row md) (some [])
        (record {
          rows = λ j other. at_other id j (new_row md) db.islets other;
          schemas = λ j r other there.
              at_other md.schema r.schema_name [] db.schemas
                (schema_apart md.schema j r refl other there);
        })
        (at_same id id (new_row md) db.islets refl) (at_same md.schema md.schema [] db.schemas refl)

  pub rebuilt-Only :
      (env : Env) (r : Row) (initialize : Bool) (token : String)
      → lookup id db.islets ≡ some r
      → Only id
          (some (record {
            state = first_state initialize;
            generation = r.generation + 1;
            content = [];
          }))
          (view db)
          (view (rebuilt_db env id r initialize token db))
  rebuilt-Only env r initialize token found =
      let new = advance (first_state initialize) token env.now r in
      let own = (fine.backed id r found).schema_name in
      becomes-Only id db (rebuilt_db env id r initialize token db) new (some [])
        (record {
          rows = λ j other. at_other id j new db.islets other;
          schemas = λ j o other there.
              let far = schema_apart r.schema_name j o own other there in
              at_other r.schema_name o.schema_name [] (erase r.schema_name db.schemas) far
              ∙ erased_other r.schema_name o.schema_name db.schemas far;
        })
        (at_same id id new db.islets refl)
        (at_same r.schema_name r.schema_name [] (erase r.schema_name db.schemas) refl)

  pub removed-Only :
      (r : Row) → lookup id db.islets ≡ some r → Only id none (view db) (view (removed_db id r db))
  removed-Only r found =
      let own = (fine.backed id r found).schema_name in
      record {
        becomes = view-absent (removed_db id r db) id (erased_same id id db.islets refl);
        others = local-others {id = id} {db = db} {db' = removed_db id r db} (record {
          rows = λ j other. erased_other id j db.islets other;
          schemas = λ j o other there.
              erased_other r.schema_name o.schema_name db.schemas
                (schema_apart r.schema_name j o own other there);
        });
      }

  module _ (env : Env) (md : Metadata) (row : Row) (ss : List String) (named : md.id ≡ id)
      (found : lookup id db.islets ≡ some row) (same : md.schema ≡ row.schema_name) where
    abbrev done : List String
    done = (fine.backed id row found).content

    there : lookup md.schema db.schemas ≡ some done
    there = rw same (fine.backed id row found).schema

    abbrev ran : Db
    ran = record db { schemas = insert md.schema (done ++ ss) db.schemas }

    -- What `execute` leaves, where `new` is the row behind it.
    executed-becomes :
        (new : Row) (islets : Dict Row)
        → new.schema_name ≡ row.schema_name
        → lookup id islets ≡ some new
        → ((j : String) → (id == j) ≡ false → lookup j islets ≡ lookup j db.islets)
        → Only id
            (some (record {
              state = new.state;
              generation = new.generation;
              content = (seen db.schemas row).content ++ ss;
            }))
            (view db)
            (view (record ran { islets = islets }))
    executed-becomes new islets keeps at rows =
        subst
          (λ c.
            Only id
              (some (record { state = new.state; generation = new.generation; content = c ++ ss }))
              (view db) (view (record ran { islets = islets })))
          (sym (ap content_of (fine.backed id row found).schema))
          (becomes-Only id db (record ran { islets = islets }) new (some (done ++ ss))
            (record {
              rows = rows;
              schemas = λ j o other at. at_other md.schema o.schema_name (done ++ ss) db.schemas (
                  schema_apart md.schema j o (same ∙ (fine.backed id row found).schema_name) other
                    at);
            })
            at (at_same md.schema new.schema_name (done ++ ss) db.schemas (same ∙ sym keeps)))

    pub executed-Only :
        (first : Bool)
        → may_run row.state first ≡ true
        → Only id
            (some (record {
              state = active;
              generation = row.generation;
              content = (seen db.schemas row).content ++ ss;
            }))
            (view db)
            (view (activated env md first (appended md.schema ss db)))
    executed-Only false runs =
        after db ran (appended md.schema ss db) (appended-some md.schema ss db done there) (
          in_state (running row.state runs)
            (executed-becomes row db.islets refl found (λ j other. refl)))
    executed-Only true runs =
        let new = record row { state = active; init_token = none; updated_at = env.now } in
        after db (record ran { islets = insert id new db.islets })
          (activated env md true (appended md.schema ss db))
          (rw (appended-some md.schema ss db done there, named) (rw (found, update_islet) refl))
          (executed-becomes new (insert id new db.islets) refl (at_same id id new db.islets refl)
            (λ j other. at_other id j new db.islets other))
