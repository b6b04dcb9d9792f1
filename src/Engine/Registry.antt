-- ===== src/Engine/Registry.antt =====
-- What the registry of internal/engine promises of every islet, and the changes to the database that
-- keep it.
pub mod Closed
pub mod Reach
pub mod Grows
pub mod Isolation
pub mod Alone
use Prim.Native.String.{◌++◌ as ◌then◌}
use pgislet.Base.{
  ℕ, ◌+◌, ◌<◌, ◌≤◌, String, Bool, true, false, ◌≡◌, refl, sym, ap, ◌∙◌, ◌⊎◌, inl, inr, Option, none,
  some, List, [], ◌++◌, ◌==◌, arith, eq_iff, eq_refl, Bool-cases, Option-cases, if◌then◌else◌,
}
use pgislet.Base.Dict.{Dict, lookup, insert, erase, lookup-insert, lookup-erase}
use text.Mathlib.TextLemmas.{append_cancel_left}
use pgislet.Engine.Types.{Row, Db}

-- The islet `id` with the row `r` has the schema and the role of its name, the role with the row's
-- password, and a generation above zero.
pub record IsBacked (id : String) (r : Row) (db : Db) : Type 0 where
  pub schema_name : r.schema_name ≡ ("pgislet_i_" then id)
  pub role_name : r.role_name ≡ ("pgislet_r_" then id)
  pub content : List String
  pub schema : lookup r.schema_name db.schemas ≡ some content
  pub role : lookup r.role_name db.roles ≡ some r.password
  pub generation : 0 < r.generation

pub record WellFormed (db : Db) : Type 0 where
  pub backed : (id : String) (r : Row) → lookup id db.islets ≡ some r → IsBacked id r db

-- Every name that has an entry keeps one.
abbrev pub Keeps : {V : Type 0} → Dict V → Dict V → Type 0
Keeps {V} m m' = (j : String) (v : V) → lookup j m ≡ some v → (v' : V) × (lookup j m' ≡ some v')

pub key_cases : (k j : String) → (k ≡ j) ⊎ ((k == j) ≡ false)
key_cases k j = elim (Bool-cases (k == j)) [ inl e ↦ inl ((eq_iff k j).0 e) | inr n ↦ inr n ]

-- Different islets have different names for what is theirs.
pub apart : (p k j : String) → (k == j) ≡ false → ((p then k) == (p then j)) ≡ false
apart p k j n = elim (key_cases (p then k) (p then j)) [
  | inl e ↦ ground (arith, eq_iff k j, append_cancel_left p k j e)
  | inr m ↦ m
]

module _ {V : Type 0} where
  pub at_other :
      (k j : String) (v : V) (m : Dict V) → (k == j) ≡ false → lookup j (insert k v m) ≡ lookup j m
  at_other k j v m n = rw (lookup-insert, n) refl

  pub at_same : (k j : String) (v : V) (m : Dict V) → k ≡ j → lookup j (insert k v m) ≡ some v
  at_same k j v m e = rw (sym e, lookup-insert, eq_refl) refl

  pub erased_other :
      (k j : String) (m : Dict V) → (k == j) ≡ false → lookup j (erase k m) ≡ lookup j m
  erased_other k j m n = rw (lookup-erase, n) refl

  pub erased_same : (k j : String) (m : Dict V) → k ≡ j → lookup j (erase k m) ≡ none
  erased_same k j m e = rw (sym e, lookup-erase, eq_refl) refl

  pub insert_cases :
      (k j : String) (v r : V) (m : Dict V)
      → lookup j (insert k v m) ≡ some r
      → ((k ≡ j) × (v ≡ r)) ⊎ (((k == j) ≡ false) × (lookup j m ≡ some r))
  insert_cases k j v r m h = elim (key_cases k j) [
    | inl e ↦ inl (e, cc (at_same k j v m e, h))
    | inr n ↦ inr (n, sym (at_other k j v m n) ∙ h)
  ]

  pub erase_cases :
      (k j : String) (r : V) (m : Dict V)
      → lookup j (erase k m) ≡ some r
      → ((k == j) ≡ false) × (lookup j m ≡ some r)
  erase_cases k j r m h = elim (key_cases k j) [
    | inl e ↦ cc (erased_same k j m e, h)
    | inr n ↦ (n, sym (erased_other k j m n) ∙ h)
  ]

  -- A name without an entry may be taken.
  pub kept_by_new :
      (k j : String) (v c : V) (m : Dict V)
      → lookup k m ≡ none
      → lookup j m ≡ some c
      → lookup j (insert k v m) ≡ some c
  kept_by_new k j v c m n h = elim (key_cases k j) [
    | inl e ↦ cc (n, h, e)
    | inr d ↦ at_other k j v m d ∙ h
  ]

  pub insert-Keeps : (k : String) (v : V) (m : Dict V) → Keeps m (insert k v m)
  insert-Keeps k v m j c h = elim (key_cases k j) [
    | inl e ↦ (v, at_same k j v m e)
    | inr n ↦ (c, at_other k j v m n ∙ h)
  ]

  pub erase-Keeps : (k : String) (v : V) (m : Dict V) → Keeps m (insert k v (erase k m))
  erase-Keeps k v m j c h = elim (key_cases k j) [
    | inl e ↦ (v, at_same k j v (erase k m) e)
    | inr n ↦ (c, at_other k j v (erase k m) n ∙ erased_other k j m n ∙ h)
  ]

module _ (db : Db) (fine : WellFormed db) where
  -- A change of the schemas that keeps all their names.
  pub schemas-WellFormed :
      (schemas : Dict (List String))
      → Keeps db.schemas schemas
      → WellFormed (record db { schemas = schemas })
  schemas-WellFormed schemas keeps = record {
    backed = λ j r h.
        let b = fine.backed j r h in
        let (c, found) = keeps r.schema_name b.content b.schema in
        record {
          schema_name = b.schema_name;
          role_name = b.role_name;
          content = c;
          schema = found;
          role = b.role;
          generation = b.generation;
        };
  }

  -- A change of one row that keeps its names and its password.
  pub row-WellFormed :
      (id : String) (old new : Row)
      → lookup id db.islets ≡ some old
      → new.schema_name ≡ old.schema_name
      → new.role_name ≡ old.role_name
      → new.password ≡ old.password
      → 0 < new.generation
      → WellFormed (record db { islets = insert id new db.islets })
  row-WellFormed id old new found s o p g = record {
    backed = λ j r h. elim (insert_cases id j new r db.islets h) [
      | inl (e, same) ↦
          (let b = fine.backed id old found in
            let here : IsBacked id new db = record {
              schema_name = s ∙ b.schema_name;
              role_name = o ∙ b.role_name;
              content = b.content;
              schema = ap (λ n. lookup n db.schemas) s ∙ b.schema;
              role = ap (λ n. lookup n db.roles) o ∙ b.role ∙ ap some (sym p);
              generation = g;
            } in
            let there : IsBacked j r db = rw (sym e, sym same) here in
            record {
              schema_name = there.schema_name;
              role_name = there.role_name;
              content = there.content;
              schema = there.schema;
              role = there.role;
              generation = there.generation;
            })
      | inr (n, h') ↦
          (let b = fine.backed j r h' in
            record {
              schema_name = b.schema_name;
              role_name = b.role_name;
              content = b.content;
              schema = b.schema;
              role = b.role;
              generation = b.generation;
            })
    ];
  }

  -- A row more, with a schema and a role under names that were free.
  pub added-WellFormed :
      (id : String) (new : Row)
      → new.schema_name ≡ ("pgislet_i_" then id)
      → new.role_name ≡ ("pgislet_r_" then id)
      → 0 < new.generation
      → lookup new.schema_name db.schemas ≡ none
      → lookup new.role_name db.roles ≡ none
      → WellFormed (record {
        islets = insert id new db.islets;
        schemas = insert new.schema_name [] db.schemas;
        roles = insert new.role_name new.password db.roles;
      })
  added-WellFormed id new s o g no_schema no_role = record {
    backed = λ j r h. elim (insert_cases id j new r db.islets h) [
      | inl (e, same) ↦ record {
        schema_name =
            ap (λ (x : Row). x.schema_name) (sym same) ∙ s ∙ ap (λ x. "pgislet_i_" then x) e;
        role_name = ap (λ (x : Row). x.role_name) (sym same) ∙ o ∙ ap (λ x. "pgislet_r_" then x) e;
        content = [];
        schema = at_same _ _ _ _ (ap (λ (x : Row). x.schema_name) same);
        role =
            at_same _ _ _ _ (ap (λ (x : Row). x.role_name) same)
            ∙ ap (λ (x : Row). some x.password) same;
        generation = rw (sym same) g;
      }
      | inr (n, h') ↦
          (let b = fine.backed j r h' in
            record {
              schema_name = b.schema_name;
              role_name = b.role_name;
              content = b.content;
              schema = kept_by_new _ _ _ _ _ no_schema b.schema;
              role = kept_by_new _ _ _ _ _ no_role b.role;
              generation = b.generation;
            })
    ];
  }

  -- An islet less, with its schema and its role.
  pub removed-WellFormed :
      (id : String) (old : Row)
      → lookup id db.islets ≡ some old
      → WellFormed (record {
        islets = erase id db.islets;
        schemas = erase old.schema_name db.schemas;
        roles = erase old.role_name db.roles;
      })
  removed-WellFormed id old found = record {
    backed = λ j r h.
        let (n, h') = erase_cases id j r db.islets h in
        let a = fine.backed id old found in
        let b = fine.backed j r h' in
        let s : (old.schema_name == r.schema_name) ≡ false =
          rw (a.schema_name, b.schema_name) (apart "pgislet_i_" id j n) in
        let o : (old.role_name == r.role_name) ≡ false =
          rw (a.role_name, b.role_name) (apart "pgislet_r_" id j n) in
        record {
          schema_name = b.schema_name;
          role_name = b.role_name;
          content = b.content;
          schema = erased_other _ _ _ s ∙ b.schema;
          role = erased_other _ _ _ o ∙ b.role;
          generation = b.generation;
        };
  }
