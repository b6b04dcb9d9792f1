-- ===== src/Engine/Registry/Grows.antt =====
-- The generations of the rows of internal/engine, from one database to the next.
use pgislet.Base.{
  ℕ, ◌≤◌, String, Bool, true, false, ◌≡◌, refl, sym, ap, ◌∙◌, inl, inr, some, List, arith,
  Option-cases, Bool-cases,
}
use pgislet.Base.Dict.{Dict, lookup, insert, erase}
use pgislet.Policy.Check.{Parser}
use pgislet.Engine.Types.{Islet, Metadata, Row, Db}
use pgislet.Engine.Exec.{Env}
use pgislet.Engine.Gateway.{update_islet}
use pgislet.Engine.Cleanup.{mark}
use pgislet.Engine.Lifecycle.Early.{failed_db-eq, Early, kept, marked}
use pgislet.Engine.Lifecycle.Create.{CreateOutcome, refused, created, create-CreateOutcome}
use pgislet.Engine.Lifecycle.Reset.{ResetOutcome, early, rebuilt, reset-ResetOutcome}
use pgislet.Engine.Lifecycle.Delete.{DeleteOutcome, delete-DeleteOutcome}
use pgislet.Engine.Lifecycle.Delete
use pgislet.Engine.Execute.{Manager, Outcome}
use pgislet.Engine.Execute.Whole.{ExecuteOutcome, activated, execute-ExecuteOutcome}
use pgislet.Engine.Execute.Whole
use pgislet.Engine.Execute.Runs.{appended, appended-some, appended-none}
use pgislet.Engine.Initialize.{mark_unfinished, is_fenced}
use pgislet.Engine.Registry.{insert_cases, erase_cases}
use pgislet.Engine.Registry.Reach.{Step, by_create, by_reset, by_delete, by_execute, by_mark}

-- An islet that is in both registries has no smaller generation in the second.
abbrev pub Grows : Dict Row → Dict Row → Type 0
Grows m m' =
    (id : String) (r r' : Row)
    → lookup id m ≡ some r
    → lookup id m' ≡ some r'
    → r.generation ≤ r'.generation

same-Grows : (m : Dict Row) → Grows m m
same-Grows m id r r' p q =
    let e : some r ≡ some r' = sym p ∙ q in let f : r ≡ r' = cc in rw f (omega arith)

Grows-from : (m m₁ m' : Dict Row) → m₁ ≡ m → Grows m₁ m' → Grows m m'
Grows-from m m₁ m' e g = rw (sym e) g

insert-Grows :
    (k : String) (new : Row) (m : Dict Row)
    → ((old : Row) → lookup k m ≡ some old → old.generation ≤ new.generation)
    → Grows m (insert k new m)
insert-Grows k new m grown id r r' p q = elim (insert_cases k id new r' m q) [
  | inl (e, same) ↦ rw (sym same) (grown r (rw e p))
  | inr (n, q') ↦ same-Grows m id r r' p q'
]

erase-Grows : (k : String) (m : Dict Row) → Grows m (erase k m)
erase-Grows k m id r r' p q = same-Grows m id r r' p (erase_cases k id r' m q).1

updated-Grows :
    (db : Db) (id : String) (f : Row → Row)
    → ((r : Row) → (f r).generation ≡ r.generation)
    → Grows db.islets (update_islet id f db).islets
updated-Grows db id f same = elim (Option-cases (lookup id db.islets)) [
  | inl n ↦ rw (n, update_islet) (same-Grows db.islets)
  | inr (r, s) ↦
      rw (s, update_islet)
        (insert-Grows id (f r) db.islets
          (λ old p. let e : old ≡ r = cc in rw (e, same r) (omega arith)))
]

appended-islets :
    (schema : String) (ss : List String) (db : Db) → (appended schema ss db).islets ≡ db.islets
appended-islets schema ss db = elim (Option-cases (lookup schema db.schemas)) [
  | inl n ↦ ap (λ (w : Db). w.islets) (appended-none schema ss db n)
  | inr (c, s) ↦ ap (λ (w : Db). w.islets) (appended-some schema ss db c s)
]

activated-Grows :
    (env : Env) (md : Metadata) (initializing : Bool) (db : Db)
    → Grows db.islets (activated env md initializing db).islets
activated-Grows env md false db = same-Grows db.islets
activated-Grows env md true db = updated-Grows db md.id _ (λ r. refl)

Early-Grows :
    (env : Env) (h : Islet) (db db' : Db) {blocked : _} {e : _}
    → Early env h blocked db e db'
    → Grows db.islets db'.islets
Early-Grows env h db db' (kept same) = rw same (same-Grows db.islets)
Early-Grows env h db db' (marked r found gen fine l same) =
    rw (same ∙ sym (failed_db-eq env h.id r db found))
      (updated-Grows db h.id (mark env.now) (λ r. refl))

create-Grows :
    {env : Env} {initialize : Bool} {db db' : Db} {result : _}
    → CreateOutcome env initialize db result db'
    → Grows db.islets db'.islets
create-Grows {db = db} (refused e r same) = rw same (same-Grows db.islets)
create-Grows {db = db} (created id password token i p t free r (inr (lost, same))) =
    rw same (same-Grows db.islets)
create-Grows {db = db} (created id password token i p t free r (inl same)) =
    rw same (insert-Grows id _ db.islets (λ old found. cc (free.row, found)))

reset-Grows :
    {env : Env} {h : Islet} {initialize recovering : Bool} {db db' : Db} {result : _}
    → ResetOutcome env h initialize recovering db result db'
    → Grows db.islets db'.islets
reset-Grows (early e r o) = Early-Grows _ _ _ _ o
reset-Grows {db = db} (rebuilt r token found g i d res (inr (lost, same))) =
    rw same (same-Grows db.islets)
reset-Grows {h = h} {db = db} (rebuilt r token found g i d res (inl same)) =
    rw same (insert-Grows h.id _ db.islets (λ old p. let e : old ≡ r = cc in rw e (omega arith)))

delete-Grows :
    {env : Env} {h : Islet} {db db' : Db} {result : _}
    → DeleteOutcome env h db result db'
    → Grows db.islets db'.islets
delete-Grows (Delete.early e r o) = Early-Grows _ _ _ _ o
delete-Grows {db = db} (Delete.gone r same why) = rw same (same-Grows db.islets)
delete-Grows {db = db} (Delete.deleted r found g i res (inr (lost, same))) =
    rw same (same-Grows db.islets)
delete-Grows {h = h} {db = db} (Delete.deleted r found g i res (inl same)) =
    rw same (erase-Grows h.id db.islets)

execute-Grows :
    {p : Parser} {m : Manager} {env : Env} {md : Metadata} {ss : List String} {initializing : Bool}
    {db db' : Db} {result : Outcome}
    → ExecuteOutcome p m env md ss initializing db result db'
    → Grows db.islets db'.islets
execute-Grows {db = db} (Whole.failed e r same) = rw same (same-Grows db.islets)
execute-Grows {db = db} (Whole.done a b c (inr (lost, same))) = rw same (same-Grows db.islets)
execute-Grows {env = env} {md = md} {ss = ss} {initializing = i} {db = db}
      (Whole.done a b c (inl same)) =
    rw same (
      Grows-from _ _ _ (appended-islets md.schema ss db)
        (activated-Grows env md i (appended md.schema ss db)))

marked-Grows : (now : ℕ) (h : Islet) (db : Db) → Grows db.islets (mark_unfinished now h db).islets
unfolding mark_unfinished
marked-Grows now h db = elim (Option-cases (lookup h.id db.islets)) [
  | inl n ↦ rw (n, mark_unfinished) (same-Grows db.islets)
  | inr (r, s) ↦ elim (Bool-cases (is_fenced h r)) [
    | inr other ↦ rw (s, mark_unfinished, other) (same-Grows db.islets)
    | inl fenced ↦
        rw (s, mark_unfinished, fenced)
          (insert-Grows h.id _ db.islets (λ old p. let e : old ≡ r = cc in rw e (omega arith)))
  ]
]

-- No transaction of an operation lowers the generation of an islet that it leaves in the registry,
-- whatever calls fail.
pub Step-generation_le :
    (db db' : Db) (id : String) (r r' : Row)
    → Step db db'
    → lookup id db.islets ≡ some r
    → lookup id db'.islets ≡ some r'
    → r.generation ≤ r'.generation
Step-generation_le db db' id r r' (by_create env i) p q =
    create-Grows (create-CreateOutcome env i db) id r r' p q
Step-generation_le db db' id r r' (by_reset env h i recovering sticks) p q =
    reset-Grows (reset-ResetOutcome env h i recovering db sticks) id r r' p q
Step-generation_le db db' id r r' (by_delete env h sticks) p q =
    delete-Grows (delete-DeleteOutcome env h db sticks) id r r' p q
Step-generation_le db db' id r r' (by_execute parser m env md ss i) p q =
    execute-Grows (execute-ExecuteOutcome parser m env md ss i db) id r r' p q
Step-generation_le db db' id r r' (by_mark now h) p q = marked-Grows now h db id r r' p q
