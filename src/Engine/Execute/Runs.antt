-- ===== src/Engine/Execute/Runs.antt =====
-- The loop of `execute` in internal/engine/execute.go, seen from its end.
use mathlib.Core.List.{append_assoc, append-nil}
use pgislet.Base.{
  ℕ, suc, String, true, ◌≡◌, refl, sym, ap, ◌∙◌, inl, inr, none, some, List, [], ◌∷◌, ◌++◌, arith,
  eq_refl, Option-cases,
}
use pgislet.Base.Dict.{lookup, insert, lookup-insert, insert-insert, insert_same}
use pgislet.Errors.{Result-cases, Result, ok, err}
use pgislet.Policy.Check.{Parser, check}
use pgislet.Policy.Admitted.{Admitted}
use pgislet.Policy.Sound.{check-Admitted}
use pgislet.Engine.Types.{Metadata, Db}
use pgislet.Engine.Exec.{Env, Cursor}
use pgislet.Engine.Result.{QueryResult, Budget, Answered, query}
use pgislet.Engine.Result.Bounds.{Fits, whole, left_after, query_cases}
use pgislet.Engine.Execute.{Manager, admit, run_statements, ran, local_functions}

-- The statements of a list run in the schema, one after the other, and the same in one step.
abbrev run_all : String → List String → Db → Db
run_all schema [] w = w
run_all schema (sql ∷ rest) w = run_all schema rest (ran schema sql w)

abbrev pub appended : String → List String → Db → Db
appended schema ss w = elim (lookup schema w.schemas) [
  | none ↦ w
  | some done ↦ record w { schemas = insert schema (done ++ ss) w.schemas }
]

pub appended-some :
    (schema : String) (ss : List String) (w : Db) (c : List String)
    → lookup schema w.schemas ≡ some c
    → appended schema ss w ≡ record w { schemas = insert schema (c ++ ss) w.schemas }
appended-some schema ss w c s = rw (s, appended)

pub appended-none :
    (schema : String) (ss : List String) (w : Db)
    → lookup schema w.schemas ≡ none
    → appended schema ss w ≡ w
appended-none schema ss w n = rw (n, appended)

-- `ran` is one statement appended.
ran-appended : (schema sql : String) (w : Db) → ran schema sql w ≡ appended schema (sql ∷ []) w
ran-appended schema sql w = refl

appended-appended :
    (schema : String) (ss ts : List String) (w : Db)
    → appended schema ts (appended schema ss w) ≡ appended schema (ss ++ ts) w
appended-appended schema ss ts w = elim (Option-cases (lookup schema w.schemas)) [
  | inl n ↦
      ap (appended schema ts) (appended-none schema ss w n)
      ∙ appended-none schema ts w n
      ∙ sym (appended-none schema (ss ++ ts) w n)
  | inr (c, s) ↦
      ap (appended schema ts) (appended-some schema ss w c s)
      ∙ appended-some schema ts (record w { schemas = insert schema (c ++ ss) w.schemas }) (c ++ ss)
          (rw (lookup-insert, eq_refl))
      ∙ ap (λ l. record w { schemas = l })
          (insert-insert schema (c ++ ss) ((c ++ ss) ++ ts) w.schemas
            ∙ ap (λ l. insert schema l w.schemas) (append_assoc c ss ts))
      ∙ sym (appended-some schema (ss ++ ts) w c s)
]

pub run_all-appended :
    (schema : String) (ss : List String) (w : Db) → run_all schema ss w ≡ appended schema ss w
run_all-appended schema [] w = elim (Option-cases (lookup schema w.schemas)) [
  | inl n ↦ sym (appended-none schema [] w n)
  | inr (c, s) ↦
      sym (appended-some schema [] w c s ∙ rw (append-nil, insert_same schema c w.schemas s))
]
run_all-appended schema (sql ∷ rest) w =
    run_all-appended schema rest (ran schema sql w) ∙ appended-appended schema (sql ∷ []) rest w

query-whole :
    (r : Result Cursor) (b : Budget)
    → (query r b).error ≡ none
    → (c : Cursor) × (r ≡ ok c)
      × (c.ended ≡ none)
      × Fits c.fields c.rows b
      × (query r b ≡ record { result = whole c; error = none; left = left_after c b })
unfolding query
query-whole (err e) b h = cc
query-whole (ok c) b h = elim (query_cases c b) [
  | inl (n, f, same) ↦ (c, refl, n, f, same)
  | inr (inl (_, (_, (e, s, _)))) ↦ cc
  | inr (inr (e, _, s)) ↦ cc
]

module _ (p : Parser) (m : Manager) (env : Env) (md : Metadata) where
  -- Statement i was admitted under the routines of the schema at that time.
  abbrev pub WasAdmitted : ℕ → String → Type 0
  WasAdmitted i sql =
      (found : List String) × (env.routines i ≡ ok found)
      × Admitted p md.schema (local_functions m.reserved found) 17 true sql

  -- The statements from number i on, each admitted, and each answered by the server with an answer
  -- that ends without an error, that fits what the ones before it left of the budget, and that is its result whole.
  abbrev pub RunsAll : ℕ → List String → Budget → List QueryResult → Type 0
  RunsAll i [] b [] = Unit
  RunsAll i (sql ∷ rest) b (q ∷ qs) =
      WasAdmitted i sql
      × ((c : Cursor) × (env.reply i ≡ ok c)
          × (c.ended ≡ none)
          × Fits c.fields c.rows b
          × (q ≡ whole c)
          × RunsAll (suc i) rest (left_after c b) qs)
  RunsAll i _ b _ = ⊥

  admit-WasAdmitted : (i : ℕ) (sql : String) → admit p m env md i sql ≡ none → WasAdmitted i sql
  unfolding admit
  admit-WasAdmitted i sql h = elim (Result-cases (env.routines i)) [
    | inr (e, s) ↦ cc (rw (s, admit) at h)
    | inl (found, s) ↦
        (let names = local_functions m.reserved found in
          elim (Result-cases (check p md.schema sql names)) [
            | inr (e, t) ↦ cc (rw (s, admit, t) at h)
            | inl (_, t) ↦ (found, s, check-Admitted p md.schema names sql t)
          ])
  ]

  RunsAll-left :
      (i : ℕ) (ss : List String) (b b' : Budget) (qs : List QueryResult)
      → b' ≡ b
      → RunsAll i ss b qs
      → RunsAll i ss b' qs
  RunsAll-left i ss b b' qs e h = rw e h

  -- What a run from number i on that ends without an error has done.
  abbrev pub Ran : ℕ → List String → Budget → List QueryResult → List QueryResult → Db → Db → Type 0
  Ran i ss b results rs w w' =
      (qs : List QueryResult) × (rs ≡ results ++ qs)
      × RunsAll i ss b qs
      × (w' ≡ run_all md.schema ss w)

  Ran-step :
      (i : ℕ) (sql : String) (rest : List String) (b : Budget) (results rs : List QueryResult)
      (w w' : Db)
      → WasAdmitted i sql
      → (query (env.reply i) b).error ≡ none
      → Ran
          (suc i)
          rest
          (query (env.reply i) b).left
          (results ++ (query (env.reply i) b).result ∷ [])
          rs
          (ran md.schema sql w)
          w'
      → Ran i (sql ∷ rest) b results rs w w'
  Ran-step i sql rest b results rs w w' admitted fine (qs, eq, runs, end) =
      let (c, r, well, fits, same) = query-whole (env.reply i) b fine in
      let q = (query (env.reply i) b).result in
      let left =
        RunsAll-left (suc i) rest (query (env.reply i) b).left (left_after c b) qs
          (sym (ap (λ (a : Answered). a.left) same)) runs in
      (
        q ∷ qs,
        eq ∙ append_assoc results (q ∷ []) qs,
        (admitted, (c, r, well, fits, ap (λ (a : Answered). a.result) same, left)),
        end,
      )

  pub run_rule :
      (i : ℕ) (ss : List String) (b : Budget) (results rs : List QueryResult) (w w' : Db)
      → run_statements p m env md i ss b results w ≡ ((rs, none), w')
      → Ran i ss b results rs w w'
  unfolding run_statements
  run_rule i [] b results rs w w' h = ([], ground (arith, append-nil results), tt, ground arith)
  run_rule i (sql ∷ rest) b results rs w w' h = elim (Option-cases (admit p m env md i sql)) [
    | inr (e, s) ↦ cc (rw (s, run_statements) at h)
    | inl n ↦ elim (Option-cases (query (env.reply i) b).error) [
      | inr (e, s) ↦ cc (rw (n, s, run_statements) at h)
      | inl fine ↦ Ran-step i sql rest b results rs w w' (admit-WasAdmitted i sql n) fine (
          run_rule (suc i) rest _ _ rs (ran md.schema sql w) w' (rw (n, fine, run_statements) at h))
    ]
  ]
