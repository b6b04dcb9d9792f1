-- ===== src/Engine/Among/Settled.antt =====
-- No initialization of internal/engine is left over, whatever other managers do in between.
use Prim.Native.String.{◌++◌ as ◌then◌}
use pgislet.Base.{
  ℕ, ◌<◌, ◌≤◌, String, true, false, not, ◌≡◌, ◌≢◌, refl, sym, ap, ◌∙◌, ◌⊎◌, inl, inr, Option, none,
  some, List, eqb, arith, Bool-cases, Option-cases,
}
use pgislet.Base.Dict.{lookup}
use pgislet.Errors.{Err, Result, ok, err}
use pgislet.Policy.Check.{Parser}
use pgislet.Engine.Types.{
  State, initializing, is_initializing, Islet, Metadata, Row, Db, to_metadata,
}
use pgislet.Engine.Exec.{Env, mark_failed, select_row}
use pgislet.Engine.Gateway.{lookup_islet}
use pgislet.Engine.Lifecycle.Early.{metadata_found, same_generation, commit_result-none}
use pgislet.Engine.Execute.{Manager, Outcome, execute}
use pgislet.Engine.Execute.Whole.{
  IsAdmitted-may_enter, ExecuteOutcome, activated, failed, done, execute-ExecuteOutcome,
}
use pgislet.Engine.Execute.Runs.{appended}
use pgislet.Engine.Initialize.{
  run_for, after_statements, abandon, mark_unfinished, updated, is_fenced, initialize,
}
use pgislet.Engine.Initialize.Fence.{is_left, is_left-eq, marked_ends}
use pgislet.Engine.Registry.{WellFormed}
use pgislet.Engine.Registry.Reach.{by_execute, by_mark}
use pgislet.Engine.Workspaces.Spec.{Workspace}
use pgislet.Engine.Workspaces.Changes.{after, executed-Only}
use pgislet.Engine.Workspaces.Refines.{may_enter-may_run}
use pgislet.Engine.Workspaces.View.{view, view-found, view-absent}
use pgislet.Engine.Workspaces.Lasting.{History, here, and_then, IsLasting, History-lasts}
use pgislet.Engine.Among.{abandon_among, after_statements_among, run_for_among, initialize_among}

-- A workspace that is gone, or has reached the generation `g`.
abbrev pub HasReached : ℕ → Option Workspace → Type 0
HasReached g none = Unit
HasReached g (some w) = g ≤ w.generation

-- It does not wait for its first statements at the generation `g` any more.
abbrev pub IsSettled : ℕ → Option Workspace → Type 0
IsSettled g none = Unit
IsSettled g (some w) = (g < w.generation) ⊎ ((w.generation ≡ g) × (w.state ≢ initializing))

HasReached-IsLasting : (g : ℕ) → IsLasting (HasReached g)
HasReached-IsLasting g = record {
  gone = tt;
  grown = λ w new more h. omega arith;
  settled = λ w new same out h. omega arith;
}

IsSettled-IsLasting : (g : ℕ) → IsLasting (IsSettled g)
IsSettled-IsLasting g = record {
  gone = tt;
  grown = λ w new more h. elim h [ inl a ↦ inl (omega arith) | inr (a, b) ↦ inl (omega arith) ];
  settled =
      λ w new same out h. elim h [ inl a ↦ inl (omega arith) | inr (a, b) ↦ inr (same ∙ a, out) ];
}

not_initializing : (s : State) → is_initializing s ≡ false → s ≢ initializing
not_initializing s h e = cc (rw e at h)

unfenced :
    (h : Islet) (r : Row)
    → h.generation ≤ r.generation
    → is_fenced h r ≡ false
    → (h.generation < r.generation) ⊎ ((r.generation ≡ h.generation) × (r.state ≢ initializing))
unfenced h r reached out = elim (Bool-cases (eqb r.generation h.generation)) [
  | inl e ↦ inr (ground (arith, e), not_initializing r.state (ground (arith, e, out)))
  | inr n ↦ inl (ground (arith, n))
]

left_none :
    (h : Islet) (w : Db)
    → is_left h w ≡ false
    → HasReached h.generation (view w h.id)
    → IsSettled h.generation (view w h.id)
left_none h w out reached = elim (Option-cases (lookup h.id w.islets)) [
  | inl n ↦ rw (view-absent w h.id n) tt
  | inr (r, s) ↦
      rw (view-found w h.id r s)
        (unfenced h r (rw (view-found w h.id r s) at reached) (sym (is_left-eq h w r s) ∙ out))
]

module _ (p : Parser) (m : Manager) (env : Env) (h : Islet) (md : Metadata) (ss : List String)
    (db : Db) (fine : WellFormed db) (named : md.id ≡ h.id) (gen : md.generation ≡ h.generation)
    (read : md.schema ≡ ("pgislet_i_" then md.id)) where
  -- Statements that have initialized it leave it active.
  executed-IsSettled :
      {o : Outcome} {db' : Db}
      → ExecuteOutcome p m env md ss true db o db'
      → o.1 ≡ none
      → IsSettled h.generation (view db' h.id)
  executed-IsSettled (failed e q same) well = cc (q, well)
  executed-IsSettled (done a runs c (inr (lost, same))) well =
      elim (lost (commit_result-none env.at_commit (sym c ∙ well))) [ ]
  executed-IsSettled {db' = db'} (done a runs c (inl same)) well =
      let found : lookup h.id db.islets ≡ some a.row = rw named at a.found in
      let own : md.schema ≡ a.row.schema_name =
        read
        ∙ ap (λ n. "pgislet_i_" then n) named
        ∙ sym (fine.backed h.id a.row found).schema_name in
      let may = may_enter-may_run md a.row.state a.row.init_token true (IsAdmitted-may_enter a) in
      let only =
        after db (activated env md true (appended md.schema ss db)) db' same
          (executed-Only db fine h.id env md a.row ss named found own true may) in
      rw only.becomes (inr (a.generation ∙ gen, λ e. cc))

module _ (env : Env) (h : Islet) (meanwhile : ℕ → Db → Db) (marks : env.fault mark_failed ≡ none)
    (others : (i : ℕ) (db : Db) → History h.id db (meanwhile i db)) where
  abbrev Reached : Db → Type 0
  Reached w = WellFormed w × HasReached h.generation (view w h.id)

  abbrev Ended : Db → Type 0
  Ended w = WellFormed w × IsSettled h.generation (view w h.id)

  then-Reached : (w w' : Db) → History h.id w w' → Reached w → Reached w'
  then-Reached w w' history (fine, r) =
      History-lasts (HasReached h.generation) (HasReached-IsLasting h.generation) h.id w fine r
        history

  then-Ended : (w w' : Db) → History h.id w w' → Ended w → Ended w'
  then-Ended w w' history (fine, e) =
      History-lasts (IsSettled h.generation) (IsSettled-IsLasting h.generation) h.id w fine e
        history

  marked-Ended : (w : Db) → Reached w → Ended (mark_unfinished env.now h w)
  marked-Ended w reached =
      let (fine, r) =
        then-Reached w (mark_unfinished env.now h w) (and_then here (by_mark env.now h) tt tt)
          reached in
      (fine, left_none h (mark_unfinished env.now h w) (marked_ends env.now h w) r)

  abandon-Ended : (e : Err) (w : Db) → Reached w → Ended (abandon_among env h meanwhile e w).1
  unfolding abandon_among
  abandon-Ended e w reached =
      let w₀ = meanwhile 1 w in
      let ended : Ended (updated (env.fault mark_failed) env.now h w₀) =
        rw marks (marked-Ended w₀ (then-Reached w w₀ (others 1 w) reached)) in
      then-Ended _ _ (others 2 (updated (env.fault mark_failed) env.now h w₀)) ended

  after_statements-Ended :
      (e : Option Err) (w : Db)
      → Reached w
      → (e ≡ none → IsSettled h.generation (view w h.id))
      → Ended (after_statements_among env h meanwhile e w).1
  after_statements-Ended (some e) w reached ends = abandon-Ended e w reached
  after_statements-Ended none w (fine, r) ends =
      then-Ended w (meanwhile 2 w) (others 2 w) (fine, ends refl)

  module _ (p : Parser) (m : Manager) (ss : List String) where
    run_for-Ended :
        (db : Db) (o : Result Metadata)
        → lookup_islet env h.id db ≡ o
        → Reached db
        → Ended (run_for_among env h meanwhile p m ss db o).1
    unfolding lookup_islet to_metadata
    run_for-Ended db (err e) q reached = abandon-Ended e db reached
    run_for-Ended db (ok md) q reached = elim (Bool-cases (not (eqb md.generation h.generation))) [
      | inl old ↦ rw old (abandon-Ended _ db reached)
      | inr new ↦
          (let (r, found, same) = metadata_found (env.fault select_row) h.id db md q in
            let named : md.id ≡ h.id = rw same refl in
            let gen : md.generation ≡ h.generation = rw same (same_generation h r md same new) in
            let read : md.schema ≡ ("pgislet_i_" then md.id) =
              rw same (reached.0.backed h.id r found).schema_name in
            let db₀ = meanwhile 0 db in
            let before = then-Reached db db₀ (others 0 db) reached in
            let ran = execute-ExecuteOutcome p m env md ss true db₀ in
            let behind =
              then-Reached db₀ (execute p m env md ss true db₀).1
                (and_then here (by_execute p m env md ss true) read tt) before in
            rw new (
              after_statements-Ended (execute p m env md ss true db₀).0.1
                (execute p m env md ss true db₀).1 behind
                (executed-IsSettled p m env h md ss db₀ before.0 named gen read ran)))
    ]

    -- An initialization whose mark of a failure is not refused leaves no workspace that waits for it:
    -- whatever its other calls meet, and whatever transactions other managers run before and between
    -- its own, as long as they do not create a workspace of the same name, the workspace is gone, is of
    -- a later generation, or is of the handle's and not initializing. It has been gone or has reached
    -- the generation of the handle before, in a well-formed registry.
    pub initialize_among-IsSettled :
        (db : Db)
        → WellFormed db
        → HasReached h.generation (view db h.id)
        → IsSettled h.generation (view (initialize_among env h meanwhile p m ss db).1 h.id)
    unfolding initialize_among
    initialize_among-IsSettled db fine reached =
        (run_for-Ended db (lookup_islet env h.id db) refl (fine, reached)).1

module _ (p : Parser) (m : Manager) (env : Env) (h : Islet) (ss : List String) where
  after_statements-alone :
      (e : Option Err) (w : Db)
      → after_statements_among env h (λ i w. w) e w ≡ after_statements env h e w
  unfolding abandon_among abandon
  after_statements-alone none w = refl
  after_statements-alone (some e) w = refl

  run_for-alone :
      (db : Db) (o : Result Metadata)
      → run_for_among env h (λ i w. w) p m ss db o ≡ run_for p m env h ss db o
  unfolding abandon_among abandon
  run_for-alone db (err e) = refl
  run_for-alone db (ok md) = elim (Bool-cases (not (eqb md.generation h.generation))) [
    | inl old ↦ rw old refl
    | inr new ↦ rw new (
        after_statements-alone (execute p m env md ss true db).0.1
          (execute p m env md ss true db).1)
  ]

  -- With nothing in between, it is the initialization of Engine/Initialize.
  pub initialize_among-initialize :
      (db : Db) → initialize_among env h (λ i w. w) p m ss db ≡ initialize p m env h ss db
  unfolding initialize_among initialize
  initialize_among-initialize db = run_for-alone db (lookup_islet env h.id db)
