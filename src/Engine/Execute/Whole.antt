-- ===== src/Engine/Execute/Whole.antt =====
-- The outcomes of `execute` of internal/engine/execute.go.
use pgislet.Base.{
  ℕ, String, Bool, true, false, ◌≡◌, ◌≢◌, refl, ap, ◌∙◌, ◌⊎◌, inl, inr, Option, none, some, List,
  [], arith, eq_iff, eq_refl, Option-cases,
}
use pgislet.Base.Dict.{lookup}
use pgislet.Errors.{Err, ok, Result-cases}
use pgislet.Policy.Check.{Parser}
use pgislet.Engine.Types
use pgislet.Engine.Types.{State, active, unset, deleting, Metadata, Row, Db}
use pgislet.Engine.Exec.{Env, Tx, Exec, ◌>>=◌, ◌>>◌, pure, settle}
use pgislet.Engine.Exec.Meets.{
  Post, Else, Meets, Meets-bind, Meets-on_error, Meets-change, Meets-call, Meets-raise, Meets-lift,
  Meets-pure, Meets-commit, Meets-transaction,
}
use pgislet.Engine.Gateway.{enter, enter_row, finish, may_enter, update_islet}
use pgislet.Engine.Cleanup.{check_dependencies}
use pgislet.Engine.Lifecycle.Early.{commit_result, none-ne-some}
use pgislet.Engine.Execute.{
  Manager, Outcome, authenticate, connect_runtime, run_statements, budget, statements_in_tx,
  entry_token, enter_call, activate, complete, execute,
}
use pgislet.Engine.Execute.Runs.{RunsAll, appended, run_rule, run_all-appended}

-- The activation of the row, after statements that initialize it.
abbrev pub activated : Env → Metadata → Bool → Db → Db
activated env md false w = w
activated env md true w =
    update_islet md.id (λ r. record r { state = active; init_token = none; updated_at = env.now }) w

-- Who may run statements: the server knows the role with this password, and the row is that role's,
-- of this generation and active, for no token, or being initialized, for the token it keeps.
pub record IsAdmitted (md : Metadata) (token : Option String) (db : Db) : Type 0 where
  pub row : Row
  pub found : lookup md.id db.islets ≡ some row
  pub role : row.role_name ≡ md.role
  pub password : lookup md.role db.roles ≡ some md.password
  pub generation : row.generation ≡ md.generation
  pub state :
      ((row.state ≡ active) × (token ≡ none))
      ⊎ ((row.state ≡ Types.initializing)
          × ((t : String) × (token ≡ some t) × (row.init_token ≡ some t)))

pub data ExecuteOutcome (p : Parser) (m : Manager) (env : Env) (md : Metadata) (ss : List String)
    (initializing : Bool) (db : Db) (result : Outcome) (db' : Db) : Type 0 where
  failed :
      (e : Err)
      → result.1 ≡ some e
      → db' ≡ db
      → ExecuteOutcome p m env md ss initializing db result db'
  done :
      IsAdmitted md (entry_token md initializing) db
      → RunsAll p m env md 0 ss (budget m) result.0
      → result.1 ≡ commit_result env.at_commit
      → (db' ≡ activated env md initializing (appended md.schema ss db))
        ⊎ ((env.at_commit ≢ none) × (db' ≡ db))
      → ExecuteOutcome p m env md ss initializing db result db'

may_enter-eq :
    (s : State) (kept token : Option String)
    → may_enter s kept token ≡ true
    → ((s ≡ active) × (token ≡ none))
      ⊎ ((s ≡ Types.initializing) × ((t : String) × (token ≡ some t) × (kept ≡ some t)))
may_enter-eq active kept none h = inl (refl, refl)
may_enter-eq active kept (some token) h = cc
may_enter-eq Types.initializing none none h = cc
may_enter-eq Types.initializing none (some token) h = cc
may_enter-eq Types.initializing (some t) none h = cc
may_enter-eq Types.initializing (some t) (some token) h =
    let same : t ≡ token = (eq_iff t token).0 h in inr (refl, (token, refl, ap some same))
may_enter-eq unset kept none h = cc
may_enter-eq unset kept (some token) h = cc
may_enter-eq Types.failed kept none h = cc
may_enter-eq Types.failed kept (some token) h = cc
may_enter-eq deleting kept none h = cc
may_enter-eq deleting kept (some token) h = cc

-- Such a row and token pass the test of the server.
pub IsAdmitted-may_enter :
    {md : Metadata} {token : Option String} {db : Db} (a : IsAdmitted md token db)
    → may_enter a.row.state a.row.init_token token ≡ true
IsAdmitted-may_enter a = elim a.state [
  | inl (s, n) ↦ rw (s, n) refl
  | inr (s, (t, q, k)) ↦ rw (s, q, k) (eq_refl t)
]

authenticate-eq :
    (md : Metadata) (w w' : Db)
    → authenticate md w ≡ ok (tt, w')
    → (w' ≡ w) × (lookup md.role w.roles ≡ some md.password)
authenticate-eq md w w' h = elim (Option-cases (lookup md.role w.roles)) [
  | inl n ↦ cc (rw (n, authenticate) at h)
  | inr (s, q) ↦ ground (arith, eq_iff s md.password, rw (q, authenticate) at h)
]

enter_row-eq :
    (r : Row) (role : String) (generation : ℕ) (token : Option String)
    → enter_row r role generation token ≡ ok tt
    → (r.role_name ≡ role)
      × (r.generation ≡ generation)
      × (may_enter r.state r.init_token token ≡ true)
unfolding enter_row
enter_row-eq r role generation token h = ground (arith, eq_iff r.role_name role)

enter_call-eq :
    (md : Metadata) (token : Option String) (w w' : Db)
    → enter_call md token w ≡ ok (tt, w')
    → (w' ≡ w)
      × ((r : Row) × (lookup md.id w.islets ≡ some r)
          × (enter_row r md.role md.generation token ≡ ok tt))
unfolding enter
enter_call-eq md token w w' h = elim (Option-cases (lookup md.id w.islets)) [
  | inl n ↦ cc (rw (n, enter_call) at h)
  | inr (r, q) ↦ elim (Result-cases (enter_row r md.role md.generation token)) [
    | inl (u, s) ↦ (cc (rw (q, s, enter_call) at h), (r, q, s))
    | inr (e, s) ↦ cc (rw (q, s, enter_call) at h)
  ]
]

finish-eq :
    (env : Env) (md : Metadata) (w w' : Db)
    → finish env.now md.role md.id md.generation (some md.token) w ≡ ok (tt, w')
    → w' ≡ activated env md true w
unfolding finish
finish-eq env md w w' h =
    elim (Result-cases (enter w md.role md.id md.generation (some md.token))) [
      | inl (u, s) ↦ cc (rw (s, finish) at h)
      | inr (e, s) ↦ cc (rw (s, finish) at h)
    ]

finished_rule :
    (R : Post (Option Err)) (g : Err → Exec (Option Err)) (t : Tx) (w w' : Db)
    → w' ≡ w
    → R (ok none) (record t { work = w })
    → Meets (Else R g) (pure none) (record t { work = w' })
finished_rule R g t w w' e ho = Meets-pure (Else R g) none (record t { work = w' }) (rw e ho)

activate_rule :
    (R : Post (Option Err)) (env : Env) (md : Metadata) (initializing : Bool) (t : Tx)
    → ((e : Err) → R (ok (some e)) t)
    → R (ok none) (record t { work = activated env md initializing t.work })
    → Meets R (activate env md initializing) t
activate_rule R env md false t he ho = Meets-pure _ _ _ ho
activate_rule R env md true t he ho = Meets-on_error _ _ _ _ (
    Meets-bind _ _ _ _ (
      Meets-call _ _ _ _ _ (λ e f. Meets-pure _ _ _ (he _)) (λ e n f. Meets-pure _ _ _ (he _))
        (λ _ w n f. finished_rule R _ t _ w (finish-eq env md t.work w f) ho)))

module _ (p : Parser) (m : Manager) (env : Env) (md : Metadata) (ss : List String)
    (initializing : Bool) (db : Db) where
  abbrev Q : Post Outcome
  Q r t = ExecuteOutcome p m env md ss initializing db (settle [] r) t.stored

  complete_rule :
      IsAdmitted md (entry_token md initializing) db
      → (o : Outcome) (w : Db) → run_statements p m env md 0 ss (budget m) [] db ≡ (o, w)
      → Meets Q (complete env md initializing o) (record { stored = db; work = w })
  unfolding complete
  complete_rule admitted (results, some e) w h = Meets-pure _ _ _ (failed e refl refl)
  complete_rule admitted (results, none) w h =
      let (qs, eq, runs, end) = run_rule p m env md 0 ss (budget m) [] results db w h in
      let answers : RunsAll p m env md 0 ss (budget m) results = rw eq runs in
      let all = ap (activated env md initializing) (end ∙ run_all-appended md.schema ss db) in
      Meets-bind _ _ _ _ (
        activate_rule _ env md initializing _ (λ e. Meets-pure _ _ _ (failed e refl refl))
          (Meets-bind _ _ _ _ (
            Meets-commit _ env _ (λ c. Meets-pure _ _ _ (done admitted answers (rw c) (inl all)))
              (λ e c a. Meets-pure _ _ _ (done admitted answers (rw c) (inl all)))
              (λ e c a.
                Meets-pure _ _ _
                  (done admitted answers (rw c) (inr (λ z. none-ne-some z c, refl)))))))

  entered_rule :
      (w : Db)
      → lookup md.role db.roles ≡ some md.password
      → enter_call md (entry_token md initializing) db ≡ ok (tt, w)
      → IsAdmitted md (entry_token md initializing) db
  entered_rule w known h =
      let (_, (r, found, entered)) = enter_call-eq md (entry_token md initializing) db w h in
      let (role, generation, state) =
        enter_row-eq r md.role md.generation (entry_token md initializing) entered in
      record {
        row = r;
        found = found;
        role = role;
        password = known;
        generation = generation;
        state = may_enter-eq r.state r.init_token (entry_token md initializing) state;
      }

  statements_rule :
      (w : Db)
      → w ≡ db
      → IsAdmitted md (entry_token md initializing) db
      → Meets Q
          (do
            check_dependencies env
            outcome ← statements_in_tx p m env md ss
            complete env md initializing outcome)
          (record { stored = db; work = w })
  unfolding check_dependencies
  statements_rule w same admitted = rw same (
      Meets-bind _ _ _ _ (
        Meets-bind _ _ _ _ (
          Meets-change _ _ _ _ _ (λ e f. failed e refl refl)
            (λ f.
              Meets-lift _ _ _ (λ e d. failed e refl refl)
                (λ _ d. Meets-bind _ _ _ _ (record { at = complete_rule admitted _ _ refl }))))))

-- Whatever the server and the driver answer, a batch on a runtime connection does one of two things:
-- it returns an error and changes nothing; or the server knew the islet's role with its password, the
-- row was that role's, of the same generation, and active where no token is presented or being
-- initialized under the token that is presented, every statement was admitted by
-- the policy under the routines of the schema at its turn and was answered to its end without an error
-- and whole within what the statements before it left of the budgets, the results are these answers, and the statements are in
-- the schema together, lost together only if the commit is an error, which then comes with them.
pub execute-ExecuteOutcome :
    (p : Parser) (m : Manager) (env : Env) (md : Metadata) (ss : List String) (initializing : Bool)
    (db : Db)
    → ExecuteOutcome p m env md ss initializing db
        (execute p m env md ss initializing db).0
        (execute p m env md ss initializing db).1
unfolding execute connect_runtime
execute-ExecuteOutcome p m env md ss initializing db =
    Meets-transaction (ExecuteOutcome p m env md ss initializing db) _ _ db (
      Meets-bind _ _ _ _ (
        Meets-lift _ _ _ (λ e s. failed e refl refl)
          (λ _ s. Meets-bind _ _ _ _ (
            Meets-on_error _ _ _ _ (
              Meets-call _ _ _ _ _ (λ e f. Meets-raise _ _ _ (failed _ refl refl))
                (λ e n f. Meets-raise _ _ _ (failed _ refl refl))
                (λ _ w n f.
                  let (same, known) = authenticate-eq md db w f in
                  rw same (
                    Meets-bind _ _ _ _ (
                      Meets-on_error _ _ _ _ (
                        Meets-change _ _ _ _ _ (λ e g. Meets-raise _ _ _ (failed _ refl refl))
                          (λ g. Meets-bind _ _ _ _ (
                            Meets-on_error _ _ _ _ (
                              Meets-call _ _ _ _ _ (λ e k. Meets-raise _ _ _ (failed _ refl refl))
                                (λ e k l. Meets-raise _ _ _ (failed _ refl refl))
                                (λ _ w₁ k l.
                                  (statements_rule p m env md ss initializing db w₁
                                    (enter_call-eq md (entry_token md initializing) db w₁ l).0
                                    (entered_rule p m env md ss initializing db w₁ known
                                      l)))))))))))))))
