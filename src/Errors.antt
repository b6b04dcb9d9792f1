-- ===== src/Errors.antt =====
-- internal/engine/errors.go: the sentinel errors, `Error`, `wrap` and `classify`, with what the code
-- uses of the package errors (`Is`, `As`, `Join`).
pub mod Classify
use pgislet.Base.{
  ◌⊎◌, inl, inr, arith, eqb, ◌≡◌, refl, ℕ, String, Bool, true, false, ◌||◌, Option, none, some,
  ◌==◌, if◌then◌else◌,
}
use pgislet.Base.Int.{ℤ, pos, negsuc}

-- The sentinel values `ErrNotFound` ... `ErrExternalDependency`.
pub data Kind : Type 0 where
  not_found busy unavailable failed stale_generation : Kind
  policy timeout result_limit sql_too_large : Kind
  runtime_connection initialization lifecycle query : Kind
  outcome_unknown unsupported external_dependency : Kind

-- The fields of pgconn.PgError that the program reads.
pub record PgError : Type 0 where
  pub code : String
  pub message : String
  pub detail : String
  pub hint : String
  pub position : ℤ

-- A non-nil `error`. `foreign` is an error of another package that wraps a cause, `other` one that
-- wraps none; `joined` is the value of errors.Join.
mutual
  pub data Err : Type 0 where
    sentinel : Kind → Err
    deadline_exceeded : Err
    no_rows : Err
    pg : PgError → Err
    other : String → Err
    foreign : String → Err → Err
    wrapped : Kind → Err → ℤ → Err
    joined : Errs → Err

  pub data Errs : Type 0 where
    nil : Errs
    cons : Err → Errs → Errs

-- The sentinels are distinct pointers, so `==` tells them apart.
abbrev pub rank : Kind → ℕ
rank not_found = 0
rank busy = 1
rank unavailable = 2
rank failed = 3
rank stale_generation = 4
rank policy = 5
rank timeout = 6
rank result_limit = 7
rank sql_too_large = 8
rank runtime_connection = 9
rank initialization = 10
rank lifecycle = 11
rank query = 12
rank outcome_unknown = 13
rank unsupported = 14
rank external_dependency = 15

abbrev pub eq_kind : Kind → Kind → Bool
eq_kind j k = eqb (rank j) (rank k)

-- errors.Is(err, k) for a sentinel k: the chain of `Unwrap`, with the method `Error.Is` at each link.
unfoldable mutual
  pub is : Err → Kind → Bool
  is (sentinel k) t = eq_kind k t
  is (foreign s e) t = is e t
  is (wrapped k e i) t = eq_kind k t || is e t
  is (joined es) t = is_any es t
  is _ t = false

  pub is_any : Errs → Kind → Bool
  is_any nil t = false
  is_any (cons e es) t = is e t || is_any es t

-- errors.Is(err, context.DeadlineExceeded).
unfoldable mutual
  pub is_deadline : Err → Bool
  is_deadline deadline_exceeded = true
  is_deadline (foreign s e) = is_deadline e
  is_deadline (wrapped k e i) = is_deadline e
  is_deadline (joined es) = any_deadline es
  is_deadline _ = false

  pub any_deadline : Errs → Bool
  any_deadline nil = false
  any_deadline (cons e es) = is_deadline e || any_deadline es

abbrev pub or_else : Option PgError → Option PgError → Option PgError
or_else (some p) q = some p
or_else none q = q

-- errors.As(err, *pgconn.PgError): the first one of the tree, depth first.
unfoldable mutual
  pub as_pg : Err → Option PgError
  as_pg (pg p) = some p
  as_pg (foreign s e) = as_pg e
  as_pg (wrapped k e i) = as_pg e
  as_pg (joined es) = first_pg es
  as_pg _ = none

  pub first_pg : Errs → Option PgError
  first_pg nil = none
  first_pg (cons e es) = or_else (as_pg e) (first_pg es)

-- errors.Join drops a nil argument.
abbrev pub present : Option Err → Errs → Errs
present none es = es
present (some e) es = cons e es

unfoldable pub wrap : Kind → Err → Err
wrap kind cause = wrapped kind cause (negsuc 0)

-- The switch on the SQLSTATE.
unfoldable pub code_kind : String → Kind
code_kind code =
    if code == "55P03"
    then busy
    else if code == "57014"
    then timeout
    else if code == "PI001"
    then not_found
    else if code == "PI002"
    then stale_generation
    else if code == "PI003"
    then unavailable
    else if code == "PI004"
    then failed
    else query

classify_pg : Err → Option PgError → Err
unfolding wrap code_kind
classify_pg err (some pe) = wrap (code_kind pe.code) err
classify_pg err none = err

-- `classify` of a non-nil error; the source returns nil for nil.
unfoldable pub classify : Err → Err
unfolding classify_pg wrap
classify err = if is_deadline err then wrap timeout err else classify_pg err (as_pg err)

abbrev is_some : Option PgError → Bool
is_some (some p) = true
is_some none = false

unfoldable pub pgconn_error : Err → Bool
pgconn_error err = is_some (as_pg err)

-- `if e, ok := mapped.(*Error); ok { e.Statement = i }`: the assertion looks at the error itself, not
-- at what it wraps.
unfoldable pub set_statement : ℕ → Err → Err
set_statement i (wrapped k e j) = wrapped k e (pos i)
set_statement i e = e

-- A pair of a value and a non-nil or nil `error`, of which the callers read one.
pub data Result {ℓ} (V : Type ℓ) : Type ℓ where
  err : Err → Result V
  ok : V → Result V

infixl 5 ◌>>=◌ ◌>>◌
-- `if err != nil { return err }` behind a call.
abbrev pub ◌>>=◌ {ℓ κ} : {V : Type ℓ} {W : Type κ} → Result V → (V → Result W) → Result W
err e >>= next = err e
ok v >>= next = next v

abbrev pub ◌>>◌ {κ} : {W : Type κ} → Result (Unit {0}) → Result W → Result W
first >> rest = first >>= λ _. rest

-- `if fails { return e }`.
abbrev pub refuse_if : Bool → Err → Result (Unit {0})
refuse_if true e = err e
refuse_if false e = ok tt

-- Behind a call that did not fail, and behind a guard that let the code go on.
module _ {ℓ κ} {V : Type ℓ} {W : Type κ} where
  pub >>=-eq-ok :
      (call : Result V) (next : V → Result W) {w : W}
      → (call >>= next) ≡ ok w
      → (v : V) × (call ≡ ok v) × (next v ≡ ok w)
  >>=-eq-ok (err e) next h = cc
  >>=-eq-ok (ok v) next h = (v, refl, h)

pub refuse_if-eq-ok {ℓ} :
    {B : Type ℓ} (t : Bool) (e : Err) (m : Result B) {b : B}
    → (refuse_if t e >> m) ≡ ok b
    → (t ≡ false) × (m ≡ ok b)
refuse_if-eq-ok true e m h = cc
refuse_if-eq-ok false e m h = (refl, h)

-- `wrap` is found by `errors.Is` under its kind.
pub is-wrap : (k : Kind) (e : Err) → is (wrap k e) k ≡ true
unfolding is wrap
is-wrap k e = ground arith

pub Result-cases {ℓ} :
    {A : Type ℓ} (r : Result A) → ((a : A) × (r ≡ ok a)) ⊎ ((e : Err) × (r ≡ err e))
Result-cases (ok a) = inl (a, refl)
Result-cases (err e) = inr (e, refl)
