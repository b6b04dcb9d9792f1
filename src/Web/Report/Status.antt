-- ===== src/Web/Report/Status.antt =====
-- The status that `report` of examples/web/errors.go gives an error.
use pgislet.Base.{
  ap, Option, none, some, Bool, ℕ, String, true, false, ◌≡◌, refl, some, Bool-cases, inl, inr, ◌||◌,
}
use pgislet.Errors.{
  Kind, Err, PgError, not_found, busy, unavailable, failed, stale_generation, policy, timeout,
  result_limit, sql_too_large, runtime_connection, query, outcome_unknown, eq_kind, is, as_pg,
  is_deadline, classify, code_kind, wrap,
}
use pgislet.Errors.Classify.{is-classify_pg}
use pgislet.Web.Report.{switch, describe, describe_query}

-- The table that the tests of the package list, by sentinel.
abbrev pub status_of : Kind → ℕ
status_of not_found = 401
status_of busy = 409
status_of unavailable = 409
status_of failed = 409
status_of stale_generation = 409
status_of policy = 400
status_of timeout = 408
status_of result_limit = 422
status_of sql_too_large = 413
status_of runtime_connection = 503
status_of query = 400
status_of _ = 500

abbrev pub kind_of : Kind → String
kind_of not_found = "session"
kind_of busy = "busy"
kind_of unavailable = "unavailable"
kind_of failed = "unavailable"
kind_of stale_generation = "busy"
kind_of policy = "policy"
kind_of timeout = "timeout"
kind_of result_limit = "limit"
kind_of sql_too_large = "limit"
kind_of runtime_connection = "connection"
kind_of query = "query"
kind_of outcome_unknown = "unknown"
kind_of _ = "internal"

-- The error carries the sentinel `k` and no other.
abbrev pub IsOnly : Kind → Err → Type 0
IsOnly k e = (j : Kind) → is e j ≡ eq_kind k j

-- What `describe` answers is determined by these two observations.
describe-eq :
    (e : Err) (carries : Kind → Bool)
    → ((j : Kind) → is e j ≡ carries j)
    → describe e ≡ switch carries (as_pg e)
unfolding describe
describe-eq e carries same = ap (λ f. switch f (as_pg e)) (λ i j. same j i)

or_false : (a : Bool) → (a || false) ≡ a
or_false true = refl
or_false false = refl

describe_query-kind : (o : Option PgError) → (describe_query o).kind ≡ "query"
describe_query-kind none = refl
describe_query-kind (some p) = refl

switch-status_of :
    (k : Kind) (o : Option PgError)
    → ((switch (eq_kind k) o).0 ≡ status_of k) × ((switch (eq_kind k) o).1.kind ≡ kind_of k)
unfolding switch
switch-status_of query o = (refl, describe_query-kind o)
switch-status_of k o = (refl, refl)

-- An error that carries exactly one sentinel is reported under that sentinel's status and kind.
pub describe-status_of :
    (k : Kind) (e : Err)
    → IsOnly k e
    → ((describe e).0 ≡ status_of k) × ((describe e).1.kind ≡ kind_of k)
describe-status_of k e only = rw (describe-eq e (eq_kind k) only) (switch-status_of k (as_pg e))

-- What `report` tells about an error depends only on the sentinels that it carries and, under the
-- sentinel of a query, on the server's own error in it: no other text of the error gets out.
pub describe_tells_only :
    (d e : Err)
    → ((k : Kind) → is d k ≡ is e k)
    → (is e query ≡ true → as_pg d ≡ as_pg e)
    → describe d ≡ describe e
unfolding switch
describe_tells_only d e same server =
    rw (describe-eq d (is e) same, describe-eq e (is e) (λ k. refl))
      (elim (Bool-cases (is e query)) [ inl q ↦ rw (server q) refl | inr n ↦ rw n refl ])

classified-IsOnly :
    (e : Err) (p : PgError)
    → is_deadline e ≡ false
    → as_pg e ≡ some p
    → ((k : Kind) → is e k ≡ false)
    → IsOnly (code_kind p.code) (classify e)
unfolding classify wrap is
classified-IsOnly e p calm server bare j = rw (calm, server) (rw (classify, bare j) (or_false _))

-- An error of the driver that carries the server's answer and no sentinel is, classified by the
-- package, reported under the status and the kind that belong to its SQLSTATE; one of a query is
-- reported with the server's message, detail, hint and position.
pub describe-classify :
    (e : Err) (p : PgError)
    → is_deadline e ≡ false
    → as_pg e ≡ some p
    → ((k : Kind) → is e k ≡ false)
    → ((describe (classify e)).0 ≡ status_of (code_kind p.code))
      × ((describe (classify e)).1.kind ≡ kind_of (code_kind p.code))
      × (code_kind p.code ≡ query → (describe (classify e)).1 ≡ describe_query (some p))
unfolding switch
describe-classify e p calm server bare =
    let only = classified-IsOnly e p calm server bare in
    let (found, same, late) = is-classify_pg e p calm server in
    let (status, kind) = describe-status_of (code_kind p.code) (classify e) only in
    (
      status,
      kind,
      λ q. rw (describe-eq (classify e) (eq_kind (code_kind p.code)) only, q, same) refl,
    )
