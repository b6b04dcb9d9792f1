-- ===== src/Errors/Classify.antt =====
-- What `classify` of internal/engine/errors.go tells a caller about an error of the driver.
use pgislet.Base.{
  arith, ◌⊎◌, String, eq_iff, ◌≡◌, refl, Bool, true, false, ◌||◌, some, Bool-cases, Option-cases,
  inl, inr,
}
use pgislet.Errors.{
  Kind, not_found, no_rows, Err, PgError, eq_kind, is, is_deadline, as_pg, classify, code_kind,
}

eq_kind_refl : (k : Kind) → eq_kind k k ≡ true
eq_kind_refl k = ground arith

or_true : (a b : Bool) → b ≡ true → (a || b) ≡ true
or_true true b h = refl
or_true false b h = h

-- A database error without a deadline is found again by `errors.Is` under the sentinel that its
-- SQLSTATE stands for, by `errors.As` as the same database error, and is no deadline.
pub is-classify_pg :
    (e : Err) (p : PgError)
    → is_deadline e ≡ false
    → as_pg e ≡ some p
    → (is (classify e) (code_kind p.code) ≡ true)
      × (as_pg (classify e) ≡ some p)
      × (is_deadline (classify e) ≡ false)
unfolding classify is is_deadline as_pg
is-classify_pg e p d h = rw (d, h) (rw (eq_kind_refl (code_kind p.code)) refl, h, d)

-- A sentinel that `errors.Is` finds in an error is found in the classified error too.
pub is-classify_keeps : (e : Err) (k : Kind) → is e k ≡ true → is (classify e) k ≡ true
unfolding classify is
is-classify_keeps e k h = elim (Bool-cases (is_deadline e)) [
  | inl d ↦ rw d (or_true _ _ h)
  | inr d ↦ rw d (elim (Option-cases (as_pg e)) [
    | inl n ↦ rw (n, classify) h
    | inr (p, s) ↦ rw (s, classify) (or_true _ _ h)
  ])
]

-- An error of the driver by which a read tells that there is no row: pgx.ErrNoRows, the sentinel, or the
-- SQLSTATE that the gateway raises for it.
abbrev pub TellsMissing : Err → Type 0
TellsMissing e =
    (e ≡ no_rows)
    ⊎ ((is e not_found ≡ true) ⊎ ((p : PgError) × (as_pg e ≡ some p) × (p.code ≡ "PI001")))

missing_code : (code : String) → eq_kind (code_kind code) not_found ≡ true → code ≡ "PI001"
unfolding code_kind
missing_code code h = ground (
  h,
  arith,
  eq_iff code "55P03",
  eq_iff code "57014",
  eq_iff code "PI001",
  eq_iff code "PI002",
  eq_iff code "PI003",
  eq_iff code "PI004",
)

or_split : (a b : Bool) → (a || b) ≡ true → (a ≡ true) ⊎ (b ≡ true)
or_split true b h = inl refl
or_split false b h = inr h

-- No other error is classified as that of a missing islet.
pub classify-TellsMissing : (e : Err) → is (classify e) not_found ≡ true → TellsMissing e
unfolding classify is
classify-TellsMissing e h = elim (Bool-cases (is_deadline e)) [
  | inl d ↦ inr (inl (rw d at h))
  | inr d ↦ elim (Option-cases (as_pg e)) [
    | inl n ↦ inr (inl (rw (d, n) at h))
    | inr (p, s) ↦ elim (or_split (eq_kind (code_kind p.code) not_found) _ (rw (d, s) at h)) [
      | inl k ↦ inr (inr (p, s, missing_code p.code k))
      | inr k ↦ inr (inl k)
    ]
  ]
]
