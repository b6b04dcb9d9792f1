-- ===== src/Policy/Options.antt =====
-- The options of a routine in internal/policy/policy.go: what `definition` reads from them, and what
-- they say in the tree.
use Prim.Native.String.{◌++◌ as ◌then◌}
use pgislet.Base.{
  String, ◌≡◌, ◌∙◌, refl, sym, inl, inr, false, ◌||◌, Option, none, some, arith, eq_iff, ◌==◌,
  Bool-cases, Option-cases, if◌then◌else◌,
}
use pgislet.Errors.{ok, >>=-eq-ok}
use pgislet.Policy.Json.{Json, Items, nil, cons, get, node, elements, str, string_node}
use pgislet.Policy.Routines.{Routine, def_elem, read_option, read_options, sole}
use pgislet.Policy.Admitted.{latest, GivesText, IsBodyOf}

-- What the options give, beginning with `r`.
abbrev lang_of : Option Json → Routine → String
lang_of (some v) r = string_node v
lang_of none r = r.lang

read_option-lang :
    (option : Json) (r r' : Routine)
    → read_option option r ≡ ok r'
    → r'.lang
      ≡ lang_of
          (if str (get (def_elem option) "defname") == "language"
            then some (get (def_elem option) "arg")
            else none)
          r
unfolding read_option
read_option-lang option r r' h = ground arith

pub read_options-lang :
    (options : Items) (r r' : Routine)
    → read_options options r ≡ ok r'
    → r'.lang ≡ lang_of (latest "language" options) r
unfolding read_options latest
read_options-lang nil r r' h = cc
read_options-lang (cons option rest) r r' h =
    let (r₁, e, h₁) = >>=-eq-ok _ _ h in
    let later = read_options-lang rest r₁ r' h₁ in
    elim (Option-cases (latest "language" rest)) [
      | inl n ↦ rw n (rw n at later ∙ read_option-lang option r r₁ e)
      | inr (v, s) ↦ rw s (rw s at later)
    ]

-- The language that is checked is that of the last option of that name.
pub latest-sql :
    (options : Items) (r : Routine)
    → read_options options (record { lang = ""; body = "" }) ≡ ok r
    → r.lang ≡ "sql"
    → (v : Json) × (latest "language" options ≡ some v) × (string_node v ≡ "sql")
latest-sql options r h sql =
    let given = read_options-lang options _ r h in
    elim (Option-cases (latest "language" options)) [
      | inl n ↦ cc (rw n at given, sql)
      | inr (v, s) ↦ (v, s, sym (rw s at given) ∙ sql)
    ]

-- The body behind an option, whose text so far is `body`.
abbrev Gives : Option Json → String → String → Type 0
Gives none body body' = body' ≡ body
Gives (some v) body body' = GivesText v body'

sole-eq : (xs : Items) (x : Json) → sole xs ≡ some x → xs ≡ cons x nil
sole-eq nil x h = cc
sole-eq (cons y nil) x h = cc
sole-eq (cons y (cons z zs)) x h = cc

read_option-body :
    (option : Json) (r r' : Routine)
    → read_option option r ≡ ok r'
    → Gives
        (if str (get (def_elem option) "defname") == "as"
          then some (get (def_elem option) "arg")
          else none)
        r.body
        r'.body
unfolding read_option
read_option-body option r r' h =
    let name = str (get (def_elem option) "defname") in
    elim (Bool-cases (name == "language")) [
      | inl l ↦
          (let other : (name == "as") ≡ false = rw ((eq_iff name "language").0 l) refl in
            rw other (cc (rw (l, read_option) at h)))
      | inr l ↦ elim (Bool-cases (name == "as")) [
        | inl a ↦
            elim (Option-cases (
              sole (
                elements (get (node (get (node (get (def_elem option) "arg")) "List")) "items")))) [
                  | inl n ↦ cc (rw (l, a, n, read_option) at h)
                  | inr (item, s) ↦
                      rw a (item, sole-eq _ item s, cc (rw (l, a, s, read_option) at h))
                ]
        | inr a ↦ elim (Bool-cases (name == "set" || name == "support")) [
          | inl b ↦ cc (rw (l, a, b, read_option) at h)
          | inr b ↦ rw a (cc (rw (l, a, b, read_option) at h))
        ]
      ]
    ]

read_options-body :
    (options : Items) (r r' : Routine)
    → read_options options r ≡ ok r'
    → Gives (latest "as" options) r.body r'.body
unfolding read_options latest
read_options-body nil r r' h = cc
read_options-body (cons option rest) r r' h =
    let (r₁, e, h₁) = >>=-eq-ok (read_option option r) (read_options rest) h in
    let later = read_options-body rest r₁ r' h₁ in
    elim (Option-cases (latest "as" rest)) [
      | inl n ↦ rw n (rw (rw n at later) (read_option-body option r r₁ e))
      | inr (v, s) ↦ rw s (rw s at later)
    ]

pub IsBodyOf-read :
    (options : Items) (r : Routine)
    → read_options options (record { lang = ""; body = "" }) ≡ ok r
    → IsBodyOf options r.body
IsBodyOf-read options r h =
    let given = read_options-body options _ r h in
    elim (Option-cases (latest "as" options)) [
      | inl n ↦ inl (n, rw n at given)
      | inr (v, s) ↦ inr (v, s, rw s at given)
    ]
