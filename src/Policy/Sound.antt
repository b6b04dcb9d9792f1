-- ===== src/Policy/Sound.antt =====
-- What it says of a text that `Check` of internal/policy/policy.go accepts it.
use mathlib.Core.Path.{subst}
use pgislet.Base.{
  ℕ, zero, suc, String, ◌≡◌, ◌≢◌, ◌⊎◌, inl, inr, Bool, true, false, arith, eq_iff, ◌==◌,
  if◌then◌else◌, not, ◌&&◌, Bool-cases,
}
use pgislet.Base.Dict.{Dict, lookup, insert, lookup-insert}
use pgislet.Errors.{ok, >>=-eq-ok, refuse_if-eq-ok}
use pgislet.Policy.Json.{Json, Fields, get, node, str, names}
use pgislet.Policy.Everywhere.{ok-injective, walk_fields_rule}
use pgislet.Policy.Routines.{
  Routine, Walk, last_part, function, definition, check_body, reserved, is_null,
}
use pgislet.Policy.Check.{
  Parser, Case, drop_stmt, rename_stmt, comment_stmt, alter_table_stmt, alter_table_cmd, range_var,
  index_stmt, func_call, create_trig_stmt, create_function_stmt, def_elem_node, other_node, case_of,
  names_statement, refused_node, visit, check_key, examine, parse, check,
}
use pgislet.Policy.Admitted.{
  CallIsAllowed, HasBody, RoutineIsLocal, NamesStatement, MemberIsOk, IsPermanent, Admitted,
}
use pgislet.Policy.Options.{latest-sql, IsBodyOf-read}
use pgislet.Policy.Kinds.{names_statement-false, CaseIsOk, CaseIsOk-NodeIsOk}
use pgislet.Policy.Sets.{statements}
use pgislet.Policy.Calls.{Keeps, function-CallIsAllowed}
use pgislet.Policy.Guards.{
  not-false, or_false, ne_of_test, two_ne, is_true-ne, named_ok, refused-eq-ok, size_pos, size_one,
  persistent_ok, tablespace_ok, unreserved,
}

module _ (body_ok : String → Type 0) (parse_body : String → Walk) (schema : String)
    (start : Dict Bool)
    (body_rule : (sql : String) (l l' : Dict Bool)
      → Keeps start l
      → parse_body sql l ≡ ok l'
      → body_ok sql × Keeps start l') where
  insert-Keeps :
      (name : String) (l : Dict Bool)
      → reserved (lookup name l) ≡ false
      → Keeps start l
      → Keeps start (insert name true l)
  insert-Keeps name l fresh k j e = rw lookup-insert (ground (arith, eq_iff name j, k j e))

  check_body_rule :
      (def : Fields) (r : Routine) (l l' : Dict Bool)
      → Keeps start l
      → check_body parse_body def r l ≡ ok l'
      → (r.lang ≡ "sql") × HasBody body_ok schema start def r.body × Keeps start l'
  unfolding check_body
  check_body_rule def r l l' k h = elim (Bool-cases (r.lang == "sql")) [
    | inr alien ↦ cc (rw (alien, check_body) at h)
    | inl sql ↦ elim (Bool-cases (r.body == "")) [
      | inr given ↦
          (let (fine, k') = body_rule r.body l l' k (rw (sql, given, check_body) at h) in
            (
              (eq_iff r.lang "sql").0 sql,
              inl (λ e. cc (rw ((eq_iff r.body "").1 e) at given), fine),
              k',
            ))
      | inl empty ↦ elim (Bool-cases (is_null (get def "sql_body"))) [
        | inl missing ↦ cc (rw (sql, empty, missing, check_body) at h)
        | inr tree ↦
            (let e : ok l ≡ ok l' = rw (sql, empty, tree, check_body) at h in
              (
                (eq_iff r.lang "sql").0 sql,
                inr ((eq_iff r.body "").0 empty, λ n. cc (rw n at tree)),
                subst (Keeps start) (ok-injective e) k,
              ))
      ]
    ]
  ]

  definition_rule :
      (def : Fields) (l l' : Dict Bool)
      → Keeps start l
      → definition parse_body schema def l ≡ ok l'
      → RoutineIsLocal body_ok schema start def × Keeps start l'
  unfolding definition
  definition_rule def l l' k h =
      let name = last_part (names (get def "funcname")) in
      let (loc, h1) = refuse_if-eq-ok _ _ _ h in
      let (fresh, h2) = refuse_if-eq-ok _ _ _ h1 in
      let (r, read, h3) = >>=-eq-ok _ _ h2 in
      let (lang, body, k') =
        check_body_rule def r (insert name true l) l' (insert-Keeps name l fresh k) h3 in
      (
        record {
          is_local = not-false _ loc;
          is_fresh = λ e. unreserved _ fresh (k name e);
          body = r.body;
          given = IsBodyOf-read _ r read;
          language = latest-sql _ r read lang;
          has_body = body;
        },
        k',
      )

  visit_rule :
      (c : Case) (n : Fields) (l l' : Dict Bool)
      → Keeps start l
      → refused_node c n ≡ false
      → visit parse_body schema c n l ≡ ok l'
      → CaseIsOk body_ok schema start c n × Keeps start l'
  unfolding visit
  visit_rule drop_stmt n l l' k f h = (not-false _ f, subst (Keeps start) (ok-injective h) k)
  visit_rule rename_stmt n l l' k f h = (not-false _ f, subst (Keeps start) (ok-injective h) k)
  visit_rule comment_stmt n l l' k f h = (not-false _ f, subst (Keeps start) (ok-injective h) k)
  visit_rule alter_table_stmt n l l' k f h = (not-false _ f, subst (Keeps start) (ok-injective h) k)
  visit_rule alter_table_cmd n l l' k f h = (not-false _ f, subst (Keeps start) (ok-injective h) k)
  visit_rule range_var n l l' k f h = (two_ne _ _ _ f, subst (Keeps start) (ok-injective h) k)
  visit_rule index_stmt n l l' k f h =
      let (a, b) = or_false _ _ f in
      ((is_true-ne _ a, (eq_iff _ _).0 (not-false _ b)), subst (Keeps start) (ok-injective h) k)
  visit_rule def_elem_node n l l' k f h = (two_ne _ _ _ f, subst (Keeps start) (ok-injective h) k)
  visit_rule func_call n l l' k f h =
      let (_, e, h1) = >>=-eq-ok _ _ h in
      (function-CallIsAllowed schema start l k _ e, subst (Keeps start) (ok-injective h1) k)
  visit_rule create_trig_stmt n l l' k f h =
      let (_, e, h1) = >>=-eq-ok _ _ h in
      (function-CallIsAllowed schema start l k _ e, subst (Keeps start) (ok-injective h1) k)
  visit_rule create_function_stmt n l l' k f h = definition_rule n l l' k h
  visit_rule other_node n l l' k f h = (tt, subst (Keeps start) (ok-injective h) k)

  funcname_rule :
      (key : String) (value : Json) (l : Dict Bool)
      → Keeps start l
      → (if key == "funcname" then function schema l (names value) else ok tt) ≡ ok tt
      → (key ≢ "funcname") ⊎ CallIsAllowed schema start (names value)
  funcname_rule key value l k h = elim (Bool-cases (key == "funcname")) [
    | inl named ↦ inr (function-CallIsAllowed schema start l k _ (rw named at h))
    | inr other ↦ inl (ne_of_test _ _ other)
  ]

  key_rule :
      (key : String) (value : Json) (l : Dict Bool)
      → Keeps start l
      → check_key schema key value l ≡ ok tt
      → ((key ≢ "funcname") ⊎ CallIsAllowed schema start (names value))
        × ((key ≢ "relpersistence") ⊎ IsPermanent value)
        × ((key ≢ "tablespacename") ⊎ (str value ≡ ""))
  unfolding check_key
  key_rule key value l k h =
      let (_, e, h1) = >>=-eq-ok _ _ h in
      let (r, h2) = refuse_if-eq-ok _ _ _ h1 in
      let t = refused-eq-ok _ _ h2 in
      (funcname_rule key value l k e, persistent_ok key value r, tablespace_ok key value t)

  statement_ok :
      (key : String)
      → (names_statement key && not (statements key)) ≡ false
      → ¬ NamesStatement key ⊎ (statements key ≡ true)
  statement_ok key h = elim (named_ok _ _ h) [
    | inl n ↦ inl (names_statement-false key n)
    | inr listed ↦ inr listed
  ]

  examine_rule :
      (key : String) (value : Json) (l l' : Dict Bool)
      → Keeps start l
      → examine parse_body schema key value l ≡ ok l'
      → MemberIsOk body_ok schema start key value × Keeps start l'
  unfolding examine
  examine_rule key value l l' k h =
      let (named, h1) = refuse_if-eq-ok _ _ _ h in
      let (fine, h2) = refuse_if-eq-ok _ _ _ h1 in
      let (m, e, h3) = >>=-eq-ok _ _ h2 in
      let (_, e', h4) = >>=-eq-ok _ _ h3 in
      let (ok_node, k') = visit_rule (case_of key) (node value) l m k fine e in
      let (f, r, t) = key_rule key value m k' e' in
      (
        record {
          statement = statement_ok key named;
          node_ok = CaseIsOk-NodeIsOk body_ok schema start key (node value) ok_node;
          funcname = f;
          persistence = r;
          tablespace = t;
        },
        subst (Keeps start) (ok-injective h4) k',
      )

module _ (p : Parser) (schema : String) (start : Dict Bool) where
  parse_rule :
      (left : ℕ) (single : Bool) (sql : String) (l l' : Dict Bool)
      → Keeps start l
      → parse p schema left single sql l ≡ ok l'
      → Admitted p schema start left single sql × Keeps start l'
  unfolding parse Admitted
  parse_rule zero single sql l l' k h = cc
  parse_rule (suc left) single sql l l' k h =
      let (raw, e, h1) = >>=-eq-ok _ _ h in
      let (tree, e', h2) = >>=-eq-ok _ _ h1 in
      let (size, h3) = refuse_if-eq-ok _ _ _ h2 in
      let (every, k') =
        walk_fields_rule _ (MemberIsOk (Admitted p schema start left false) schema start)
          (Keeps start)
          (λ key value m m' km hm.
            examine_rule (Admitted p schema start left false) (parse p schema left false) schema
              start (λ s n n' kn hn. parse_rule left false s n n' kn hn) key value m m' km hm)
          tree l l' k h3 in
      ((raw, tree, e, e', size_pos _ _ size, size_one _ _ size, every), k')

  -- What `Check` accepts is admitted: the text is one statement, and in its tree and, up to 16 levels
  -- deep, in the trees of the bodies of the routines that it defines, every statement node is of a
  -- listed kind, every object and alteration is local, every relation is permanent, every call is of
  -- a listed routine of the catalog or of a routine that is none of the catalog's, and every routine
  -- defined is SQL, of the workspace, and named like no routine of the catalog. Whether a name is the
  -- catalog's is read from the caller's map, whatever the checker adds to its own copy.
  pub check-Admitted :
      (sql : String) → check p schema sql start ≡ ok tt → Admitted p schema start 17 true sql
  unfolding check
  check-Admitted sql h =
      let (l, e, _) = >>=-eq-ok _ _ h in (parse_rule 17 true sql start l (λ name r. r) e).0
