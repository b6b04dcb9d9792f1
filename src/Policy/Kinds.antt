-- ===== src/Policy/Kinds.antt =====
-- The keys of the nodes in internal/policy/policy.go: how the checker reads
-- them, and what they are in the tree.
use mathlib.Core.Path.{subst}
use text.Mathlib.TextLemmas.{nil-append, cons-append}
use Prim.Native.String.{◌++◌ as ◌then◌}
use pgislet.Base.{
  String, ◌≡◌, ◌≢◌, ◌∙◌, refl, ap, ◌⊎◌, inl, inr, Bool, true, false, ◌||◌, arith, eq_iff, eq_refl,
  ◌==◌, Bool-cases, if◌then◌else◌,
}
use pgislet.Base.Dict.{Dict}
use pgislet.Policy.Json.{Fields, bool, get, str, names}
use pgislet.Policy.Sets.{objects, alterations}
use pgislet.Policy.Check.{
  Case, drop_stmt, rename_stmt, comment_stmt, alter_table_stmt, alter_table_cmd, range_var,
  index_stmt, func_call, create_trig_stmt, create_function_stmt, def_elem_node, case_of,
  names_statement, has_suffix, starts_upper,
}
use pgislet.Policy.Admitted.{NamesStatement, CallIsAllowed, RoutineIsLocal, NodeIsOk, IsPermanent}
use pgislet.Policy.Guards.{ne_of_test}

or_true : (b : Bool) → (b || true) ≡ true
or_true true = refl
or_true false = refl

has_suffix_self : (s : String) → has_suffix s s ≡ true
unfolding has_suffix
has_suffix_self String.[] = refl
has_suffix_self (String.◌∷◌ c s) = rw (has_suffix, eq_refl (String.◌∷◌ c s)) refl

has_suffix-append : (front suffix : String) → has_suffix (front then suffix) suffix ≡ true
unfolding has_suffix
has_suffix-append String.[] suffix = rw (nil-append suffix) (has_suffix_self suffix)
has_suffix-append (String.◌∷◌ c s) suffix =
    rw (cons-append c s suffix, has_suffix, has_suffix-append s suffix)
      (or_true (String.◌∷◌ c (s then suffix) == suffix))

pub names_statement-false : (key : String) → names_statement key ≡ false → ¬ NamesStatement key
unfolding names_statement
names_statement-false key h ((c, rest, e, lo, hi), (front, e')) =
    let ends : has_suffix key "Stmt" ≡ true = rw e' (has_suffix-append front "Stmt") in
    let upper : starts_upper key ≡ true = rw e (ground arith) in cc (rw (upper, ends) at h)

module _ (body_ok : String → Type 0) (schema : String) (start : Dict Bool) where
  -- What the checker's test of a case says of the node.
  abbrev pub CaseIsOk : Case → Fields → Type 0
  CaseIsOk drop_stmt n = objects (str (get n "removeType")) ≡ true
  CaseIsOk rename_stmt n = objects (str (get n "renameType")) ≡ true
  CaseIsOk comment_stmt n = objects (str (get n "objtype")) ≡ true
  CaseIsOk alter_table_stmt n = objects (str (get n "objtype")) ≡ true
  CaseIsOk alter_table_cmd n = alterations (str (get n "subtype")) ≡ true
  CaseIsOk range_var n = IsPermanent (get n "relpersistence")
  CaseIsOk index_stmt n = (get n "concurrent" ≢ bool true) × (str (get n "tableSpace") ≡ "")
  CaseIsOk def_elem_node n = (str (get n "defname") ≢ "set") × (str (get n "defname") ≢ "support")
  CaseIsOk func_call n = CallIsAllowed schema start (names (get n "funcname"))
  CaseIsOk create_trig_stmt n = CallIsAllowed schema start (names (get n "funcname"))
  CaseIsOk create_function_stmt n = RoutineIsLocal body_ok schema start n
  CaseIsOk _ n = Unit

  module _ (key : String) (n : Fields) (fine : CaseIsOk (case_of key) n) where
    at_key : (k : String) (c : Case) → case_of k ≡ c → (key ≢ k) ⊎ CaseIsOk c n
    at_key k c is = elim (Bool-cases (key == k)) [
      | inl e ↦ inr (subst (λ (x : Case). CaseIsOk x n) (ap case_of ((eq_iff key k).0 e) ∙ is) fine)
      | inr o ↦ inl (ne_of_test key k o)
    ]

    pub CaseIsOk-NodeIsOk : NodeIsOk body_ok schema start key n
    unfolding case_of
    CaseIsOk-NodeIsOk = record {
      drop = at_key "DropStmt" drop_stmt refl;
      rename = at_key "RenameStmt" rename_stmt refl;
      comment = at_key "CommentStmt" comment_stmt refl;
      table = at_key "AlterTableStmt" alter_table_stmt refl;
      alteration = at_key "AlterTableCmd" alter_table_cmd refl;
      relation = at_key "RangeVar" range_var refl;
      index = at_key "IndexStmt" index_stmt refl;
      option = at_key "DefElem" def_elem_node refl;
      call = at_key "FuncCall" func_call refl;
      trigger = at_key "CreateTrigStmt" create_trig_stmt refl;
      routine = at_key "CreateFunctionStmt" create_function_stmt refl;
    }
