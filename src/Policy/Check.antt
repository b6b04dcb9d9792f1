-- ===== src/Policy/Check.antt =====
-- The checker of internal/policy/policy.go: `Check`, `parse` and `walk`.
-- The map `local`, which the source shares and updates, is passed on from call to call.
use pgislet.Policy.Routines.{Walk, definition, function}
use Prim.Native.Char.{code}
use pgislet.Base.{
  ℕ, zero, suc, String, Bool, true, false, not, ◌&&◌, ◌||◌, ◌==◌, eqb, leb, if◌then◌else◌,
}
use pgislet.Base.Dict.{Dict}
use pgislet.Errors.{other, Result, ok, err, refuse_if, ◌>>=◌, ◌>>◌}
use pgislet.Policy.Json.{
  Json, Items, Fields, bool, object, array, nil, cons, end, field, get, node, elements, count, str,
  names,
}
use pgislet.Policy.Sets.{statements, objects, alterations}

-- pg_query_go and encoding/json, which are not part of the program.
pub record Parser : Type 0 where
  pub parse_to_json : String → Result String
  pub unmarshal : String → Result Fields

unfoldable pub has_suffix : String → String → Bool
has_suffix String.[] suffix = String.[] == suffix
has_suffix (String.◌∷◌ c s) suffix = String.◌∷◌ c s == suffix || has_suffix s suffix

abbrev pub starts_upper : String → Bool
starts_upper String.[] = false
starts_upper (String.◌∷◌ c s) = leb b'A' (code c) && leb (code c) b'Z'

-- The test on a key that begins the body of the loop over an object.
unfoldable pub names_statement : String → Bool
unfolding has_suffix
names_statement key = starts_upper key && has_suffix key "Stmt"

-- The cases of the switch on a key.
pub data Case : Type 0 where
  drop_stmt rename_stmt comment_stmt alter_table_stmt alter_table_cmd range_var index_stmt : Case
  func_call create_trig_stmt create_function_stmt def_elem_node other_node : Case

unfoldable pub case_of : String → Case
case_of key =
    if key == "DropStmt"
    then drop_stmt
    else if key == "RenameStmt"
    then rename_stmt
    else if key == "CommentStmt"
    then comment_stmt
    else if key == "AlterTableStmt"
    then alter_table_stmt
    else if key == "AlterTableCmd"
    then alter_table_cmd
    else if key == "RangeVar"
    then range_var
    else if key == "IndexStmt"
    then index_stmt
    else if key == "FuncCall"
    then func_call
    else if key == "CreateTrigStmt"
    then create_trig_stmt
    else if key == "CreateFunctionStmt"
    then create_function_stmt
    else if key == "DefElem"
    then def_elem_node
    else other_node

-- `v == "t" || v == "u"`: a temporary or an unlogged relation.
abbrev pub not_permanent : Json → Bool
not_permanent v = str v == "t" || str v == "u"

abbrev pub is_true : Json → Bool
is_true (bool b) = b
is_true _ = false

-- The cases whose check neither calls a method nor changes `local`.
abbrev pub refused_node : Case → Fields → Bool
refused_node drop_stmt n = not (objects (str (get n "removeType")))
refused_node rename_stmt n = not (objects (str (get n "renameType")))
refused_node comment_stmt n = not (objects (str (get n "objtype")))
refused_node alter_table_stmt n = not (objects (str (get n "objtype")))
refused_node alter_table_cmd n = not (alterations (str (get n "subtype")))
refused_node range_var n = not_permanent (get n "relpersistence")
refused_node index_stmt n = is_true (get n "concurrent") || not (str (get n "tableSpace") == "")
refused_node def_elem_node n = str (get n "defname") == "set" || str (get n "defname") == "support"
refused_node _ n = false

abbrev message : Case → String
message drop_stmt = "object kind is not local"
message rename_stmt = "object kind is not local"
message comment_stmt = "object kind is not local"
message alter_table_stmt = "object kind is not local"
message alter_table_cmd = "table alteration is not allowed"
message range_var = "temporary and unlogged relations are not supported"
message index_stmt = "concurrent indexes and tablespaces are not supported"
message def_elem_node = "function settings and support hooks are not allowed"
message _ = ""

-- The cases that call `c.function` or `c.definition`.
unfoldable pub visit : (String → Walk) → String → Case → Fields → Walk
visit parse_body schema func_call n local = do
  function schema local (names (get n "funcname"))
  ok local
visit parse_body schema create_trig_stmt n local = do
  function schema local (names (get n "funcname"))
  ok local
visit parse_body schema create_function_stmt n local = definition parse_body schema n local
visit parse_body schema _ n local = ok local

-- The tests on the key itself, behind the switch.
unfoldable pub check_key : String → String → Json → Dict Bool → Result (Unit {0})
check_key schema key value local = do
  if key == "funcname" then function schema local (names value) else ok tt
  refuse_if (key == "relpersistence" && not_permanent value)
      (other "temporary and unlogged relations are not supported")
  refuse_if (key == "tablespacename" && not (str value == ""))
      (other "tablespaces are not supported")

-- The body of the loop over an object, before it walks the value.
unfoldable pub examine : (String → Walk) → String → String → Json → Walk
unfolding check_key
examine parse_body schema key value local = do
  refuse_if (names_statement key && not (statements key)) (other "statement is not allowed")
  let n = node value
  refuse_if (refused_node (case_of key) n) (other (message (case_of key)))
  local' ← visit parse_body schema (case_of key) n local
  check_key schema key value local'
  ok local'

-- `c.walk`, for what it does at each member of an object.
module _ (visit_member : String → Json → Walk) where
  unfoldable mutual
    pub walk : Json → Walk
    walk (array xs) local = walk_items xs local
    walk (object fs) local = walk_fields fs local
    walk _ local = ok local

    pub walk_items : Items → Walk
    walk_items nil local = ok local
    walk_items (cons x xs) local = walk x local >>= walk_items xs

    pub walk_fields : Fields → Walk
    walk_fields end local = ok local
    walk_fields (field key value rest) local =
        visit_member key value local >>= λ l. walk value l >>= walk_fields rest

module _ (p : Parser) (schema : String) where
  -- `list, _ := tree["stmts"].([]any)` and the test of its length.
  abbrev pub bad_length : Bool → ℕ → Bool
  bad_length single n = eqb n 0 || single && not (eqb n 1)

  -- `c.parse`. The source counts `c.depth` up from 0 and refuses above 16; `left` counts down, and
  -- is 17 less that depth.
  unfoldable pub parse : ℕ → Bool → String → Walk
  parse zero single sql local = err (other "function nesting exceeds 16")
  parse (suc left) single sql local = do
    raw ← p.parse_to_json sql
    tree ← p.unmarshal raw
    refuse_if (bad_length single (count (elements (get tree "stmts"))))
        (other "expected one statement, or a nonempty SQL body")
    walk_fields (examine (parse left false) schema) tree local

  -- `Check`. It works on a copy of the caller's map, which it does not change.
  unfoldable pub check : String → Dict Bool → Result (Unit {0})
  unfolding parse
  check sql local = do _ ← parse 17 true sql local; ok tt
