-- ===== src/Policy/Routines.antt =====
-- The methods `function` and `definition` of the checker in internal/policy/policy.go.
use pgislet.Base.{
  String, Bool, true, false, not, ◌&&◌, ◌||◌, Option, none, some, List, [], ◌∷◌, ◌==◌,
  if◌then◌else◌,
}
use pgislet.Base.Dict.{Dict, lookup, insert}
use pgislet.Errors.{other, Result, ok, err, refuse_if, ◌>>=◌, ◌>>◌}
use pgislet.Policy.Json.{
  Json, Items, Fields, null, nil, cons, get, node, elements, str, string_node, names,
}
use pgislet.Policy.Sets.{builtins}

-- `m[k]` of a Go map of booleans.
abbrev pub holds : Option Bool → Bool
holds (some b) = b
holds none = false

-- The function's name is its last part, the namespace the first of two.
abbrev pub last_part : List String → String
last_part [] = ""
last_part (a ∷ []) = a
last_part (a ∷ b ∷ rest) = last_part (b ∷ rest)

abbrev pub namespace : List String → String
namespace (a ∷ b ∷ []) = a
namespace _ = ""

abbrev pub one_or_two : List String → Bool
one_or_two (a ∷ []) = true
one_or_two (a ∷ b ∷ []) = true
one_or_two _ = false

-- `c.function`.
unfoldable pub function : String → Dict Bool → List String → Result (Unit {0})
function schema local parts = do
  refuse_if (not (one_or_two parts)) (other "invalid function name")
  let name = last_part parts
  let ns = namespace parts
  refuse_if (not (ns == "") && not (ns == "pg_catalog") && not (ns == schema))
      (other "external function namespace is not allowed")
  if not (ns == "pg_catalog") && holds (lookup name local)
      then ok tt
      else if not (ns == schema) && builtins name
      then ok tt
      else err (other "function is not in the SQL policy")

-- The language and the body that the options of CREATE FUNCTION give; `sql` and "" stand for `lang`
-- and `body` so far.
pub record Routine : Type 0 where
  pub lang : String
  pub body : String

abbrev pub sole : Items → Option Json
sole (cons x nil) = some x
sole _ = none

abbrev pub def_elem : Json → Fields
def_elem option = node (get (node option) "DefElem")

unfoldable pub read_option : Json → Routine → Result Routine
read_option option r =
    let d = def_elem option in
    let name = str (get d "defname") in
    if name == "language"
    then ok (record r { lang = string_node (get d "arg") })
    else if name == "as"
    then elim (sole (elements (get (node (get (node (get d "arg")) "List")) "items"))) [
      | none ↦ err (other "expected a SQL function body")
      | some item ↦ ok (record r { body = string_node item })
    ]
    else if name == "set" || name == "support"
    then err (other "function configuration and support hooks are not allowed")
    else ok r

unfoldable pub read_options : Items → Routine → Result Routine
read_options nil r = ok r
read_options (cons option rest) r = do r' ← read_option option r; read_options rest r'

abbrev pub is_null : Json → Bool
is_null null = true
is_null _ = false

-- `exists && !allowed` for `allowed, exists := c.local[name]`.
abbrev pub reserved : Option Bool → Bool
reserved (some false) = true
reserved _ = false

abbrev pub Walk : Type 0
Walk = Dict Bool → Result (Dict Bool)

-- The end of `c.definition`: the body is parsed one level deeper, or is already a part of the tree.
unfoldable pub check_body : (String → Walk) → Fields → Routine → Walk
check_body parse_body def r local =
    if not (r.lang == "sql")
    then err (other "only SQL language functions and procedures are supported")
    else if not (r.body == "")
    then parse_body r.body local
    else if is_null (get def "sql_body")
    then err (other "SQL function body is required")
    else ok local

-- One part, or two of which the first is the schema.
abbrev pub islet_local : String → List String → Bool
islet_local schema (a ∷ []) = true
islet_local schema (a ∷ b ∷ []) = a == schema
islet_local schema _ = false

-- `c.definition`.
unfoldable pub definition : (String → Walk) → String → Fields → Walk
definition parse_body schema def local = do
  let parts = names (get def "funcname")
  refuse_if (not (islet_local schema parts)) (other "function must be islet-local")
  let name = last_part parts
  refuse_if (reserved (lookup name local)) (other "function name conflicts with a catalog routine")
  r ← read_options (elements (get def "options")) (record { lang = ""; body = "" })
  check_body parse_body def r (insert name true local)
