-- ===== src/Policy/Admitted.antt =====
-- What internal/policy/policy.go promises of a statement that it lets through, stated on the syntax
-- tree and without the checker's state: `start` is the map of routine names that the caller gave.
use Prim.Native.Char.{Char, code}
use Prim.Native.String.{◌++◌ as ◌then◌}
use pgislet.Base.{
  ℕ, zero, suc, ◌<◌, ◌≤◌, String, ◌≡◌, ◌≢◌, ◌⊎◌, false, true, Bool, Option, none, some, List, ◌==◌,
  if◌then◌else◌,
}
use pgislet.Base.Dict.{Dict, lookup}
use pgislet.Errors.{ok}
use pgislet.Policy.Json.{
  Json, Items, nil, cons, string_node, Fields, null, bool, get, node, elements, count, str, names,
}
use pgislet.Policy.Sets.{statements, objects, alterations, builtins}
use pgislet.Policy.Everywhere.{EverywhereFields}
use pgislet.Policy.Routines.{one_or_two, namespace, last_part, islet_local}
use pgislet.Policy.Check.{Parser}

-- A call is of a listed catalog routine that the schema does not qualify, or of a name that is no
-- catalog routine and that pg_catalog does not qualify.
pub data CallIsAllowed (schema : String) (start : Dict Bool) (parts : List String) : Type 0 where
  catalog :
      one_or_two parts ≡ true
      → (namespace parts ≡ "") ⊎ (namespace parts ≡ "pg_catalog")
      → builtins (last_part parts) ≡ true
      → CallIsAllowed schema start parts
  own :
      one_or_two parts ≡ true
      → (namespace parts ≡ "") ⊎ (namespace parts ≡ schema)
      → lookup (last_part parts) start ≢ some false
      → CallIsAllowed schema start parts

-- A key that names a statement begins with an upper-case letter and ends in "Stmt".
abbrev pub NamesStatement : String → Type 0
NamesStatement key =
    ((c : Char) × (rest : String) × (key ≡ String.◌∷◌ c rest) × (65 ≤ code c) × (code c ≤ 90))
    × ((front : String) × (key ≡ front then "Stmt"))

abbrev pub IsPermanent : Json → Type 0
IsPermanent v = (str v ≢ "t") × (str v ≢ "u")

-- The argument of the last option of that name.
unfoldable pub latest : String → Items → Option Json
latest name nil = none
latest name (cons option rest) = elim (latest name rest) [
  | some v ↦ some v
  | none ↦
      let d = node (get (node option) "DefElem") in
      if str (get d "defname") == name then some (get d "arg") else none
]

-- The text that an option AS gives: its one string.
abbrev pub GivesText : Json → String → Type 0
GivesText v body =
    (item : Json) × (elements (get (node (get (node v) "List")) "items") ≡ cons item nil)
    × (string_node item ≡ body)

-- The text of the body is that of the last option AS, or empty where there is none.
abbrev pub IsBodyOf : Items → String → Type 0
IsBodyOf options body =
    ((latest "as" options ≡ none) × (body ≡ ""))
    ⊎ ((v : Json) × (latest "as" options ≡ some v) × GivesText v body)

module _ (body_ok : String → Type 0) (schema : String) (start : Dict Bool) where
  -- The body is an admitted text, or a part of the tree.
  abbrev pub HasBody : Fields → String → Type 0
  HasBody def body = ((body ≢ "") × body_ok body) ⊎ ((body ≡ "") × (get def "sql_body" ≢ null))

  -- A routine is of the workspace, replaces no catalog routine, and is written in SQL.
  pub record RoutineIsLocal (def : Fields) : Type 0 where
    pub is_local : islet_local schema (names (get def "funcname")) ≡ true
    pub is_fresh : lookup (last_part (names (get def "funcname"))) start ≢ some false
    pub language :
        (v : Json) × (latest "language" (elements (get def "options")) ≡ some v)
        × (string_node v ≡ "sql")
    pub body : String
    pub given : IsBodyOf (elements (get def "options")) body
    pub has_body : HasBody def body

  -- A node `n` under its key: what each kind of node must keep to.
  pub record NodeIsOk (key : String) (n : Fields) : Type 0 where
    pub drop : (key ≢ "DropStmt") ⊎ (objects (str (get n "removeType")) ≡ true)
    pub rename : (key ≢ "RenameStmt") ⊎ (objects (str (get n "renameType")) ≡ true)
    pub comment : (key ≢ "CommentStmt") ⊎ (objects (str (get n "objtype")) ≡ true)
    pub table : (key ≢ "AlterTableStmt") ⊎ (objects (str (get n "objtype")) ≡ true)
    pub alteration : (key ≢ "AlterTableCmd") ⊎ (alterations (str (get n "subtype")) ≡ true)
    pub relation : (key ≢ "RangeVar") ⊎ IsPermanent (get n "relpersistence")
    pub index :
        (key ≢ "IndexStmt") ⊎ ((get n "concurrent" ≢ bool true) × (str (get n "tableSpace") ≡ ""))
    pub option :
        (key ≢ "DefElem") ⊎ ((str (get n "defname") ≢ "set") × (str (get n "defname") ≢ "support"))
    pub call : (key ≢ "FuncCall") ⊎ CallIsAllowed schema start (names (get n "funcname"))
    pub trigger : (key ≢ "CreateTrigStmt") ⊎ CallIsAllowed schema start (names (get n "funcname"))
    pub routine : (key ≢ "CreateFunctionStmt") ⊎ RoutineIsLocal n

  -- A member `key: value` of an object of the tree.
  pub record MemberIsOk (key : String) (value : Json) : Type 0 where
    pub statement : ¬ NamesStatement key ⊎ (statements key ≡ true)
    pub node_ok : NodeIsOk key (node value)
    pub funcname : (key ≢ "funcname") ⊎ CallIsAllowed schema start (names value)
    pub persistence : (key ≢ "relpersistence") ⊎ IsPermanent value
    pub tablespace : (key ≢ "tablespacename") ⊎ (str value ≡ "")

module _ (p : Parser) (schema : String) (start : Dict Bool) where
  -- The text parses to a tree of at least one statement, and of one if it is `single`, whose members
  -- are all ok, with `left` further levels of bodies in it.
  unfoldable pub Admitted : ℕ → Bool → String → Type 0
  Admitted zero single sql = ⊥
  Admitted (suc left) single sql =
      (raw : String) × (tree : Fields) × (p.parse_to_json sql ≡ ok raw)
      × (p.unmarshal raw ≡ ok tree)
      × (0 < count (elements (get tree "stmts")))
      × ((single ≡ false) ⊎ (count (elements (get tree "stmts")) ≡ 1))
      × EverywhereFields (MemberIsOk (Admitted left false) schema start) tree
