-- ===== src/Policy/Json.antt =====
-- The values that encoding/json decodes into `any`, with the accessors `str`, `stringNode` and
-- `names` of internal/policy/policy.go. An object lists its members in the order in which `range`
-- visits the Go map; its keys are distinct.
use pgislet.Base.{ℕ, suc, String, Bool, List, [], ◌∷◌, ◌==◌, if◌then◌else◌}

mutual
  pub data Json : Type 0 where
    null : Json
    bool : Bool → Json
    number : String → Json
    text : String → Json
    array : Items → Json
    object : Fields → Json

  pub data Items : Type 0 where
    nil : Items
    cons : Json → Items → Items

  pub data Fields : Type 0 where
    end : Fields
    field : String → Json → Fields → Fields

-- `node[key]`, nil for a missing key.
unfoldable pub get : Fields → String → Json
get end key = null
get (field k v rest) key = if k == key then v else get rest key

-- `node, _ := v.(map[string]any)`: a nil map for any other value.
abbrev pub node : Json → Fields
node (object fs) = fs
node _ = end

-- `a, _ := v.([]any)`.
abbrev pub elements : Json → Items
elements (array xs) = xs
elements _ = nil

abbrev pub count : Items → ℕ
count nil = 0
count (cons x xs) = suc (count xs)

abbrev pub str : Json → String
str (text s) = s
str _ = ""

unfoldable pub string_node : Json → String
unfolding get
string_node v = str (get (node (get (node v) "String")) "sval")

abbrev string_nodes : Items → List String
string_nodes nil = []
string_nodes (cons x xs) = string_node x ∷ string_nodes xs

unfoldable pub names : Json → List String
unfolding string_node
names v = string_nodes (elements v)
