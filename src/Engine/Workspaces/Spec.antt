-- ===== src/Engine/Workspaces/Spec.antt =====
-- What the package promises of its workspaces: a map from names to a state, a generation and a content,
-- and how each transaction of internal/engine may change it.
use pgislet.Base.{ℕ, ◌+◌, String, Bool, true, false, ◌≡◌, ◌==◌, Option, none, some, List, [], ◌++◌}
use pgislet.Errors.{Result, ok}
use pgislet.Engine.Types.{State, active, initializing, failed, Islet}

pub record Workspace : Type 0 where
  pub state : State
  pub generation : ℕ
  pub content : List String

abbrev pub Workspaces : Type 0
Workspaces = String → Option Workspace

-- What a transaction is asked to do: with the name that was drawn, the handle, or the name and the
-- generation that its metadata has.
pub data Command : Type 0 where
  creating : Result String → Bool → Command
  resetting : Islet → Bool → Bool → Command
  deleting : Islet → Command
  executing : String → ℕ → List String → Bool → Command
  abandoning : Islet → Command

-- The state of a new workspace, and of one that a reset has emptied.
abbrev pub fresh : Bool → State
fresh true = initializing
fresh false = active

-- A workspace that waits for its first statements is left to a recovery.
abbrev pub is_refused : Bool → State → Bool
is_refused false initializing = true
is_refused _ _ = false

-- SQL of a caller runs in an active workspace, the statements that initialize one in one that waits
-- for them.
abbrev pub may_run : State → Bool → Bool
may_run active false = true
may_run initializing true = true
may_run _ _ = false

-- One workspace becomes `new`, and the others stay as they are.
pub record Only (id : String) (new : Option Workspace) (m m' : Workspaces) : Type 0 where
  pub becomes : m' id ≡ new
  pub others : (j : String) → (id == j) ≡ false → m' j ≡ m j

-- The workspace `w` of name `id` is there, of generation `g`.
abbrev pub Holds : Workspaces → String → ℕ → Workspace → Type 0
Holds m id g w = (m id ≡ some w) × (w.generation ≡ g)

pub data Moves (m m' : Workspaces) : Command → Type 0 where
  stays : {c : Command} → ((j : String) → m' j ≡ m j) → Moves m m' c
  creates :
      {drawn : Result String} {initialize : Bool} (id : String)
      → drawn ≡ ok id
      → m id ≡ none
      → Only id (some (record { state = fresh initialize; generation = 1; content = [] })) m m'
      → Moves m m' (creating drawn initialize)
  resets :
      {h : Islet} {initialize recovering : Bool} (w : Workspace)
      → Holds m h.id h.generation w
      → is_refused recovering w.state ≡ false
      → Only h.id
          (some (record { state = fresh initialize; generation = w.generation + 1; content = [] }))
          m
          m'
      → Moves m m' (resetting h initialize recovering)
  fails_to_reset :
      {h : Islet} {initialize recovering : Bool} (w : Workspace)
      → Holds m h.id h.generation w
      → is_refused recovering w.state ≡ false
      → Only h.id (some (record w { state = failed })) m m'
      → Moves m m' (resetting h initialize recovering)
  deletes :
      {h : Islet} (w : Workspace)
      → Holds m h.id h.generation w
      → is_refused false w.state ≡ false
      → Only h.id none m m'
      → Moves m m' (deleting h)
  fails_to_delete :
      {h : Islet} (w : Workspace)
      → Holds m h.id h.generation w
      → is_refused false w.state ≡ false
      → Only h.id (some (record w { state = failed })) m m'
      → Moves m m' (deleting h)
  executes :
      {id : String} {g : ℕ} {ss : List String} {initializing : Bool} (w : Workspace)
      → Holds m id g w
      → may_run w.state initializing ≡ true
      → Only id (some (record w { state = active; content = w.content ++ ss })) m m'
      → Moves m m' (executing id g ss initializing)
  abandons :
      {h : Islet} (w : Workspace)
      → Holds m h.id h.generation w
      → w.state ≡ initializing
      → Only h.id (some (record w { state = failed })) m m'
      → Moves m m' (abandoning h)
