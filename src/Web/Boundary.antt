-- ===== src/Web/Boundary.antt =====
-- examples/web/server.go: which requests reach a handler. The packages net, net/http, net/url and
-- strings are the argument `Library`; the fixed headers of a response are left out.
pub mod Guarded
use pgislet.Base.{
  ℕ, String, Bool, true, false, not, ◌&&◌, ◌||◌, Option, none, some, List, [], ◌∷◌, ◌==◌,
  if◌then◌else◌,
}
use pgislet.Web.Report.{Response, write_error}
use text.Mathlib.Text.{starts_with}

pub record Request : Type 0 where
  pub method : String
  pub host : String
  pub path : String
  pub tls : Bool
  -- r.Header.Get, r.Cookie(cookieName), and the text of the body.
  pub header : String → String
  pub cookie : Option String
  pub body : String

-- The handlers that `New` registers.
pub data Route : Type 0 where
  start end query reset reseed schema no_endpoint assets : Route

-- A pattern of `http.ServeMux`: one that ends in "/" stands for every path below it.
pub data PathPattern : Type 0 where
  exact subtree : String → PathPattern

pub record Pattern : Type 0 where
  pub method : Option String
  pub path : PathPattern
  pub route : Route

abbrev pub on : String → String → Route → Pattern
on method path route = record { method = some method; path = exact path; route = route }

abbrev pub below : String → Route → Pattern
below path route = record { method = none; path = subtree path; route = route }

abbrev pub patterns : List Pattern
patterns =
    on "POST" "/api/session" start
    ∷ on "DELETE" "/api/session" end
    ∷ on "POST" "/api/query" query
    ∷ on "POST" "/api/reset" reset
    ∷ on "POST" "/api/seed" reseed
    ∷ on "GET" "/api/schema" schema
    ∷ below "/api/" no_endpoint
    ∷ below "/" assets
    ∷ []

pub record Library : Type 0 where
  -- The host of net.SplitHostPort, and `ip != nil && ip.IsLoopback()` of net.ParseIP.
  pub split_host : String → Option String
  pub is_loopback : String → Bool
  pub equal_fold : String → String → Bool
  -- The scheme and the host of url.Parse.
  pub parse_url : String → Option (String × String)
  -- The handler that a ServeMux picks for a method and a path; `none` is an answer of its own.
  pub mux : List Pattern → String → String → Option Route
  pub mux_answer : Request → Response
  pub serve_file : Request → Response
  -- strings.TrimSpace, and `strings.Split(s, ";")[0]`.
  pub trim_space : String → String
  pub before_semicolon : String → String
  -- The first `Decode` of a body of at most so many bytes into `struct { SQL string }` without unknown
  -- fields, and whether the second one ends with io.EOF.
  pub decode_sql : ℕ → String → Option String
  pub at_end : ℕ → String → Bool

module _ (r : Request) where
  abbrev pub host_name : Option String → String
  host_name (some name) = name
  host_name none = r.host

  abbrev pub scheme : String
  scheme = if r.tls then "https" else "http"

  abbrev pub is_own : Option (String × String) → Bool
  is_own none = false
  is_own (some (s, h)) = h == r.host && s == scheme

  pub same_page : Bool
  same_page =
      r.header "X-Pgislet-Request" == "playground"
      && not (r.header "Sec-Fetch-Site" == "cross-site")

  pub changes_state : Bool
  changes_state = starts_with r.path "/api/" && not (r.method == "GET")

module _ (lib : Library) (r : Request) where
  -- The test of r.Host.
  pub is_local : Bool
  is_local =
      let host = host_name r (lib.split_host r.host) in
      lib.equal_fold host "localhost" || lib.is_loopback host

  -- The test of the header Origin, which may be missing.
  pub same_origin : Bool
  same_origin = let origin = r.header "Origin" in origin == "" || is_own r (lib.parse_url origin)

  -- The refusals of `ServeHTTP`.
  unfoldable pub refusal : Option Response
  unfolding is_local same_origin same_page changes_state
  refusal =
      if not is_local
      then some (write_error 403 "origin" "Run this example on localhost.")
      else if changes_state r && not same_origin
      then some (write_error 403 "origin" "Requests from other sites are not allowed.")
      else if changes_state r && not (same_page r)
      then some (write_error 403 "origin" "Send requests from the same web page.")
      else none

  -- The handler that `ServeHTTP` reaches.
  abbrev pub reached_behind : Option Response → Option Route
  reached_behind (some refused) = none
  reached_behind none = lib.mux patterns r.method r.path

  unfoldable pub reached : Option Route
  unfolding refusal
  reached = reached_behind refusal
