-- ===== src/Connection.antt =====
-- internal/connection/dsn.go: the connection string of a configuration. The packages net, net/url and
-- strconv are the argument `Net`.
pub mod Accepted
use Prim.Native.Char.{code}
use Prim.Native.String
use pgislet.Base.{
  ℕ, String, Bool, true, false, not, ◌&&◌, ◌||◌, Option, none, some, List, [], ◌∷◌, eqb, ◌==◌,
  if◌then◌else◌,
}
use pgislet.Base.Int.{ℤ, pos, ltb_ℤ, eq_ℤ}
use pgislet.Errors.{Result, ok, err, other, refuse_if, ◌>>=◌, ◌>>◌}
use text.Mathlib.Text.{starts_with}

pub record Params : Type 0 where
  pub host : String
  pub port : ℤ
  pub database : String
  pub username : String
  pub password : String
  pub ssl_mode : String

-- The fields of the `url.URL` that `BuildDSN` prints, under the scheme postgresql: `path` is its
-- RawPath, and `query` has the keys in the order in which they are set.
pub record Target : Type 0 where
  pub username : String
  pub password : String
  pub host : String
  pub database : String
  pub query : List (String × String)

pub record Net : Type 0 where
  -- net.JoinHostPort, strconv.Itoa, `net.ParseIP(s) != nil`, and the URL's String.
  pub join_host_port : String → String → String
  pub itoa : ℤ → String
  pub is_ip : String → Bool
  pub print : Target → String

-- strings.ContainsRune and strings.ContainsAny, on the code points.
unfoldable pub any_code : (ℕ → Bool) → String → Bool
any_code p String.[] = false
any_code p (String.◌∷◌ c s) = p (code c) || any_code p s

abbrev pub is_nul : ℕ → Bool
is_nul c = eqb c 0

abbrev pub is_colon : ℕ → Bool
is_colon c = eqb c 58

-- One of "/?#@[] \t\r\n".
abbrev pub is_forbidden : ℕ → Bool
is_forbidden c =
    eqb c 47
    || eqb c 63
    || eqb c 35
    || eqb c 64
    || eqb c 91
    || eqb c 93
    || eqb c 32
    || eqb c 9
    || eqb c 13
    || eqb c 10

module _ (p : Params) where
  pub is_incomplete : Bool
  is_incomplete = p.host == "" || p.database == "" || p.username == ""

  pub has_nul : Bool
  has_nul =
      any_code is_nul p.host
      || any_code is_nul p.database
      || any_code is_nul p.username
      || any_code is_nul p.password

  abbrev pub port_of : ℤ
  port_of = if eq_ℤ p.port (pos 0) then pos 5432 else p.port

  pub is_wrong_port : Bool
  is_wrong_port = ltb_ℤ port_of (pos 1) || ltb_ℤ (pos 65535) port_of

  abbrev pub mode_of : String
  mode_of = if p.ssl_mode == "" then "verify-full" else p.ssl_mode

  pub is_wrong_mode : Bool
  is_wrong_mode = not (
      mode_of == "disable"
      || mode_of == "allow"
      || mode_of == "prefer"
      || mode_of == "require"
      || mode_of == "verify-ca"
      || mode_of == "verify-full")

  -- An absolute path of a socket directory.
  abbrev pub is_socket : Bool
  is_socket = starts_with p.host "/"

  module _ (net : Net) where
    pub is_wrong_host : Bool
    is_wrong_host =
        not is_socket
        && (any_code is_forbidden p.host || any_code is_colon p.host && not (net.is_ip p.host))

    abbrev pub target : Target
    target =
        let port = net.itoa port_of in
        record {
          username = p.username;
          password = p.password;
          host = if is_socket then "" else net.join_host_port p.host port;
          database = p.database;
          query =
              ("sslmode", mode_of)
              ∷ (if is_socket then ("host", p.host) ∷ ("port", port) ∷ [] else []);
        }

    unfoldable pub build : Result String
    unfolding is_incomplete has_nul is_wrong_port is_wrong_mode is_wrong_host
    build = do
      refuse_if is_incomplete (other "PostgreSQL host, database, and username are required")
      refuse_if has_nul (other "PostgreSQL connection parameters cannot contain NUL")
      refuse_if is_wrong_port (other "PostgreSQL port must be between 1 and 65535")
      refuse_if is_wrong_mode (other "invalid PostgreSQL SSL mode")
      refuse_if is_wrong_host
          (other "PostgreSQL host must be a hostname, unbracketed IP, or absolute socket directory")
      ok (net.print target)

-- `BuildDSN`; a nil configuration is `none`.
abbrev pub build_dsn : Net → Option Params → Result String
build_dsn net none = err (other "PostgreSQL connection configuration is required")
build_dsn net (some p) = build p net
