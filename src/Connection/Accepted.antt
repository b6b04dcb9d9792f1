-- ===== src/Connection/Accepted.antt =====
-- Which configurations `BuildDSN` of internal/connection/dsn.go accepts.
use Prim.Native.Char.{code}
use pgislet.Base.{
  List, [], ◌∷◌, ◌≢◌, ◌∙◌, eqb, ℕ, String, Bool, true, false, not, ◌||◌, ◌≡◌, refl, ◌⊎◌, ◌↔◌, inl,
  inr, some, arith, ◌==◌, eq_iff, Bool-cases,
}
use pgislet.Base.Int.{ℤ, pos, ◌≤ℤ◌, eq_ℤ}
use pgislet.Errors.{ok, refuse_if-eq-ok}
use text.Mathlib.Text.{starts_with}
use pgislet.Connection.{
  Params, Net, any_code, is_nul, is_forbidden, is_incomplete, has_nul, is_wrong_port, is_wrong_mode,
  is_wrong_host, target, port_of, mode_of, build, build_dsn,
}

abbrev Has : (ℕ → Bool) → String → Type 0
Has p s = any_code p s ≡ true

abbrev Lacks : (ℕ → Bool) → String → Type 0
Lacks p s = any_code p s ≡ false

abbrev pub one_of : List ℕ → ℕ → Bool
one_of [] c = false
one_of (d ∷ ds) c = eqb c d || one_of ds c

-- The code points of /?#@[], of the space, the tab, the carriage return and the line feed.
abbrev pub url_characters : List ℕ
url_characters = 47 ∷ 63 ∷ 35 ∷ 64 ∷ 91 ∷ 93 ∷ 32 ∷ 9 ∷ 13 ∷ 10 ∷ []

forbidden-one_of : (c : ℕ) → is_forbidden c ≡ one_of url_characters c
forbidden-one_of c = ground arith

any_forbidden : (s : String) → any_code is_forbidden s ≡ any_code (one_of url_characters) s
unfolding any_code
any_forbidden String.[] = refl
any_forbidden (String.◌∷◌ c s) = rw (forbidden-one_of (code c), any_forbidden s) refl

-- A socket directory, or a name or address without the characters of a URL; a colon stands in an
-- address only.
abbrev pub IsHost : Net → String → Type 0
IsHost net host =
    (starts_with host "/" ≡ true)
    ⊎ (Lacks (one_of url_characters) host × (Lacks (λ c. eqb c 58) host ⊎ (net.is_ip host ≡ true)))

abbrev pub IsMode : String → Type 0
IsMode mode =
    (mode ≡ "")
    ⊎ (mode ≡ "disable")
    ⊎ (mode ≡ "allow")
    ⊎ (mode ≡ "prefer")
    ⊎ (mode ≡ "require")
    ⊎ (mode ≡ "verify-ca")
    ⊎ (mode ≡ "verify-full")

pub record IsAcceptable (net : Net) (p : Params) : Type 0 where
  pub host : (p.host == "") ≡ false
  pub database : (p.database == "") ≡ false
  pub username : (p.username == "") ≡ false
  pub no_nul :
      Lacks (λ c. eqb c 0) p.host
      × Lacks (λ c. eqb c 0) p.database
      × Lacks (λ c. eqb c 0) p.username
      × Lacks (λ c. eqb c 0) p.password
  pub port : (p.port ≡ pos 0) ⊎ ((pos 1 ≤ℤ p.port) × (p.port ≤ℤ pos 65535))
  pub mode : IsMode p.ssl_mode
  pub address : IsHost net p.host

listed_iff :
    (mode : String)
    → (mode == "") ≡ false
    → (not (
          mode == "disable"
          || mode == "allow"
          || mode == "prefer"
          || mode == "require"
          || mode == "verify-ca"
          || mode == "verify-full")
        ≡ false)
      ↔ IsMode mode
listed_iff mode n = ground (
  n,
  arith,
  eq_iff mode "",
  eq_iff mode "disable",
  eq_iff mode "allow",
  eq_iff mode "prefer",
  eq_iff mode "require",
  eq_iff mode "verify-ca",
  eq_iff mode "verify-full",
)

module _ (p : Params) where
  port_iff :
      (is_wrong_port p ≡ false) ↔ ((p.port ≡ pos 0) ⊎ ((pos 1 ≤ℤ p.port) × (p.port ≤ℤ pos 65535)))
  unfolding is_wrong_port
  port_iff = ground arith

  IsMode-iff : (is_wrong_mode p ≡ false) ↔ IsMode p.ssl_mode
  unfolding is_wrong_mode
  IsMode-iff = elim (Bool-cases (p.ssl_mode == "")) [
    | inl e ↦ rw e (λ h. inl ((eq_iff p.ssl_mode "").0 e), λ h. refl)
    | inr n ↦ rw n (listed_iff p.ssl_mode n)
  ]

  IsHost-iff : (net : Net) → (is_wrong_host p net ≡ false) ↔ IsHost net p.host
  unfolding is_wrong_host
  IsHost-iff net = rw any_forbidden (ground arith)

  complete_iff :
      (is_incomplete p ≡ false)
      ↔ (((p.host == "") ≡ false) × ((p.database == "") ≡ false) × ((p.username == "") ≡ false))
  unfolding is_incomplete
  complete_iff = ground arith

  nul_iff : (has_nul p ≡ false) ↔ (
      Lacks is_nul p.host
      × Lacks is_nul p.database
      × Lacks is_nul p.username
      × Lacks is_nul p.password)
  unfolding has_nul
  nul_iff = ground arith

-- What is printed: user, password and database as they are; the mode, or verify-full for an empty one;
-- and host and port, or port 5432 for 0, joined, or as parameters for a socket directory.
pub record IsPrinted (net : Net) (p : Params) (d : String) : Type 0 where
  pub mode : String
  pub port : ℤ
  pub mode_of :
      ((p.ssl_mode ≡ "") × (mode ≡ "verify-full"))
      ⊎ (((p.ssl_mode == "") ≡ false) × (mode ≡ p.ssl_mode))
  pub port_of : ((p.port ≡ pos 0) × (port ≡ pos 5432)) ⊎ ((p.port ≢ pos 0) × (port ≡ p.port))
  pub printed :
      ((starts_with p.host "/" ≡ true)
        × (d
            ≡ net.print (record {
              username = p.username;
              password = p.password;
              host = "";
              database = p.database;
              query = ("sslmode", mode) ∷ ("host", p.host) ∷ ("port", net.itoa port) ∷ [];
            })))
      ⊎ ((starts_with p.host "/" ≡ false)
          × (d
              ≡ net.print (record {
                username = p.username;
                password = p.password;
                host = net.join_host_port p.host (net.itoa port);
                database = p.database;
                query = ("sslmode", mode) ∷ [];
              })))

module _ (net : Net) (p : Params) where
  mode_cases :
      ((p.ssl_mode ≡ "") × (mode_of p ≡ "verify-full"))
      ⊎ (((p.ssl_mode == "") ≡ false) × (mode_of p ≡ p.ssl_mode))
  mode_cases = elim (Bool-cases (p.ssl_mode == "")) [
    | inl e ↦ inl ((eq_iff p.ssl_mode "").0 e, rw e refl)
    | inr n ↦ inr (n, rw n refl)
  ]

  port_cases :
      ((p.port ≡ pos 0) × (port_of p ≡ pos 5432)) ⊎ ((p.port ≢ pos 0) × (port_of p ≡ p.port))
  port_cases = elim (Bool-cases (eq_ℤ p.port (pos 0))) [
    | inl e ↦ inl (ground (e, arith), rw e refl)
    | inr n ↦ inr (ground (n, arith), rw n refl)
  ]

  target-IsPrinted : (d : String) → d ≡ net.print (target p net) → IsPrinted net p d
  target-IsPrinted d e = record {
    mode = mode_of p;
    port = port_of p;
    mode_of = mode_cases;
    port_of = port_cases;
    printed = elim (Bool-cases (starts_with p.host "/")) [
      | inl s ↦ inl (s, rw s at e)
      | inr s ↦ inr (s, rw s at e)
    ];
  }

  same_mode : {d : String} (i : IsPrinted net p d) → i.mode ≡ mode_of p
  same_mode i = elim i.mode_of [ inl (e, m) ↦ rw (e, m) refl | inr (n, m) ↦ rw (n, m) refl ]

  same_port : {d : String} (i : IsPrinted net p d) → i.port ≡ port_of p
  same_port i = elim i.port_of [ inl (e, m) ↦ rw (e, m) refl | inr (n, m) ↦ ground (n, m, arith) ]

  IsPrinted-target : (d : String) → IsPrinted net p d → d ≡ net.print (target p net)
  IsPrinted-target d i = elim i.printed [
    | inl (s, e) ↦ rw s (e ∙ rw (same_mode i, same_port i) refl)
    | inr (s, e) ↦ rw s (e ∙ rw (same_mode i, same_port i) refl)
  ]

  build-inv :
      (d : String) → build p net ≡ ok d → IsAcceptable net p × (d ≡ net.print (target p net))
  unfolding build
  build-inv d h =
      let (complete, h₁) = refuse_if-eq-ok (is_incomplete p) _ _ h in
      let (clean, h₂) = refuse_if-eq-ok (has_nul p) _ _ h₁ in
      let (port, h₃) = refuse_if-eq-ok (is_wrong_port p) _ _ h₂ in
      let (mode, h₄) = refuse_if-eq-ok (is_wrong_mode p) _ _ h₃ in
      let (address, h₅) = refuse_if-eq-ok (is_wrong_host p net) _ _ h₄ in
      let (host, database, username) = (complete_iff p).0 complete in
      (
        record {
          host = host;
          database = database;
          username = username;
          no_nul = (nul_iff p).0 clean;
          port = (port_iff p).0 port;
          mode = (IsMode-iff p).0 mode;
          address = (IsHost-iff p net).0 address;
        },
        cc h₅,
      )

  build-eq : IsAcceptable net p → build p net ≡ ok (net.print (target p net))
  unfolding build
  build-eq a =
      rw
        (
          (complete_iff p).1 (a.host, a.database, a.username),
          (nul_iff p).1 a.no_nul,
          (port_iff p).1 a.port,
          (IsMode-iff p).1 a.mode,
          (IsHost-iff p net).1 a.address,
        )
        refl

  -- `BuildDSN` accepts a configuration exactly if host, database and username are there, no text has a
  -- NUL, the port is 0 or in its range, the mode is empty or one of the six, and the host is a socket
  -- directory, a name or an address; and then it prints these fields, each in its place, with port 5432
  -- for 0 and verify-full for an empty mode, and for a socket directory with host and port as parameters.
  pub build_dsn_iff :
      (d : String) → (build_dsn net (some p) ≡ ok d) ↔ (IsAcceptable net p × IsPrinted net p d)
  build_dsn_iff d = (
    λ h. (let (a, e) = build-inv d h in (a, target-IsPrinted d e)),
    λ (a, i). rw (IsPrinted-target d i) (build-eq a),
  )
