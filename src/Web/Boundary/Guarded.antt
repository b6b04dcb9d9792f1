-- ===== src/Web/Boundary/Guarded.antt =====
-- What a request has shown before a handler of examples/web/server.go sees it.
use pgislet.Base.{
  ap, Bool-cases, String, Bool, true, false, ◌&&◌, ◌||◌, ◌≡◌, refl, ◌⊎◌, ◌↔◌, eq_refl, inl, inr,
  Option, none, some, List, [], ◌∷◌, ◌==◌, arith, eq_iff, Option-cases,
}
use text.Mathlib.Text.{starts_with}
use pgislet.Web.Boundary.{
  Request, Library, Route, schema, no_endpoint, assets, PathPattern, exact, subtree, Pattern,
  patterns, host_name, scheme, refusal, reached, is_local, same_origin, same_page, changes_state,
  is_own,
}

-- What the documentation of net/http says of a pattern that is picked: a method GET takes HEAD too.
abbrev path_matches : PathPattern → String → Bool
path_matches (exact p) path = path == p
path_matches (subtree p) path = starts_with path p

abbrev method_matches : Option String → String → Bool
method_matches none method = true
method_matches (some m) method = method == m || m == "GET" && method == "HEAD"

abbrev Picks : List Pattern → String → String → Route → Type 0
Picks [] method path route = ⊥
Picks (p ∷ ps) method path route =
    ((p.route ≡ route)
      × (method_matches p.method method ≡ true)
      × (path_matches p.path path ≡ true))
    ⊎ Picks ps method path route

abbrev pub PicksMatching : Library → Type 0
PicksMatching lib =
    (method path : String) (route : Route)
    → lib.mux patterns method path ≡ some route
    → Picks patterns method path route

-- The request comes to a local name.
abbrev pub IsLocal : Library → Request → Type 0
IsLocal lib r =
    let host = host_name r (lib.split_host r.host) in
    (lib.equal_fold host "localhost" ≡ true) ⊎ (lib.is_loopback host ≡ true)

-- Its Origin is missing or that of the server itself, and it carries the header that a page of another
-- site cannot set.
pub record IsGuarded (lib : Library) (r : Request) : Type 0 where
  pub origin :
      (r.header "Origin" ≡ "") ⊎ (lib.parse_url (r.header "Origin") ≡ some (scheme r, r.host))
  pub marked : r.header "X-Pgislet-Request" ≡ "playground"
  pub fetched : (r.header "Sec-Fetch-Site" == "cross-site") ≡ false

abbrev pub changes : Route → Bool
changes schema = false
changes no_endpoint = false
changes assets = false
changes _ = true

is_own-inv :
    (r : Request) (o : Option (String × String)) → is_own r o ≡ true → o ≡ some (scheme r, r.host)
is_own-inv r none h = cc
is_own-inv r (some (s, host)) h = ground (arith, eq_iff host r.host, eq_iff s (scheme r))

is_own-eq : (r : Request) → is_own r (some (scheme r, r.host)) ≡ true
is_own-eq r = rw (eq_refl r.host, eq_refl (scheme r)) refl

module _ (lib : Library) (r : Request) where
  is_local-IsLocal : (is_local lib r ≡ true) ↔ IsLocal lib r
  unfolding is_local
  is_local-IsLocal = ground arith

  tests-IsGuarded : ((same_origin lib r ≡ true) × (same_page r ≡ true)) ↔ IsGuarded lib r
  unfolding same_origin same_page
  tests-IsGuarded = (
    λ (o, p). record {
      origin = elim (Bool-cases (r.header "Origin" == "")) [
        | inl e ↦ inl ((eq_iff _ "").0 e)
        | inr n ↦ inr (is_own-inv r (lib.parse_url (r.header "Origin")) (rw n at o))
      ];
      marked = (eq_iff (r.header "X-Pgislet-Request") "playground").0 (ground (p, arith));
      fetched = ground (p, arith);
    },
    λ g. (
      elim g.origin [ inl e ↦ rw e refl | inr s ↦ rw (s, is_own-eq r) (ground arith) ],
      rw (g.marked, g.fetched) refl,
    ),
  )

  refusal-none : (refusal lib r ≡ none) ↔ (
      (is_local lib r ≡ true)
      × (changes_state r ≡ true → (same_origin lib r ≡ true) × (same_page r ≡ true)))
  unfolding refusal
  refusal-none = ground arith

-- A request reaches a handler exactly if it comes to a local name, has shown that it comes from the
-- page itself where it may change state (any method but GET below /api/), and the mux picks that
-- handler for it.
reached_iff :
    (lib : Library) (r : Request) (route : Route)
    → (reached lib r ≡ some route) ↔ (
        IsLocal lib r
        × (changes_state r ≡ true → IsGuarded lib r)
        × (lib.mux patterns r.method r.path ≡ some route))
unfolding reached
reached_iff lib r route = (
  λ h. elim (Option-cases (refusal lib r)) [
    | inl n ↦
        (let (l, g) = (refusal-none lib r).0 n in
          ((is_local-IsLocal lib r).0 l, λ c. (tests-IsGuarded lib r).0 (g c), rw n at h))
    | inr (e, s) ↦ cc (rw s at h)
  ],
  λ (l, g, picked).
      let passes =
        (refusal-none lib r).1
          ((is_local-IsLocal lib r).1 l, λ c. (tests-IsGuarded lib r).1 (g c)) in
      rw passes picked,
)

on_changes :
    (r : Request) (m p : String)
    → (m == "GET") ≡ false
    → starts_with p "/api/" ≡ true
    → method_matches (some m) r.method ≡ true
    → path_matches (exact p) r.path ≡ true
    → changes_state r ≡ true
unfolding changes_state
on_changes r m p other api method path =
    let at : r.path ≡ p = (eq_iff r.path p).0 path in
    let by : r.method ≡ m = ground (arith, method, other, eq_iff r.method m) in
    rw (at, by, api, other) refl

Picks-changes :
    (r : Request) (route : Route)
    → changes route ≡ true
    → Picks patterns r.method r.path route
    → changes_state r ≡ true
Picks-changes r route c (inl (e, m, p)) = on_changes r "POST" "/api/session" refl refl m p
Picks-changes r route c (inr (inl (e, m, p))) = on_changes r "DELETE" "/api/session" refl refl m p
Picks-changes r route c (inr (inr (inl (e, m, p)))) = on_changes r "POST" "/api/query" refl refl m p
Picks-changes r route c (inr (inr (inr (inl (e, m, p))))) =
    on_changes r "POST" "/api/reset" refl refl m p
Picks-changes r route c (inr (inr (inr (inr (inl (e, m, p)))))) =
    on_changes r "POST" "/api/seed" refl refl m p
Picks-changes r route c (inr (inr (inr (inr (inr (inl (e, m, p))))))) = cc (ap changes e, c)
Picks-changes r route c (inr (inr (inr (inr (inr (inr (inl (e, m, p)))))))) = cc (ap changes e, c)
Picks-changes r route c (inr (inr (inr (inr (inr (inr (inr (inl (e, m, p))))))))) =
    cc (ap changes e, c)
Picks-changes r route c (inr (inr (inr (inr (inr (inr (inr (inr x)))))))) = elim x [ ]

-- With a mux that picks handlers as net/http documents it, a request that reaches a handler which can
-- change state (start, end, query, reset, reseed) came to a local name, with no Origin or its own, with
-- the header of the page, and not from another site.
pub reached-IsGuarded :
    (lib : Library) (r : Request) (route : Route)
    → PicksMatching lib
    → changes route ≡ true
    → reached lib r ≡ some route
    → IsLocal lib r × IsGuarded lib r
reached-IsGuarded lib r route documented c h =
    let (l, g, picked) = (reached_iff lib r route).0 h in
    (l, g (Picks-changes r route c (documented r.method r.path route picked)))
