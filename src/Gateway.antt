-- ===== src/Gateway.antt =====
-- cmd/ingate/main.go: the routes of a domain of the gateway, as they are pushed, merged and indexed.
-- A route's reverse proxies stand for their target URLs. The reading of URLs and of the file system are
-- the arguments `Outside`. A refreshed domain entry has a domain, as every caller gives it one.
pub mod Routes
mod Examples
use innerstack.Prelude.{
  ℕ, zero, suc, ◌+◌, ◌-◌, ◌%◌, ◌^◌, Bool, true, false, not, ◌&&◌, ◌||◌, List, [], ◌∷◌, ◌++◌, Option,
  none, some, Text, bytes, if◌then◌else◌, ◌==◌, text_key, ltb, eqb, any, length, map,
}
use innerstack.Prelude.Int.{ℤ, pos, ltb_ℤ, leb_ℤ, max_ℤ}
use innerstack.Prelude.Map.{Map, insert, lookup}

-- GatewayIngressDeploy_HttpRoute; a target is its backend.
pub record HttpRoute : Type 0 where
  pub type : Text
  pub path : Text
  pub targets : List Text

-- GatewayIngressDeploy
pub record Domain : Type 0 where
  pub domain : Text
  pub revision : ℕ
  pub routes : List HttpRoute

pub record DomainEntryRoute : Type 0 where
  pub type : Text
  pub path : Text
  pub urls : List Text
  pub call_count : ℕ
  pub reverse_proxy : List Text

pub record DomainEntry : Type 0 where
  pub domain : Domain
  pub routes : List DomainEntryRoute
  pub index_routes : Map Text DomainEntryRoute
  pub setup_revision : ℕ

pub record Outside : Type 0 where
  pub parse_url : Text → Option Text
  pub proxy_target : Text → Option Text
  pub local_dir : Text → Option Text

abbrev pub type_instance : Text
type_instance = bytes "instance"

abbrev pub type_upstream : Text
type_upstream = bytes "upstream"

abbrev pub type_redirect : Text
type_redirect = bytes "redirect"

abbrev pub type_localfs : Text
type_localfs = bytes "localfs"

abbrev pub type_proxy : Text
type_proxy = bytes "proxy"

unfoldable pub is_local_route_type : Text → Bool
is_local_route_type t = t == type_localfs || t == type_proxy

abbrev pub has_path : Text → List HttpRoute → Bool
has_path path routes = any (λ (a : HttpRoute). a.path == path) routes

-- `dst` grows, and a route of `src` is compared with those that were appended before it.
unfoldable pub append_local_routes : List HttpRoute → List HttpRoute → List HttpRoute
append_local_routes dst [] = dst
append_local_routes dst (route ∷ rest) =
    append_local_routes
      (if not (is_local_route_type route.type)
        then dst
        else if has_path route.path dst
        then dst
        else dst ++ route ∷ [])
      rest

unfoldable pub merge_local_routes : DomainEntry → Domain → Domain
merge_local_routes entry domain = record domain {
  routes = append_local_routes domain.routes entry.domain.routes;
}

unfoldable pub has_local_routes : DomainEntry → Bool
has_local_routes entry = any (λ (r : HttpRoute). is_local_route_type r.type) entry.domain.routes

unfoldable pub get_elem? : List Text → ℕ → Option Text
get_elem? [] n = none
get_elem? (x ∷ xs) zero = some x
get_elem? (x ∷ xs) (suc n) = get_elem? xs n

-- The next proxy, round-robin.
unfoldable pub pick_proxy : DomainEntryRoute → Option Text × DomainEntryRoute
pick_proxy route =
    let count = (route.call_count + 1) % 2 ^ 64 in
    if eqb (length route.reverse_proxy) 0 then (none, route) else (
      get_elem? route.reverse_proxy (count % length route.reverse_proxy),
      record route { call_count = count },
    )

abbrev plain : HttpRoute → DomainEntryRoute
plain r = record { type = r.type; path = r.path; urls = []; call_count = 0; reverse_proxy = [] }

unfoldable pub proxy_targets : Outside → List Text → List Text
proxy_targets out [] = []
proxy_targets out (t ∷ rest) =
    let later = proxy_targets out rest in
    elim (out.proxy_target t) [ none ↦ later | some u ↦ u ∷ later ]

abbrev local_urls : Outside → List Text → List Text
local_urls out [] = []
local_urls out (t ∷ u ∷ rest) = []
local_urls out (t ∷ []) =
    if not (ltb 1 (length t)) then [] else elim (out.local_dir t) [ none ↦ [] | some p ↦ p ∷ [] ]

abbrev backend_urls : List Text → List Text
backend_urls targets = map (λ t. bytes "http://" ++ t) targets

unfoldable pub redirect_route : Outside → HttpRoute → Text → Option DomainEntryRoute
redirect_route out r target = elim (out.parse_url target) [
  | none ↦ none
  | some u ↦ some (record (plain r) { urls = u ∷ [] })
]

-- The switch of `domainFresh`, for a route whose targets are these.
unfoldable pub build_for : Outside → HttpRoute → Text → List Text → Option DomainEntryRoute
unfolding proxy_targets redirect_route
build_for out r target rest =
    if r.type == type_instance || r.type == type_upstream
    then some (record (plain r) {
      urls = backend_urls (target ∷ rest);
      reverse_proxy = backend_urls (target ∷ rest);
    })
    else if r.type == type_redirect
    then redirect_route out r target
    else if r.type == type_localfs
    then some (record (plain r) { urls = local_urls out (target ∷ rest) })
    else if r.type == type_proxy
    then some (record (plain r) { reverse_proxy = proxy_targets out (target ∷ rest) })
    else none

-- The route of the entry that a pushed or merged route gives, if any.
unfoldable pub build_route : Outside → HttpRoute → Option DomainEntryRoute
unfolding build_for
build_route out r = elim r.targets [ [] ↦ none | target ∷ rest ↦ build_for out r target rest ]

-- The loop of `domainFresh`.
unfoldable pub add_routes : Outside → List HttpRoute → DomainEntry → DomainEntry
unfolding build_route
add_routes out [] entry = entry
add_routes out (r ∷ rest) entry = add_routes out rest (elim (build_route out r) [
  | none ↦ entry
  | some route ↦ record entry {
    routes = entry.routes ++ route ∷ [];
    index_routes = insert route.path route entry.index_routes;
  }
])

unfoldable pub domain_fresh : Outside → DomainEntry → Domain → DomainEntry
unfolding merge_local_routes add_routes
domain_fresh out entry domain =
    let merged = merge_local_routes entry domain in
    add_routes out merged.routes
      (record { domain = merged; routes = []; index_routes = []; setup_revision = domain.revision })

-- A value that is not positive stands for the default.
unfoldable pub conf_clamp_int64 : ℤ → ℤ → ℤ → ℤ → ℤ
conf_clamp_int64 v def lo hi =
    let low = max_ℤ v lo in if leb_ℤ v (pos 0) then def else if ltb_ℤ hi low then hi else low
