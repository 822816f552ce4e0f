-- ===== src/Gateway/Routes.antt =====
-- The operator's routes survive a push, and every route of a refreshed domain is served.
use innerstack.Prelude.{
  ℕ, zero, suc, ◌+◌, ◌%◌, ◌<◌, ◌^◌, ◌≡◌, refl, sym, ◌∙◌, ap, subst, true, false, not, ◌||◌, List,
  [], ◌∷◌, ◌++◌, Option, none, some, Text, arith, IsIn, inl, inr, Bool-cases, by_if, by_option,
  is_some, text_eq_iff, text_key, ◌==◌, length, eqb, ◌↔◌, if◌then◌else◌,
}
use native.Mathlib.Nat.{mod-lt}
use innerstack.Prelude.Map.{Map, lookup, insert, lookup-insert, lookup-insert_self}
use innerstack.Gateway.{
  HttpRoute, Domain, DomainEntry, DomainEntryRoute, Outside, is_local_route_type, has_path,
  append_local_routes, merge_local_routes, build_route, build_for, redirect_route, pick_proxy,
  get_elem?, add_routes, domain_fresh, type_instance, type_upstream, type_redirect, type_localfs,
  type_proxy,
}

-- A route under a path is among them.
abbrev pub HasPath : Text → List HttpRoute → Type 0
HasPath path routes = (b : HttpRoute) × IsIn b routes × (b.path ≡ path)

has_path-HasPath :
    (path : Text) (routes : List HttpRoute) → has_path path routes ≡ true → HasPath path routes
has_path-HasPath path [] h = absurd cc
has_path-HasPath path (r ∷ rest) h = elim (Bool-cases (r.path == path)) [
  | inl e ↦ (r, inl refl, (text_eq_iff r.path path).0 e)
  | inr e ↦ let (b, m, q) = has_path-HasPath path rest (ground (arith, h, e)) in (b, inr m, q)
]

IsIn-append : (a : HttpRoute) (xs ys : List HttpRoute) → IsIn a xs → IsIn a (xs ++ ys)
IsIn-append a [] ys m = elim m [ ]
IsIn-append a (x ∷ xs) ys (inl e) = inl e
IsIn-append a (x ∷ xs) ys (inr m) = inr (IsIn-append a xs ys m)

IsIn-last : (a : HttpRoute) (xs : List HttpRoute) → IsIn a (xs ++ a ∷ [])
IsIn-last a [] = inl refl
IsIn-last a (x ∷ xs) = inr (IsIn-last a xs)

-- One round of the merge.
abbrev appended : List HttpRoute → HttpRoute → List HttpRoute
appended dst route =
    if not (is_local_route_type route.type)
    then dst
    else if has_path route.path dst
    then dst
    else dst ++ route ∷ []

appended_keeps :
    (dst : List HttpRoute) (route a : HttpRoute) → IsIn a dst → IsIn a (appended dst route)
appended_keeps dst route a m =
    by_if (IsIn a) (not (is_local_route_type route.type)) dst _ (λ e. m)
      (λ e.
        by_if (IsIn a) (has_path route.path dst) dst _ (λ h. m)
          (λ h. IsIn-append a dst (route ∷ []) m))

append_local_routes_keeps :
    (src dst : List HttpRoute) (a : HttpRoute) → IsIn a dst → IsIn a (append_local_routes dst src)
unfolding append_local_routes
append_local_routes_keeps [] dst a m = m
append_local_routes_keeps (route ∷ rest) dst a m =
    append_local_routes_keeps rest (appended dst route) a (appended_keeps dst route a m)

appended-HasPath :
    (dst : List HttpRoute) (route : HttpRoute)
    → is_local_route_type route.type ≡ true
    → HasPath route.path (appended dst route)
appended-HasPath dst route l =
    by_if (HasPath route.path) (not (is_local_route_type route.type)) dst _
      (λ e. absurd (ground (arith, l, e)))
      (λ e.
        by_if (HasPath route.path) (has_path route.path dst) dst _
          (λ h. has_path-HasPath route.path dst h) (λ h. (route, IsIn-last route dst, refl)))

append_local_routes-HasPath :
    (src dst : List HttpRoute) (r : HttpRoute)
    → IsIn r src
    → is_local_route_type r.type ≡ true
    → HasPath r.path (append_local_routes dst src)
unfolding append_local_routes
append_local_routes-HasPath [] dst r m l = elim m [ ]
append_local_routes-HasPath (route ∷ rest) dst r (inr m) l =
    append_local_routes-HasPath rest (appended dst route) r m l
append_local_routes-HasPath (route ∷ rest) dst r (inl e) l =
    let (b, k, q) =
      appended-HasPath dst route (ap (λ (x : HttpRoute). is_local_route_type x.type) (sym e) ∙ l) in
    (
      b,
      append_local_routes_keeps rest (appended dst route) b k,
      q ∙ ap (λ (x : HttpRoute). x.path) (sym e),
    )

add_routes-domain :
    (out : Outside) (rs : List HttpRoute) (entry : DomainEntry)
    → (add_routes out rs entry).domain ≡ entry.domain
unfolding add_routes
add_routes-domain out [] entry = refl
add_routes-domain out (r ∷ rest) entry =
    add_routes-domain out rest _
    ∙ by_option (λ (u : DomainEntry). u.domain ≡ entry.domain) (build_route out r) entry _
        (λ n. refl) (λ v n. refl)

-- A push loses neither a pushed route nor the path of a route that the operator configured.
pub domain_fresh_keeps :
    (out : Outside) (entry : DomainEntry) (domain : Domain)
    → ((a : HttpRoute)
        → IsIn a domain.routes
        → IsIn a (domain_fresh out entry domain).domain.routes)
      × ((r : HttpRoute)
          → IsIn r entry.domain.routes
          → is_local_route_type r.type ≡ true
          → HasPath r.path (domain_fresh out entry domain).domain.routes)
unfolding domain_fresh merge_local_routes
domain_fresh_keeps out entry domain =
    let merged = append_local_routes domain.routes entry.domain.routes in
    let e = add_routes-domain out merged _ in
    (
      (λ a m.
          subst (λ (d : Domain). IsIn a d.routes) (sym e)
            (append_local_routes_keeps entry.domain.routes domain.routes a m)),
      (λ r m l.
          subst (λ (d : Domain). HasPath r.path d.routes) (sym e)
            (append_local_routes-HasPath entry.domain.routes domain.routes r m l)),
    )

-- An index has an entry under a path.
abbrev pub IsServed : Text → DomainEntry → Type 0
IsServed path entry = (route : DomainEntryRoute) × (lookup path entry.index_routes ≡ some route)

-- A route is entered under its own path.
abbrev EnteredUnder : Text → Option DomainEntryRoute → Type 0
EnteredUnder path o = (route : DomainEntryRoute) → o ≡ some route → route.path ≡ path

some-EnteredUnder : (route : DomainEntryRoute) → EnteredUnder route.path (some route)
some-EnteredUnder route other e =
    let same : route ≡ other = cc in ap (λ (x : DomainEntryRoute). x.path) (sym same)

build_for-path :
    (out : Outside) (r : HttpRoute) (t : Text) (ts : List Text)
    → EnteredUnder r.path (build_for out r t ts)
unfolding build_for redirect_route
build_for-path out r t ts =
    let P = EnteredUnder r.path in
    by_if P (r.type == type_instance || r.type == type_upstream) _ _ (λ e. some-EnteredUnder _)
      (λ e.
        by_if P (r.type == type_redirect) (redirect_route out r t) _
          (λ f.
            by_option P (out.parse_url t) none _ (λ n route q. absurd cc)
              (λ u n. some-EnteredUnder _))
          (λ f.
            by_if P (r.type == type_localfs) _ _ (λ g. some-EnteredUnder _)
              (λ g.
                by_if P (r.type == type_proxy) _ none (λ h. some-EnteredUnder _)
                  (λ h route q. absurd cc))))

build_route-path : (out : Outside) (r : HttpRoute) → EnteredUnder r.path (build_route out r)
unfolding build_route
build_route-path out r =
    elim r.targets
      as (λ ts. EnteredUnder r.path (elim ts [ [] ↦ none | t ∷ rest ↦ build_for out r t rest ])) [
        | [] ↦ λ route q. absurd cc
        | t ∷ rest ↦ build_for-path out r t rest
      ]

insert-IsServed :
    (path k : Text) (route : DomainEntryRoute) (m : Map Text DomainEntryRoute)
    → ((v : DomainEntryRoute) × (lookup path m ≡ some v))
    → (v : DomainEntryRoute) × (lookup path (insert k route m) ≡ some v)
insert-IsServed path k route m (v, e) = elim (Bool-cases (k == path)) [
  | inl s ↦ (route, rw (lookup-insert, s) refl)
  | inr s ↦ (v, rw (lookup-insert, s) e)
]

add_routes_keeps :
    (out : Outside) (rs : List HttpRoute) (entry : DomainEntry) (path : Text)
    → IsServed path entry
    → IsServed path (add_routes out rs entry)
unfolding add_routes
add_routes_keeps out [] entry path s = s
add_routes_keeps out (r ∷ rest) entry path s = add_routes_keeps out rest _ path (
    by_option (IsServed path) (build_route out r) entry _ (λ n. s)
      (λ route e. insert-IsServed path route.path route entry.index_routes s))

add_routes-IsServed :
    (out : Outside) (rs : List HttpRoute) (entry : DomainEntry) (a : HttpRoute)
    → IsIn a rs
    → is_some (build_route out a) ≡ true
    → IsServed a.path (add_routes out rs entry)
unfolding add_routes
add_routes-IsServed out [] entry a m b = elim m [ ]
add_routes-IsServed out (r ∷ rest) entry a (inr m) b = add_routes-IsServed out rest _ a m b
add_routes-IsServed out (r ∷ rest) entry a (inl same) b =
    let b' : is_some (build_route out r) ≡ true =
      ap (λ (x : HttpRoute). is_some (build_route out x)) (sym same) ∙ b in
    let served = add_routes_keeps out rest _ r.path (
      by_option (IsServed r.path) (build_route out r) entry _
        (λ n. absurd (let q : is_some (build_route out r) ≡ false = ap is_some n in cc))
        (λ route e. (
          route,
          subst (λ k. lookup k (insert route.path route entry.index_routes) ≡ some route)
              (build_route-path out r route e)
              (lookup-insert_self route.path route entry.index_routes),
        ))) in
    subst (λ (x : HttpRoute). IsServed x.path (add_routes out (r ∷ rest) entry)) (sym same) served

-- After a push, the index has an entry under the path of every route of the merged domain that gives
-- one, whether it was pushed or configured by the operator.
pub domain_fresh-IsServed :
    (out : Outside) (entry : DomainEntry) (domain : Domain) (a : HttpRoute)
    → IsIn a (domain_fresh out entry domain).domain.routes
    → is_some (build_route out a) ≡ true
    → IsServed a.path (domain_fresh out entry domain)
unfolding domain_fresh merge_local_routes
domain_fresh-IsServed out entry domain a m b =
    let merged = append_local_routes domain.routes entry.domain.routes in
    let m' : IsIn a merged =
      subst (λ (d : Domain). IsIn a d.routes) (add_routes-domain out merged _) m in
    add_routes-IsServed out merged _ a m' b

get_elem?-some : (xs : List Text) (n : ℕ) → n < length xs → (x : Text) × (get_elem? xs n ≡ some x)
unfolding get_elem?
get_elem?-some [] n h = absurd (omega (arith, h))
get_elem?-some (x ∷ xs) zero h = (x, refl)
get_elem?-some (x ∷ xs) (suc n) h = get_elem?-some xs n (omega (arith, h))

-- A route with a proxy always gets one, and only a route without proxies gets none, whatever its count
-- of calls, which wraps at 2 ^ 64.
pub pick_proxy_iff :
    (route : DomainEntryRoute)
    → (is_some (pick_proxy route).0 ≡ true) ↔ (0 < length route.reverse_proxy)
unfolding pick_proxy
pick_proxy_iff route = elim (Bool-cases (eqb (length route.reverse_proxy) 0)) [
  | inl e ↦ rw e ((λ h. absurd cc), (λ h. absurd (ground (arith, e, h))))
  | inr e ↦
      let positive : 0 < length route.reverse_proxy = ground (arith, e) in
      let count = (route.call_count + 1) % 2 ^ 64 in
      let (x, q) =
        get_elem?-some route.reverse_proxy (count % length route.reverse_proxy)
          (mod-lt count positive) in
      rw e ((λ h. positive), (λ h. ap is_some q))
]
