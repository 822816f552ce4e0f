-- ===== src/Gateway/Examples.antt =====
-- A domain with a route that the operator configured, and a push of another.
use innerstack.Prelude.{
  ℕ, ◌≡◌, refl, true, [], ◌∷◌, some, bytes, text_eq, text_key, IsIn, inl, inr, is_some,
}
use innerstack.Gateway.{
  HttpRoute, Domain, DomainEntry, Outside, is_local_route_type, build_route, build_for,
  domain_fresh, type_proxy, type_upstream, append_local_routes,
}
use innerstack.Gateway.Routes.{HasPath, IsServed, domain_fresh_keeps, domain_fresh-IsServed}

abbrev out : Outside
out = record { parse_url = some; proxy_target = some; local_dir = some }

abbrev tunnel : HttpRoute
tunnel = record { type = type_proxy; path = bytes "/ws"; targets = bytes "10.0.0.1:80" ∷ [] }

abbrev site : HttpRoute
site = record { type = type_upstream; path = bytes "/"; targets = bytes "10.0.0.2:80" ∷ [] }

abbrev domain_of : ℕ → HttpRoute → Domain
domain_of revision r = record { domain = bytes "a.org"; revision = revision; routes = r ∷ [] }

abbrev entry : DomainEntry
entry = record { domain = domain_of 1 tunnel; routes = []; index_routes = []; setup_revision = 1 }

domain_fresh_keeps_example :
    ((a : HttpRoute)
      → IsIn a (site ∷ [])
      → IsIn a (domain_fresh out entry (domain_of 2 site)).domain.routes)
    × ((r : HttpRoute)
        → IsIn r (tunnel ∷ [])
        → is_local_route_type r.type ≡ true
        → HasPath r.path (domain_fresh out entry (domain_of 2 site)).domain.routes)
domain_fresh_keeps_example = domain_fresh_keeps out entry (domain_of 2 site)

merged_tunnel : IsIn tunnel (domain_fresh out entry (domain_of 2 site)).domain.routes
unfolding domain_fresh append_local_routes is_local_route_type text_eq
merged_tunnel = inr (inl refl)

tunnel_builds : is_some (build_route out tunnel) ≡ true
unfolding build_route build_for text_eq
tunnel_builds = refl

domain_fresh-IsServed_example : IsServed (bytes "/ws") (domain_fresh out entry (domain_of 2 site))
domain_fresh-IsServed_example =
    domain_fresh-IsServed out entry (domain_of 2 site) tunnel merged_tunnel tunnel_builds
