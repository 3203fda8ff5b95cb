-- ===== src/Policy/Routes.antt =====
-- Laws of `AddRoute` in pkg/ecnet/service/policy/trafficpolicy.go.
use erie_canal_net.Base.{
  ◌≡◌, refl, Bool, true, false, List, [], ◌∷◌, ◌++◌, Option, none, some, Text, arith, Assoc, lookup,
  remove, remove_absent, UniqueKeys, SetOps, IsSetOps, list_eq, nat_eq, ==_refl, inl, inr,
  Option-cases, includes_refl, any, any-append, ◌⊎◌,
}
use erie_canal_net.Service.{WeightedCluster, weighted_cluster_eq}
use erie_canal_net.Policy.{
  HttpRouteMatch, RouteWeightedClusters, OutboundTrafficPolicy, same_map, same_headers,
  same_methods, deep_equal, find_route, add_route, cluster_set, PathMatchType, path_match_type_beq,
  regex, exact, prefix,
}

-- The headers are a map: no key occurs twice.
abbrev pub HeadersUnique : Option (Assoc Text Text) → Type 0
HeadersUnique none = Unit
HeadersUnique (some m) = UniqueKeys m

same_map_refl : (m : Assoc Text Text) → UniqueKeys m → same_map m m ≡ true
unfolding same_map lookup remove
same_map_refl [] u = refl
same_map_refl ((k, v) ∷ m) u =
    rw (==_refl k, remove_absent k m u.0, ==_refl v) (same_map_refl m u.1)

same_headers_refl : (h : Option (Assoc Text Text)) → HeadersUnique h → same_headers h h ≡ true
unfolding same_headers
same_headers_refl none u = refl
same_headers_refl (some m) u = same_map_refl m u

same_methods_refl : (ms : Option (List Text)) → same_methods ms ms ≡ true
unfolding same_methods
same_methods_refl none = refl
same_methods_refl (some ms) = ==_refl ms

path_match_type_refl : (t : PathMatchType) → path_match_type_beq t t ≡ true
path_match_type_refl regex = refl
path_match_type_refl exact = refl
path_match_type_refl prefix = refl

pub deep_equal_refl : (m : HttpRouteMatch) → HeadersUnique m.headers → deep_equal m m ≡ true
unfolding deep_equal
deep_equal_refl m u = rw (
  ==_refl m.path,
  path_match_type_refl m.path_match_type,
  same_methods_refl m.methods,
  same_headers_refl m.headers u,
)

module _ (S : SetOps WeightedCluster) where
  -- No later route has a match that is equal to that of an earlier one.
  abbrev pub NoDuplicates : List (RouteWeightedClusters S.Set) → Type 0
  NoDuplicates [] = Unit
  NoDuplicates (route ∷ routes) =
      (any (λ r. deep_equal route.http_route_match r.http_route_match) routes ≡ false)
      × NoDuplicates routes

  same_as : HttpRouteMatch → RouteWeightedClusters S.Set → Bool
  same_as m r = deep_equal m r.http_route_match

  NoDuplicates-append :
      (routes : List (RouteWeightedClusters S.Set)) (r : RouteWeightedClusters S.Set)
      → NoDuplicates routes
      → find_route S r.http_route_match routes ≡ none
      → NoDuplicates (routes ++ r ∷ [])
  unfolding same_as
  NoDuplicates-append [] r h e = (refl, tt)
  NoDuplicates-append (x ∷ routes) r h e = (
    ground (arith, any-append (same_as x.http_route_match) routes (r ∷ []), h.0),
    NoDuplicates-append routes r h.1 (ground arith),
  )

  find_route-append :
      (m : HttpRouteMatch) (xs ys : List (RouteWeightedClusters S.Set))
      → find_route S m (xs ++ ys)
        ≡ elim (find_route S m xs) [ none ↦ find_route S m ys | some r ↦ some r ]
  find_route-append m [] ys = refl
  find_route-append m (x ∷ xs) ys = ground (arith, find_route-append m xs ys)

  module _ (out : OutboundTrafficPolicy S.Set) (m : HttpRouteMatch)
      (ws : List WeightedCluster) where
    added : RouteWeightedClusters S.Set
    added = record { http_route_match = m; weighted_clusters = cluster_set S ws }

    add_route_cases :
        (out' : OutboundTrafficPolicy S.Set)
        → add_route S out m ws ≡ some out'
        → ((find_route S m out.routes ≡ none) × (out'.routes ≡ out.routes ++ added ∷ []))
          ⊎ ((r : RouteWeightedClusters S.Set) × (find_route S m out.routes ≡ some r)
              × (S.equal r.weighted_clusters (cluster_set S ws) ≡ true)
              × (out'.routes ≡ out.routes))
    unfolding add_route added
    add_route_cases out' e = elim (Option-cases (find_route S m out.routes)) [
      | inl absent ↦ inl (ground arith)
      | inr (r, found) ↦ inr (r, found, ground arith, ground arith)
    ]

    -- If no two routes of the policy have equal matches, that is so after a successful `AddRoute`.
    pub add_route-NoDuplicates :
        (out' : OutboundTrafficPolicy S.Set)
        → NoDuplicates out.routes
        → add_route S out m ws ≡ some out'
        → NoDuplicates out'.routes
    unfolding added
    add_route-NoDuplicates out' h e = elim (add_route_cases out' e) [
      | inl (absent, after) ↦ rw after (NoDuplicates-append out.routes added h absent)
      | inr (r, found, same, after) ↦ rw after h
    ]

    -- A successful `AddRoute` leaves every route that was found before where it was found, and the
    -- added match then finds a route whose clusters equal the given ones, whatever set
    -- implementation is used.
    pub add_route_finds :
        (out' : OutboundTrafficPolicy S.Set)
        → IsSetOps S
        → HeadersUnique m.headers
        → add_route S out m ws ≡ some out'
        → ((m' : HttpRouteMatch) (r : RouteWeightedClusters S.Set)
            → find_route S m' out.routes ≡ some r
            → find_route S m' out'.routes ≡ some r)
          × ((r : RouteWeightedClusters S.Set) × (find_route S m out'.routes ≡ some r)
              × (S.equal r.weighted_clusters (cluster_set S ws) ≡ true))
    unfolding added
    add_route_finds out' laws u e = elim (add_route_cases out' e) [
      | inl (absent, after) ↦ (
        λ m' r found. rw (after, find_route-append m' out.routes (added ∷ []), found),
        (
          added,
          ground (
            arith,
            after,
            find_route-append m out.routes (added ∷ []),
            deep_equal_refl m u,
            absent,
          ),
          rw laws.equal_lem (rw includes_refl),
        ),
      )
      | inr (r, found, same, after) ↦ (λ m' r' found'. rw after found', (r, rw after found, same))
    ]
