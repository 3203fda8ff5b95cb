-- ===== src/Tests/Routing.antt =====
-- Routes, and the outbound policy of a mesh.
use erie_canal_net.Base.{
  ℕ, ◌≡◌, refl, true, false, List, [], ◌∷◌, ◌++◌, some, Text, codes, map, filterb, lookup, nat_eq,
  list_eq, list_set, list_set-IsSetOps, any,
}
use erie_canal_net.Service.{WeightedCluster, weighted_cluster_eq}
use erie_canal_net.Policy.{
  HttpRouteMatch, HttpRouteMatchWithWeightedClusters, OutboundTrafficPolicy, RouteWeightedClusters,
  wild_card_route_match, add_route, find_route, cluster_set,
}
use erie_canal_net.Policy.Routes.{NoDuplicates, add_route-NoDuplicates, add_route_finds}
use erie_canal_net.Catalog.Clusters.{get_wild_card_route_upstream_clusters}
use erie_canal_net.Catalog.Clusters.Laws.{
  NamesDistinct, has_name, match_has_name, wild_card_clusters,
}
use erie_canal_net.Catalog.Services.{list_outbound_services}
use erie_canal_net.Catalog.Outbound.{get_outbound_mesh_traffic_policy}
use erie_canal_net.Catalog.Outbound.Policies.{
  match_of, config_of, policy_of, present, http_on, outbound_policy-eq,
}
use erie_canal_net.Tests.Samples.{shop_catalog}

abbrev one_cluster : List WeightedCluster
one_cluster = record { cluster_name = codes "shop/cart|80"; weight = 100 } ∷ []

abbrev empty_policy : OutboundTrafficPolicy (List WeightedCluster)
empty_policy = record { name = codes "cart"; hostnames = []; routes = [] }

abbrev one_route : OutboundTrafficPolicy (List WeightedCluster)
one_route = record {
  name = codes "cart";
  hostnames = [];
  routes =
      record { http_route_match = wild_card_route_match; weighted_clusters = one_cluster } ∷ [];
}

add_route_run : add_route list_set empty_policy wild_card_route_match one_cluster ≡ some one_route
unfolding add_route
add_route_run = refl

add_route-NoDuplicates_example : NoDuplicates list_set one_route.routes
add_route-NoDuplicates_example =
    add_route-NoDuplicates list_set empty_policy wild_card_route_match one_cluster one_route tt
      add_route_run

add_route_finds_example :
    ((m' : HttpRouteMatch) (r : RouteWeightedClusters (List WeightedCluster))
      → find_route list_set m' empty_policy.routes ≡ some r
      → find_route list_set m' one_route.routes ≡ some r)
    × ((r : RouteWeightedClusters (List WeightedCluster)) × (find_route list_set
            wild_card_route_match one_route.routes
          ≡ some r)
        × (list_set.equal r.weighted_clusters (cluster_set list_set one_cluster) ≡ true))
add_route_finds_example =
    add_route_finds list_set empty_policy wild_card_route_match one_cluster one_route
      list_set-IsSetOps tt add_route_run

abbrev split_matches : List HttpRouteMatchWithWeightedClusters
split_matches =
    record {
      upstream_clusters = one_cluster ++ one_cluster;
      route_matches = [];
      has_split_matches = false;
    }
    ∷ record {
      upstream_clusters = record { cluster_name = codes "shop/new|80"; weight = 5 } ∷ [];
      route_matches = [];
      has_split_matches = true;
    }
    ∷ []

wild_card_clusters_example :
    NamesDistinct (get_wild_card_route_upstream_clusters true split_matches)
    × ((n : Text)
        → has_name n (get_wild_card_route_upstream_clusters true split_matches)
          ≡ any (match_has_name true n) split_matches)
wild_card_clusters_example = wild_card_clusters true split_matches

outbound_policy_example :
    let policy =
      get_outbound_mesh_traffic_policy list_set
        (λ _. list_set)
        (codes "cluster.local")
        shop_catalog in
    let services = list_outbound_services shop_catalog in
    (policy.traffic_matches
      ≡ map (match_of list_set (λ _. list_set) (codes "cluster.local") shop_catalog) services)
    × (policy.clusters_configs ≡ map config_of services)
    × ((port : ℕ)
        → lookup port policy.http_route_configs_per_port
          ≡ present list_set
              (λ _. list_set)
              (codes "cluster.local")
              shop_catalog
              (map (policy_of list_set (λ _. list_set) (codes "cluster.local") shop_catalog) (
                filterb
                  (http_on list_set (λ _. list_set) (codes "cluster.local") shop_catalog port)
                  services)))
outbound_policy_example =
    outbound_policy-eq list_set (λ _. list_set) (codes "cluster.local") shop_catalog
