-- ===== src/Catalog/Clusters.antt =====
-- outbound_traffic_policies.go of pkg/ecnet/catalog: the weighted clusters of a service.
pub mod Laws
use erie_canal_net.Base.{
  ℕ, Bool, true, false, ◌&&◌, List, [], ◌∷◌, ◌++◌, Text, codes, ◌==◌, nat_eq, list_eq, any,
  if◌then◌else◌, ltb,
}
use erie_canal_net.Service.{MeshService, WeightedCluster, cluster_name, is_multi_cluster_service}
use erie_canal_net.Policy.{HttpRouteMatchWithWeightedClusters}
use erie_canal_net.Multicluster.TrafficPolicy.{
  LbWeight, cluster_weight_accept_all, cluster_weight_fail_over,
}
use erie_canal_net.Catalog.Services.{MeshCatalog}

-- constants.go: the protocols
abbrev pub protocol_http : Text
protocol_http = codes "http"

abbrev pub protocol_https : Text
protocol_https = codes "https"

abbrev pub protocol_tcp : Text
protocol_tcp = codes "tcp"

abbrev pub protocol_grpc : Text
protocol_grpc = codes "grpc"

abbrev pub protocol_tcp_server_first : Text
protocol_tcp_server_first = codes "tcp-server-first"

upstream_weight : MeshService → LbWeight → ℕ
upstream_weight svc lb =
    if is_multi_cluster_service svc
    then (if lb.aa && ltb 0 lb.weight
        then lb.weight
        else if lb.fo
        then cluster_weight_fail_over
        else cluster_weight_accept_all)
    else cluster_weight_accept_all

-- `mergeUpstreamClusters`
unfoldable pub merge_upstream_clusters :
    MeshCatalog → MeshService → List WeightedCluster → List WeightedCluster
unfolding upstream_weight
merge_upstream_clusters mc svc clusters =
    clusters
    ++ record {
      cluster_name = cluster_name svc;
      weight = upstream_weight svc (mc.get_lb_weight svc);
    }
      ∷ []

-- The loop over the clusters of one route match; `seen` stands for the keys of
-- `upstreamClusterMap`.
add_unseen :
    (WeightedCluster → WeightedCluster)
    → List WeightedCluster
    → List WeightedCluster
    → List WeightedCluster
add_unseen weigh out [] = out
add_unseen weigh out (c ∷ cs) =
    add_unseen weigh
      (if any (λ o. o.cluster_name == c.cluster_name) out then out else out ++ weigh c ∷ []) cs

abbrev accept_all_weight : WeightedCluster → WeightedCluster
accept_all_weight c = record c { weight = cluster_weight_accept_all }

add_matches :
    Bool → List WeightedCluster → List HttpRouteMatchWithWeightedClusters → List WeightedCluster
unfolding add_unseen
add_matches has_wild_card out [] = out
add_matches true out (m ∷ ms) =
    add_matches true
      (if m.has_split_matches then out else add_unseen (λ c. c) out m.upstream_clusters) ms
add_matches false out (m ∷ ms) =
    add_matches false (add_unseen accept_all_weight out m.upstream_clusters) ms

-- `getWildCardRouteUpstreamClusters`
unfoldable pub get_wild_card_route_upstream_clusters :
    Bool → List HttpRouteMatchWithWeightedClusters → List WeightedCluster
unfolding add_matches
get_wild_card_route_upstream_clusters has_traffic_split_wild_card route_matches =
    add_matches has_traffic_split_wild_card [] route_matches
