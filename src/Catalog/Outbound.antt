-- ===== src/Catalog/Outbound.antt =====
-- outbound_traffic_policies.go of pkg/ecnet/catalog: the outbound traffic policy of the mesh.
pub mod Policies
use erie_canal_net.Base.{
  ℕ, Bool, true, false, not, ◌&&◌, ◌||◌, List, [], ◌∷◌, ◌++◌, Option, none, some, Text, codes, ◌==◌,
  nat_eq, list_eq, Assoc, lookup, insert, any, if◌then◌else◌, SetOps, ltb, not_empty, is_empty,
}
use erie_canal_net.Service.{
  MeshService, WeightedCluster, weighted_cluster_eq, cluster_name, fqdn,
  outbound_traffic_match_name, is_multi_cluster_service,
}
use erie_canal_net.K8s.Hostnames.{get_hostnames_for_service}
use erie_canal_net.Policy.{
  HttpRouteMatch, HttpRouteMatchWithWeightedClusters, OutboundTrafficPolicy, MeshClusterConfig,
  TrafficMatch, OutboundMeshTrafficPolicy, regex_match_all, wild_card_route_match,
  new_outbound_traffic_policy, add_route,
}
use erie_canal_net.Multicluster.TrafficPolicy.{
  LbWeight, cluster_weight_accept_all, cluster_weight_fail_over,
}
use erie_canal_net.Catalog.Clusters.{
  protocol_tcp, protocol_tcp_server_first, merge_upstream_clusters,
  get_wild_card_route_upstream_clusters,
}
use erie_canal_net.Catalog.Services.{
  Endpoint, MeshCatalog, list_outbound_services, get_dns_resolvable_service_endpoints,
}

module _ (U : SetOps Text) where
  add_ips : List Endpoint → U.Set → U.Set
  add_ips [] ips = ips
  add_ips (e ∷ es) ips = add_ips es (U.add e.ip ips)

-- What the loop body of `GetOutboundMeshTrafficPolicy` makes of one service: the trust domain and
-- the two set implementations are arguments.
module _ (S : SetOps WeightedCluster) (T : MeshService → SetOps Text) (trust_domain : Text)
    (mc : MeshCatalog) where
  -- The IP addresses to resolve the service to: of all its endpoints, if one is of another cluster.
  -- `T svc` is the set of this service in this run: its order is that of `ToSlice`, which may be any,
  -- and another one for another service or in another run.
  resolvable_ips : MeshService → List Text
  unfolding add_ips
  resolvable_ips svc =
      let endpoints = get_dns_resolvable_service_endpoints mc svc in
      if any (λ e. not_empty e.cluster_key) endpoints
      then (T svc).iter (add_ips (T svc) endpoints (T svc).new_set)
      else []

  add_resolvable : MeshService → Assoc Text (List Text) → Assoc Text (List Text)
  unfolding resolvable_ips
  add_resolvable svc resolvable =
      let ips = resolvable_ips svc in
      if is_empty ips then resolvable else insert (fqdn svc) ips resolvable

  -- `routeMatches`: one match, with no HTTP route of its own
  route_matches : MeshService → List HttpRouteMatchWithWeightedClusters
  route_matches svc =
      record {
        upstream_clusters = merge_upstream_clusters mc svc [];
        route_matches = [];
        has_split_matches = false;
      }
      ∷ []

  traffic_matches_for : MeshService → List HttpRouteMatchWithWeightedClusters → List TrafficMatch
  traffic_matches_for svc [] = []
  traffic_matches_for svc (m ∷ ms) =
      record {
        destination_port = svc.port;
        destination_protocol = svc.protocol;
        name = outbound_traffic_match_name svc;
        weighted_clusters = m.upstream_clusters;
      }
      ∷ traffic_matches_for svc ms

  -- An error of `AddRoute` is logged, and the loop goes on with the policy as it was.
  abbrev or_same :
      OutboundTrafficPolicy S.Set
      → Option (OutboundTrafficPolicy S.Set)
      → OutboundTrafficPolicy S.Set
  or_same out none = out
  or_same out (some out') = out'

  add_http_routes :
      List HttpRouteMatch
      → List WeightedCluster
      → OutboundTrafficPolicy S.Set × Bool
      → OutboundTrafficPolicy S.Set × Bool
  add_http_routes [] clusters acc = acc
  add_http_routes (route ∷ routes) clusters (out, wild) =
      add_http_routes routes clusters
        (or_same out (add_route S out route clusters), wild || route.path == regex_match_all)

  add_match_routes :
      List HttpRouteMatchWithWeightedClusters
      → OutboundTrafficPolicy S.Set × Bool
      → OutboundTrafficPolicy S.Set × Bool
  unfolding add_http_routes
  add_match_routes [] acc = acc
  add_match_routes (m ∷ ms) acc =
      add_match_routes ms (add_http_routes m.route_matches m.upstream_clusters acc)

  add_wild_card :
      List HttpRouteMatchWithWeightedClusters
      → OutboundTrafficPolicy S.Set × Bool
      → Option (OutboundTrafficPolicy S.Set)
  add_wild_card ms (out, true) = some out
  add_wild_card ms (out, false) =
      add_route S out wild_card_route_match (get_wild_card_route_upstream_clusters true ms)

  -- The HTTP policy of a service; `none` where the loop goes on without one.
  http_policy : MeshService → Option (OutboundTrafficPolicy S.Set)
  unfolding route_matches add_match_routes add_wild_card
  http_policy svc = add_wild_card (route_matches svc) (
      add_match_routes (route_matches svc) (
        new_outbound_traffic_policy (fqdn svc) (get_hostnames_for_service trust_domain svc false),
        false,
      ))

  abbrev pub is_tcp : MeshService → Bool
  is_tcp svc = svc.protocol == protocol_tcp || svc.protocol == protocol_tcp_server_first

  -- `m[port] = append(m[port], p)`
  append_at :
      ℕ
      → OutboundTrafficPolicy S.Set
      → Assoc ℕ (List (OutboundTrafficPolicy S.Set))
      → Assoc ℕ (List (OutboundTrafficPolicy S.Set))
  append_at port p m = elim (lookup port m) [
    | none ↦ insert port (p ∷ []) m
    | some ps ↦ insert port (ps ++ p ∷ []) m
  ]

  add_http_policy :
      MeshService
      → Option (OutboundTrafficPolicy S.Set)
      → Assoc ℕ (List (OutboundTrafficPolicy S.Set))
      → Assoc ℕ (List (OutboundTrafficPolicy S.Set))
  unfolding append_at
  add_http_policy svc none configs = configs
  add_http_policy svc (some p) configs = append_at svc.port p configs

  add_service : OutboundMeshTrafficPolicy S.Set → MeshService → OutboundMeshTrafficPolicy S.Set
  unfolding add_resolvable traffic_matches_for http_policy add_http_policy
  add_service acc svc = record {
    traffic_matches = acc.traffic_matches ++ traffic_matches_for svc (route_matches svc);
    http_route_configs_per_port =
        if is_tcp svc
        then acc.http_route_configs_per_port
        else add_http_policy svc (http_policy svc) acc.http_route_configs_per_port;
    clusters_configs =
        acc.clusters_configs ++ record { name = cluster_name svc; service = svc } ∷ [];
    services_resolvable_set = add_resolvable svc acc.services_resolvable_set;
  }

  add_services :
      OutboundMeshTrafficPolicy S.Set → List MeshService → OutboundMeshTrafficPolicy S.Set
  unfolding add_service
  add_services acc [] = acc
  add_services acc (svc ∷ svcs) = add_services (add_service acc svc) svcs

  abbrev pub no_policy : OutboundMeshTrafficPolicy S.Set
  no_policy = record {
    traffic_matches = [];
    http_route_configs_per_port = [];
    clusters_configs = [];
    services_resolvable_set = [];
  }

  -- `GetOutboundMeshTrafficPolicy`
  unfoldable pub get_outbound_mesh_traffic_policy : OutboundMeshTrafficPolicy S.Set
  unfolding add_services
  get_outbound_mesh_traffic_policy = add_services no_policy (list_outbound_services mc)
