-- ===== src/Tests/Proxy.antt =====
-- The configuration of the proxy.
use erie_canal_net.Base.{
  to_lower, remove, fields_func, lower, split, split_by, ℕ, ◌≡◌, refl, true, false, List, [], ◌∷◌,
  Option, none, some, Text, codes, arith, Assoc, lookup, insert, nat_eq, list_eq, list_set,
  list_set-IsSetOps, Among, inl, inr, All, decimal,
}
use erie_canal_net.Service.{
  outbound_traffic_match_name, cluster_name, is_multi_cluster_service, namespaced_key, provider_key,
  string, MeshService, WeightedCluster, weighted_cluster_eq, IsLabel, IsName, fqdn,
}
use erie_canal_net.K8s.Hostnames.{get_hostnames_for_service, namespaced_name_from}
use erie_canal_net.Catalog.Clusters.{merge_upstream_clusters, get_wild_card_route_upstream_clusters}
use erie_canal_net.Policy.{
  add_route, new_outbound_traffic_policy, deep_equal, same_map, TrafficMatch, MeshClusterConfig,
  OutboundMeshTrafficPolicy,
}
use erie_canal_net.Multicluster.TrafficPolicy.{
  fail_over, get_global_traffic_policy, get_lb_weight_for_service,
}
use erie_canal_net.Catalog.Services.{
  get_dns_resolvable_service_endpoints, list_outbound_services, list_mesh_services,
}
use erie_canal_net.Catalog.Outbound.{get_outbound_mesh_traffic_policy}
use erie_canal_net.Catalog.Outbound.Policies.{match_of, policy_of}
use erie_canal_net.Ctrlplane.Names.{traffic_match_to_mesh_svc}
use erie_canal_net.Ctrlplane.Config.{
  add_http_host_port2_service, new_http_service_route_rules, rebalanced, WeightedZoneEndpoint,
  ClusterConfigs, HttpMatchRule, OutboundTrafficPolicy, new_policy, new_traffic_match, set_protocol,
  rebalanced_outbound_clusters,
}
use erie_canal_net.Ctrlplane.Config.Weights.{some_weight, rebalanced_some_weight}
use erie_canal_net.Ctrlplane.Config.Matches.{
  Shared, Found, new_policy-Shared, new_traffic_match-Shared,
}
use erie_canal_net.Ctrlplane.Routes.{
  generate_route_policy, array_equal, get_outbound_http_route_configs, outbound_or_new,
}
use erie_canal_net.Ctrlplane.Routes.Steps.{Readable}
use erie_canal_net.Ctrlplane.Routes.Configs.{outbound_route_configs_found}
use erie_canal_net.Ctrlplane.Routes.Totality.{generate_route_policy_total}
use erie_canal_net.Ctrlplane.Balance.{PipyConf, get_mesh_cluster_configs}
use erie_canal_net.Ctrlplane.Balance.Ready.{depend_clusters_configured}
use erie_canal_net.Ctrlplane.Balance.Whole.{IsServed}
use erie_canal_net.Tests.Samples.{cart, cart_imported, shop_catalog}

abbrev zone : Text → ℕ → WeightedZoneEndpoint
zone key weight = record { weight = weight; cluster = key; lb_type = fail_over; context_path = [] }

abbrev two_zones : ClusterConfigs
two_zones = record {
  endpoints = (codes "10.0.0.1:80", zone (codes "c1") 5) ∷ (codes "10.0.0.2:80", zone [] 0) ∷ [];
}

abbrev zoned_policy : OutboundTrafficPolicy
zoned_policy = record new_policy { clusters_configs = (codes "shop/cart|80", two_zones) ∷ [] }

-- The remote endpoint stands back behind the local one.
rebalanced_run :
    rebalanced_outbound_clusters (some zoned_policy)
    ≡ some (record zoned_policy {
      clusters_configs =
          (
            codes "shop/cart|80",
            record {
              endpoints =
                  (codes "10.0.0.1:80", zone (codes "c1") 0)
                  ∷ (codes "10.0.0.2:80", zone [] 100)
                  ∷ [];
            },
          )
          ∷ [];
    })
unfolding rebalanced_outbound_clusters rebalanced
rebalanced_run = refl

rebalanced_some_weight_example :
    (after : OutboundTrafficPolicy) × (c' : ClusterConfigs) × (rebalanced_outbound_clusters
        (some zoned_policy)
      ≡ some after)
    × (lookup (codes "shop/cart|80") after.clusters_configs ≡ some c')
    × (some_weight c'.endpoints ≡ true)
unfolding lookup
rebalanced_some_weight_example =
    rebalanced_some_weight zoned_policy (codes "shop/cart|80") two_zones refl refl
      (refl, (refl, tt))

new_traffic_match_example :
    Found 8080 (codes "http") new_policy (new_traffic_match 8080 (codes "http") new_policy)
new_traffic_match_example =
    new_traffic_match-Shared 8080 (codes "http") new_policy new_policy-Shared

abbrev bare_rule : HttpMatchRule
bare_rule = record {
  path = codes ".*";
  match_type = codes "Regex";
  headers = [];
  methods = [];
  allowed_any_method = false;
}

shop_IsLabel : IsLabel (codes "shop")
shop_IsLabel = record { present = refl; chars = refl }

cart_IsName : IsName (codes "cart")
cart_IsName = record { present = refl; chars = refl }

cart_listed : Among cart (list_outbound_services shop_catalog)
unfolding list_outbound_services
cart_listed = inr (inl refl)

abbrev pub domain : Text
domain = codes "cluster.local"

abbrev shop_policy : OutboundMeshTrafficPolicy (List WeightedCluster)
shop_policy = get_outbound_mesh_traffic_policy list_set (λ _. list_set) domain shop_catalog

route_configs_example :
    (upstream : MeshService) × (traffic_match_to_mesh_svc
        (match_of list_set (λ _. list_set) domain shop_catalog cart)
      ≡ some upstream)
    × Among (policy_of list_set (λ _. list_set) domain shop_catalog cart) (
        get_outbound_http_route_configs list_set shop_policy.http_route_configs_per_port
          upstream.target_port
          (fqdn upstream)
          (match_of list_set (λ _. list_set) domain shop_catalog cart).weighted_clusters)
route_configs_example =
    outbound_route_configs_found list_set (λ _. list_set) domain shop_catalog list_set-IsSetOps cart
      cart_listed refl shop_IsLabel cart_IsName refl refl (omega arith)

cart-IsServed : IsServed cart
cart-IsServed = record {
  namespace_label = shop_IsLabel;
  name_labels = cart_IsName;
  some_protocol = refl;
  plain_protocol = refl;
  port_bound = omega arith;
}

cart_imported-IsServed : IsServed cart_imported
cart_imported-IsServed = record {
  namespace_label = shop_IsLabel;
  name_labels = cart_IsName;
  some_protocol = refl;
  plain_protocol = refl;
  port_bound = omega arith;
}

pub services-IsServed : All IsServed (list_outbound_services shop_catalog)
unfolding list_outbound_services
services-IsServed = (cart_imported-IsServed, (cart-IsServed, tt))

abbrev pub fresh_conf : PipyConf
fresh_conf = record {
  sidecar_log_level = codes "info";
  outbound = none;
  dns_resolve_db = [];
  chains = [];
  ts = none;
  version = none;
}

abbrev cart_cluster : WeightedCluster
cart_cluster = record { cluster_name = codes "shop/cart|80"; weight = 7 }

abbrev cart_deps : Assoc Text WeightedCluster
cart_deps = (codes "shop/cart|80", cart_cluster) ∷ []

abbrev made :
    Option (Option OutboundTrafficPolicy × Assoc Text WeightedCluster)
    → Option OutboundTrafficPolicy × Assoc Text WeightedCluster
made none = (none, [])
made (some m) = m

abbrev shop_made : Option OutboundTrafficPolicy × Assoc Text WeightedCluster
shop_made = made (generate_route_policy list_set none shop_policy)

shop_generated : generate_route_policy list_set none shop_policy ≡ some (shop_made.0, shop_made.1)
unfolding generate_route_policy get_outbound_mesh_traffic_policy list_outbound_services to_lower
    traffic_match_to_mesh_svc outbound_traffic_match_name decimal get_outbound_http_route_configs
    lookup add_route new_outbound_traffic_policy insert fqdn merge_upstream_clusters
    get_wild_card_route_upstream_clusters cluster_name is_multi_cluster_service remove fields_func
    lower split split_by get_dns_resolvable_service_endpoints list_mesh_services new_traffic_match
    set_protocol array_equal get_hostnames_for_service namespaced_name_from
    get_global_traffic_policy get_lb_weight_for_service deep_equal same_map namespaced_key
    provider_key string new_http_service_route_rules add_http_host_port2_service
shop_generated = refl

shop_depends : lookup (codes "shop/cart|80") shop_made.1 ≡ some cart_cluster
unfolding generate_route_policy get_outbound_mesh_traffic_policy list_outbound_services to_lower
    traffic_match_to_mesh_svc outbound_traffic_match_name decimal get_outbound_http_route_configs
    lookup add_route new_outbound_traffic_policy insert fqdn merge_upstream_clusters
    get_wild_card_route_upstream_clusters cluster_name is_multi_cluster_service remove fields_func
    lower split split_by get_dns_resolvable_service_endpoints list_mesh_services new_traffic_match
    set_protocol array_equal get_hostnames_for_service namespaced_name_from
    get_global_traffic_policy get_lb_weight_for_service deep_equal same_map namespaced_key
    provider_key string new_http_service_route_rules add_http_host_port2_service
shop_depends = refl

depends_example :
    (cart_cluster.cluster_name ≡ codes "shop/cart|80")
    × ((config : MeshClusterConfig) × (get_mesh_cluster_configs shop_policy.clusters_configs
            (codes "shop/cart|80")
          ≡ some config))
depends_example =
    depend_clusters_configured list_set (λ _. list_set) domain shop_catalog list_set-IsSetOps none
      shop_made.0 shop_made.1 shop_generated (codes "shop/cart|80") cart_cluster shop_depends

abbrev queue_match : TrafficMatch
queue_match = record {
  destination_port = 5672;
  destination_protocol = codes "TCP";
  name = codes "outbound_shop/queue_5672_tcp";
  weighted_clusters = cart_cluster ∷ [];
}

abbrev one_match : OutboundMeshTrafficPolicy (List WeightedCluster)
one_match = record {
  traffic_matches = queue_match ∷ [];
  http_route_configs_per_port = [];
  clusters_configs = [];
  services_resolvable_set = [];
}

abbrev queue_read : MeshService
queue_read = record {
  namespace = codes "shop";
  name = codes "queue";
  port = 0;
  target_port = 5672;
  protocol = codes "tcp";
  service_import_uid = [];
}

queue-Readable : Readable queue_match
unfolding traffic_match_to_mesh_svc to_lower
queue-Readable = (queue_read, refl)

generate_total_example :
    (after : Option OutboundTrafficPolicy) × (deps : Assoc Text WeightedCluster)
    × (generate_route_policy list_set none one_match ≡ some (after, deps))
    × Shared (outbound_or_new after)
generate_total_example =
    generate_route_policy_total list_set none one_match (queue-Readable, tt) new_policy-Shared
