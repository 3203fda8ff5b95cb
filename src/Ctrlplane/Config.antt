-- ===== src/Ctrlplane/Config.antt =====
-- types.go and policy.go of pkg/ecnet/bridge/ctrlplane/server: the configuration of the proxy and
-- the operations that build it. A nil map is empty: the code makes a map before it writes to it.
pub mod Weights
pub mod Matches
pub mod Rules
use erie_canal_net.Base.{
  ℕ, zero, suc, ◌%◌, ◌^◌, Bool, true, false, ◌&&◌, ◌||◌, not, List, [], ◌∷◌, ◌++◌, Option, none,
  some, Text, codes, ◌==◌, nat_eq, list_eq, list_beq, if◌then◌else◌, Assoc, lookup, insert, remove,
  is_empty, not_empty, any, is_digit, decimal, to_lower, equal_fold, length,
}
use erie_canal_net.Multicluster.TrafficPolicy.{
  active_active, fail_over, cluster_weight_accept_all, cluster_weight_fail_over,
}
use erie_canal_net.Policy.{regex_match_all, same_map}
use erie_canal_net.Catalog.Clusters.{protocol_tcp, protocol_tcp_server_first}

-- types.go: `WeightedZoneEndpoint`
pub record WeightedZoneEndpoint : Type 0 where
  pub weight : ℕ
  pub cluster : Text
  pub lb_type : Text
  pub context_path : Text

-- types.go: `WeightedEndpoints`, by host and port
abbrev pub WeightedEndpoints : Type 0
WeightedEndpoints = Assoc Text WeightedZoneEndpoint

-- types.go: `ClusterConfigs`
pub record ClusterConfigs : Type 0 where
  pub endpoints : WeightedEndpoints

-- types.go: `HTTPMatchRule`
pub record HttpMatchRule : Type 0 where
  pub path : Text
  pub match_type : Text
  pub headers : Assoc Text Text
  pub methods : List Text
  pub allowed_any_method : Bool

-- types.go: `OutboundHTTPRouteRule`
pub record OutboundHttpRouteRule : Type 0 where
  pub http_match_rule : HttpMatchRule
  pub target_clusters : Assoc Text ℕ

-- types.go: `OutboundHTTPRouteRules`
pub record OutboundHttpRouteRules : Type 0 where
  pub route_rules : List OutboundHttpRouteRule

-- types.go: `OutboundTCPServiceRouteRules`
pub record OutboundTcpServiceRouteRules : Type 0 where
  pub target_clusters : Assoc Text ℕ

-- types.go: `OutboundTrafficMatch`
pub record OutboundTrafficMatch : Type 0 where
  pub port : ℕ
  pub protocol : Text
  pub http_host_port2_service : Assoc Text Text
  pub http_service_route_rules : Assoc Text OutboundHttpRouteRules
  pub tcp_service_route_rules : Option OutboundTcpServiceRouteRules

-- types.go: `OutboundTrafficPolicy`. Its two maps of traffic matches share their objects, so both
-- hold positions in `matches`, the objects in the order in which `new` made them.
pub record OutboundTrafficPolicy : Type 0 where
  pub matches : List OutboundTrafficMatch
  pub named_traffic_matches : Assoc Text ℕ
  pub traffic_matches : Assoc ℕ (List ℕ)
  pub clusters_configs : Assoc Text ClusterConfigs

-- `new(OutboundTrafficPolicy)` and `new(OutboundTrafficMatch)`
abbrev pub new_policy : OutboundTrafficPolicy
new_policy = record {
  matches = [];
  named_traffic_matches = [];
  traffic_matches = [];
  clusters_configs = [];
}

abbrev pub new_match : OutboundTrafficMatch
new_match = record {
  port = 0;
  protocol = [];
  http_host_port2_service = [];
  http_service_route_rules = [];
  tcp_service_route_rules = none;
}

-- `rebalancedOutboundClusters`: the weight of one endpoint
unfoldable pub rebalanced : Bool → WeightedZoneEndpoint → WeightedZoneEndpoint
rebalanced has_local_endpoints wze =
    if not_empty wze.cluster
    then (if wze.lb_type == fail_over
        then record wze {
          weight =
              if has_local_endpoints then cluster_weight_fail_over else cluster_weight_accept_all;
        }
        else if wze.lb_type == active_active && wze.weight == 0
        then record wze { weight = cluster_weight_accept_all }
        else wze)
    else if wze.weight == 0
    then record wze { weight = cluster_weight_accept_all }
    else wze

abbrev pub is_local : WeightedZoneEndpoint → Bool
is_local wze = is_empty wze.cluster

abbrev pub has_local : WeightedEndpoints → Bool
has_local [] = false
has_local ((_, wze) ∷ wes) = is_local wze || has_local wes

rebalance_endpoints : Bool → WeightedEndpoints → WeightedEndpoints
rebalance_endpoints l [] = []
rebalance_endpoints l ((k, wze) ∷ wes) = (k, rebalanced l wze) ∷ rebalance_endpoints l wes

rebalance_clusters : Assoc Text ClusterConfigs → Assoc Text ClusterConfigs
unfolding rebalance_endpoints
rebalance_clusters [] = []
rebalance_clusters ((name, cc) ∷ ccs) =
    (name, record cc { endpoints = rebalance_endpoints (has_local cc.endpoints) cc.endpoints })
    ∷ rebalance_clusters ccs

-- `rebalancedOutboundClusters`
unfoldable pub rebalanced_outbound_clusters :
    Option OutboundTrafficPolicy → Option OutboundTrafficPolicy
unfolding rebalance_clusters
rebalanced_outbound_clusters none = none
rebalanced_outbound_clusters (some otp) =
    some (record otp { clusters_configs = rebalance_clusters otp.clusters_configs })

-- `setPort`
abbrev pub set_port : ℕ → OutboundTrafficMatch → OutboundTrafficMatch
set_port port otm = record otm { port = port }

-- `setProtocol`
unfoldable pub set_protocol : Text → OutboundTrafficMatch → OutboundTrafficMatch
set_protocol protocol otm =
    let lowered = to_lower protocol in
    record otm { protocol = if protocol_tcp_server_first == lowered then protocol_tcp else lowered }

-- `newTCPServiceRouteRules`: the rules that the match has then
abbrev pub tcp_rules : Option OutboundTcpServiceRouteRules → OutboundTcpServiceRouteRules
tcp_rules none = record { target_clusters = [] }
tcp_rules (some rules) = rules

unfoldable pub new_tcp_service_route_rules : OutboundTrafficMatch → OutboundTrafficMatch
new_tcp_service_route_rules otm = record otm {
  tcp_service_route_rules = some (tcp_rules otm.tcp_service_route_rules);
}

-- `OutboundTCPServiceRouteRules.addWeightedCluster`, on the rules of the match
unfoldable pub add_tcp_weighted_cluster : Text → ℕ → OutboundTrafficMatch → OutboundTrafficMatch
add_tcp_weighted_cluster cluster_name weight otm = record otm {
  tcp_service_route_rules = some (record {
    target_clusters =
        insert cluster_name weight (tcp_rules otm.tcp_service_route_rules).target_clusters;
  });
}

-- `addHTTPHostPort2Service`
unfoldable pub add_http_host_port2_service :
    Text → Text → OutboundTrafficMatch → OutboundTrafficMatch
add_http_host_port2_service host_port rule_name otm = record otm {
  http_host_port2_service = insert host_port rule_name otm.http_host_port2_service;
}

unfoldable pub no_rules : OutboundHttpRouteRules
no_rules = record { route_rules = [] }

-- `newHTTPServiceRouteRules`: the rules of a name, and the match that then has them; an empty name
-- gives nil.
unfoldable pub new_http_service_route_rules :
    Text → OutboundTrafficMatch → Option OutboundHttpRouteRules × OutboundTrafficMatch
unfolding no_rules
new_http_service_route_rules rule_name otm =
    if is_empty rule_name
    then (none, otm)
    else elim (lookup rule_name otm.http_service_route_rules) [
      | none ↦ (
        some no_rules,
        record otm {
          http_service_route_rules = insert rule_name no_rules otm.http_service_route_rules;
        },
      )
      | some rules ↦ (some rules, otm)
    ]

abbrev pub named_port : ℕ → Text → Text
named_port port name = decimal port ++ b'=' ∷ name

abbrev pub matches_at : Option (List ℕ) → List ℕ
matches_at none = []
matches_at (some ptrs) = ptrs

-- `newTrafficMatch`: where the match stands, whether it was there, and the policy that has it.
unfoldable pub new_traffic_match :
    ℕ → Text → OutboundTrafficPolicy → ℕ × Bool × OutboundTrafficPolicy
new_traffic_match port name otp = elim (lookup (named_port port name) otp.named_traffic_matches) [
  | some ptr ↦ (ptr, true, otp)
  | none ↦
      let ptr = length otp.matches in
      (
        ptr,
        false,
        record otp {
          matches = otp.matches ++ new_match ∷ [];
          named_traffic_matches = insert (named_port port name) ptr otp.named_traffic_matches;
          traffic_matches =
              insert port (matches_at (lookup port otp.traffic_matches) ++ ptr ∷ [])
                otp.traffic_matches;
        },
      )
]

-- A write through a pointer.
abbrev pub update_at : {A : Type 0} → ℕ → (A → A) → List A → List A
update_at i f [] = []
update_at zero f (x ∷ xs) = f x ∷ xs
update_at (suc i) f (x ∷ xs) = x ∷ update_at i f xs

abbrev pub write_match :
    ℕ
    → (OutboundTrafficMatch → OutboundTrafficMatch)
    → OutboundTrafficPolicy
    → OutboundTrafficPolicy
write_match ptr f otp = record otp { matches = update_at ptr f otp.matches }

-- `reflect.DeepEqual` on two match rules
unfoldable pub same_rule : HttpMatchRule → HttpMatchRule → Bool
same_rule a b =
    a.path == b.path
    && a.match_type == b.match_type
    && same_map a.headers b.headers
    && list_beq a.methods b.methods
    && same_flag a.allowed_any_method b.allowed_any_method
  where
    same_flag : Bool → Bool → Bool
    same_flag true b = b
    same_flag false b = not b

-- `newHTTPServiceRouteRule`, with the write to the route that it returns: the first route whose rule
-- equals the given one, or a new one at the end.
unfoldable pub with_route_rule :
    HttpMatchRule
    → (OutboundHttpRouteRule → OutboundHttpRouteRule)
    → List OutboundHttpRouteRule
    → List OutboundHttpRouteRule
with_route_rule rule write [] = write (record { http_match_rule = rule; target_clusters = [] }) ∷ []
with_route_rule rule write (r ∷ rs) =
    let rest = with_route_rule rule write rs in
    if same_rule rule r.http_match_rule then write r ∷ rs else r ∷ rest

-- `addHeaderMatch`
unfoldable pub add_header_match : Text → Text → HttpMatchRule → HttpMatchRule
add_header_match header header_regexp hmr = record hmr {
  headers = insert header header_regexp hmr.headers;
}

-- `addMethodMatch`
unfoldable pub add_method_match : Text → HttpMatchRule → HttpMatchRule
add_method_match method hmr =
    if hmr.allowed_any_method
    then hmr
    else if method == codes "*"
    then record hmr { allowed_any_method = true; methods = [] }
    else record hmr { methods = hmr.methods ++ method ∷ [] }

-- `HTTPRouteRule.addWeightedCluster`
unfoldable pub add_weighted_cluster : Text → ℕ → OutboundHttpRouteRule → OutboundHttpRouteRule
add_weighted_cluster cluster_name weight hrr = record hrr {
  target_clusters = insert cluster_name weight hrr.target_clusters;
}

-- `newClusterConfigs`: the configuration of a cluster, and the policy that then has it.
abbrev pub cluster_or_new : Option ClusterConfigs → ClusterConfigs
cluster_or_new none = record { endpoints = [] }
cluster_or_new (some cc) = cc

unfoldable pub new_cluster_configs : Text → OutboundTrafficPolicy → OutboundTrafficPolicy
new_cluster_configs cluster_name otp = record otp {
  clusters_configs =
      insert cluster_name (cluster_or_new (lookup cluster_name otp.clusters_configs))
        otp.clusters_configs;
}

all_digits : Text → Bool
all_digits s = not (any (λ c. not (is_digit c)) s)

-- `addrWithPort`, the expression `:\d+$`
unfoldable pub addr_with_port : Text → Bool
unfolding all_digits
addr_with_port [] = false
addr_with_port (c ∷ s) = (c == b':' && not_empty s && all_digits s) || addr_with_port s

-- The key under which `addWeightedZoneEndpoint` writes
unfoldable pub http_host_port : Text → ℕ → Text
unfolding addr_with_port
http_host_port address port =
    if addr_with_port address then address else address ++ b':' ∷ decimal port

-- `WeightedEndpoints.addWeightedZoneEndpoint`
unfoldable pub add_weighted_zone_endpoint :
    Text → ℕ → ℕ → Text → Text → Text → WeightedEndpoints → WeightedEndpoints
unfolding http_host_port
add_weighted_zone_endpoint address port weight cluster lb_type context_path wes =
    insert (http_host_port address port)
      (record {
        weight = weight;
        cluster = cluster;
        lb_type = lb_type;
        context_path = context_path;
      })
      wes
