-- ===== src/Ctrlplane/Routes.antt =====
-- util.go of pkg/ecnet/bridge/ctrlplane/server: `generatePipyOutboundTrafficRoutePolicy`. `none` is the
-- panic of a nil dereference. A pointer to the rules of a name or to one rule is only used while the
-- map or the slice holds it, so its writes are writes to the map or the slice.
pub mod Steps
pub mod Totality
pub mod Configs
pub mod Depends
use erie_canal_net.Base.{
  ℕ, zero, suc, ◌%◌, ◌^◌, Bool, true, false, ◌&&◌, ◌||◌, not, List, [], ◌∷◌, ◌++◌, Option, none,
  some, Text, codes, ◌==◌, nat_eq, list_eq, if◌then◌else◌, Assoc, lookup, insert, has_key, is_empty,
  any, length, to_lower, SetOps,
}
use erie_canal_net.Service.{WeightedCluster, weighted_cluster_eq, fqdn}
use erie_canal_net.Policy.{
  PathMatchType, regex, exact, prefix, RouteWeightedClusters, TrafficMatch,
  OutboundMeshTrafficPolicy, regex_match_all, HttpRouteMatch,
}
use erie_canal_net.Policy.{OutboundTrafficPolicy as HttpPolicy}
use erie_canal_net.Catalog.Clusters.{
  protocol_http, protocol_https, protocol_tcp, protocol_grpc, protocol_tcp_server_first,
}
use erie_canal_net.Ctrlplane.Names.{traffic_match_to_mesh_svc}
use erie_canal_net.Ctrlplane.Config.{
  HttpMatchRule, OutboundHttpRouteRule, OutboundHttpRouteRules, OutboundTrafficMatch,
  OutboundTrafficPolicy, new_policy, set_port, set_protocol, new_tcp_service_route_rules,
  add_tcp_weighted_cluster, add_http_host_port2_service, new_http_service_route_rules,
  new_traffic_match, write_match, with_route_rule, add_header_match, add_method_match,
  add_weighted_cluster,
}

-- `matchType`
abbrev pub match_type : PathMatchType → Text
match_type exact = codes "Exact"
match_type prefix = codes "Prefix"
match_type regex = codes "Regex"

abbrev same_cluster : WeightedCluster → WeightedCluster → Bool
same_cluster ca cb = ca.cluster_name == cb.cluster_name && ca.weight == cb.weight

abbrev all_among : List WeightedCluster → List WeightedCluster → Bool
all_among [] bs = true
all_among (a ∷ rest) bs = any (same_cluster a) bs && all_among rest bs

-- The state of the loop: the policy, and `dependClusters`
pub record Generated : Type 0 where
  pub otp : OutboundTrafficPolicy
  pub depend_clusters : Assoc Text WeightedCluster

depend_on : List WeightedCluster → Assoc Text WeightedCluster → Assoc Text WeightedCluster
depend_on [] deps = deps
depend_on (c ∷ cs) deps =
    depend_on cs (if has_key c.cluster_name deps then deps else insert c.cluster_name c deps)

-- The rule of a route: `*` where the match names no method.
add_headers : Assoc Text Text → HttpMatchRule → HttpMatchRule
add_headers [] rule = rule
add_headers ((k, v) ∷ headers) rule = add_headers headers (add_header_match k v rule)

add_all_methods : List Text → HttpMatchRule → HttpMatchRule
add_all_methods [] rule = rule
add_all_methods (m ∷ ms) rule = add_all_methods ms (add_method_match m rule)

add_route_methods : List Text → HttpMatchRule → HttpMatchRule
unfolding add_all_methods
add_route_methods [] rule = add_method_match (codes "*") rule
add_route_methods (m ∷ ms) rule = add_all_methods (m ∷ ms) rule

abbrev or_empty : {A : Type 0} → Option (List A) → List A
or_empty none = []
or_empty (some xs) = xs

unfoldable pub http_match : HttpRouteMatch → HttpMatchRule
unfolding add_headers add_route_methods
http_match m = add_route_methods (or_empty m.methods) (
    add_headers (or_empty m.headers) (record {
      path = if is_empty m.path then regex_match_all else m.path;
      match_type = match_type m.path_match_type;
      headers = [];
      methods = [];
      allowed_any_method = false;
    }))

add_clusters : List WeightedCluster → OutboundHttpRouteRule → OutboundHttpRouteRule
add_clusters [] hsrr = hsrr
add_clusters (c ∷ cs) hsrr =
    add_clusters cs (add_weighted_cluster c.cluster_name (c.weight % 2 ^ 32) hsrr)

add_tcp_clusters : List WeightedCluster → OutboundTrafficMatch → OutboundTrafficMatch
add_tcp_clusters [] tm = tm
add_tcp_clusters (c ∷ cs) tm =
    add_tcp_clusters cs (add_tcp_weighted_cluster c.cluster_name (c.weight % 2 ^ 32) tm)

add_hosts : List Text → Text → OutboundTrafficMatch → OutboundTrafficMatch
add_hosts [] rule_name tm = tm
add_hosts (h ∷ hs) rule_name tm =
    add_hosts hs rule_name (add_http_host_port2_service h rule_name tm)

abbrev pub is_http : Text → Bool
is_http protocol = protocol == protocol_http || protocol == protocol_grpc

abbrev is_tcp_like : Text → Bool
is_tcp_like protocol = protocol == protocol_tcp || protocol == protocol_tcp_server_first

abbrev match_name : TrafficMatch → Text
match_name tm = if is_http (to_lower tm.destination_protocol) then protocol_http else tm.name

-- A new traffic match gets its protocol and its port.
started : ℕ → Text → ℕ × Bool × OutboundTrafficPolicy → ℕ × OutboundTrafficPolicy
started port protocol (ptr, true, otp) = (ptr, otp)
started port protocol (ptr, false, otp) =
    (ptr, write_match ptr (λ tm. set_port port (set_protocol protocol tm)) otp)

-- A pointer is read, and what is made of the match is written.
abbrev pub nth : {A : Type 0} → ℕ → List A → Option A
nth i [] = none
nth zero (x ∷ xs) = some x
nth (suc i) (x ∷ xs) = nth i xs

abbrev modify_match :
    ℕ
    → (OutboundTrafficMatch → Option OutboundTrafficMatch)
    → OutboundTrafficPolicy
    → Option OutboundTrafficPolicy
modify_match ptr f otp = elim (nth ptr otp.matches) [
  | none ↦ none
  | some tm ↦ elim (f tm) [ none ↦ none | some tm' ↦ some (write_match ptr (λ _. tm') otp) ]
]

pub tcp_targets :
    ℕ → List WeightedCluster → OutboundTrafficPolicy → Assoc Text WeightedCluster → Generated
unfolding add_tcp_clusters depend_on
tcp_targets ptr clusters otp deps = record {
  otp = write_match ptr (λ tm. add_tcp_clusters clusters (new_tcp_service_route_rules tm)) otp;
  depend_clusters = depend_on clusters deps;
}

-- `newOutboundTrafficPolicy` of `PipyConf`
abbrev pub outbound_or_new : Option OutboundTrafficPolicy → OutboundTrafficPolicy
outbound_or_new none = new_policy
outbound_or_new (some otp) = otp

module _ (S : SetOps WeightedCluster) where
  -- `arrayEqual`
  unfoldable pub array_equal : List WeightedCluster → S.Set → Bool
  array_equal a set =
      let b = S.iter set in if length a == length b then all_among a b && all_among b a else false

  has_equal_route : List WeightedCluster → List (RouteWeightedClusters S.Set) → Bool
  unfolding array_equal
  has_equal_route clusters routes = any (λ r. array_equal clusters r.weighted_clusters) routes

  policies_for : Text → List WeightedCluster → List (HttpPolicy S.Set) → List (HttpPolicy S.Set)
  unfolding has_equal_route
  policies_for name clusters [] = []
  policies_for name clusters (p ∷ ps) =
      let rest = policies_for name clusters ps in
      if p.name == name && has_equal_route clusters p.routes then p ∷ rest else rest

  -- `getOutboundHTTPRouteConfigs`
  unfoldable pub get_outbound_http_route_configs :
      Assoc ℕ (List (HttpPolicy S.Set)) → ℕ → Text → List WeightedCluster → List (HttpPolicy S.Set)
  unfolding policies_for
  get_outbound_http_route_configs configs target_port name clusters =
      elim (lookup target_port configs) [
        | none ↦ []
        | some policies ↦ policies_for name clusters policies
      ]

  add_routes : List (RouteWeightedClusters S.Set) → OutboundHttpRouteRules → OutboundHttpRouteRules
  unfolding add_clusters
  add_routes [] rules = rules
  add_routes (r ∷ rs) rules = add_routes rs (record {
    route_rules =
        with_route_rule (http_match r.http_route_match) (add_clusters (S.iter r.weighted_clusters))
          rules.route_rules;
  })

  unfoldable pub route_clusters : List (RouteWeightedClusters S.Set) → List WeightedCluster
  route_clusters [] = []
  route_clusters (r ∷ rs) = S.iter r.weighted_clusters ++ route_clusters rs

  pub config_clusters : List (HttpPolicy S.Set) → List WeightedCluster
  unfolding route_clusters
  config_clusters [] = []
  config_clusters (p ∷ ps) = route_clusters p.routes ++ config_clusters ps

  -- One HTTP route configuration is added to a traffic match.
  put_routes :
      HttpPolicy S.Set
      → Option OutboundHttpRouteRules × OutboundTrafficMatch
      → Option OutboundTrafficMatch
  unfolding add_routes add_hosts
  put_routes config (none, tm) =
      if is_empty config.routes then some (add_hosts config.hostnames config.name tm) else none
  put_routes config (some rules, tm) =
      let hosted = add_hosts config.hostnames config.name tm in
      some (record hosted {
        http_service_route_rules =
            insert config.name (add_routes config.routes rules) hosted.http_service_route_rules;
      })

  add_configs : List (HttpPolicy S.Set) → OutboundTrafficMatch → Option OutboundTrafficMatch
  unfolding put_routes
  add_configs [] tm = some tm
  add_configs (config ∷ configs) tm =
      elim (put_routes config (new_http_service_route_rules config.name tm)) [
        | none ↦ none
        | some tm' ↦ add_configs configs tm'
      ]

  pub http_rules :
      ℕ
      → List (HttpPolicy S.Set)
      → OutboundTrafficPolicy
      → Assoc Text WeightedCluster
      → Option Generated
  unfolding add_configs depend_on config_clusters
  http_rules ptr configs otp deps = elim (modify_match ptr (add_configs configs) otp) [
    | none ↦ none
    | some otp' ↦
        some (record { otp = otp'; depend_clusters = depend_on (config_clusters configs) deps })
  ]

  pub configs_for :
      OutboundMeshTrafficPolicy S.Set → TrafficMatch → Option (List (HttpPolicy S.Set))
  configs_for policy tm = elim (traffic_match_to_mesh_svc tm) [
    | none ↦ none
    | some upstream_svc ↦ some (
        get_outbound_http_route_configs policy.http_route_configs_per_port upstream_svc.target_port
          (fqdn upstream_svc) tm.weighted_clusters)
  ]

  pub when_configured :
      Option (List (HttpPolicy S.Set))
      → Generated
      → (List (HttpPolicy S.Set) → Option Generated)
      → Option Generated
  when_configured none g make = none
  when_configured (some []) g make = some g
  when_configured (some (p ∷ ps)) g make = make (p ∷ ps)

  -- The branches over the protocol, for a traffic match that stands at `ptr`.
  fill_match :
      OutboundMeshTrafficPolicy S.Set
      → TrafficMatch
      → Assoc Text WeightedCluster
      → ℕ × OutboundTrafficPolicy
      → Option Generated
  unfolding http_rules tcp_targets configs_for when_configured config_clusters
  fill_match policy tm deps (ptr, otp) =
      let protocol = to_lower tm.destination_protocol in
      let unchanged : Generated = record { otp = otp; depend_clusters = deps } in
      if is_http protocol
      then when_configured (configs_for policy tm) unchanged
          (λ configs. http_rules ptr configs otp deps)
      else if is_tcp_like protocol
      then some (tcp_targets ptr tm.weighted_clusters otp deps)
      else if protocol == protocol_https
      then when_configured (configs_for policy tm) unchanged
          (λ configs. some (tcp_targets ptr (config_clusters configs) otp deps))
      else some unchanged

  generate_match : OutboundMeshTrafficPolicy S.Set → TrafficMatch → Generated → Option Generated
  unfolding started fill_match
  generate_match policy tm g =
      let port = tm.destination_port % 2 ^ 16 in
      fill_match policy tm g.depend_clusters (
        started port (to_lower tm.destination_protocol)
          (new_traffic_match port (match_name tm) g.otp))

  generate_matches :
      OutboundMeshTrafficPolicy S.Set → List TrafficMatch → Generated → Option Generated
  unfolding generate_match
  generate_matches policy [] g = some g
  generate_matches policy (tm ∷ tms) g = elim (generate_match policy tm g) [
    | none ↦ none
    | some g' ↦ generate_matches policy tms g'
  ]

  -- `generatePipyOutboundTrafficRoutePolicy`: the outbound policy of the configuration, and the
  -- clusters that it depends on.
  unfoldable pub generate_route_policy :
      Option OutboundTrafficPolicy
      → OutboundMeshTrafficPolicy S.Set
      → Option (Option OutboundTrafficPolicy × Assoc Text WeightedCluster)
  unfolding generate_matches
  generate_route_policy outbound policy =
      if is_empty policy.traffic_matches
      then some (outbound, [])
      else elim (generate_matches policy policy.traffic_matches
          (record { otp = outbound_or_new outbound; depend_clusters = [] })) [
            | none ↦ none
            | some g ↦ some (some g.otp, g.depend_clusters)
          ]
