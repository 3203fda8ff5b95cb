-- ===== src/Policy.antt =====
-- pkg/ecnet/service/policy: the traffic policies that the catalog builds, and `AddRoute`. Sets of
-- weighted clusters are those of an implementation of `mapset.Set`.
pub mod Routes
use erie_canal_net.Base.{
  ℕ, ◌+◌, Bool, true, false, ◌&&◌, List, [], ◌∷◌, ◌++◌, Option, none, some, Text, codes, ◌==◌,
  nat_eq, list_eq, list_beq, if◌then◌else◌, Assoc, lookup, remove, is_empty, SetOps,
}
use erie_canal_net.Service.{MeshService, WeightedCluster, weighted_cluster_eq}

-- types.go: `PathMatchType`
pub data PathMatchType : Type 0 where
  regex exact prefix : PathMatchType

abbrev pub path_match_type_beq : PathMatchType → PathMatchType → Bool
path_match_type_beq regex regex = true
path_match_type_beq exact exact = true
path_match_type_beq prefix prefix = true
path_match_type_beq _ _ = false

-- types.go: `HTTPRouteMatch`; `none` is a nil slice or map.
pub record HttpRouteMatch : Type 0 where
  pub path : Text
  pub path_match_type : PathMatchType
  pub methods : Option (List Text)
  pub headers : Option (Assoc Text Text)

-- types.go: `HTTPRouteMatchWithWeightedClusters`
pub record HttpRouteMatchWithWeightedClusters : Type 0 where
  pub upstream_clusters : List WeightedCluster
  pub route_matches : List HttpRouteMatch
  pub has_split_matches : Bool

-- types.go: `RouteWeightedClusters`, over the type of sets of clusters
pub record RouteWeightedClusters (C : Type 0) : Type 0 where
  pub http_route_match : HttpRouteMatch
  pub weighted_clusters : C

-- types.go: `OutboundTrafficPolicy`
pub record OutboundTrafficPolicy (C : Type 0) : Type 0 where
  pub name : Text
  pub hostnames : List Text
  pub routes : List (RouteWeightedClusters C)

-- types.go: `MeshClusterConfig`; `Address` and `Port` are never set.
pub record MeshClusterConfig : Type 0 where
  pub name : Text
  pub service : MeshService

-- types.go: `TrafficMatch`; `ServerNames` and `Cluster` are never set.
pub record TrafficMatch : Type 0 where
  pub destination_port : ℕ
  pub destination_protocol : Text
  pub name : Text
  pub weighted_clusters : List WeightedCluster

-- types.go: `OutboundMeshTrafficPolicy`
pub record OutboundMeshTrafficPolicy (C : Type 0) : Type 0 where
  pub traffic_matches : List TrafficMatch
  pub http_route_configs_per_port : Assoc ℕ (List (OutboundTrafficPolicy C))
  pub clusters_configs : List MeshClusterConfig
  pub services_resolvable_set : Assoc Text (List Text)

-- constants.go
abbrev pub regex_match_all : Text
regex_match_all = codes ".*"

abbrev pub wildcard_http_method : Text
wildcard_http_method = codes "*"

-- trafficpolicy.go: `WildCardRouteMatch`
abbrev pub wild_card_route_match : HttpRouteMatch
wild_card_route_match = record {
  path = regex_match_all;
  path_match_type = regex;
  methods = some (wildcard_http_method ∷ []);
  headers = none;
}

-- trafficpolicy.go: `NewOutboundTrafficPolicy`
unfoldable pub new_outbound_traffic_policy :
    {C : Type 0} → Text → List Text → OutboundTrafficPolicy C
new_outbound_traffic_policy name hostnames = record {
  name = name;
  hostnames = hostnames;
  routes = [];
}

-- `reflect.DeepEqual` on the parts of a route match: nil differs from empty, and two maps are equal
-- if they have the same keys with the same values.
same_methods : Option (List Text) → Option (List Text) → Bool
same_methods none none = true
same_methods (some a) (some b) = list_beq a b
same_methods _ _ = false

abbrev holds_value : Text → Option Text → Bool
holds_value v none = false
holds_value v (some w) = v == w

unfoldable pub same_map : Assoc Text Text → Assoc Text Text → Bool
same_map [] b = is_empty b
same_map ((k, v) ∷ a) b = holds_value v (lookup k b) && same_map a (remove k b)

same_headers : Option (Assoc Text Text) → Option (Assoc Text Text) → Bool
same_headers none none = true
same_headers (some a) (some b) = same_map a b
same_headers _ _ = false

unfoldable pub deep_equal : HttpRouteMatch → HttpRouteMatch → Bool
unfolding same_methods same_map same_headers
deep_equal a b =
    a.path == b.path
    && path_match_type_beq a.path_match_type b.path_match_type
    && same_methods a.methods b.methods
    && same_headers a.headers b.headers

module _ (S : SetOps WeightedCluster) where
  -- `wc := mapset.NewSet(); for _, c := range weightedClusters { wc.Add(c) }`
  abbrev pub add_all : List WeightedCluster → S.Set → S.Set
  add_all [] wc = wc
  add_all (c ∷ cs) wc = add_all cs (S.add c wc)

  abbrev pub cluster_set : List WeightedCluster → S.Set
  cluster_set cs = add_all cs S.new_set

  -- What the loop of `AddRoute` meets: no equal match, or the first route with an equal match.
  abbrev pub find_route :
      HttpRouteMatch → List (RouteWeightedClusters S.Set) → Option (RouteWeightedClusters S.Set)
  find_route m [] = none
  find_route m (route ∷ routes) =
      if deep_equal route.http_route_match m then some route else find_route m routes

  -- trafficpolicy.go: `AddRoute`. `none` is the error, and the policy is then as it was.
  unfoldable pub add_route :
      OutboundTrafficPolicy S.Set
      → HttpRouteMatch
      → List WeightedCluster
      → Option (OutboundTrafficPolicy S.Set)
  add_route out m weighted_clusters = elim (find_route m out.routes) [
    | none ↦ some (record out {
      routes =
          out.routes
          ++ record { http_route_match = m; weighted_clusters = cluster_set weighted_clusters }
            ∷ [];
    })
    | some existing ↦
        if S.equal existing.weighted_clusters (cluster_set weighted_clusters)
        then some out
        else none
  ]

  -- trafficpolicy.go: `TotalClustersWeight`
  abbrev pub sum_weights : List WeightedCluster → ℕ
  sum_weights [] = 0
  sum_weights (c ∷ cs) = c.weight + sum_weights cs

  unfoldable pub total_clusters_weight : RouteWeightedClusters S.Set → ℕ
  total_clusters_weight rwc = sum_weights (S.iter rwc.weighted_clusters)
