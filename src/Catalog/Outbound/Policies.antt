-- ===== src/Catalog/Outbound/Policies.antt =====
-- What `GetOutboundMeshTrafficPolicy` of pkg/ecnet/catalog builds for the services of the mesh.
use erie_canal_net.Base.{
  ℕ, ◌≡◌, refl, Bool, false, not, ◌&&◌, List, [], ◌∷◌, ◌++◌, Option, none, some, Text, arith, ◌==◌,
  nat_eq, list_eq, ==_iff, ◌||◌, codes, ltb, not_empty, Assoc, lookup, lookup-insert, if◌then◌else◌,
  SetOps, map, filterb, append_assoc, append-nil, inl, inr, Bool-cases, Option-cases,
}
use erie_canal_net.Service.{
  MeshService, WeightedCluster, weighted_cluster_eq, cluster_name, fqdn,
  outbound_traffic_match_name, is_multi_cluster_service,
}
use erie_canal_net.K8s.Hostnames.{get_hostnames_for_service}
use erie_canal_net.Policy.{
  OutboundTrafficPolicy, MeshClusterConfig, TrafficMatch, OutboundMeshTrafficPolicy, regex,
  new_outbound_traffic_policy, add_route,
}
use erie_canal_net.Catalog.Clusters.{merge_upstream_clusters, get_wild_card_route_upstream_clusters}
use erie_canal_net.Catalog.Services.{MeshCatalog, list_outbound_services}
use erie_canal_net.Catalog.Outbound.{
  add_service, add_services, no_policy, get_outbound_mesh_traffic_policy, http_policy,
  add_http_policy, append_at,
}

abbrev pub config_of : MeshService → MeshClusterConfig
config_of svc = record { name = cluster_name svc; service = svc }

-- The one weighted cluster of a service: of the weight 100 if the service is not imported. For an
-- imported one the balancing of its cluster decides: its own weight if it is an active one of a
-- positive weight, else 0 if it is for fail-over, and else 100.
abbrev pub own_cluster : MeshCatalog → MeshService → WeightedCluster
own_cluster mc svc =
    let lb = mc.get_lb_weight svc in
    record {
      cluster_name = cluster_name svc;
      weight =
          if not_empty svc.service_import_uid
          then (if lb.aa && ltb 0 lb.weight then lb.weight else if lb.fo then 0 else 100)
          else 100;
    }

module _ (S : SetOps WeightedCluster) (T : MeshService → SetOps Text) (trust_domain : Text)
    (mc : MeshCatalog) where
  abbrev pub match_of : MeshService → TrafficMatch
  match_of svc = record {
    destination_port = svc.port;
    destination_protocol = svc.protocol;
    name = outbound_traffic_match_name svc;
    weighted_clusters = own_cluster mc svc ∷ [];
  }

  -- The HTTP policy of a service: one route for every path and method to the service's own cluster.
  abbrev pub policy_of : MeshService → OutboundTrafficPolicy S.Set
  policy_of svc = record {
    name = fqdn svc;
    hostnames = get_hostnames_for_service trust_domain svc false;
    routes =
        record {
          http_route_match = record {
            path = codes ".*";
            path_match_type = regex;
            methods = some (codes "*" ∷ []);
            headers = none;
          };
          weighted_clusters = S.add (own_cluster mc svc) S.new_set;
        }
        ∷ [];
  }

  http_policy_lem : (svc : MeshService) → http_policy S T trust_domain mc svc ≡ some (policy_of svc)
  unfolding http_policy new_outbound_traffic_policy add_route get_wild_card_route_upstream_clusters
      merge_upstream_clusters is_multi_cluster_service
  http_policy_lem svc = refl

  traffic_matches-add_services :
      (acc : OutboundMeshTrafficPolicy S.Set) (svcs : List MeshService)
      → ((add_services S T trust_domain mc acc svcs).traffic_matches
          ≡ acc.traffic_matches ++ map match_of svcs)
        × ((add_services S T trust_domain mc acc svcs).clusters_configs
            ≡ acc.clusters_configs ++ map config_of svcs)
  unfolding add_services merge_upstream_clusters is_multi_cluster_service
  traffic_matches-add_services acc [] =
      ground (arith, append-nil acc.traffic_matches, append-nil acc.clusters_configs)
  traffic_matches-add_services acc (svc ∷ svcs) = ground (
    arith,
    traffic_matches-add_services (add_service S T trust_domain mc acc svc) svcs,
    append_assoc acc.traffic_matches (match_of svc ∷ []) (map match_of svcs),
    append_assoc acc.clusters_configs (config_of svc ∷ []) (map config_of svcs),
  )

  -- The services of a port that are neither `tcp` nor `tcp-server-first`
  abbrev pub http_on : ℕ → MeshService → Bool
  http_on port svc =
      not (svc.protocol == codes "tcp" || svc.protocol == codes "tcp-server-first")
      && svc.port == port

  abbrev bucket : ℕ → List MeshService → List (OutboundTrafficPolicy S.Set)
  bucket port svcs = map policy_of (filterb (http_on port) svcs)

  -- A key is there only with a policy.
  abbrev pub present :
      List (OutboundTrafficPolicy S.Set) → Option (List (OutboundTrafficPolicy S.Set))
  present [] = none
  present (p ∷ ps) = some (p ∷ ps)

  abbrev extend :
      Option (List (OutboundTrafficPolicy S.Set))
      → List (OutboundTrafficPolicy S.Set)
      → Option (List (OutboundTrafficPolicy S.Set))
  extend none ps = present ps
  extend (some qs) ps = some (qs ++ ps)

  extend_nil : (o : Option (List (OutboundTrafficPolicy S.Set))) → extend o [] ≡ o
  extend_nil none = refl
  extend_nil (some qs) = ground (arith, append-nil qs)

  extend-extend :
      (o : Option (List (OutboundTrafficPolicy S.Set))) (p : OutboundTrafficPolicy S.Set)
      (ps : List (OutboundTrafficPolicy S.Set))
      → extend (extend o (p ∷ [])) ps ≡ extend o (p ∷ ps)
  extend-extend none p ps = refl
  extend-extend (some qs) p ps = ground (arith, append_assoc qs (p ∷ []) ps)

  lookup-append_at :
      (port at : ℕ) (p : OutboundTrafficPolicy S.Set)
      (m : Assoc ℕ (List (OutboundTrafficPolicy S.Set)))
      → lookup port (append_at S T trust_domain mc at p m)
        ≡ (if at == port then extend (lookup port m) (p ∷ []) else lookup port m)
  unfolding append_at
  lookup-append_at port at p m = elim (Option-cases (lookup at m)) [
    | inl e ↦ ground (arith, e, lookup-insert at port (p ∷ []) m, ==_iff at port)
    | inr (ps, e) ↦ ground (arith, e, lookup-insert at port (ps ++ p ∷ []) m, ==_iff at port)
  ]

  filterb-http_on :
      (port : ℕ) (svc : MeshService) (svcs : List MeshService)
      → bucket port (svc ∷ svcs)
        ≡ (if http_on port svc then policy_of svc ∷ bucket port svcs else bucket port svcs)
  filterb-http_on port svc svcs = ground arith

  lookup-add_service :
      (port : ℕ) (acc : OutboundMeshTrafficPolicy S.Set) (svc : MeshService)
      → lookup port (add_service S T trust_domain mc acc svc).http_route_configs_per_port
        ≡ extend (lookup port acc.http_route_configs_per_port) (bucket port (svc ∷ []))
  unfolding add_service add_http_policy
  lookup-add_service port acc svc = ground (
    arith,
    http_policy_lem svc,
    extend_nil (lookup port acc.http_route_configs_per_port),
    lookup-append_at port svc.port (policy_of svc) acc.http_route_configs_per_port,
  )

  lookup-add_services :
      (port : ℕ) (acc : OutboundMeshTrafficPolicy S.Set) (svcs : List MeshService)
      → lookup port (add_services S T trust_domain mc acc svcs).http_route_configs_per_port
        ≡ extend (lookup port acc.http_route_configs_per_port) (bucket port svcs)
  unfolding add_services
  lookup-add_services port acc [] =
      ground (arith, extend_nil (lookup port acc.http_route_configs_per_port))
  lookup-add_services port acc (svc ∷ svcs) = elim (Bool-cases (http_on port svc)) [
    | inl on ↦ ground (
      arith,
      on,
      lookup-add_services port (add_service S T trust_domain mc acc svc) svcs,
      lookup-add_service port acc svc,
      extend-extend (lookup port acc.http_route_configs_per_port) (policy_of svc)
          (bucket port svcs),
    )
    | inr off ↦ ground (
      arith,
      off,
      lookup-add_services port (add_service S T trust_domain mc acc svc) svcs,
      lookup-add_service port acc svc,
      extend_nil (lookup port acc.http_route_configs_per_port),
    )
  ]

  -- The policy of the mesh has, for the services in the order in which the catalog lists them, one
  -- traffic match each, with the service's own port, protocol and name and its one weighted
  -- cluster, and one cluster each; and for every port the HTTP policies of the services of that
  -- port whose protocol is neither `tcp` nor `tcp-server-first`, in the same order, each with one
  -- route, for every path and method, to that one weighted cluster. A port without such a service
  -- has no entry. The weight is 100 but for an imported service: there it is the weight that its
  -- balancing gives, where it is active-active with a positive weight, else 0 where it is for fail-
  -- over, else 100.
  pub outbound_policy-eq :
      let policy = get_outbound_mesh_traffic_policy S T trust_domain mc in
      let services = list_outbound_services mc in
      (policy.traffic_matches ≡ map match_of services)
      × (policy.clusters_configs ≡ map config_of services)
      × ((port : ℕ)
          → lookup port policy.http_route_configs_per_port
            ≡ present (map policy_of (filterb (http_on port) services)))
  unfolding get_outbound_mesh_traffic_policy lookup
  outbound_policy-eq =
      let matches =
        traffic_matches-add_services (no_policy S T trust_domain mc) (list_outbound_services mc) in
      (
        matches.0,
        matches.1,
        λ port.
            lookup-add_services port (no_policy S T trust_domain mc) (list_outbound_services mc),
      )
