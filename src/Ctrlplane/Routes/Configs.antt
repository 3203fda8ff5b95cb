-- ===== src/Ctrlplane/Routes/Configs.antt =====
-- `getOutboundHTTPRouteConfigs` of pkg/ecnet/bridge/ctrlplane/server/util.go on the outbound policy of
-- pkg/ecnet/catalog.
use erie_canal_net.Base.{
  ◌<◌, ◌^◌, not_empty, Free, ◌≡◌, refl, Bool, true, false, ◌&&◌, List, [], ◌∷◌, some, Text, arith,
  ◌==◌, nat_eq, list_eq, ==_refl, map, filterb, Among, contains, Distinct, SetOps, IsSetOps, inl,
  inr, ap, Bool-cases, Eq,
}
use erie_canal_net.Ctrlplane.Names.{match_separator, traffic_match_to_mesh_svc}
use erie_canal_net.Ctrlplane.Names.Laws.{traffic_match_to_mesh_svc-name}
use erie_canal_net.Service.{
  IsLabel, IsName, MeshService, WeightedCluster, weighted_cluster_eq, fqdn,
  is_multi_cluster_service,
}
use erie_canal_net.Policy.{OutboundMeshTrafficPolicy, cluster_set}
use erie_canal_net.Policy.{OutboundTrafficPolicy as HttpPolicy}
use erie_canal_net.Catalog.Clusters.{merge_upstream_clusters}
use erie_canal_net.Catalog.Services.{MeshCatalog, list_outbound_services}
use erie_canal_net.Catalog.Outbound.{get_outbound_mesh_traffic_policy, is_tcp}
use erie_canal_net.Catalog.Outbound.Policies.{
  match_of, policy_of, own_cluster, present, http_on, outbound_policy-eq,
}
use erie_canal_net.Ctrlplane.Routes.{
  array_equal, policies_for, has_equal_route, get_outbound_http_route_configs,
}

-- A list without repetition whose elements are just one element is that element alone.
singleton :
    {A : Type 0} ⦃e : Eq A⦄ (a : A) (xs : List A)
    → Distinct xs
    → contains a xs ≡ true
    → ((b : A) → contains b xs ≡ true → (a == b) ≡ true)
    → xs ≡ a ∷ []
singleton a [] d c only = ground arith
singleton ⦃e⦄ a (x ∷ []) d c only = ground (arith, e.test_iff x a)
singleton ⦃e⦄ a (x ∷ y ∷ xs) d c only = ground (
  arith,
  e.test_iff a x,
  e.test_iff a y,
  e.test_iff y x,
  e.test_iff x x,
  e.test_iff y y,
  only x,
  only y,
  d.0,
)

module _ (S : SetOps WeightedCluster) (laws : IsSetOps S) where
  iter-one : (c : WeightedCluster) → S.iter (S.add c S.new_set) ≡ c ∷ []
  iter-one c =
      singleton c (S.iter (S.add c S.new_set)) (laws.iter-Distinct (S.add c S.new_set))
        (ground (arith, laws.contains-add c c S.new_set, ==_refl c))
        (λ b h. ground (arith, laws.contains-add c b S.new_set, laws.contains-new_set b))

  array_equal-one : (c : WeightedCluster) → array_equal S (c ∷ []) (cluster_set S (c ∷ [])) ≡ true
  unfolding array_equal
  array_equal-one c =
      rw (array_equal, iter-one c) (ground (arith, ==_refl c.cluster_name, ==_refl c.weight))

  -- The set of the clusters of a service has the one cluster of the service.
  pub iter-own :
      (mc : MeshCatalog) (svc : MeshService)
      → S.iter (cluster_set S (merge_upstream_clusters mc svc []))
        ≡ merge_upstream_clusters mc svc []
  unfolding merge_upstream_clusters
  iter-own mc svc = iter-one _

  policies_for-Among :
      (name : Text) (clusters : List WeightedCluster) (p : HttpPolicy S.Set)
      (ps : List (HttpPolicy S.Set))
      → p.name ≡ name
      → has_equal_route S clusters p.routes ≡ true
      → Among p ps
      → Among p (policies_for S name clusters ps)
  unfolding policies_for
  policies_for-Among name clusters p [] n h m = m
  policies_for-Among name clusters p (q ∷ ps) n h (inl same) =
      rw (policies_for, ← same, n, ==_refl name, h) (inl refl)
  policies_for-Among name clusters p (q ∷ ps) n h (inr later) =
      elim (Bool-cases (q.name == name && has_equal_route S clusters q.routes)) [
        | inl e ↦ rw e (inr (policies_for-Among name clusters p ps n h later))
        | inr e ↦ rw e (policies_for-Among name clusters p ps n h later)
      ]

Among-map : {A B : Type 0} (f : A → B) (a : A) (xs : List A) → Among a xs → Among (f a) (map f xs)
Among-map f a [] m = elim m [ ]
Among-map f a (x ∷ xs) (inl e) = inl (ap f e)
Among-map f a (x ∷ xs) (inr m) = inr (Among-map f a xs m)

Among-filterb :
    {A : Type 0} (p : A → Bool) (a : A) (xs : List A)
    → p a ≡ true
    → Among a xs
    → Among a (filterb p xs)
Among-filterb p a [] h m = elim m [ ]
Among-filterb p a (x ∷ xs) h (inl e) = rw (← e, h) (inl refl)
Among-filterb p a (x ∷ xs) h (inr m) = elim (Bool-cases (p x)) [
  | inl k ↦ rw k (inr (Among-filterb p a xs h m))
  | inr k ↦ rw k (Among-filterb p a xs h m)
]

module _ (S : SetOps WeightedCluster) (T : MeshService → SetOps Text) (trust_domain : Text)
    (mc : MeshCatalog) (laws : IsSetOps S) (svc : MeshService) where
  present-some :
      (p : HttpPolicy S.Set) (ps : List (HttpPolicy S.Set))
      → Among p ps
      → present S T trust_domain mc ps ≡ some ps
  present-some p [] m = elim m [ ]
  present-some p (q ∷ ps) m = refl

  policy : OutboundMeshTrafficPolicy S.Set
  policy = get_outbound_mesh_traffic_policy S T trust_domain mc

  has_own_route :
      has_equal_route S
        (merge_upstream_clusters mc svc [])
        (policy_of S T trust_domain mc svc).routes
      ≡ true
  unfolding has_equal_route merge_upstream_clusters is_multi_cluster_service
  has_own_route = rw (array_equal-one S laws (own_cluster mc svc)) refl

  found_by_port :
      Among svc (list_outbound_services mc)
      → is_tcp S T trust_domain mc svc ≡ false
      → Among (policy_of S T trust_domain mc svc) (
          get_outbound_http_route_configs S policy.http_route_configs_per_port svc.port
            (fqdn svc)
            (merge_upstream_clusters mc svc []))
  unfolding get_outbound_http_route_configs policy
  found_by_port m http =
      let policies =
        map (policy_of S T trust_domain mc)
          (filterb (http_on S T trust_domain mc svc.port) (list_outbound_services mc)) in
      let there : Among (policy_of S T trust_domain mc svc) policies =
        Among-map (policy_of S T trust_domain mc) svc
          (filterb (http_on S T trust_domain mc svc.port) (list_outbound_services mc))
          (Among-filterb (http_on S T trust_domain mc svc.port) svc (list_outbound_services mc)
            (ground (arith, ==_refl svc.port)) m) in
      rw
        (
          get_outbound_http_route_configs,
          (outbound_policy-eq S T trust_domain mc).2 svc.port,
          present-some (policy_of S T trust_domain mc svc) policies there,
        )
        (policies_for-Among S laws (fqdn svc) (merge_upstream_clusters mc svc [])
          (policy_of S T trust_domain mc svc) policies refl has_own_route there)

  -- For each service of the catalog whose protocol is neither `tcp` nor `tcp-server-first`, whose
  -- namespace is a DNS label, whose name is a DNS name, and whose protocol is not empty and holds no
  -- underscore, the control plane reads its traffic match back as a service under whose port and
  -- FQDN it finds, for the clusters of the match, the HTTP policy of the service among those that the
  -- catalog built, whatever set implementation is used.
  pub outbound_route_configs_found :
      Among svc (list_outbound_services mc)
      → is_tcp S T trust_domain mc svc ≡ false
      → IsLabel svc.namespace
      → IsName svc.name
      → not_empty svc.protocol ≡ true
      → Free match_separator svc.protocol
      → svc.port < 2 ^ 16
      → (upstream : MeshService) × (traffic_match_to_mesh_svc (match_of S T trust_domain mc svc)
          ≡ some upstream)
        × Among (policy_of S T trust_domain mc svc) (
            get_outbound_http_route_configs S
              (get_outbound_mesh_traffic_policy S T trust_domain mc).http_route_configs_per_port
              upstream.target_port
              (fqdn upstream)
              (match_of S T trust_domain mc svc).weighted_clusters)
  unfolding policy fqdn merge_upstream_clusters is_multi_cluster_service
  outbound_route_configs_found m http ls ln p f h = (
    _,
    traffic_match_to_mesh_svc-name svc ls ln (match_of S T trust_domain mc svc) refl p f h,
    found_by_port m http,
  )
