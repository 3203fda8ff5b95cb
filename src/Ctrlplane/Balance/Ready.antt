-- ===== src/Ctrlplane/Balance/Ready.antt =====
-- Whether the endpoints of every cluster are there: `generatePipyOutboundTrafficBalancePolicy` of
-- pkg/ecnet/bridge/ctrlplane/server/util.go after the catalog's `GetOutboundMeshTrafficPolicy`.
use erie_canal_net.Base.{
  ◌<◌, ◌^◌, ◌≡◌, refl, subst, Bool, true, false, not, ◌&&◌, List, [], ◌∷◌, Option, none, some, Text,
  arith, ◌==◌, nat_eq, list_eq, ==_refl, Assoc, lookup, is_empty, All, All-append, map, filterb,
  inl, inr, Bool-cases, Option-cases, SetOps, IsSetOps, Among,
}
use erie_canal_net.Service.{
  MeshService, WeightedCluster, weighted_cluster_eq, cluster_name, is_multi_cluster_service,
  IsLabel, IsName,
}
use erie_canal_net.Policy.{MeshClusterConfig, OutboundMeshTrafficPolicy, cluster_set}
use erie_canal_net.Policy.{OutboundTrafficPolicy as HttpPolicy}
use erie_canal_net.Catalog.Clusters.{merge_upstream_clusters}
use erie_canal_net.Catalog.Services.{
  MeshCatalog, list_outbound_services, list_upstream_endpoints_for_service,
}
use erie_canal_net.Catalog.Outbound.{get_outbound_mesh_traffic_policy}
use erie_canal_net.Catalog.Outbound.Policies.{
  match_of, config_of, policy_of, present, http_on, outbound_policy-eq,
}
use erie_canal_net.Ctrlplane.Names.Laws.{cluster_to_mesh_svc-cluster_name}
use erie_canal_net.Ctrlplane.Config.{OutboundTrafficPolicy}
use erie_canal_net.Ctrlplane.Routes.{generate_route_policy, route_clusters, outbound_or_new}
use erie_canal_net.Ctrlplane.Routes.Configs.{iter-own}
use erie_canal_net.Ctrlplane.Routes.Depends.{
  Fit, FitPolicy, FitPort, FitMesh, generate_route_policy-Depends,
}
use erie_canal_net.Ctrlplane.Balance.{
  get_mesh_cluster_configs, get_upstream_endpoints, balance_configured, balance_clusters,
  generate_balance_policy,
}

-- A cluster with a configuration and with endpoints
abbrev pub is_ready : MeshCatalog → List MeshClusterConfig → Text → Bool
is_ready mc configs cluster_name = elim (get_mesh_cluster_configs configs cluster_name) [
  | none ↦ false
  | some _ ↦ not (is_empty (get_upstream_endpoints mc cluster_name))
]

abbrev pub all_ready : MeshCatalog → List MeshClusterConfig → Assoc Text WeightedCluster → Bool
all_ready mc configs [] = true
all_ready mc configs ((_, cluster) ∷ clusters) =
    is_ready mc configs cluster.cluster_name && all_ready mc configs clusters

balance_configured-ready :
    (mc : MeshCatalog) (configs : List MeshClusterConfig) (name : Text) (ready : Bool)
    (otp : OutboundTrafficPolicy)
    → (balance_configured mc name (get_mesh_cluster_configs configs name) (ready, otp)).0
      ≡ (ready && is_ready mc configs name)
unfolding balance_configured
balance_configured-ready mc configs name ready otp =
    elim (Option-cases (get_mesh_cluster_configs configs name)) [
      | inl e ↦ rw (balance_configured, is_ready, e) (ground arith)
      | inr (config, e) ↦ elim (Bool-cases (is_empty (get_upstream_endpoints mc name))) [
        | inl k ↦ rw (balance_configured, is_ready, e, k) (ground arith)
        | inr k ↦ rw (balance_configured, is_ready, e, k) (ground arith)
      ]
    ]

balance_clusters-ready :
    (mc : MeshCatalog) (configs : List MeshClusterConfig) (clusters : Assoc Text WeightedCluster)
    (ready : Bool) (otp : OutboundTrafficPolicy)
    → (balance_clusters mc configs clusters (ready, otp)).0
      ≡ (ready && all_ready mc configs clusters)
unfolding balance_clusters
balance_clusters-ready mc configs [] ready otp = ground arith
balance_clusters-ready mc configs ((k, c) ∷ clusters) ready otp =
    let next =
      balance_configured mc c.cluster_name (get_mesh_cluster_configs configs c.cluster_name)
        (ready, otp) in
    ground (
      arith,
      balance_clusters-ready mc configs clusters next.0 next.1,
      balance_configured-ready mc configs c.cluster_name ready otp,
    )

-- The endpoints under the name of a service's cluster are those of the service in the same namespace
-- with the same name and target port, and with no port, protocol or import UID.
upstream_endpoints-cluster_name :
    (mc : MeshCatalog) (svc : MeshService)
    → IsLabel svc.namespace
    → IsName svc.name
    → svc.target_port < 2 ^ 16
    → get_upstream_endpoints mc (cluster_name svc)
      ≡ list_upstream_endpoints_for_service mc
          (record svc { port = 0; protocol = []; service_import_uid = [] })
unfolding get_upstream_endpoints
upstream_endpoints-cluster_name mc svc ls ln h =
    rw (get_upstream_endpoints, cluster_to_mesh_svc-cluster_name svc ls ln h) refl

-- A cluster that one of the configurations has.
abbrev pub Configured : List MeshClusterConfig → Text → Type 0
Configured configs n = (c : MeshClusterConfig) × (get_mesh_cluster_configs configs n ≡ some c)

Configured-service :
    (svc : MeshService) (svcs : List MeshService)
    → Among svc svcs
    → Configured (map config_of svcs) (cluster_name svc)
unfolding get_mesh_cluster_configs
Configured-service svc [] m = elim m [ ]
Configured-service svc (s ∷ svcs) (inl e) =
    (config_of s, rw (get_mesh_cluster_configs, e, ==_refl (cluster_name s)) refl)
Configured-service svc (s ∷ svcs) (inr m) =
    let (c, k) = Configured-service svc svcs m in
    elim (Bool-cases (cluster_name svc == cluster_name s)) [
      | inl e ↦ (config_of s, rw (get_mesh_cluster_configs, e) refl)
      | inr e ↦ (c, rw (get_mesh_cluster_configs, e) k)
    ]

All-map :
    {A B : Type 0} (Q : B → Type 0) (f : A → B) (xs : List A)
    → ((x : A) → Among x xs → Q (f x))
    → All Q (map f xs)
All-map Q f [] h = tt
All-map Q f (x ∷ xs) h = (h x (inl refl), All-map Q f xs (λ y m. h y (inr m)))

Among-of-filterb :
    {A : Type 0} (p : A → Bool) (a : A) (xs : List A) → Among a (filterb p xs) → Among a xs
Among-of-filterb p a [] m = m
Among-of-filterb p a (x ∷ xs) m = elim (Bool-cases (p x)) [
  | inl e ↦ elim (subst (λ ys. Among a ys) (kept e) m) [
    | inl same ↦ inl same
    | inr later ↦ inr (Among-of-filterb p a xs later)
  ]
  | inr e ↦ inr (Among-of-filterb p a xs (subst (λ ys. Among a ys) (dropped e) m))
]
  where
    kept : p x ≡ true → filterb p (x ∷ xs) ≡ x ∷ filterb p xs
    kept e = rw e refl

    dropped : p x ≡ false → filterb p (x ∷ xs) ≡ filterb p xs
    dropped e = rw e refl

-- The answer of `generatePipyOutboundTrafficBalancePolicy` is yes just if every cluster that it is
-- given has a configuration and has endpoints, whatever the configuration of the proxy was.
pub generate_balance_policy-ready :
    (mc : MeshCatalog) (outbound : Option OutboundTrafficPolicy) (configs : List MeshClusterConfig)
    (deps : Assoc Text WeightedCluster)
    → (generate_balance_policy mc outbound configs deps).0 ≡ all_ready mc configs deps
unfolding generate_balance_policy
generate_balance_policy-ready mc outbound configs deps =
    balance_clusters-ready mc configs deps true (outbound_or_new outbound)

module _ (S : SetOps WeightedCluster) (T : MeshService → SetOps Text) (trust_domain : Text)
    (mc : MeshCatalog) (laws : IsSetOps S) where
  policy : OutboundMeshTrafficPolicy S.Set
  policy = get_outbound_mesh_traffic_policy S T trust_domain mc

  FitPort-present :
      (P : Text → Type 0) (ps : List (HttpPolicy S.Set))
      → All (FitPolicy P S) ps
      → FitPort P S (present S T trust_domain mc ps)
  FitPort-present P [] f = tt
  FitPort-present P (p ∷ ps) f = f

  own_clusters-Fit :
      (P : Text → Type 0) (svc : MeshService)
      → P (cluster_name svc)
      → Fit P (merge_upstream_clusters mc svc [])
  unfolding merge_upstream_clusters
  own_clusters-Fit P svc h = (h, tt)

  policy_of-Fit :
      (P : Text → Type 0) (svc : MeshService)
      → P (cluster_name svc)
      → FitPolicy P S (policy_of S T trust_domain mc svc)
  unfolding route_clusters merge_upstream_clusters is_multi_cluster_service
  policy_of-Fit P svc h =
      All-append (λ c. P c.cluster_name)
        (S.iter (cluster_set S (merge_upstream_clusters mc svc []))) []
        (rw (iter-own S laws mc svc) (own_clusters-Fit P svc h)) tt

  policy-FitMesh :
      (P : Text → Type 0)
      → ((svc : MeshService) → Among svc (list_outbound_services mc) → P (cluster_name svc))
      → FitMesh P S policy
  unfolding policy merge_upstream_clusters
  policy-FitMesh P h = record {
    of_match = rw (outbound_policy-eq S T trust_domain mc).0 (
        All-map (λ tm. Fit P tm.weighted_clusters) (match_of S T trust_domain mc)
          (list_outbound_services mc) (λ svc m. own_clusters-Fit P svc (h svc m)));
    of_port = λ port. rw ((outbound_policy-eq S T trust_domain mc).2 port) (
        FitPort-present P
          (map (policy_of S T trust_domain mc)
            (filterb (http_on S T trust_domain mc port) (list_outbound_services mc)))
          (All-map (FitPolicy P S) (policy_of S T trust_domain mc)
            (filterb (http_on S T trust_domain mc port) (list_outbound_services mc))
            (λ svc m. policy_of-Fit P svc (
              h svc (
                Among-of-filterb (http_on S T trust_domain mc port) svc (list_outbound_services mc)
                  m)))));
  }

  -- Each cluster on which the configuration that is generated from the policy of the mesh depends
  -- stands under its name, and the policy has a cluster configuration of that name, whatever set
  -- implementation is used.
  pub depend_clusters_configured :
      (outbound after : Option OutboundTrafficPolicy) (deps : Assoc Text WeightedCluster)
      → generate_route_policy S outbound (get_outbound_mesh_traffic_policy S T trust_domain mc)
        ≡ some (after, deps)
      → (n : Text) (c : WeightedCluster) → lookup n deps ≡ some c
      → (c.cluster_name ≡ n)
        × ((config : MeshClusterConfig) × (get_mesh_cluster_configs
                (get_outbound_mesh_traffic_policy S T trust_domain mc).clusters_configs
                n
              ≡ some config))
  unfolding policy
  depend_clusters_configured outbound after deps h = rw (outbound_policy-eq S T trust_domain mc).1 (
      generate_route_policy-Depends (Configured (map config_of (list_outbound_services mc))) S
        outbound policy after deps
        (policy-FitMesh (Configured (map config_of (list_outbound_services mc)))
          (λ svc m. Configured-service svc (list_outbound_services mc) m))
        h)
