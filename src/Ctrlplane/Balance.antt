-- ===== src/Ctrlplane/Balance.antt =====
-- util.go and jobs.go of pkg/ecnet/bridge/ctrlplane/server: `generatePipyOutboundTrafficBalancePolicy`
-- and the part of the job that builds the outbound policy of a proxy.
pub mod Ready
pub mod Whole
use erie_canal_net.Base.{
  ℕ, Bool, true, false, not, ◌&&◌, List, [], ◌∷◌, Option, none, some, Text, ◌==◌, nat_eq, list_eq,
  if◌then◌else◌, Assoc, lookup, insert, is_empty, not_empty, ltb, SetOps, equal_fold,
}
use erie_canal_net.Service.{MeshService, WeightedCluster, weighted_cluster_eq}
use erie_canal_net.Policy.{MeshClusterConfig, OutboundMeshTrafficPolicy}
use erie_canal_net.Catalog.Services.{Endpoint, MeshCatalog, list_upstream_endpoints_for_service}
use erie_canal_net.Catalog.Outbound.{get_outbound_mesh_traffic_policy}
use erie_canal_net.Ctrlplane.Names.{cluster_to_mesh_svc}
use erie_canal_net.Ctrlplane.Config.{
  WeightedEndpoints, ClusterConfigs, OutboundTrafficPolicy, cluster_or_new, new_cluster_configs,
  add_weighted_zone_endpoint, rebalanced_outbound_clusters,
}
use erie_canal_net.Ctrlplane.Routes.{outbound_or_new, generate_route_policy}

-- `getMeshClusterConfigs`
unfoldable pub get_mesh_cluster_configs : List MeshClusterConfig → Text → Option MeshClusterConfig
get_mesh_cluster_configs [] cluster_name = none
get_mesh_cluster_configs (config ∷ configs) cluster_name =
    if cluster_name == config.name
    then some config
    else get_mesh_cluster_configs configs cluster_name

-- `getUpstreamEndpoints`
unfoldable pub get_upstream_endpoints : MeshCatalog → Text → List Endpoint
get_upstream_endpoints mc cluster_name = elim (cluster_to_mesh_svc cluster_name) [
  | none ↦ []
  | some dst_svc ↦ list_upstream_endpoints_for_service mc dst_svc
]

-- The port of an endpoint: the target port of the service for one of another cluster.
abbrev pub endpoint_port : MeshClusterConfig → Endpoint → ℕ
endpoint_port config e =
    if not_empty e.cluster_key && ltb 0 config.service.target_port
    then config.service.target_port
    else config.service.port

add_upstream_endpoints : MeshClusterConfig → List Endpoint → WeightedEndpoints → WeightedEndpoints
add_upstream_endpoints config [] wes = wes
add_upstream_endpoints config (e ∷ es) wes = add_upstream_endpoints config es (
    add_weighted_zone_endpoint e.ip (endpoint_port config e) e.weight e.cluster_key e.lb_type e.path
      wes)

-- The endpoints are written to the configuration that `newClusterConfigs` returned.
put_endpoints :
    Text → MeshClusterConfig → List Endpoint → OutboundTrafficPolicy → OutboundTrafficPolicy
unfolding add_upstream_endpoints
put_endpoints cluster_name config es otp = record otp {
  clusters_configs =
      insert cluster_name
        (record {
          endpoints =
              add_upstream_endpoints config es
                (cluster_or_new (lookup cluster_name otp.clusters_configs)).endpoints;
        })
        otp.clusters_configs;
}

balance_configured :
    MeshCatalog
    → Text
    → Option MeshClusterConfig
    → Bool × OutboundTrafficPolicy
    → Bool × OutboundTrafficPolicy
unfolding put_endpoints
balance_configured mc cluster_name none (ready, otp) = (false, otp)
balance_configured mc cluster_name (some config) (ready, otp) =
    let made = new_cluster_configs cluster_name otp in
    let es = get_upstream_endpoints mc cluster_name in
    if is_empty es then (false, made) else (ready, put_endpoints cluster_name config es made)

balance_clusters :
    MeshCatalog
    → List MeshClusterConfig
    → Assoc Text WeightedCluster
    → Bool × OutboundTrafficPolicy
    → Bool × OutboundTrafficPolicy
unfolding balance_configured
balance_clusters mc configs [] acc = acc
balance_clusters mc configs ((_, cluster) ∷ clusters) acc = balance_clusters mc configs clusters (
    balance_configured mc cluster.cluster_name
      (get_mesh_cluster_configs configs cluster.cluster_name) acc)

-- `generatePipyOutboundTrafficBalancePolicy`
unfoldable pub generate_balance_policy :
    MeshCatalog
    → Option OutboundTrafficPolicy
    → List MeshClusterConfig
    → Assoc Text WeightedCluster
    → Bool × OutboundTrafficPolicy
unfolding balance_clusters
generate_balance_policy mc outbound configs depend_clusters =
    balance_clusters mc configs depend_clusters (true, outbound_or_new outbound)

-- types.go: `PipyConf`; of its specification the job writes the log level.
pub record PipyConf : Type 0 where
  pub sidecar_log_level : Text
  pub outbound : Option OutboundTrafficPolicy
  pub dns_resolve_db : Assoc Text (List Text)
  pub chains : Assoc Text (List Text)
  pub ts : Option ℕ
  pub version : Option Text

-- policy.go: `setSidecarLogLevel`
unfoldable pub set_sidecar_log_level : Text → PipyConf → Bool × PipyConf
set_sidecar_log_level level conf =
    if equal_fold conf.sidecar_log_level level
    then (false, conf)
    else (true, record conf { sidecar_log_level = level })

-- The DNS entries are written if there are any.
with_resolvable : Assoc Text (List Text) → PipyConf → PipyConf
with_resolvable db conf = if is_empty db then conf else record conf { dns_resolve_db = db }

with_endpoints :
    MeshCatalog
    → List MeshClusterConfig
    → PipyConf
    → Option OutboundTrafficPolicy × Assoc Text WeightedCluster
    → Bool × PipyConf
with_endpoints mc configs conf (outbound, []) = (true, record conf { outbound = outbound })
with_endpoints mc configs conf (outbound, d ∷ deps) =
    let (ready, otp) = generate_balance_policy mc outbound configs (d ∷ deps) in
    (ready, record conf { outbound = some otp })

module _ (S : SetOps WeightedCluster) (T : MeshService → SetOps Text) (trust_domain : Text)
    (mc : MeshCatalog) where
  -- jobs.go: `outbound`, whose result says whether everything was ready; where it is not, the code
  -- calls `retryProxiesJob` too. `none` is a panic.
  unfoldable pub outbound : PipyConf → Option (Bool × PipyConf)
  unfolding with_endpoints with_resolvable
  outbound conf =
      let policy = get_outbound_mesh_traffic_policy S T trust_domain mc in
      let resolved = with_resolvable policy.services_resolvable_set conf in
      elim (generate_route_policy S resolved.outbound policy) [
        | none ↦ none
        | some made ↦ some (with_endpoints mc policy.clusters_configs resolved made)
      ]

  -- jobs.go: `outbound` and `balance` in `Run`
  unfoldable pub run_outbound : PipyConf → Option (Bool × PipyConf)
  unfolding outbound
  run_outbound conf = elim (outbound conf) [
    | none ↦ none
    | some (ready, built) ↦
        some (ready, record built { outbound = rebalanced_outbound_clusters built.outbound })
  ]
