-- ===== src/Ctrlplane/Balance/Whole.antt =====
-- The job of pkg/ecnet/bridge/ctrlplane/server/jobs.go on the catalog's policy: it does not panic.
use erie_canal_net.Base.{
  ◌<◌, ◌^◌, ◌≡◌, refl, Bool, true, List, [], ◌∷◌, none, some, Text, arith, Assoc, not_empty, All,
  map, Free, SetOps, nat_eq, list_eq,
}
use erie_canal_net.Service.{MeshService, WeightedCluster, weighted_cluster_eq, IsLabel, IsName}
use erie_canal_net.Catalog.Services.{MeshCatalog, list_outbound_services}
use erie_canal_net.Catalog.Outbound.{get_outbound_mesh_traffic_policy}
use erie_canal_net.Catalog.Outbound.Policies.{match_of, outbound_policy-eq}
use erie_canal_net.Ctrlplane.Names.{match_separator}
use erie_canal_net.Ctrlplane.Names.Laws.{traffic_match_to_mesh_svc-name}
use erie_canal_net.Ctrlplane.Config.{rebalanced_outbound_clusters}
use erie_canal_net.Ctrlplane.Config.Matches.{new_policy-Shared}
use erie_canal_net.Ctrlplane.Routes.Steps.{Readable}
use erie_canal_net.Ctrlplane.Routes.Totality.{generate_route_policy_total}
use erie_canal_net.Ctrlplane.Balance.{
  PipyConf, with_resolvable, with_endpoints, outbound, run_outbound,
}

-- A service as Kubernetes lets one be named, with a protocol that its traffic-match name can carry.
pub record IsServed (svc : MeshService) : Type 0 where
  pub namespace_label : IsLabel svc.namespace
  pub name_labels : IsName svc.name
  pub some_protocol : not_empty svc.protocol ≡ true
  pub plain_protocol : Free match_separator svc.protocol
  pub port_bound : svc.port < 2 ^ 16

same_outbound :
    (db : Assoc Text (List Text)) (conf : PipyConf)
    → (with_resolvable db conf).outbound ≡ conf.outbound
unfolding with_resolvable
same_outbound db conf = ground arith

module _ (S : SetOps WeightedCluster) (T : MeshService → SetOps Text) (trust_domain : Text)
    (mc : MeshCatalog) where
  readable :
      (svcs : List MeshService)
      → All IsServed svcs
      → All Readable (map (match_of S T trust_domain mc) svcs)
  readable [] served = tt
  readable (svc ∷ svcs) (s, served) = (
    (
      _,
      traffic_match_to_mesh_svc-name svc s.namespace_label s.name_labels
          (match_of S T trust_domain mc svc) refl s.some_protocol s.plain_protocol s.port_bound,
    ),
    readable svcs served,
  )

  -- If every service of the catalog has a DNS label for a namespace, a DNS name for a name, a protocol
  -- that is not empty and holds no underscore, and a port that fits 16 bits, then from a proxy
  -- configuration that has no outbound policy yet the job builds one: it does not panic.
  pub run_outbound_total :
      (conf : PipyConf)
      → All IsServed (list_outbound_services mc)
      → conf.outbound ≡ none
      → (ready : Bool) × (after : PipyConf) × (run_outbound S T trust_domain mc conf
          ≡ some (ready, after))
  unfolding run_outbound outbound
  run_outbound_total conf served fresh =
      let policy = get_outbound_mesh_traffic_policy S T trust_domain mc in
      let start = with_resolvable policy.services_resolvable_set conf in
      let (after, deps, made, _) =
        generate_route_policy_total S start.outbound policy
          (rw (outbound_policy-eq S T trust_domain mc).0
            (readable (list_outbound_services mc) served))
          (rw (same_outbound policy.services_resolvable_set conf, fresh) new_policy-Shared) in
      let built = with_endpoints mc policy.clusters_configs start (after, deps) in
      (
        built.0,
        record built.1 { outbound = rebalanced_outbound_clusters built.1.outbound },
        rw (run_outbound, outbound, made) refl,
      )
