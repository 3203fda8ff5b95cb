-- ===== src/Multicluster/Endpoints/TargetPorts.antt =====
-- `GetTargetPortForServicePort` of pkg/ecnet/service/multicluster/service_import.go under a policy
-- that balances between clusters.
use erie_canal_net.Base.{
  ℕ, ◌≡◌, refl, false, [], none, some, Text, arith, nat_eq, list_eq, is_empty, any,
}
use erie_canal_net.Service.{namespaced_key}
use erie_canal_net.Multicluster.TrafficPolicy.{GlobalTrafficPolicy, Policies, active_active}
use erie_canal_net.Multicluster.TrafficPolicy.Modes.{unnamed_weight}
use erie_canal_net.Multicluster.ServiceImport.{Informers, named_service}
use erie_canal_net.Multicluster.Endpoints.{get_target_port_for_service_port}

-- The policy without its targets.
abbrev pub untargeted : GlobalTrafficPolicy → GlobalTrafficPolicy
untargeted p = record p { load_balance_target = [] }

abbrev pub untargeted_policies : Policies → Policies
untargeted_policies policies key = elim (policies key) [
  | none ↦ none
  | some p ↦ some (untargeted p)
]

untargeted_found :
    (policies : Policies) (key : Text) (p : GlobalTrafficPolicy)
    → policies key ≡ some p
    → untargeted_policies policies key ≡ some (untargeted p)
untargeted_found policies key p found = ground (arith, found)

-- `GetTargetPortForServicePort` asks for the weight of a service without an import UID. Where the
-- policy of the service balances between clusters and each of its targets names a cluster, the
-- result is what it would be if the policy had no targets: the target ports of the clusters that
-- the policy does not name are returned too.
pub target_ports_untargeted :
    (c : Informers) (namespace name : Text) (port : ℕ) (p : GlobalTrafficPolicy)
    → c.policies (namespaced_key (named_service namespace name)) ≡ some p
    → p.lb_type ≡ active_active
    → any (λ t. is_empty t.cluster_key) p.load_balance_target ≡ false
    → get_target_port_for_service_port c namespace name port
      ≡ get_target_port_for_service_port
          (record c { policies = untargeted_policies c.policies })
          namespace
          name
          port
unfolding get_target_port_for_service_port
target_ports_untargeted c namespace name port p found aa named = ground (
  arith,
  unnamed_weight c.policies (named_service namespace name) p found refl aa named,
  unnamed_weight (untargeted_policies c.policies) (named_service namespace name) (untargeted p)
      (untargeted_found c.policies (namespaced_key (named_service namespace name)) p found) refl aa
      refl,
)
