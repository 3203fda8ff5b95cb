-- ===== src/Multicluster/TrafficPolicy.antt =====
-- traffic_policy.go of pkg/ecnet/service/multicluster: the load balancing of a service by its
-- `GlobalTrafficPolicy`.
pub mod Modes
pub mod Targets
use erie_canal_net.Base.{
  ℕ, Bool, true, false, List, [], ◌∷◌, Option, none, some, Text, codes, ◌==◌, nat_eq, list_eq,
  Assoc, insert, if◌then◌else◌, is_empty,
}
use erie_canal_net.Service.{MeshService, namespaced_key}

-- v1alpha1: `LoadBalancerType` is a string type with three named values.
abbrev pub active_active : Text
active_active = codes "ActiveActive"

abbrev pub locality : Text
locality = codes "Locality"

abbrev pub fail_over : Text
fail_over = codes "FailOver"

-- v1alpha1: `TrafficTarget`; the weight may be absent.
pub record TrafficTarget : Type 0 where
  pub cluster_key : Text
  pub weight : Option ℕ

-- v1alpha1: the spec of `GlobalTrafficPolicy`
pub record GlobalTrafficPolicy : Type 0 where
  pub lb_type : Text
  pub load_balance_target : List TrafficTarget

-- constants.go
abbrev pub cluster_weight_accept_all : ℕ
cluster_weight_accept_all = 100

abbrev pub cluster_weight_fail_over : ℕ
cluster_weight_fail_over = 0

-- The policies in the informer's cache, by key; `none` if there is none or the cache fails.
abbrev pub Policies : Type 0
Policies = Text → Option GlobalTrafficPolicy

-- `getGlobalTrafficPolicy`
unfoldable pub get_global_traffic_policy : Policies → MeshService → Option GlobalTrafficPolicy
get_global_traffic_policy policies svc = policies (namespaced_key svc)

-- `isLocality`
unfoldable pub is_locality : Policies → MeshService → Bool
unfolding get_global_traffic_policy
is_locality policies svc = elim (get_global_traffic_policy policies svc) [
  | none ↦ true
  | some p ↦ p.lb_type == locality
]

-- `*lbt.Weight`, or 0 where it is nil
abbrev pub weight_or_zero : Option ℕ → ℕ
weight_or_zero none = 0
weight_or_zero (some w) = w

-- The loop that collects the weight of every target.
collect_weights : Assoc Text ℕ → List TrafficTarget → Assoc Text ℕ
collect_weights keys [] = keys
collect_weights keys (t ∷ ts) =
    collect_weights (insert t.cluster_key (weight_or_zero t.weight) keys) ts

-- `getServiceTrafficPolicy`: a nil map of cluster keys and an empty one are not told apart by the
-- callers, which only look at its length.
unfoldable pub get_service_traffic_policy : Policies → MeshService → Text × Assoc Text ℕ
unfolding get_global_traffic_policy collect_weights
get_service_traffic_policy policies svc = elim (get_global_traffic_policy policies svc) [
  | none ↦ (locality, [])
  | some p ↦ (p.lb_type, collect_weights [] p.load_balance_target)
]

-- The results of `GetLbWeightForService`
pub record LbWeight : Type 0 where
  pub aa : Bool
  pub fo : Bool
  pub lc : Bool
  pub weight : ℕ
  pub cluster_keys : Assoc Text ℕ

-- The loop of the active-active case, which stops at the first target of the service's cluster.
find_target : Text → List TrafficTarget → Option TrafficTarget
find_target uid [] = none
find_target uid (t ∷ ts) = if uid == t.cluster_key then some t else find_target uid ts

active_active_weight : Option TrafficTarget → LbWeight
active_active_weight none = record {
  aa = true;
  fo = false;
  lc = false;
  weight = 0;
  cluster_keys = [];
}
active_active_weight (some t) = record {
  aa = true;
  fo = false;
  lc = false;
  weight = weight_or_zero t.weight;
  cluster_keys = insert t.cluster_key (weight_or_zero t.weight) [];
}

-- The loop of the fail-over case.
collect_fail_over : Assoc Text ℕ → List TrafficTarget → Assoc Text ℕ
collect_fail_over keys [] = keys
collect_fail_over keys (t ∷ ts) =
    collect_fail_over (insert t.cluster_key cluster_weight_fail_over keys) ts

abbrev locality_weight : LbWeight
locality_weight = record { aa = false; fo = false; lc = true; weight = 0; cluster_keys = [] }

policy_weight : Text → GlobalTrafficPolicy → LbWeight
unfolding active_active_weight
policy_weight uid p =
    if p.lb_type == active_active
    then (if is_empty p.load_balance_target
        then record {
          aa = true;
          fo = false;
          lc = false;
          weight = cluster_weight_accept_all;
          cluster_keys = [];
        }
        else active_active_weight (find_target uid p.load_balance_target))
    else if p.lb_type == fail_over
    then record {
      aa = false;
      fo = true;
      lc = false;
      weight = cluster_weight_fail_over;
      cluster_keys = collect_fail_over [] p.load_balance_target;
    }
    else locality_weight

-- `GetLbWeightForService`
unfoldable pub get_lb_weight_for_service : Policies → MeshService → LbWeight
unfolding get_global_traffic_policy policy_weight find_target collect_fail_over
get_lb_weight_for_service policies svc = elim (get_global_traffic_policy policies svc) [
  | none ↦ locality_weight
  | some p ↦ policy_weight svc.service_import_uid p
]
