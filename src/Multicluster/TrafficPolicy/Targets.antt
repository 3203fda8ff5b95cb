-- ===== src/Multicluster/TrafficPolicy/Targets.antt =====
-- Which clusters `getServiceTrafficPolicy` of pkg/ecnet/service/multicluster/traffic_policy.go names.
use erie_canal_net.Base.{
  ℕ, ◌≡◌, refl, ◌∙◌, Bool, false, ◌||◌, List, [], ◌∷◌, some, none, Text, codes, ◌==◌, nat_eq,
  list_eq, arith, Assoc, lookup, insert, has_key, has_key-insert, is_empty, any,
}
use erie_canal_net.Service.{MeshService, namespaced_key}
use erie_canal_net.Multicluster.TrafficPolicy.{
  TrafficTarget, GlobalTrafficPolicy, Policies, get_service_traffic_policy,
  get_global_traffic_policy, collect_weights, weight_or_zero,
}

-- The target is one of the cluster.
abbrev pub is_targeted : Text → List TrafficTarget → Bool
is_targeted key ts = any (λ t. t.cluster_key == key) ts

has_key-collect_weights :
    (key : Text) (keys : Assoc Text ℕ) (ts : List TrafficTarget)
    → has_key key (collect_weights keys ts) ≡ (has_key key keys || is_targeted key ts)
unfolding collect_weights
has_key-collect_weights key keys [] = ground arith
has_key-collect_weights key keys (t ∷ ts) =
    has_key-collect_weights key (insert t.cluster_key (weight_or_zero t.weight) keys) ts
    ∙ ground (arith, has_key-insert t.cluster_key key (weight_or_zero t.weight) keys)

is_empty-insert : (key : Text) (w : ℕ) (keys : Assoc Text ℕ) → is_empty (insert key w keys) ≡ false
unfolding insert
is_empty-insert key w [] = refl
is_empty-insert key w ((k, v) ∷ keys) = ground arith

is_empty-collect_weights :
    (keys : Assoc Text ℕ) (ts : List TrafficTarget)
    → is_empty keys ≡ false
    → is_empty (collect_weights keys ts) ≡ false
unfolding collect_weights
is_empty-collect_weights keys [] h = h
is_empty-collect_weights keys (t ∷ ts) h =
    is_empty-collect_weights (insert t.cluster_key (weight_or_zero t.weight) keys) ts
      (is_empty-insert t.cluster_key (weight_or_zero t.weight) keys)

is_empty-collected : (ts : List TrafficTarget) → is_empty (collect_weights [] ts) ≡ is_empty ts
unfolding collect_weights
is_empty-collected [] = refl
is_empty-collected (t ∷ ts) =
    is_empty-collect_weights (insert t.cluster_key (weight_or_zero t.weight) []) ts
      (is_empty-insert t.cluster_key (weight_or_zero t.weight) [])

-- A service without a policy has the type `Locality`; one with a policy has its type, and the keys
-- that it names are those of its targets.
pub no_policy-Locality :
    (policies : Policies) (svc : MeshService)
    → policies (namespaced_key svc) ≡ none
    → (get_service_traffic_policy policies svc).0 ≡ codes "Locality"
unfolding get_service_traffic_policy get_global_traffic_policy
no_policy-Locality policies svc h = ground (arith, h)

pub policy-named :
    (policies : Policies) (svc : MeshService) (p : GlobalTrafficPolicy) (key : Text)
    → policies (namespaced_key svc) ≡ some p
    → ((get_service_traffic_policy policies svc).0 ≡ p.lb_type)
      × ((is_empty (get_service_traffic_policy policies svc).1
            || has_key key (get_service_traffic_policy policies svc).1)
          ≡ (is_empty p.load_balance_target || is_targeted key p.load_balance_target))
unfolding get_service_traffic_policy get_global_traffic_policy lookup
policy-named policies svc p key h = (
  ground (arith, h),
  ground (
    arith,
    h,
    has_key-collect_weights key [] p.load_balance_target,
    is_empty-collected p.load_balance_target,
  ),
)
