-- ===== src/Multicluster/TrafficPolicy/Modes.antt =====
-- Laws of traffic_policy.go of pkg/ecnet/service/multicluster: the readers of one policy agree.
use erie_canal_net.Base.{
  ℕ, ◌≡◌, refl, true, false, not, ◌||◌, List, [], ◌∷◌, Option, none, some, Text, arith, ◌==◌,
  nat_eq, list_eq, ==_iff, Assoc, lookup, insert, lookup-insert, Option-cases, inl, inr, any,
  is_empty,
}
use erie_canal_net.Service.{MeshService, namespaced_key}
use erie_canal_net.Multicluster.TrafficPolicy.{
  TrafficTarget, GlobalTrafficPolicy, Policies, LbWeight, active_active, locality, fail_over,
  is_locality, get_service_traffic_policy, get_lb_weight_for_service, policy_weight,
  collect_weights, find_target, weight_or_zero,
}

abbrev pub HasMode : LbWeight → Text → Type 0
HasMode lb t =
    (lb.aa ≡ (t == active_active)) × (lb.fo ≡ (t == fail_over)) × (lb.lc ≡ not (lb.aa || lb.fo))

policy_weight-HasMode :
    (uid : Text) (p : GlobalTrafficPolicy) → HasMode (policy_weight uid p) p.lb_type
unfolding policy_weight
policy_weight-HasMode uid p =
    ground (arith, ==_iff p.lb_type active_active, ==_iff p.lb_type fail_over)

module _ (policies : Policies) (svc : MeshService) where
  -- The three readers of a service's policy agree on its type: `isLocality` says whether it is
  -- `Locality`, and of the results of `GetLbWeightForService` `aa` says whether it is
  -- `ActiveActive`, `fo` whether it is `FailOver`, and `lc` that it is neither, where the type is
  -- the one that `getServiceTrafficPolicy` returns.
  pub traffic_policy_modes :
      (is_locality policies svc ≡ ((get_service_traffic_policy policies svc).0 == locality))
      × HasMode (get_lb_weight_for_service policies svc) (get_service_traffic_policy policies svc).0
  unfolding is_locality get_service_traffic_policy get_lb_weight_for_service
  traffic_policy_modes = elim (Option-cases (policies (namespaced_key svc))) [
    | inl e ↦
        rw (e, is_locality, get_service_traffic_policy, get_lb_weight_for_service)
          (refl, (refl, refl, refl))
    | inr (p, e) ↦
        rw (e, is_locality, get_service_traffic_policy, get_lb_weight_for_service)
          (refl, policy_weight-HasMode svc.service_import_uid p)
  ]

-- No two targets are of one cluster.
abbrev pub TargetsDistinct : List TrafficTarget → Type 0
TargetsDistinct [] = Unit
TargetsDistinct (t ∷ ts) =
    (any (λ u. u.cluster_key == t.cluster_key) ts ≡ false) × TargetsDistinct ts

abbrev target_weight : Option TrafficTarget → Option ℕ → Option ℕ
target_weight none before = before
target_weight (some t) before = some (weight_or_zero t.weight)

find_target_absent :
    (key : Text) (ts : List TrafficTarget)
    → any (λ u. u.cluster_key == key) ts ≡ false
    → find_target key ts ≡ none
unfolding find_target
find_target_absent key [] h = refl
find_target_absent key (t ∷ ts) h =
    ground (arith, ==_iff key t.cluster_key, ==_iff t.cluster_key key, find_target_absent key ts)

lookup-collect_weights :
    (key : Text) (keys : Assoc Text ℕ) (ts : List TrafficTarget)
    → TargetsDistinct ts
    → lookup key (collect_weights keys ts) ≡ target_weight (find_target key ts) (lookup key keys)
unfolding collect_weights find_target
lookup-collect_weights key keys [] d = refl
lookup-collect_weights key keys (t ∷ ts) d = ground (
  arith,
  lookup-collect_weights key (insert t.cluster_key (weight_or_zero t.weight) keys) ts d.1,
  lookup-insert t.cluster_key key (weight_or_zero t.weight) keys,
  ==_iff key t.cluster_key,
  ==_iff t.cluster_key key,
  find_target_absent t.cluster_key ts d.0,
)

lookup-nil : (key : Text) → lookup {V = ℕ} key [] ≡ none
unfolding lookup
lookup-nil key = refl

find_target_unnamed :
    (ts : List TrafficTarget)
    → any (λ t. is_empty t.cluster_key) ts ≡ false
    → find_target [] ts ≡ none
unfolding find_target
find_target_unnamed [] h = refl
find_target_unnamed (t ∷ ts) h = ground (arith, ==_iff [] t.cluster_key, find_target_unnamed ts)

-- A service with no import UID is none of the targets.
pub unnamed_weight :
    (policies : Policies) (svc : MeshService) (p : GlobalTrafficPolicy)
    → policies (namespaced_key svc) ≡ some p
    → svc.service_import_uid ≡ []
    → p.lb_type ≡ active_active
    → any (λ t. is_empty t.cluster_key) p.load_balance_target ≡ false
    → ((get_lb_weight_for_service policies svc).aa ≡ true)
      × ((get_lb_weight_for_service policies svc).lc ≡ false)
      × ((get_lb_weight_for_service policies svc).cluster_keys ≡ [])
unfolding get_lb_weight_for_service
unnamed_weight policies svc p found bare aa named =
    rw (found, get_lb_weight_for_service, bare)
      (ground (arith, ==_iff p.lb_type active_active, find_target_unnamed p.load_balance_target))

module _ (policies : Policies) (svc : MeshService) (p : GlobalTrafficPolicy) where
  -- Where the policy of a service balances between clusters, with at least one target and no two
  -- targets of one cluster, the weight that `GetLbWeightForService` gives a service from a cluster
  -- is the weight that `getServiceTrafficPolicy` maps that cluster to, and 0 where it maps it to
  -- none.
  pub active_active_weight-eq :
      policies (namespaced_key svc) ≡ some p
      → p.lb_type ≡ active_active
      → is_empty p.load_balance_target ≡ false
      → TargetsDistinct p.load_balance_target
      → (get_lb_weight_for_service policies svc).weight
        ≡ weight_or_zero (lookup svc.service_import_uid (get_service_traffic_policy policies svc).1)
  unfolding get_lb_weight_for_service get_service_traffic_policy
  active_active_weight-eq found aa targets d = ground (
    arith,
    found,
    ==_iff p.lb_type active_active,
    lookup-collect_weights svc.service_import_uid [] p.load_balance_target d,
    lookup-nil svc.service_import_uid,
  )
