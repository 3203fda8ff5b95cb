-- ===== src/Multicluster/Endpoints/Served.antt =====
-- Which endpoints of a port `GetEndpoints` of pkg/ecnet/service/multicluster/service_import.go keeps.
use erie_canal_net.Base.{
  ℕ, ◌≡◌, ◌%◌, ◌^◌, Bool, true, ◌&&◌, ◌||◌, List, [], ◌∷◌, ◌++◌, some, Text, arith, ◌==◌, nat_eq,
  list_eq, Assoc, has_key, lookup, is_empty, ◌⊎◌, Option-cases, Bool-cases, inl, inr, map, filterb,
  append_assoc, append-nil,
}
use erie_canal_net.Service.{MeshService}
use erie_canal_net.Multicluster.ServiceImport.{ImportEndpoint, ImportPort, ServiceImport, Endpoints}
use erie_canal_net.Multicluster.Endpoints.{
  subset_of, kept_weight, add_endpoint, add_endpoints, no_endpoints,
}

-- The endpoints that a service stands for: those on its target port, if it has one, of the clusters
-- that the policy names, if it names any.
abbrev pub is_served : MeshService → Assoc Text ℕ → ImportEndpoint → Bool
is_served svc keys ep =
    (svc.target_port == 0 || svc.target_port == ep.port % 2 ^ 16)
    && (is_empty keys || has_key ep.cluster_key keys)

-- An endpoint that is served is kept with a weight.
pub kept_weight-is_served :
    (svc : MeshService) (keys : Assoc Text ℕ) (ep : ImportEndpoint)
    → is_served svc keys ep ≡ true
    → (w : ℕ) × (kept_weight svc keys ep ≡ some w)
unfolding kept_weight
kept_weight-is_served svc keys ep h = elim (Bool-cases (is_empty keys)) [
  | inl e ↦ (0, ground (arith, h, e))
  | inr e ↦ elim (Option-cases (lookup ep.cluster_key keys)) [
    | inl n ↦ absurd (ground (arith, h, e, n))
    | inr (w, n) ↦ (w, ground (arith, h, e, n))
  ]
]

pub kept_weight_from :
    (svc : MeshService) (keys : Assoc Text ℕ) (ep : ImportEndpoint) (w : ℕ)
    → kept_weight svc keys ep ≡ some w
    → (w ≡ 0) ⊎ (lookup ep.cluster_key keys ≡ some w)
unfolding kept_weight
kept_weight_from svc keys ep w h = elim (Bool-cases (is_empty keys)) [
  | inl e ↦ inl (ground (arith, h, e))
  | inr e ↦ inr (ground (arith, h, e))
]

module _ (svc : MeshService) (lb_type : Text) (keys : Assoc Text ℕ) where
  subsets-add_endpoint :
      (p : ImportPort) (out : Endpoints) (ep : ImportEndpoint)
      → (add_endpoint lb_type p ep out (kept_weight svc keys ep)).subsets
        ≡ out.subsets ++ map (subset_of p) (filterb (is_served svc keys) (ep ∷ []))
  unfolding add_endpoint kept_weight
  subsets-add_endpoint p out ep = ground (arith, append-nil out.subsets)

  subsets-add_endpoints :
      (p : ImportPort) (out : Endpoints) (eps : List ImportEndpoint)
      → (add_endpoints svc lb_type keys p out eps).subsets
        ≡ out.subsets ++ map (subset_of p) (filterb (is_served svc keys) eps)
  unfolding add_endpoints
  subsets-add_endpoints p out [] = ground (arith, append-nil out.subsets)
  subsets-add_endpoints p out (ep ∷ eps) = ground (
    arith,
    subsets-add_endpoints p (add_endpoint lb_type p ep out (kept_weight svc keys ep)) eps,
    subsets-add_endpoint p out ep,
    append-nil out.subsets,
    append_assoc out.subsets (subset_of p ep ∷ [])
        (map (subset_of p) (filterb (is_served svc keys) eps)),
  )

  pub subsets-made :
      (p : ImportPort) (si : ServiceImport) (eps : List ImportEndpoint)
      → (add_endpoints svc lb_type keys p (no_endpoints si) eps).subsets
        ≡ map (subset_of p) (filterb (is_served svc keys) eps)
  unfolding no_endpoints
  subsets-made p si eps = subsets-add_endpoints p (no_endpoints si) eps
