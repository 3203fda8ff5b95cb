-- ===== src/Multicluster/Endpoints/Selection.antt =====
-- What `GetEndpoints` of pkg/ecnet/service/multicluster/service_import.go returns.
use erie_canal_net.Base.{
  ℕ, ◌≡◌, refl, ap, sym, ◌↔◌, subst, ◌∙◌, All, codes, not, equal_fold, ==_refl, ◌%◌, ◌^◌, Bool,
  true, false, ◌&&◌, ◌||◌, List, [], ◌∷◌, ◌++◌, some, Text, arith, ◌==◌, nat_eq, list_eq, Assoc,
  is_empty, Option-cases, Bool-cases, inl, inr, map, filterb,
}
use erie_canal_net.Service.{MeshService, namespaced_key}
use erie_canal_net.Multicluster.TrafficPolicy.{
  GlobalTrafficPolicy, Policies, locality, get_service_traffic_policy,
}
use erie_canal_net.Multicluster.TrafficPolicy.Targets.{
  is_targeted, no_policy-Locality, policy-named,
}
use erie_canal_net.Multicluster.ServiceImport.{
  ImportEndpoint, ImportPort, ServiceImport, EndpointSubset, Endpoints, Informers,
}
use erie_canal_net.Multicluster.Endpoints.{
  subset_of, add_endpoints, no_endpoints, port_selected, endpoints_of_ports, endpoints_of_import,
  get_endpoints,
}
use erie_canal_net.Multicluster.Endpoints.Served.{is_served, subsets-made}

-- The import is of the name of the service, whatever the case, and the port is that of the service,
-- unless the service has no port, and has endpoints.
abbrev pub is_asked : MeshService → ServiceImport → ImportPort → Bool
is_asked svc si p =
    equal_fold si.name svc.name
    && ((svc.port == 0 || svc.port == p.port % 2 ^ 16) && not (is_empty p.endpoints))

-- The first port that is asked for
pub record FirstAsked (svc : MeshService) (si : ServiceImport) (ps : List ImportPort)
    (p : ImportPort) : Type 0 where
  pub before : List ImportPort
  pub after : List ImportPort
  pub split : ps ≡ before ++ p ∷ after
  pub unasked : All (λ q. is_asked svc si q ≡ false) before
  pub asked : is_asked svc si p ≡ true

module _ (svc : MeshService) (lb_type : Text) (keys : Assoc Text ℕ) where
  endpoints_of_ports-subsets :
      (si : ServiceImport) (ps : List ImportPort) (out : Endpoints)
      → endpoints_of_ports svc lb_type keys si ps ≡ some out
      → (p : ImportPort) × FirstAsked svc si ps p
        × (out.subsets ≡ map (subset_of p) (filterb (is_served svc keys) p.endpoints))
  unfolding endpoints_of_ports port_selected
  endpoints_of_ports-subsets si [] out h = ground arith
  endpoints_of_ports-subsets si (p ∷ ps) out h = elim (Bool-cases (is_asked svc si p)) [
    | inl e ↦ (
      p,
      record { before = []; after = ps; split = refl; unasked = tt; asked = e },
      ground (arith, h, e, subsets-made svc lb_type keys p si p.endpoints),
    )
    | inr e ↦
        let (q, f, r) = endpoints_of_ports-subsets si ps out (ground (arith, h, e)) in
        (
          q,
          record {
            before = p ∷ f.before;
            after = f.after;
            split = ap (λ l. p ∷ l) f.split;
            unasked = (e, f.unasked);
            asked = f.asked;
          },
          r,
        )
  ]

  endpoints_of_ports-first :
      (si : ServiceImport) (p : ImportPort) (before after : List ImportPort)
      → All (λ q. is_asked svc si q ≡ false) before
      → is_asked svc si p ≡ true
      → endpoints_of_ports svc lb_type keys si (before ++ p ∷ after)
        ≡ some (add_endpoints svc lb_type keys p (no_endpoints si) p.endpoints)
  unfolding endpoints_of_ports port_selected
  endpoints_of_ports-first si p [] after h asked = ground (arith, asked)
  endpoints_of_ports-first si p (q ∷ before) after h asked =
      ground (arith, h.0, endpoints_of_ports-first si p before after h.1 asked)

-- The endpoint is on the target port of the service, unless that is 0, and in a cluster that a target
-- of the policy names, unless it has no target.
abbrev pub is_wanted : MeshService → GlobalTrafficPolicy → ImportEndpoint → Bool
is_wanted svc policy ep =
    (svc.target_port == 0 || svc.target_port == ep.port % 2 ^ 16)
    && (is_empty policy.load_balance_target
        || is_targeted ep.cluster_key policy.load_balance_target)

filterb-same :
    {A : Type 0} (p q : A → Bool) (xs : List A)
    → ((x : A) → p x ≡ q x)
    → filterb p xs ≡ filterb q xs
filterb-same p q [] same = refl
filterb-same p q (x ∷ xs) same = ground (arith, same x, filterb-same p q xs same)

is_served-is_wanted :
    (policies : Policies) (svc : MeshService) (policy : GlobalTrafficPolicy) (ep : ImportEndpoint)
    → policies (namespaced_key svc) ≡ some policy
    → is_served svc (get_service_traffic_policy policies svc).1 ep ≡ is_wanted svc policy ep
is_served-is_wanted policies svc policy ep h =
    ap (λ b. (svc.target_port == 0 || svc.target_port == ep.port % 2 ^ 16) && b)
      (policy-named policies svc policy ep.cluster_key h).1

-- The policy of the service is there, and of another type than `Locality`, and the subsets are those
-- of the endpoints that are wanted of the first port of its import that is asked for.
abbrev pub Selected : Informers → MeshService → List EndpointSubset → Type 0
Selected c svc subsets =
    (policy : GlobalTrafficPolicy) × (si : ServiceImport) × (p : ImportPort) × (c.policies
        (namespaced_key svc)
      ≡ some policy)
    × ((policy.lb_type == codes "Locality") ≡ false)
    × (c.import_by_key (namespaced_key svc) ≡ some si)
    × FirstAsked svc si si.ports p
    × (subsets ≡ map (subset_of p) (filterb (is_wanted svc policy) p.endpoints))

get_endpoints-Selected :
    (c : Informers) (svc : MeshService) (out : Endpoints)
    → get_endpoints c svc ≡ some out
    → Selected c svc out.subsets
unfolding get_endpoints endpoints_of_import
get_endpoints-Selected c svc out h =
    let type_and_keys = get_service_traffic_policy c.policies svc in
    elim (Bool-cases (type_and_keys.0 == locality)) [
      | inl local ↦ absurd (ground (arith, h, local))
      | inr far ↦ elim (Option-cases (c.import_by_key (namespaced_key svc))) [
        | inl e ↦ absurd (ground (arith, h, far, e))
        | inr (si, e) ↦ elim (Option-cases (c.policies (namespaced_key svc))) [
          | inl no_policy ↦
              absurd
                (ground (arith, far, ==_refl locality, no_policy-Locality c.policies svc no_policy))
          | inr (policy, at) ↦
              let (p, first, r) =
                endpoints_of_ports-subsets svc type_and_keys.0 type_and_keys.1 si si.ports out
                  (ground (arith, h, far, e)) in
              (
                policy,
                si,
                p,
                at,
                subst (λ t. (t == codes "Locality") ≡ false)
                    (policy-named c.policies svc policy [] at).0 far,
                e,
                first,
                r
                    ∙ ap (map (subset_of p)) (
                        filterb-same (is_served svc type_and_keys.1) (is_wanted svc policy)
                          p.endpoints (λ ep. is_served-is_wanted c.policies svc policy ep at)),
              )
        ]
      ]
    ]

Selected-get_endpoints :
    (c : Informers) (svc : MeshService) (subsets : List EndpointSubset)
    → Selected c svc subsets
    → (out : Endpoints) × (get_endpoints c svc ≡ some out) × (out.subsets ≡ subsets)
unfolding get_endpoints endpoints_of_import
Selected-get_endpoints c svc subsets (policy, si, p, at, far, found, first, same) =
    let type_and_keys = get_service_traffic_policy c.policies svc in
    let not_local : (type_and_keys.0 == locality) ≡ false =
      subst (λ t. (t == codes "Locality") ≡ false)
        (sym (policy-named c.policies svc policy [] at).0) far in
    let made =
      endpoints_of_ports-first svc type_and_keys.0 type_and_keys.1 si p first.before first.after
        first.unasked first.asked in
    let whole : endpoints_of_ports svc type_and_keys.0 type_and_keys.1 si si.ports
        ≡ some (add_endpoints svc type_and_keys.0 type_and_keys.1 p (no_endpoints si) p.endpoints) =
      ap (λ ps. endpoints_of_ports svc type_and_keys.0 type_and_keys.1 si ps) first.split ∙ made in
    (
      add_endpoints svc type_and_keys.0 type_and_keys.1 p (no_endpoints si) p.endpoints,
      ground (arith, not_local, found, whole),
      subsets-made svc type_and_keys.0 type_and_keys.1 p si p.endpoints
          ∙ ap (map (subset_of p)) (
              filterb-same (is_served svc type_and_keys.1) (is_wanted svc policy) p.endpoints
                (λ ep. is_served-is_wanted c.policies svc policy ep at))
          ∙ sym same,
    )

-- `GetEndpoints` returns endpoints with some subsets for a service just if the policy and the import
-- of its namespaced key are there, the policy is of another type than `Locality`, some port of the
-- import is asked for, and the subsets are, in order, those of just the endpoints of the first such
-- port which are on the target port of the service, if it has one, and of a cluster that a target of
-- the policy names, if it has any target. A port is asked for if the import is of the service's name,
-- whatever the case, and the port has endpoints and is that of the service, unless the service has no
-- port.
pub get_endpoints-subsets :
    (c : Informers) (svc : MeshService) (subsets : List EndpointSubset)
    → ((out : Endpoints) × (get_endpoints c svc ≡ some out) × (out.subsets ≡ subsets))
      ↔ Selected c svc subsets
get_endpoints-subsets c svc subsets = (
  λ r. subst (Selected c svc) r.2 (get_endpoints-Selected c svc r.0 r.1),
  Selected-get_endpoints c svc subsets,
)
