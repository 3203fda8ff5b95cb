-- ===== src/Ctrlplane/Routes/Depends.antt =====
-- The clusters that `generatePipyOutboundTrafficRoutePolicy` of
-- pkg/ecnet/bridge/ctrlplane/server/util.go makes the configuration depend on.
use erie_canal_net.Base.{
  ℕ, ◌%◌, ◌^◌, ◌≡◌, refl, ap, subst, true, false, ◌&&◌, List, [], ◌∷◌, Option, none, some, Text,
  arith, ◌==◌, nat_eq, list_eq, ==_iff, Assoc, lookup, insert, lookup-insert, has_key, is_empty,
  All, All-append, inl, inr, Bool-cases, Option-cases, SetOps, to_lower,
}
use erie_canal_net.Service.{WeightedCluster, weighted_cluster_eq, fqdn}
use erie_canal_net.Policy.{TrafficMatch, OutboundMeshTrafficPolicy}
use erie_canal_net.Policy.{OutboundTrafficPolicy as HttpPolicy}
use erie_canal_net.Catalog.Clusters.{protocol_https}
use erie_canal_net.Ctrlplane.Names.{traffic_match_to_mesh_svc}
use erie_canal_net.Ctrlplane.Config.{OutboundTrafficPolicy, new_traffic_match}
use erie_canal_net.Ctrlplane.Routes.{
  Generated, depend_on, policies_for, get_outbound_http_route_configs, route_clusters,
  config_clusters, has_equal_route, modify_match, add_configs, started, http_rules, tcp_targets,
  configs_for, when_configured, fill_match, generate_match, generate_matches, outbound_or_new,
  generate_route_policy, is_http, is_tcp_like, match_name,
}

some_injective : {A : Type 0} {a b : A} → some a ≡ some b → a ≡ b
some_injective {A} {a} e = ap (λ o. elim o [ none ↦ a | some x ↦ x ]) e

module _ (P : Text → Type 0) where
  abbrev pub Fit : List WeightedCluster → Type 0
  Fit cs = All (λ c. P c.cluster_name) cs

  -- Each cluster stands under its name, which has the property.
  abbrev pub Depends : Assoc Text WeightedCluster → Type 0
  Depends deps =
      (n : Text) (c : WeightedCluster) → lookup n deps ≡ some c → (c.cluster_name ≡ n) × P n

  Depends-insert :
      (c : WeightedCluster) (deps : Assoc Text WeightedCluster)
      → P c.cluster_name
      → Depends deps
      → Depends (insert c.cluster_name c deps)
  Depends-insert c deps p d n x h = elim (Bool-cases (c.cluster_name == n)) [
    | inl e ↦
        let same : c.cluster_name ≡ n = (==_iff c.cluster_name n).0 e in
        (ground (arith, lookup-insert c.cluster_name n c deps, same), rw (← same) p)
    | inr e ↦ d n x (ground (arith, lookup-insert c.cluster_name n c deps))
  ]

  Depends-depend_on :
      (cs : List WeightedCluster) (deps : Assoc Text WeightedCluster)
      → Fit cs
      → Depends deps
      → Depends (depend_on cs deps)
  unfolding depend_on
  Depends-depend_on [] deps f d = d
  Depends-depend_on (c ∷ cs) deps f d = elim (Bool-cases (has_key c.cluster_name deps)) [
    | inl e ↦ rw (depend_on, e) (Depends-depend_on cs deps f.1 d)
    | inr e ↦
        rw (depend_on, e)
          (Depends-depend_on cs (insert c.cluster_name c deps) f.1 (Depends-insert c deps f.0 d))
  ]

  module _ (S : SetOps WeightedCluster) where
    abbrev pub FitPolicy : HttpPolicy S.Set → Type 0
    FitPolicy p = Fit (route_clusters S p.routes)

    -- The policies that one lookup gives
    abbrev pub FitPort : Option (List (HttpPolicy S.Set)) → Type 0
    FitPort none = Unit
    FitPort (some ps) = All FitPolicy ps

    policies_for-Fit :
        (name : Text) (clusters : List WeightedCluster) (ps : List (HttpPolicy S.Set))
        → All FitPolicy ps
        → Fit (config_clusters S (policies_for S name clusters ps))
    unfolding policies_for config_clusters
    policies_for-Fit name clusters [] f = tt
    policies_for-Fit name clusters (p ∷ ps) f =
        elim (Bool-cases (p.name == name && has_equal_route S clusters p.routes)) [
          | inl e ↦ rw e (
              All-append (λ c. P c.cluster_name) (route_clusters S p.routes)
                (config_clusters S (policies_for S name clusters ps)) f.0
                (policies_for-Fit name clusters ps f.1))
          | inr e ↦ rw e (policies_for-Fit name clusters ps f.1)
        ]

    -- What holds of the clusters of every traffic match and of every HTTP route
    pub record FitMesh (policy : OutboundMeshTrafficPolicy S.Set) : Type 0 where
      pub of_match : All (λ tm. Fit tm.weighted_clusters) policy.traffic_matches
      pub of_port : (port : ℕ) → FitPort (lookup port policy.http_route_configs_per_port)

    found-Fit :
        (policy : OutboundMeshTrafficPolicy S.Set) (port : ℕ) (name : Text)
        (clusters : List WeightedCluster)
        → FitMesh policy
        → Fit (
            config_clusters S (
              get_outbound_http_route_configs S policy.http_route_configs_per_port port name
                clusters))
    unfolding get_outbound_http_route_configs config_clusters
    found-Fit policy port name clusters fit =
        found (lookup port policy.http_route_configs_per_port) refl
      where
        found :
            (o : Option (List (HttpPolicy S.Set)))
            → lookup port policy.http_route_configs_per_port ≡ o
            → Fit (
                config_clusters S (
                  get_outbound_http_route_configs S policy.http_route_configs_per_port port name
                    clusters))
        found none h = rw (get_outbound_http_route_configs, h) tt
        found (some ps) h =
            rw (get_outbound_http_route_configs, h)
              (policies_for-Fit name clusters ps (subst FitPort h (fit.of_port port)))

    configs_for-Fit :
        (policy : OutboundMeshTrafficPolicy S.Set) (tm : TrafficMatch)
        (configs : List (HttpPolicy S.Set))
        → FitMesh policy
        → configs_for S policy tm ≡ some configs
        → Fit (config_clusters S configs)
    unfolding configs_for
    configs_for-Fit policy tm configs fit h = elim (Option-cases (traffic_match_to_mesh_svc tm)) [
      | inl e ↦ ground (arith, e)
      | inr (svc, e) ↦
          let same : get_outbound_http_route_configs S policy.http_route_configs_per_port
                svc.target_port (fqdn svc) tm.weighted_clusters
              ≡ configs =
            ground (arith, e) in
          subst (λ cs. Fit (config_clusters S cs)) same
            (found-Fit policy svc.target_port (fqdn svc) tm.weighted_clusters fit)
    ]

    -- What a step leaves, if it leaves anything
    abbrev Leaves : Option Generated → Type 0
    Leaves o = (g : Generated) → o ≡ some g → Depends g.depend_clusters

    when_configured-Leaves :
        (o : Option (List (HttpPolicy S.Set))) (g : Generated)
        (make : List (HttpPolicy S.Set) → Option Generated)
        → Depends g.depend_clusters
        → ((configs : List (HttpPolicy S.Set)) → o ≡ some configs → Leaves (make configs))
        → Leaves (when_configured S o g make)
    unfolding when_configured
    when_configured-Leaves none g make d leaves g' e = ground arith
    when_configured-Leaves (some []) g make d leaves g' e =
        subst (λ x. Depends x.depend_clusters) (some_injective e) d
    when_configured-Leaves (some (p ∷ ps)) g make d leaves g' e = leaves (p ∷ ps) refl g' e

    http_rules-Leaves :
        (ptr : ℕ) (configs : List (HttpPolicy S.Set)) (otp : OutboundTrafficPolicy)
        (deps : Assoc Text WeightedCluster)
        → Fit (config_clusters S configs)
        → Depends deps
        → Leaves (http_rules S ptr configs otp deps)
    unfolding http_rules
    http_rules-Leaves ptr configs otp deps f d g e =
        elim (Option-cases (modify_match ptr (add_configs S configs) otp)) [
          | inl k ↦ ground (arith, k)
          | inr (otp', k) ↦
              let same : depend_on (config_clusters S configs) deps ≡ g.depend_clusters =
                ground (arith, k) in
              subst Depends same (Depends-depend_on (config_clusters S configs) deps f d)
        ]

    fill_match-Leaves :
        (policy : OutboundMeshTrafficPolicy S.Set) (tm : TrafficMatch)
        (deps : Assoc Text WeightedCluster) (at : ℕ × OutboundTrafficPolicy)
        → FitMesh policy
        → Fit tm.weighted_clusters
        → Depends deps
        → Leaves (fill_match S policy tm deps at)
    unfolding fill_match tcp_targets
    fill_match-Leaves policy tm deps (ptr, otp) fit f d =
        let unchanged : Generated = record { otp = otp; depend_clusters = deps } in
        elim (Bool-cases (is_http (to_lower tm.destination_protocol))) [
          | inl http ↦
              rw (fill_match, http)
                (when_configured-Leaves (configs_for S policy tm) unchanged
                  (λ cs. http_rules S ptr cs otp deps) d
                  (λ cs e.
                    http_rules-Leaves ptr cs otp deps (configs_for-Fit policy tm cs fit e) d))
          | inr other ↦ elim (Bool-cases (is_tcp_like (to_lower tm.destination_protocol))) [
            | inl tcp ↦
                rw (fill_match, other, tcp)
                  (λ g e.
                    subst (λ x. Depends x.depend_clusters) (some_injective e)
                      (Depends-depend_on tm.weighted_clusters deps f d))
            | inr neither ↦ elim (Bool-cases (to_lower tm.destination_protocol == protocol_https)) [
              | inl https ↦
                  rw (fill_match, other, neither, https)
                    (when_configured-Leaves (configs_for S policy tm) unchanged
                      (λ cs. some (tcp_targets ptr (config_clusters S cs) otp deps)) d
                      (λ cs e g k.
                        subst (λ x. Depends x.depend_clusters) (some_injective k)
                          (Depends-depend_on (config_clusters S cs) deps
                            (configs_for-Fit policy tm cs fit e) d)))
              | inr none_of_them ↦
                  rw (fill_match, other, neither, none_of_them)
                    (λ g e. subst (λ x. Depends x.depend_clusters) (some_injective e) d)
            ]
          ]
        ]

    generate_matches-Leaves :
        (policy : OutboundMeshTrafficPolicy S.Set) (tms : List TrafficMatch) (g : Generated)
        → FitMesh policy
        → All (λ tm. Fit tm.weighted_clusters) tms
        → Depends g.depend_clusters
        → Leaves (generate_matches S policy tms g)
    unfolding generate_matches generate_match
    generate_matches-Leaves policy [] g fit f d g' e =
        subst (λ x. Depends x.depend_clusters) (some_injective e) d
    generate_matches-Leaves policy (tm ∷ tms) g fit f d g' e =
        elim (Option-cases (generate_match S policy tm g)) [
          | inl k ↦ ground (arith, k)
          | inr (g1, k) ↦
              generate_matches-Leaves policy tms g1 fit f.1
                (fill_match-Leaves policy tm g.depend_clusters
                  (started (tm.destination_port % 2 ^ 16) (to_lower tm.destination_protocol)
                    (new_traffic_match (tm.destination_port % 2 ^ 16) (match_name tm) g.otp))
                  fit f.0 d g1 k)
                g' (ground (arith, k))
        ]

    -- If the names of the clusters of every traffic match and of every HTTP route of the mesh have a
    -- property, the clusters on which the generated configuration depends stand under their names,
    -- which have the property too.
    pub generate_route_policy-Depends :
        (outbound : Option OutboundTrafficPolicy) (policy : OutboundMeshTrafficPolicy S.Set)
        (after : Option OutboundTrafficPolicy) (deps : Assoc Text WeightedCluster)
        → FitMesh policy
        → generate_route_policy S outbound policy ≡ some (after, deps)
        → Depends deps
    unfolding generate_route_policy lookup
    generate_route_policy-Depends outbound policy after deps fit h =
        elim (Bool-cases (is_empty policy.traffic_matches)) [
          | inl e ↦ subst Depends (left_empty e) no_clusters
          | inr e ↦ elim (Option-cases (generate_matches S policy policy.traffic_matches start)) [
            | inl k ↦ ground (arith, e, k)
            | inr (g, k) ↦ subst Depends (left g e k) (
                generate_matches-Leaves policy policy.traffic_matches start fit fit.of_match
                  no_clusters g k)
          ]
        ]
      where
        start : Generated
        start = record { otp = outbound_or_new outbound; depend_clusters = [] }

        no_clusters : Depends []
        no_clusters n c e = ground arith

        left_empty : is_empty policy.traffic_matches ≡ true → [] ≡ deps
        left_empty e = ground (arith, h)

        left :
            (g : Generated)
            → is_empty policy.traffic_matches ≡ false
            → generate_matches S policy policy.traffic_matches start ≡ some g
            → g.depend_clusters ≡ deps
        left g e k = ground (arith, h)
