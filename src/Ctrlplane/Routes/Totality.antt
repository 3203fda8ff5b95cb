-- ===== src/Ctrlplane/Routes/Totality.antt =====
-- `generatePipyOutboundTrafficRoutePolicy` of pkg/ecnet/bridge/ctrlplane/server/util.go: where it does
-- not panic, and the sharing of its traffic matches.
use erie_canal_net.Base.{
  ℕ, ◌%◌, ◌^◌, ◌<◌, ◌≡◌, refl, Bool, true, false, List, [], ◌∷◌, Option, some, Text, ◌==◌, nat_eq,
  list_eq, Assoc, is_empty, length, All, inl, inr, Bool-cases, SetOps, to_lower,
}
use erie_canal_net.Service.{WeightedCluster, weighted_cluster_eq}
use erie_canal_net.Policy.{TrafficMatch, OutboundMeshTrafficPolicy}
use erie_canal_net.Catalog.Clusters.{protocol_https}
use erie_canal_net.Ctrlplane.Config.{
  OutboundTrafficPolicy, new_traffic_match, set_port, set_protocol,
}
use erie_canal_net.Ctrlplane.Config.Matches.{Shared, new_traffic_match-Shared}
use erie_canal_net.Ctrlplane.Routes.{
  Generated, started, http_rules, tcp_targets, fill_match, generate_match, generate_matches,
  outbound_or_new, generate_route_policy, is_http, is_tcp_like, match_name, config_clusters,
}
use erie_canal_net.Ctrlplane.Routes.Steps.{
  length-update_at, write_match-Shared, GoesOn, Readable, http_rules_total, configs_for_total,
  when_configured_total, tcp_targets-Shared,
}

module _ (S : SetOps WeightedCluster) where
  fill_match_total :
      (policy : OutboundMeshTrafficPolicy S.Set) (tm : TrafficMatch)
      (deps : Assoc Text WeightedCluster) (ptr : ℕ) (otp : OutboundTrafficPolicy)
      → Readable tm
      → ptr < length otp.matches
      → Shared otp
      → GoesOn (fill_match S policy tm deps (ptr, otp))
  unfolding fill_match
  fill_match_total policy tm deps ptr otp readable h sh =
      let (configs, e, n) = configs_for_total S policy tm readable in
      elim (Bool-cases (is_http (to_lower tm.destination_protocol))) [
        | inl http ↦
            rw (fill_match, http, e)
              (when_configured_total S configs (record { otp = otp; depend_clusters = deps })
                (λ cs. http_rules S ptr cs otp deps) sh
                (http_rules_total S ptr configs otp deps h sh n))
        | inr other ↦ elim (Bool-cases (is_tcp_like (to_lower tm.destination_protocol))) [
          | inl tcp ↦
              rw (fill_match, other, tcp)
                (
                  tcp_targets ptr tm.weighted_clusters otp deps,
                  refl,
                  tcp_targets-Shared S ptr tm.weighted_clusters otp deps sh,
                )
          | inr neither ↦ elim (Bool-cases (to_lower tm.destination_protocol == protocol_https)) [
            | inl https ↦
                rw (fill_match, other, neither, https, e)
                  (when_configured_total S configs (record { otp = otp; depend_clusters = deps })
                    (λ cs. some (tcp_targets ptr (config_clusters S cs) otp deps)) sh
                    (
                      tcp_targets ptr (config_clusters S configs) otp deps,
                      refl,
                      tcp_targets-Shared S ptr (config_clusters S configs) otp deps sh,
                    ))
            | inr none_of_them ↦
                rw (fill_match, other, neither, none_of_them)
                  (record { otp = otp; depend_clusters = deps }, refl, sh)
          ]
        ]
      ]

  started-Shared :
      (port : ℕ) (protocol : Text) (ptr : ℕ) (known : Bool) (otp : OutboundTrafficPolicy)
      → ptr < length otp.matches
      → Shared otp
      → (ptr < length (started port protocol (ptr, known, otp)).1.matches)
        × Shared (started port protocol (ptr, known, otp)).1
        × ((started port protocol (ptr, known, otp)).0 ≡ ptr)
  unfolding started
  started-Shared port protocol ptr true otp h sh = (h, sh, refl)
  started-Shared port protocol ptr false otp h sh = (
    rw (length-update_at ptr (λ tm. set_port port (set_protocol protocol tm)) otp.matches) h,
    write_match-Shared ptr (λ tm. set_port port (set_protocol protocol tm)) otp sh,
    refl,
  )

  generate_match_total :
      (policy : OutboundMeshTrafficPolicy S.Set) (tm : TrafficMatch) (g : Generated)
      → Readable tm
      → Shared g.otp
      → GoesOn (generate_match S policy tm g)
  unfolding generate_match
  generate_match_total policy tm g readable sh =
      let port = tm.destination_port % 2 ^ 16 in
      let protocol = to_lower tm.destination_protocol in
      let found = new_traffic_match port (match_name tm) g.otp in
      let shared = new_traffic_match-Shared port (match_name tm) g.otp sh in
      let (h, sh', same) = started-Shared port protocol found.0 found.1 found.2 shared.3 shared.0 in
      fill_match_total policy tm g.depend_clusters (started port protocol found).0
        (started port protocol found).1 readable (rw same h) sh'

  generate_matches_total :
      (policy : OutboundMeshTrafficPolicy S.Set) (tms : List TrafficMatch) (g : Generated)
      → All Readable tms
      → Shared g.otp
      → GoesOn (generate_matches S policy tms g)
  unfolding generate_matches
  generate_matches_total policy [] g r sh = (g, refl, sh)
  generate_matches_total policy (tm ∷ tms) g r sh =
      let (g1, e, sh1) = generate_match_total policy tm g r.0 sh in
      let (g2, k, sh2) = generate_matches_total policy tms g1 r.1 sh1 in
      (g2, rw (generate_matches, e) k, sh2)

  -- If the name of every traffic match is read back as a service, and the named matches of the
  -- configuration are shared with the map of ports, generating the routes does not panic, and the
  -- named matches of the result are shared again.
  pub generate_route_policy_total :
      (outbound : Option OutboundTrafficPolicy) (policy : OutboundMeshTrafficPolicy S.Set)
      → All Readable policy.traffic_matches
      → Shared (outbound_or_new outbound)
      → (after : Option OutboundTrafficPolicy) × (deps : Assoc Text WeightedCluster)
        × (generate_route_policy S outbound policy ≡ some (after, deps))
        × Shared (outbound_or_new after)
  unfolding generate_route_policy
  generate_route_policy_total outbound policy r sh =
      elim (Bool-cases (is_empty policy.traffic_matches)) [
        | inl e ↦ (outbound, [], rw (generate_route_policy, e) refl, sh)
        | inr e ↦
            let (g, k, sh') =
              generate_matches_total policy policy.traffic_matches
                (record { otp = outbound_or_new outbound; depend_clusters = [] }) r sh in
            (some g.otp, g.depend_clusters, rw (generate_route_policy, e, k) refl, sh')
      ]
