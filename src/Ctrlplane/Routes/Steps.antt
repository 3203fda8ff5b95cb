-- ===== src/Ctrlplane/Routes/Steps.antt =====
-- The steps of `generatePipyOutboundTrafficRoutePolicy` of
-- pkg/ecnet/bridge/ctrlplane/server/util.go: that they go on, and that the matches stay shared.
use erie_canal_net.Base.{
  ℕ, zero, suc, ◌<◌, ◌≡◌, refl, false, ◌&&◌, List, [], ◌∷◌, ◌++◌, Option, none, some, Text, arith,
  ◌==◌, nat_eq, list_eq, ==_iff, Assoc, lookup, insert, is_empty, length, All, inl, inr, Bool-cases,
  Option-cases, codes, SetOps,
}
use erie_canal_net.Service.{MeshService, WeightedCluster, weighted_cluster_eq, fqdn}
use erie_canal_net.Policy.{TrafficMatch, OutboundMeshTrafficPolicy}
use erie_canal_net.Policy.{OutboundTrafficPolicy as HttpPolicy}
use erie_canal_net.Ctrlplane.Names.{traffic_match_to_mesh_svc}
use erie_canal_net.Ctrlplane.Config.{
  OutboundHttpRouteRules, OutboundTrafficMatch, OutboundTrafficPolicy, new_http_service_route_rules,
  new_tcp_service_route_rules, no_rules, write_match, update_at,
}
use erie_canal_net.Ctrlplane.Config.Matches.{Shared}
use erie_canal_net.Ctrlplane.Routes.{
  Generated, add_tcp_clusters, depend_on, has_equal_route, policies_for,
  get_outbound_http_route_configs, put_routes, add_configs, nth, modify_match, http_rules,
  tcp_targets, configs_for, when_configured, config_clusters,
}

pub length-update_at :
    {A : Type 0} (i : ℕ) (f : A → A) (xs : List A) → length (update_at i f xs) ≡ length xs
length-update_at i f [] = refl
length-update_at zero f (x ∷ xs) = refl
length-update_at (suc i) f (x ∷ xs) = ground (arith, length-update_at i f xs)

nth-lt : {A : Type 0} (i : ℕ) (xs : List A) → i < length xs → (x : A) × (nth i xs ≡ some x)
nth-lt i [] h = absurd (omega arith)
nth-lt zero (x ∷ xs) h = (x, refl)
nth-lt (suc i) (x ∷ xs) h = nth-lt i xs (omega arith)

pub write_match-Shared :
    (ptr : ℕ) (f : OutboundTrafficMatch → OutboundTrafficMatch) (otp : OutboundTrafficPolicy)
    → Shared otp
    → Shared (write_match ptr f otp)
write_match-Shared ptr f otp sh = record {
  allocated = λ key p h. rw (length-update_at ptr f otp.matches) (sh.allocated key p h);
  listed = sh.listed;
  one_name = sh.one_name;
}

not_empty-fqdn : (svc : MeshService) → is_empty (fqdn svc) ≡ false
unfolding fqdn
not_empty-fqdn svc = go svc.name
  where
    go :
        (name : Text)
        → is_empty (name ++ b'.' ∷ (svc.namespace ++ codes ".svc.cluster.local")) ≡ false
    go [] = refl
    go (c ∷ name) = refl

new_rules :
    (name : Text) (tm : OutboundTrafficMatch)
    → is_empty name ≡ false
    → (rules : OutboundHttpRouteRules) × (tm' : OutboundTrafficMatch)
      × (new_http_service_route_rules name tm ≡ (some rules, tm'))
unfolding new_http_service_route_rules no_rules
new_rules name tm e = elim (Option-cases (lookup name tm.http_service_route_rules)) [
  | inl h ↦ (
    no_rules,
    record tm { http_service_route_rules = insert name no_rules tm.http_service_route_rules },
    rw (new_http_service_route_rules, e, h) refl,
  )
  | inr (rules, h) ↦ (rules, tm, rw (new_http_service_route_rules, e, h) refl)
]

-- A traffic match whose name is read back.
abbrev pub Readable : TrafficMatch → Type 0
Readable tm = (svc : MeshService) × (traffic_match_to_mesh_svc tm ≡ some svc)

-- The loop goes on, and the matches stay shared.
abbrev pub GoesOn : Option Generated → Type 0
GoesOn o = (g : Generated) × (o ≡ some g) × Shared g.otp

module _ (S : SetOps WeightedCluster) where
  abbrev pub Named : HttpPolicy S.Set → Type 0
  Named p = is_empty p.name ≡ false

  policies_for-Named :
      (name : Text) (clusters : List WeightedCluster) (ps : List (HttpPolicy S.Set))
      → is_empty name ≡ false
      → All Named (policies_for S name clusters ps)
  unfolding policies_for
  policies_for-Named name clusters [] e = tt
  policies_for-Named name clusters (p ∷ ps) e =
      elim (Bool-cases (p.name == name && has_equal_route S clusters p.routes)) [
        | inl h ↦ rw h (ground (arith, ==_iff p.name name), policies_for-Named name clusters ps e)
        | inr h ↦ rw h (policies_for-Named name clusters ps e)
      ]

  put_routes_total :
      (config : HttpPolicy S.Set) (tm : OutboundTrafficMatch)
      → Named config
      → (tm' : OutboundTrafficMatch) × (put_routes S config
            (new_http_service_route_rules config.name tm)
          ≡ some tm')
  unfolding put_routes
  put_routes_total config tm n = let (rules, tm1, e) = new_rules config.name tm n in rw e (_, refl)

  add_configs_total :
      (configs : List (HttpPolicy S.Set)) (tm : OutboundTrafficMatch)
      → All Named configs
      → (tm' : OutboundTrafficMatch) × (add_configs S configs tm ≡ some tm')
  unfolding add_configs
  add_configs_total [] tm n = (tm, refl)
  add_configs_total (c ∷ configs) tm n =
      let (tm1, e) = put_routes_total c tm n.0 in
      let (tm2, k) = add_configs_total configs tm1 n.1 in (tm2, rw (add_configs, e) k)

  modify_match_total :
      (ptr : ℕ) (f : OutboundTrafficMatch → Option OutboundTrafficMatch)
      (otp : OutboundTrafficPolicy)
      → ptr < length otp.matches
      → Shared otp
      → ((tm : OutboundTrafficMatch) → (tm' : OutboundTrafficMatch) × (f tm ≡ some tm'))
      → (otp' : OutboundTrafficPolicy) × (modify_match ptr f otp ≡ some otp') × Shared otp'
  modify_match_total ptr f otp h sh total =
      let (tm, found) = nth-lt ptr otp.matches h in
      let (tm', e) = total tm in
      (
        write_match ptr (λ _. tm') otp,
        rw (modify_match, found, e) refl,
        write_match-Shared ptr (λ _. tm') otp sh,
      )

  pub http_rules_total :
      (ptr : ℕ) (configs : List (HttpPolicy S.Set)) (otp : OutboundTrafficPolicy)
      (deps : Assoc Text WeightedCluster)
      → ptr < length otp.matches
      → Shared otp
      → All Named configs
      → GoesOn (http_rules S ptr configs otp deps)
  unfolding http_rules
  http_rules_total ptr configs otp deps h sh n =
      let (otp', e, sh') =
        modify_match_total ptr (add_configs S configs) otp h sh
          (λ tm. add_configs_total configs tm n) in
      (
        record { otp = otp'; depend_clusters = depend_on (config_clusters S configs) deps },
        rw (http_rules, e) refl,
        sh',
      )

  pub configs_for_total :
      (policy : OutboundMeshTrafficPolicy S.Set) (tm : TrafficMatch)
      → Readable tm
      → (configs : List (HttpPolicy S.Set)) × (configs_for S policy tm ≡ some configs)
        × All Named configs
  unfolding configs_for get_outbound_http_route_configs
  configs_for_total policy tm (svc, e) = (
    get_outbound_http_route_configs S policy.http_route_configs_per_port svc.target_port (fqdn svc)
        tm.weighted_clusters,
    rw (configs_for, e) refl,
    named (lookup svc.target_port policy.http_route_configs_per_port) refl,
  )
    where
      named :
          (o : Option (List (HttpPolicy S.Set)))
          → lookup svc.target_port policy.http_route_configs_per_port ≡ o
          → All Named (
              get_outbound_http_route_configs S policy.http_route_configs_per_port svc.target_port
                (fqdn svc)
                tm.weighted_clusters)
      named none h = rw (get_outbound_http_route_configs, h) tt
      named (some ps) h =
          rw (get_outbound_http_route_configs, h)
            (policies_for-Named (fqdn svc) tm.weighted_clusters ps (not_empty-fqdn svc))

  pub when_configured_total :
      (configs : List (HttpPolicy S.Set)) (g : Generated)
      (make : List (HttpPolicy S.Set) → Option Generated)
      → Shared g.otp
      → GoesOn (make configs)
      → GoesOn (when_configured S (some configs) g make)
  unfolding when_configured
  when_configured_total [] g make sh on = (g, refl, sh)
  when_configured_total (p ∷ ps) g make sh on = on

  pub tcp_targets-Shared :
      (ptr : ℕ) (clusters : List WeightedCluster) (otp : OutboundTrafficPolicy)
      (deps : Assoc Text WeightedCluster)
      → Shared otp
      → Shared (tcp_targets ptr clusters otp deps).otp
  unfolding tcp_targets
  tcp_targets-Shared ptr clusters otp deps sh =
      write_match-Shared ptr (λ tm. add_tcp_clusters clusters (new_tcp_service_route_rules tm)) otp
        sh
