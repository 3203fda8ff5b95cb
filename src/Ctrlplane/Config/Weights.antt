-- ===== src/Ctrlplane/Config/Weights.antt =====
-- The weights that `rebalancedOutboundClusters` of policy.go in pkg/ecnet/bridge/ctrlplane/server
-- leaves, and the keys that `addWeightedZoneEndpoint` writes under.
use erie_canal_net.Base.{
  ℕ, ◌≡◌, refl, Bool, true, false, not, ◌||◌, [], ◌∷◌, ◌++◌, Option, none, some, inl, inr,
  Bool-cases, decimal_injective, Text, arith, ◌==◌, nat_eq, list_eq, Assoc, lookup, is_empty,
  not_empty, any, Free, only, decimal, ltb, split_by-append, split_by-Free, decimal-Free, ap, sym,
  ◌∙◌, is_digit, split_by, if◌then◌else◌,
}
use erie_canal_net.Service.{first, last}
use erie_canal_net.Multicluster.TrafficPolicy.{active_active, fail_over}
use erie_canal_net.Ctrlplane.Config.{
  WeightedZoneEndpoint, WeightedEndpoints, ClusterConfigs, OutboundTrafficPolicy, rebalanced,
  is_local, has_local, rebalance_endpoints, rebalance_clusters, rebalanced_outbound_clusters,
  addr_with_port, all_digits, http_host_port,
}

rebalanced_idem :
    (l : Bool) (wze : WeightedZoneEndpoint) → rebalanced l (rebalanced l wze) ≡ rebalanced l wze
unfolding rebalanced
rebalanced_idem l wze = ground arith

is_local-rebalanced :
    (l : Bool) (wze : WeightedZoneEndpoint) → is_local (rebalanced l wze) ≡ is_local wze
unfolding rebalanced
is_local-rebalanced l wze = ground arith

has_local-rebalance :
    (l : Bool) (wes : WeightedEndpoints) → has_local (rebalance_endpoints l wes) ≡ has_local wes
unfolding rebalance_endpoints
has_local-rebalance l [] = refl
has_local-rebalance l ((k, wze) ∷ wes) =
    ground (arith, is_local-rebalanced l wze, has_local-rebalance l wes)

rebalance_endpoints_idem :
    (l : Bool) (wes : WeightedEndpoints)
    → rebalance_endpoints l (rebalance_endpoints l wes) ≡ rebalance_endpoints l wes
unfolding rebalance_endpoints
rebalance_endpoints_idem l [] = refl
rebalance_endpoints_idem l ((k, wze) ∷ wes) =
    cc (rebalanced_idem l wze, rebalance_endpoints_idem l wes)

rebalance_clusters_idem :
    (ccs : Assoc Text ClusterConfigs)
    → rebalance_clusters (rebalance_clusters ccs) ≡ rebalance_clusters ccs
unfolding rebalance_clusters
rebalance_clusters_idem [] = refl
rebalance_clusters_idem ((name, c) ∷ ccs) =
    rw
      (
        has_local-rebalance (has_local c.endpoints) c.endpoints,
        rebalance_endpoints_idem (has_local c.endpoints) c.endpoints,
        rebalance_clusters_idem ccs,
      )
      refl

-- Rebalancing a second time changes nothing.
pub rebalanced_outbound_clusters_idem :
    (outbound : Option OutboundTrafficPolicy)
    → rebalanced_outbound_clusters (rebalanced_outbound_clusters outbound)
      ≡ rebalanced_outbound_clusters outbound
unfolding rebalanced_outbound_clusters
rebalanced_outbound_clusters_idem none = refl
rebalanced_outbound_clusters_idem (some otp) =
    rw (rebalance_clusters_idem otp.clusters_configs) refl

-- An endpoint of this cluster, or one of another cluster that is balanced or failed over to.
abbrev pub IsBalanced : WeightedZoneEndpoint → Type 0
IsBalanced wze = (is_local wze || wze.lb_type == active_active || wze.lb_type == fail_over) ≡ true

abbrev pub AllBalanced : WeightedEndpoints → Type 0
AllBalanced [] = Unit
AllBalanced ((_, wze) ∷ wes) = IsBalanced wze × AllBalanced wes

abbrev pub some_weight : WeightedEndpoints → Bool
some_weight [] = false
some_weight ((_, wze) ∷ wes) = ltb 0 wze.weight || some_weight wes

weight_without_local :
    (wze : WeightedZoneEndpoint) → IsBalanced wze → ltb 0 (rebalanced false wze).weight ≡ true
unfolding rebalanced
weight_without_local wze b = ground arith

weight_of_local :
    (l : Bool) (wze : WeightedZoneEndpoint)
    → is_local wze ≡ true
    → ltb 0 (rebalanced l wze).weight ≡ true
unfolding rebalanced
weight_of_local l wze b = ground arith

some_weight_local :
    (l : Bool) (wes : WeightedEndpoints)
    → has_local wes ≡ true
    → some_weight (rebalance_endpoints l wes) ≡ true
unfolding rebalance_endpoints
some_weight_local l [] h = ground arith
some_weight_local l ((k, wze) ∷ wes) h =
    ground (arith, weight_of_local l wze, some_weight_local l wes)

some_weight_remote :
    (wes : WeightedEndpoints)
    → is_empty wes ≡ false
    → AllBalanced wes
    → some_weight (rebalance_endpoints false wes) ≡ true
unfolding rebalance_endpoints
some_weight_remote [] e b = ground arith
some_weight_remote ((k, wze) ∷ wes) e b = ground (arith, weight_without_local wze b.0)

some_weight-rebalance :
    (wes : WeightedEndpoints)
    → is_empty wes ≡ false
    → AllBalanced wes
    → some_weight (rebalance_endpoints (has_local wes) wes) ≡ true
some_weight-rebalance wes e b = elim (Bool-cases (has_local wes)) [
  | inl l ↦ some_weight_local (has_local wes) wes l
  | inr r ↦ rw r (some_weight_remote wes e b)
]

lookup-rebalance :
    (name : Text) (ccs : Assoc Text ClusterConfigs) (c : ClusterConfigs)
    → lookup name ccs ≡ some c
    → lookup name (rebalance_clusters ccs)
      ≡ some (record c { endpoints = rebalance_endpoints (has_local c.endpoints) c.endpoints })
unfolding rebalance_clusters lookup
lookup-rebalance name [] c h = ground arith
lookup-rebalance name ((n, d) ∷ ccs) c h = ground (arith, lookup-rebalance name ccs c)

-- After rebalancing, every cluster of the proxy's configuration that has endpoints has one with a
-- positive weight, if each of its endpoints is local or of a cluster that is balanced or failed over
-- to.
pub rebalanced_some_weight :
    (otp : OutboundTrafficPolicy) (name : Text) (c : ClusterConfigs)
    → lookup name otp.clusters_configs ≡ some c
    → is_empty c.endpoints ≡ false
    → AllBalanced c.endpoints
    → (after : OutboundTrafficPolicy) × (c' : ClusterConfigs) × (rebalanced_outbound_clusters
          (some otp)
        ≡ some after)
      × (lookup name after.clusters_configs ≡ some c')
      × (some_weight c'.endpoints ≡ true)
unfolding rebalanced_outbound_clusters
rebalanced_some_weight otp name c found e b = (
  record otp { clusters_configs = rebalance_clusters otp.clusters_configs },
  record c { endpoints = rebalance_endpoints (has_local c.endpoints) c.endpoints },
  refl,
  lookup-rebalance name otp.clusters_configs c found,
  some_weight-rebalance c.endpoints e b,
)

addr_with_port-Free : (address : Text) → Free (only b':') address → addr_with_port address ≡ false
unfolding addr_with_port
addr_with_port-Free [] f = refl
addr_with_port-Free (c ∷ address) f = ground (arith, addr_with_port-Free address)

split_key :
    (address : Text) (port : ℕ)
    → Free (only b':') address
    → split_by (only b':') (address ++ b':' ∷ decimal port) ≡ address ∷ decimal port ∷ []
split_key address port f =
    rw
      (
        split_by-append (only b':') address (decimal port) b':' f refl,
        split_by-Free (only b':') (decimal port)
            (decimal-Free (only b':') port (λ c h. ground arith)),
      )
      refl

-- Two endpoints whose addresses hold no colon, as IPv4 addresses, are kept under the same key only
-- if both their addresses and their ports are the same.
pub http_host_port_injective :
    (a b : Text) (p q : ℕ)
    → Free (only b':') a
    → Free (only b':') b
    → http_host_port a p ≡ http_host_port b q
    → (a ≡ b) × (p ≡ q)
unfolding http_host_port
http_host_port_injective a b p q fa fb e =
    let parts : a ∷ decimal p ∷ [] ≡ b ∷ decimal q ∷ [] =
      sym (split_key a p fa) ∙ (ap (split_by (only b':')) (keys e) ∙ split_key b q fb) in
    (ap first parts, decimal_injective p q (ap last parts))
  where
    keys :
        (if addr_with_port a then a else a ++ b':' ∷ decimal p)
          ≡ (if addr_with_port b then b else b ++ b':' ∷ decimal q)
        → a ++ b':' ∷ decimal p ≡ b ++ b':' ∷ decimal q
    keys h = ground (arith, h, addr_with_port-Free a fa, addr_with_port-Free b fb)

addr_with_port-append :
    (s d : Text)
    → not_empty d ≡ true
    → any (λ c. not (is_digit c)) d ≡ false
    → addr_with_port (s ++ b':' ∷ d) ≡ true
unfolding addr_with_port all_digits
addr_with_port-append [] d e h = ground arith
addr_with_port-append (c ∷ s) d e h = ground (arith, addr_with_port-append s d e h)

-- An address whose part behind a colon is a decimal number, as that of many IPv6 addresses, is taken
-- for one with a port: the endpoints of all its ports share one key.
pub http_host_port_shared :
    (s d : Text) (p q : ℕ)
    → not_empty d ≡ true
    → any (λ c. not (is_digit c)) d ≡ false
    → (http_host_port (s ++ b':' ∷ d) p ≡ s ++ b':' ∷ d)
      × (http_host_port (s ++ b':' ∷ d) p ≡ http_host_port (s ++ b':' ∷ d) q)
unfolding http_host_port
http_host_port_shared s d p q e h = rw (addr_with_port-append s d e h) (refl, refl)
