-- ===== src/Dataplane/Dns/Resolves.antt =====
-- What `syncDNSResolves` of pkg/ecnet/bridge/dataplane/server/jobs.go leaves in its map.
use erie_canal_net.Base.{
  ℕ, ◌≡◌, ap, ◌∙◌, Bool, true, false, not, ◌&&◌, ◌||◌, List, [], ◌∷◌, ◌++◌, Text, arith, ◌==◌,
  nat_eq, list_eq, ==_iff, Assoc, lookup, insert, remove, has_key, has_key-insert, has_key-remove,
  is_empty, any, inl, inr, Bool-cases,
}
use erie_canal_net.Policy.{OutboundTrafficPolicy, OutboundMeshTrafficPolicy}
use erie_canal_net.Dataplane.Dns.{
  DnsWrite, update_resolve, delete_resolve, has_port, add_hostnames, add_policies, latest_resolves,
  add_resolves, delete_resolves, sync_dns_resolves, ttl,
}

has_key-add_hostnames :
    (h : Text) (hs : List Text) (latest : Assoc Text ℕ)
    → has_key h (add_hostnames hs latest)
      ≡ (has_key h latest || any (λ x. x == h && not (has_port x)) hs)
unfolding add_hostnames
has_key-add_hostnames h [] latest = ground arith
has_key-add_hostnames h (x ∷ hs) latest = elim (Bool-cases (has_port x)) [
  | inl e ↦ rw (add_hostnames, e) (has_key-add_hostnames h hs latest ∙ ground arith)
  | inr e ↦
      rw (add_hostnames, e)
        (has_key-add_hostnames h hs (insert x 0 latest)
          ∙ ground (arith, has_key-insert x h 0 latest))
]

module _ {C : Type 0} where
  -- The hostname is one of a policy, and has no port.
  abbrev pub is_hostname : Text → OutboundTrafficPolicy C → Bool
  is_hostname h p = any (λ x. x == h && not (has_port x)) p.hostnames

  abbrev pub is_resolved : Text → Assoc ℕ (List (OutboundTrafficPolicy C)) → Bool
  is_resolved h [] = false
  is_resolved h ((_, ps) ∷ configs) = any (is_hostname h) ps || is_resolved h configs

  has_key-add_policies :
      (h : Text) (ps : List (OutboundTrafficPolicy C)) (latest : Assoc Text ℕ)
      → has_key h (add_policies ps latest) ≡ (has_key h latest || any (is_hostname h) ps)
  unfolding add_policies
  has_key-add_policies h [] latest = ground arith
  has_key-add_policies h (p ∷ ps) latest =
      has_key-add_policies h ps (add_hostnames p.hostnames latest)
      ∙ ground (arith, has_key-add_hostnames h p.hostnames latest)

  pub has_key-latest_resolves :
      (h : Text) (configs : Assoc ℕ (List (OutboundTrafficPolicy C))) (latest : Assoc Text ℕ)
      → has_key h (latest_resolves configs latest) ≡ (has_key h latest || is_resolved h configs)
  unfolding latest_resolves
  has_key-latest_resolves h [] latest = ground arith
  has_key-latest_resolves h ((port, ps) ∷ configs) latest =
      has_key-latest_resolves h configs (add_policies ps latest)
      ∙ ground (arith, has_key-add_policies h ps latest)

pub same_key : (x h : Text) (m : Assoc Text ℕ) → (x == h) ≡ true → has_key x m ≡ has_key h m
same_key x h m e = ap (λ k. has_key k m) ((==_iff x h).0 e)

pub has_key-add_resolves :
    (h : Text) (latest known : Assoc Text ℕ) (writes : List DnsWrite)
    → has_key h (add_resolves latest (known, writes)).0 ≡ (has_key h known || has_key h latest)
unfolding add_resolves lookup
has_key-add_resolves h [] known writes = ground arith
has_key-add_resolves h ((x, v) ∷ latest) known writes = elim (Bool-cases (has_key x known)) [
  | inl e ↦
      rw (add_resolves, e)
        (has_key-add_resolves h latest known writes ∙ ground (arith, e, same_key x h known))
  | inr e ↦
      rw (add_resolves, e)
        (has_key-add_resolves h latest (insert x 1 known) (writes ++ update_resolve x ttl ∷ [])
          ∙ ground (arith, has_key-insert x h 1 known))
]

has_key-delete_resolves :
    (h : Text) (latest entries known : Assoc Text ℕ) (writes : List DnsWrite)
    → has_key h (delete_resolves latest entries (known, writes)).0
      ≡ (has_key h known && (has_key h latest || not (has_key h entries)))
unfolding delete_resolves lookup
has_key-delete_resolves h latest [] known writes = ground arith
has_key-delete_resolves h latest ((x, v) ∷ entries) known writes =
    elim (Bool-cases (has_key x latest)) [
      | inl e ↦
          rw (delete_resolves, e)
            (has_key-delete_resolves h latest entries known writes
              ∙ ground (arith, e, same_key x h latest))
      | inr e ↦
          rw (delete_resolves, e)
            (has_key-delete_resolves h latest entries (remove x known)
                (writes ++ delete_resolve x ∷ [])
              ∙ ground (arith, e, has_key-remove x h known, same_key x h latest))
    ]

-- If the mesh has an HTTP route, the hostnames that `syncDNSResolves` then keeps are just the
-- hostnames without a port of its HTTP policies, whatever it kept before.
pub sync_dns_resolves_keeps :
    {C : Type 0} (policy : OutboundMeshTrafficPolicy C) (known : Assoc Text ℕ) (h : Text)
    → is_empty policy.http_route_configs_per_port ≡ false
    → has_key h (sync_dns_resolves policy known).0
      ≡ is_resolved h policy.http_route_configs_per_port
unfolding sync_dns_resolves lookup
sync_dns_resolves_keeps policy known h some_route =
    let latest = latest_resolves policy.http_route_configs_per_port [] in
    let added = add_resolves latest (known, []) in
    rw (sync_dns_resolves, some_route)
      (has_key-delete_resolves h latest added.0 added.0 added.1
        ∙ ground (
          arith,
          has_key-add_resolves h latest known [],
          has_key-latest_resolves h policy.http_route_configs_per_port [],
        ))
