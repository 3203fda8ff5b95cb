-- ===== src/Dataplane/Dns.antt =====
-- jobs.go of pkg/ecnet/bridge/dataplane/server: `syncDNSEndpoints` and `syncDNSResolves`. The maps of
-- the kernel are the writes to them, in order.
pub mod Resolves
pub mod Plane
pub mod Records
use erie_canal_net.Base.{
  ℕ, Bool, true, false, not, ◌&&◌, List, [], ◌∷◌, ◌++◌, Option, none, some, Text, ◌==◌, nat_eq,
  list_eq, if◌then◌else◌, Assoc, lookup, insert, remove, has_key, is_empty, not_empty, any, only,
  equal_fold,
}
use erie_canal_net.Service.{MeshService, subdomain}
use erie_canal_net.Multicluster.ServiceImport.{
  CoreService, Endpoints, EndpointSubset, EndpointAddress, EndpointPort,
}
use erie_canal_net.Policy.{OutboundTrafficPolicy, OutboundMeshTrafficPolicy}

-- map.go of helpers: the writes, as they are asked for. `update_resolve` packs the name with a dot after
-- it, `delete_resolve` packs it as it is.
pub data DnsWrite : Type 0 where
  update_endpoint : Text → Text → DnsWrite
  delete_endpoint : Text → DnsWrite
  update_resolve : Text → ℕ → DnsWrite
  delete_resolve : Text → DnsWrite

-- What the job asks the Kubernetes controller: `GetService`, and `GetEndpoints`, which fails, finds
-- nothing, or finds endpoints.
pub record KubeController : Type 0 where
  pub get_service : MeshService → Option CoreService
  pub get_endpoints : MeshService → Option (Option Endpoints)

-- `is_ip` is whether `net.ParseIP` reads the address.
module _ (is_ip : Text → Bool) where
  abbrev is_wanted : MeshService → EndpointAddress → Bool
  is_wanted dns_svc address =
      not (not_empty (subdomain dns_svc) && not (subdomain dns_svc == address.hostname))
      && is_ip address.ip

  -- The loop over the addresses; a nil service panics where it is read.
  add_addresses :
      MeshService
      → Option CoreService
      → List EndpointAddress
      → Assoc Text Text
      → Option (Assoc Text Text)
  add_addresses dns_svc svc [] latest = some latest
  add_addresses dns_svc none (a ∷ as') latest =
      let rest = add_addresses dns_svc none as' latest in if is_wanted dns_svc a then none else rest
  add_addresses dns_svc (some svc) (a ∷ as') latest =
      add_addresses dns_svc (some svc) as'
        (if is_wanted dns_svc a then insert a.ip svc.cluster_ip latest else latest)

  add_ports :
      MeshService
      → Option CoreService
      → List EndpointAddress
      → List EndpointPort
      → Assoc Text Text
      → Option (Assoc Text Text)
  unfolding add_addresses
  add_ports dns_svc svc addresses [] latest = some latest
  add_ports dns_svc svc addresses (p ∷ ps) latest =
      if p.port == dns_svc.port
      then (elim (add_addresses dns_svc svc addresses latest) [
        | none ↦ none
        | some latest' ↦ add_ports dns_svc svc addresses ps latest'
      ])
      else add_ports dns_svc svc addresses ps latest

  add_subsets :
      MeshService
      → Option CoreService
      → List EndpointSubset
      → Assoc Text Text
      → Option (Assoc Text Text)
  unfolding add_ports
  add_subsets dns_svc svc [] latest = some latest
  add_subsets dns_svc svc (s ∷ ss) latest =
      elim (add_ports dns_svc svc s.addresses s.ports latest) [
        | none ↦ none
        | some latest' ↦ add_subsets dns_svc svc ss latest'
      ]

  -- The state of the job: the map of what is written, and the writes.
  abbrev Synced : Type 0
  Synced = Assoc Text Text × List DnsWrite

  update_endpoints : Assoc Text Text → Synced → Synced
  update_endpoints [] s = s
  update_endpoints ((eip, cip) ∷ latest) (known, writes) =
      update_endpoints latest (elim (lookup eip known) [
        | none ↦ (known, writes ++ update_endpoint eip cip ∷ [])
        | some pcip ↦
            if equal_fold cip pcip
            then (known, writes)
            else (insert eip cip known, writes ++ update_endpoint eip cip ∷ [])
      ])

  -- The loop over the keys that the map had when it began.
  delete_endpoints : Assoc Text Text → Assoc Text Text → Synced → Synced
  delete_endpoints latest [] s = s
  delete_endpoints latest ((eip, _) ∷ entries) (known, writes) = delete_endpoints latest entries (
      if has_key eip latest
      then (known, writes)
      else (remove eip known, writes ++ delete_endpoint eip ∷ []))

  sync_latest : Assoc Text Text → Assoc Text Text → Synced
  unfolding update_endpoints delete_endpoints
  sync_latest latest known =
      let updated = update_endpoints latest (known, []) in delete_endpoints latest updated.0 updated

  found_endpoints :
      MeshService → Option CoreService → Option Endpoints → Assoc Text Text → Option Synced
  unfolding add_subsets sync_latest
  found_endpoints dns_svc svc none known = none
  found_endpoints dns_svc svc (some es) known = elim (add_subsets dns_svc svc es.subsets []) [
    | none ↦ none
    | some latest ↦ some (sync_latest latest known)
  ]

  -- `syncDNSEndpoints`, for the service that the configuration names; `none` is a panic.
  unfoldable pub sync_dns_endpoints :
      KubeController → MeshService → Assoc Text Text → Option (Assoc Text Text × List DnsWrite)
  unfolding found_endpoints
  sync_dns_endpoints c dns_svc known = elim (c.get_endpoints dns_svc) [
    | none ↦ some (known, [])
    | some found ↦ found_endpoints dns_svc (c.get_service dns_svc) found known
  ]

abbrev has_port : Text → Bool
has_port hostname = any (only b':') hostname

add_hostnames : List Text → Assoc Text ℕ → Assoc Text ℕ
add_hostnames [] latest = latest
add_hostnames (h ∷ hs) latest = add_hostnames hs (if has_port h then latest else insert h 0 latest)

module _ {C : Type 0} where
  add_policies : List (OutboundTrafficPolicy C) → Assoc Text ℕ → Assoc Text ℕ
  unfolding add_hostnames
  add_policies [] latest = latest
  add_policies (p ∷ ps) latest = add_policies ps (add_hostnames p.hostnames latest)

  pub latest_resolves : Assoc ℕ (List (OutboundTrafficPolicy C)) → Assoc Text ℕ → Assoc Text ℕ
  unfolding add_policies
  latest_resolves [] latest = latest
  latest_resolves ((_, ps) ∷ configs) latest = latest_resolves configs (add_policies ps latest)

abbrev pub ttl : ℕ
ttl = 60

pub add_resolves : Assoc Text ℕ → Assoc Text ℕ × List DnsWrite → Assoc Text ℕ × List DnsWrite
add_resolves [] s = s
add_resolves ((h, _) ∷ latest) (known, writes) = add_resolves latest (
    if has_key h known
    then (known, writes)
    else (insert h 1 known, writes ++ update_resolve h ttl ∷ []))

delete_resolves :
    Assoc Text ℕ → Assoc Text ℕ → Assoc Text ℕ × List DnsWrite → Assoc Text ℕ × List DnsWrite
delete_resolves latest [] s = s
delete_resolves latest ((h, _) ∷ entries) (known, writes) = delete_resolves latest entries (
    if has_key h latest then (known, writes) else (remove h known, writes ++ delete_resolve h ∷ []))

-- `syncDNSResolves`, on the outbound policy of the mesh
unfoldable pub sync_dns_resolves :
    {C : Type 0} → OutboundMeshTrafficPolicy C → Assoc Text ℕ → Assoc Text ℕ × List DnsWrite
unfolding latest_resolves add_resolves delete_resolves
sync_dns_resolves policy known =
    if is_empty policy.http_route_configs_per_port
    then (known, [])
    else let latest = latest_resolves policy.http_route_configs_per_port [] in
      let added = add_resolves latest (known, []) in delete_resolves latest added.0 added
