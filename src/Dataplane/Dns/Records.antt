-- ===== src/Dataplane/Dns/Records.antt =====
-- What `syncDNSEndpoints` of pkg/ecnet/bridge/dataplane/server/jobs.go records.
use erie_canal_net.Base.{
  ◌≡◌, refl, ap, subst, Bool, true, false, List, [], ◌∷◌, ◌++◌, none, some, Text, arith, ◌==◌,
  nat_eq, list_eq, ==_iff, Assoc, lookup, insert, remove, has_key, has_key-insert, has_key-remove,
  any, any-append, equal_fold, inl, inr, Bool-cases, Option-cases,
}
use erie_canal_net.Service.{MeshService}
use erie_canal_net.Multicluster.ServiceImport.{Endpoints as CoreEndpoints}
use erie_canal_net.Dataplane.Dns.{
  DnsWrite, update_endpoint, delete_endpoint, KubeController, update_endpoints, delete_endpoints,
  sync_latest, add_subsets, found_endpoints, sync_dns_endpoints,
}

abbrev pub deletes : Text → DnsWrite → Bool
deletes eip (delete_endpoint x) = x == eip
deletes eip _ = false

-- The address is neither recorded nor deleted.
abbrev pub Unknown : Text → Assoc Text Text × List DnsWrite → Type 0
Unknown eip (known, writes) = (has_key eip known ≡ false) × (any (deletes eip) writes ≡ false)

Unknown-write :
    (eip x cip : Text) (known : Assoc Text Text) (ws : List DnsWrite)
    → Unknown eip (known, ws)
    → Unknown eip (known, ws ++ update_endpoint x cip ∷ [])
Unknown-write eip x cip known ws u =
    (u.0, ground (arith, any-append (deletes eip) ws (update_endpoint x cip ∷ []), u.1))

module _ (is_ip : Text → Bool) where
  Unknown-update_endpoints :
      (eip : Text) (latest known : Assoc Text Text) (ws : List DnsWrite)
      → Unknown eip (known, ws)
      → Unknown eip (update_endpoints is_ip latest (known, ws))
  unfolding update_endpoints
  Unknown-update_endpoints eip [] known ws u = u
  Unknown-update_endpoints eip ((x, cip) ∷ latest) known ws u =
      elim (Option-cases (lookup x known)) [
        | inl e ↦
            rw (update_endpoints, e)
              (Unknown-update_endpoints eip latest known (ws ++ update_endpoint x cip ∷ [])
                (Unknown-write eip x cip known ws u))
        | inr (pcip, e) ↦ elim (Bool-cases (equal_fold cip pcip)) [
          | inl k ↦ rw (update_endpoints, e, k) (Unknown-update_endpoints eip latest known ws u)
          | inr k ↦
              rw (update_endpoints, e, k)
                (Unknown-update_endpoints eip latest (insert x cip known)
                  (ws ++ update_endpoint x cip ∷ [])
                  (
                    ground (
                      arith,
                      e,
                      has_key-insert x eip cip known,
                      ==_iff x eip,
                      same_key x eip known,
                      u.0,
                    ),
                    (Unknown-write eip x cip known ws u).1,
                  ))
        ]
      ]
    where
      same_key : (a b : Text) (m : Assoc Text Text) → (a == b) ≡ true → has_key a m ≡ has_key b m
      same_key a b m h = ap (λ k. has_key k m) ((==_iff a b).0 h)

  Unknown-delete_endpoints :
      (eip : Text) (latest entries known : Assoc Text Text) (ws : List DnsWrite)
      → has_key eip entries ≡ false
      → Unknown eip (known, ws)
      → Unknown eip (delete_endpoints is_ip latest entries (known, ws))
  unfolding delete_endpoints lookup
  Unknown-delete_endpoints eip latest [] known ws h u = u
  Unknown-delete_endpoints eip latest ((x, cip) ∷ entries) known ws h u =
      elim (Bool-cases (has_key x latest)) [
        | inl e ↦
            rw (delete_endpoints, e)
              (Unknown-delete_endpoints eip latest entries known ws (ground arith) u)
        | inr e ↦
            rw (delete_endpoints, e)
              (Unknown-delete_endpoints eip latest entries (remove x known)
                (ws ++ delete_endpoint x ∷ []) (ground arith)
                (
                  ground (arith, has_key-remove x eip known, u.0),
                  ground (arith, any-append (deletes eip) ws (delete_endpoint x ∷ []), u.1),
                ))
      ]

  Unknown-sync_latest :
      (eip : Text) (latest known : Assoc Text Text)
      → has_key eip known ≡ false
      → Unknown eip (sync_latest is_ip latest known)
  unfolding sync_latest
  Unknown-sync_latest eip latest known h =
      let updated = update_endpoints is_ip latest (known, []) in
      let u = Unknown-update_endpoints eip latest known [] (h, refl) in
      Unknown-delete_endpoints eip latest updated.0 updated.0 updated.1 u.0 u

  -- `syncDNSEndpoints` never records an address that is not recorded yet, and does not delete it from
  -- the kernel's map: from the empty map with which the server starts, nothing is recorded and
  -- nothing deleted, whatever the endpoints were and become.
  pub sync_dns_endpoints-Unknown :
      (c : KubeController) (dns_svc : MeshService) (known : Assoc Text Text)
      (after : Assoc Text Text × List DnsWrite) (eip : Text)
      → has_key eip known ≡ false
      → sync_dns_endpoints is_ip c dns_svc known ≡ some after
      → Unknown eip after
  unfolding sync_dns_endpoints found_endpoints
  sync_dns_endpoints-Unknown c dns_svc known after eip h e =
      elim (Option-cases (c.get_endpoints dns_svc)) [
        | inl k ↦ subst (Unknown eip) (kept k) (h, refl)
        | inr (none, k) ↦ ground (arith, k)
        | inr (some es, k) ↦
            elim (Option-cases (add_subsets is_ip dns_svc (c.get_service dns_svc) es.subsets [])) [
              | inl l ↦ ground (arith, k, l)
              | inr (latest, l) ↦
                  subst (Unknown eip) (synced es latest k l)
                    (Unknown-sync_latest eip latest known h)
            ]
      ]
    where
      kept : c.get_endpoints dns_svc ≡ none → (known, []) ≡ after
      kept k = ground (arith, e)

      synced :
          (es : CoreEndpoints) (latest : Assoc Text Text)
          → c.get_endpoints dns_svc ≡ some (some es)
          → add_subsets is_ip dns_svc (c.get_service dns_svc) es.subsets [] ≡ some latest
          → sync_latest is_ip latest known ≡ after
      synced es latest k l = ground (arith, e)
