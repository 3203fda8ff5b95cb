-- ===== src/Dataplane/Dns/Plane.antt =====
-- What `syncDNSResolves` of pkg/ecnet/bridge/dataplane/server/jobs.go leaves in the map of the kernel, with
-- the writes of map.go of helpers.
use erie_canal_net.Base.{
  ℕ, ◌≡◌, Bool, true, false, List, [], ◌∷◌, ◌++◌, Text, ◌==◌, nat_eq, list_eq, Assoc, has_key,
  is_empty, if◌then◌else◌, Eq, Option, none, some, codes,
}
use erie_canal_net.Dataplane.Dns.{
  DnsWrite, update_endpoint, delete_endpoint, update_resolve, delete_resolve,
}

-- Whether a name is fully qualified
abbrev pub ends_in_dot : Text → Bool
ends_in_dot [] = false
ends_in_dot (c ∷ s) = let rest = ends_in_dot s in if is_empty s then c == b'.' else rest

-- `pack` is `dns.PackDomainName`, whose result is a key of the kernel's map; `none` is an error, which
-- is logged. `plane` is which keys that map has.
module _ {K : Type 0} ⦃e : Eq K⦄ (pack : Text → Option K) where
  -- As it is documented: a name must be fully qualified.
  abbrev pub NeedsDot : Type 0
  NeedsDot = (n : Text) → ends_in_dot n ≡ false → pack n ≡ none

  abbrev put_key : Option K → (K → Bool) → K → Bool
  put_key none plane k = plane k
  put_key (some q) plane k = if q == k then true else plane k

  abbrev delete_key : Option K → (K → Bool) → K → Bool
  delete_key none plane k = plane k
  delete_key (some q) plane k = if q == k then false else plane k

  -- The keys of the kernel's map after the writes, as long as it takes each: `UpdateDNSResolveEntry`
  -- packs the name with a dot after it, `DeleteDNSResolveEntry` packs it without.
  abbrev pub play : List DnsWrite → (K → Bool) → K → Bool
  play [] plane k = plane k
  play (update_resolve n t ∷ ws) plane k = play ws (put_key (pack (n ++ codes ".")) plane) k
  play (delete_resolve n ∷ ws) plane k = play ws (delete_key (pack n) plane) k
  play (update_endpoint _ _ ∷ ws) plane k = play ws plane k
  play (delete_endpoint _ ∷ ws) plane k = play ws plane k

  -- The key is the packed name of a hostname of the list that is not known yet.
  abbrev pub Fresh : (Text → Bool) → Assoc Text ℕ → K → Type 0
  Fresh listed known k =
      (h : Text) × (listed h ≡ true) × (has_key h known ≡ false) × (pack (h ++ codes ".") ≡ some k)
