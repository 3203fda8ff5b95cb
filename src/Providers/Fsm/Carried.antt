-- ===== src/Providers/Fsm/Carried.antt =====
-- What the endpoints that pkg/ecnet/service/providers/fsm lists carry of the imported endpoints.
use erie_canal_net.Base.{
  ℕ, ◌+◌, ◌-◌, ◌*◌, ◌%◌, ◌^◌, ◌<◌, ◌≡◌, refl, sym, ap, ◌∙◌, subst, inl, inr, Bool, true, List, [],
  ◌∷◌, some, Text, arith, nat_eq, list_eq, Assoc, lookup, if◌then◌else◌, Among, map, filterb,
  decimal, Bool-cases, parse_digits, parse_digits-decimal, parse_digits-le,
}
use erie_canal_net.Service.{MeshService, namespaced_key}
use erie_canal_net.Multicluster.TrafficPolicy.{get_service_traffic_policy}
use erie_canal_net.Multicluster.ServiceImport.{
  ImportEndpoint, ImportPort, ServiceImport, Endpoints, EndpointAddress, EndpointPort, Informers,
}
use erie_canal_net.Multicluster.Endpoints.{subset_of, kept_weight, get_endpoints, no_endpoints}
use erie_canal_net.Multicluster.Endpoints.Served.{
  is_served, subsets-made, kept_weight-is_served, kept_weight_from,
}
use erie_canal_net.Multicluster.Endpoints.Notes.{
  DistinctTargets, Noted, Noted-added, get_endpoints-made,
}
use erie_canal_net.Catalog.Services.{Endpoint}
use erie_canal_net.Providers.Subsets.Listed.{InSubset, subsets_iff}
use erie_canal_net.Providers.Fsm.{
  read_weight, imported_endpoint, endpoints_found, list_endpoints_for_service,
}

Among-map :
    {A B : Type 0} (f : A → B) (y : B) (xs : List A)
    → Among y (map f xs)
    → (x : A) × Among x xs × (y ≡ f x)
Among-map f y [] m = elim m [ ]
Among-map f y (x ∷ xs) (inl e) = (x, inl refl, e)
Among-map f y (x ∷ xs) (inr m) = let (z, n, e) = Among-map f y xs m in (z, inr n, e)

Among-filterb :
    {A : Type 0} (q : A → Bool) (y : A) (xs : List A)
    → Among y (filterb q xs)
    → Among y xs × (q y ≡ true)
Among-filterb q y [] m = elim m [ ]
Among-filterb q y (x ∷ xs) m = elim (Bool-cases (q x)) [
  | inl e ↦
      here e (subst (λ b. Among y (if b then x ∷ filterb q xs else filterb q xs)) e m)
        (Among-filterb q y xs)
  | inr e ↦
      let (n, h) =
        Among-filterb q y xs
          (subst (λ b. Among y (if b then x ∷ filterb q xs else filterb q xs)) e m) in
      (inr n, h)
]
  where
    here :
        q x ≡ true
        → Among y (x ∷ filterb q xs)
        → (Among y (filterb q xs) → Among y xs × (q y ≡ true))
        → Among y (x ∷ xs) × (q y ≡ true)
    here e (inl same) rest = (inl same, subst (λ z. q z ≡ true) (sym same) e)
    here e (inr n) rest = let (k, h) = rest n in (inr k, h)

read_weight_lem :
    (s : Text) (acc n : ℕ) → parse_digits acc s ≡ some n → n < 2 ^ 32 → read_weight acc s ≡ n
unfolding parse_digits read_weight
read_weight_lem [] acc n h lt = ground arith
read_weight_lem (c ∷ s) acc n h lt = ground (
  arith,
  read_weight_lem s (acc * 10 + (c - b'0')) n,
  parse_digits-le s (acc * 10 + (c - b'0')) n,
)

read_weight-decimal : (w : ℕ) → w < 2 ^ 32 → read_weight 0 (decimal w) ≡ w
read_weight-decimal w lt = read_weight_lem (decimal w) 0 w (parse_digits-decimal w) lt

-- The endpoint that the provider makes of an endpoint of an import
abbrev pub carried : Text → ImportEndpoint → ℕ → Endpoint
carried lb_type ep weight = record {
  ip = ep.ip;
  port = ep.port % 2 ^ 32;
  weight = weight;
  cluster_key = ep.cluster_key;
  lb_type = lb_type;
  path = ep.path;
}

imported_endpoint-Noted :
    (lb_type : Text) (p : ImportPort) (ep : ImportEndpoint) (w : ℕ) (notes : Assoc Text Text)
    → w < 2 ^ 32
    → Noted lb_type ep w notes
    → imported_endpoint notes
        (record {
          name = p.name;
          protocol = p.protocol;
          app_protocol = p.app_protocol;
          port = ep.port;
        })
        (record { ip = ep.ip; hostname = ep.host })
      ≡ carried lb_type ep w
unfolding imported_endpoint
imported_endpoint-Noted lb_type p ep w notes lt n =
    rw (n.weight_note, n.type_note, n.path_note, n.cluster_note, read_weight-decimal w lt) refl

InSubset-subset_of :
    (is_ip : Text → Bool) (make : EndpointPort → EndpointAddress → Endpoint) (svc : MeshService)
    (e : Endpoint) (p : ImportPort) (ep : ImportEndpoint)
    → InSubset is_ip make svc e (subset_of p ep)
    → e
      ≡ make
          (record {
            name = p.name;
            protocol = p.protocol;
            app_protocol = p.app_protocol;
            port = ep.port;
          })
          (record { ip = ep.ip; hostname = ep.host })
InSubset-subset_of is_ip make svc e p ep (port, inr m, rest) = elim m [ ]
InSubset-subset_of is_ip make svc e p ep (port, inl at, (wanted, (a, inr m, rest))) = elim m [ ]
InSubset-subset_of is_ip make svc e p ep (port, inl at, (wanted, (a, inl here, (asked, same)))) =
    same
    ∙ ap (λ q. make q a) at
    ∙ ap
        (make (record {
          name = p.name;
          protocol = p.protocol;
          app_protocol = p.app_protocol;
          port = ep.port;
        }))
        here

kept_weight-lt :
    (svc : MeshService) (keys : Assoc Text ℕ) (ep : ImportEndpoint) (w : ℕ)
    → ((key : Text) (v : ℕ) → lookup key keys ≡ some v → v < 2 ^ 32)
    → kept_weight svc keys ep ≡ some w
    → w < 2 ^ 32
kept_weight-lt svc keys ep w small k = elim (kept_weight_from svc keys ep w k) [
  | inl z ↦ ground (arith, z)
  | inr found ↦ small ep.cluster_key w found
]

module _ (is_ip : Text → Bool) (c : Informers) (svc : MeshService) where
  abbrev lb_type : Text
  lb_type = (get_service_traffic_policy c.policies svc).0

  abbrev keys : Assoc Text ℕ
  keys = (get_service_traffic_policy c.policies svc).1

  -- An endpoint of the provider comes from an endpoint of the import.
  abbrev pub Carried : Endpoint → Type 0
  Carried e =
      (si : ServiceImport) × (p : ImportPort) × (ep : ImportEndpoint) × (w : ℕ) × (c.import_by_key
          (namespaced_key svc)
        ≡ some si)
      × Among p si.ports
      × Among ep p.endpoints
      × (kept_weight svc keys ep ≡ some w)
      × (e ≡ carried lb_type ep w)

  -- `GetEndpoints` writes what it knows of an endpoint of an import into annotations, and
  -- `ListEndpointsForService` of the provider reads them: if no two endpoints of a port of the import
  -- have one address and port, and the weights of the policy fit 32 bits, then each endpoint that the
  -- provider lists has the address, the cluster key and the path of an endpoint of a port of the
  -- import, its port modulo 2 ^ 32, the type of the policy, and the weight that the endpoint was kept
  -- with.
  pub imported_endpoints_carry :
      (out : Endpoints)
      → get_endpoints c svc ≡ some out
      → ((si : ServiceImport) (p : ImportPort)
          → c.import_by_key (namespaced_key svc) ≡ some si
          → Among p si.ports
          → DistinctTargets p.endpoints)
      → ((key : Text) (v : ℕ) → lookup key keys ≡ some v → v < 2 ^ 32)
      → (e : Endpoint) → Among e (list_endpoints_for_service is_ip c svc)
      → Carried e
  unfolding list_endpoints_for_service endpoints_found
  imported_endpoints_carry out found distinct small e m =
      let (si, p, imported, among, made) = get_endpoints-made c svc out found in
      let listed =
        (subsets_iff is_ip (imported_endpoint out.annotations) svc e out.subsets).0
          (subst (λ o. Among e (endpoints_found is_ip svc o)) found m) in
      let (s, at, inside) = listed in
      let (ep, kept, shape) = Among-map (subset_of p) s (filterb (is_served svc keys) p.endpoints) (
        subst (Among s) (ap (λ o. o.subsets) made ∙ subsets-made svc lb_type keys p si p.endpoints)
          at) in
      let (of_port, served) = Among-filterb (is_served svc keys) ep p.endpoints kept in
      let (w, weight) = kept_weight-is_served svc keys ep served in
      (
        si,
        p,
        ep,
        w,
        imported,
        among,
        of_port,
        weight,
        InSubset-subset_of is_ip (imported_endpoint out.annotations) svc e p ep
              (subst (InSubset is_ip (imported_endpoint out.annotations) svc e) shape inside)
            ∙ imported_endpoint-Noted lb_type p ep w out.annotations
                (kept_weight-lt svc keys ep w small weight)
                (subst (λ o. Noted lb_type ep w o.annotations) (sym made)
                  (Noted-added lb_type svc keys p p.endpoints ep w (no_endpoints si)
                    (distinct si p imported among) of_port weight)),
      )
