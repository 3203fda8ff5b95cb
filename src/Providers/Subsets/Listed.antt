-- ===== src/Providers/Subsets/Listed.antt =====
-- Which endpoints the loops of the two clients of pkg/ecnet/service/providers list.
use erie_canal_net.Base.{
  ◌≡◌, refl, subst, ◌↔◌, ◌⊎◌, inl, inr, Bool, true, false, List, [], ◌∷◌, ◌++◌, Text, ◌==◌, ◌||◌,
  ◌&&◌, is_empty, nat_eq, list_eq, if◌then◌else◌, arith, Among, Among-append, Among-append_left,
  Among-append_right,
}
use erie_canal_net.Service.{MeshService, subdomain}
use erie_canal_net.Multicluster.ServiceImport.{EndpointSubset, EndpointAddress, EndpointPort}
use erie_canal_net.Catalog.Services.{Endpoint}
use erie_canal_net.Providers.Subsets.{
  port_wanted, address_wanted, endpoints_of_addresses, endpoints_of_ports, endpoints_of_subsets,
}

module _ {A : Type 0} where
  -- Some element of a list has the property.
  abbrev pub Some : (A → Type 0) → List A → Type 0
  Some P xs = (x : A) × Among x xs × P x

  Some-cons : (P : A → Type 0) (x : A) (xs : List A) → Some P (x ∷ xs) → P x ⊎ Some P xs
  Some-cons P x xs (y, inl same, h) = inl (subst P same h)
  Some-cons P x xs (y, inr m, h) = inr (y, m, h)

  Some-later : (P : A → Type 0) (x : A) (xs : List A) → Some P xs → Some P (x ∷ xs)
  Some-later P x xs (y, m, h) = (y, inr m, h)

  Some-iff :
      (P : A → Type 0) (x : A) (xs : List A) (Q R : Type 0)
      → R ↔ (P x ⊎ Q)
      → Q ↔ Some P xs
      → R ↔ Some P (x ∷ xs)
  Some-iff P x xs Q R step rest = (
    λ r. elim (step.0 r) [ inl h ↦ (x, inl refl, h) | inr q ↦ Some-later P x xs (rest.0 q) ],
    λ s. step.1 (elim (Some-cons P x xs s) [ inl h ↦ inl h | inr t ↦ inr (rest.1 t) ]),
  )

  Among-append_iff : (x : A) (xs ys : List A) → Among x (xs ++ ys) ↔ (Among x xs ⊎ Among x ys)
  Among-append_iff x xs ys = (
    Among-append x xs ys,
    λ h. elim h [ inl m ↦ Among-append_left x xs ys m | inr m ↦ Among-append_right x xs ys m ],
  )

  Among-if :
      (b : Bool) (x : A) (xs ys : List A) (P : Type 0)
      → Among x xs ↔ P
      → Among x (if b then xs ++ ys else ys) ↔ (((b ≡ true) × P) ⊎ Among x ys)
  Among-if true x xs ys P i =
      let both = Among-append_iff x xs ys in
      (
        λ m. elim (both.0 m) [ inl h ↦ inl (refl, i.0 h) | inr h ↦ inr h ],
        λ h. both.1 (elim h [ inl k ↦ inl (i.1 k.1) | inr k ↦ inr k ]),
      )
  Among-if false x xs ys P i = (λ m. inr m, λ h. elim h [ inl k ↦ elim (no k.0) [ ] | inr k ↦ k ])
    where
      no : false ≡ true → ⊥
      no absurd = ground (arith, absurd)

  Among-if_append :
      (b c : Bool) (x : A) (xs ys : List A) (P : Type 0)
      → b ≡ c
      → Among x xs ↔ P
      → Among x (if b then xs ++ ys else ys) ↔ (((c ≡ true) × P) ⊎ Among x ys)
  Among-if_append b c x xs ys P same i =
      subst (λ d. Among x (if b then xs ++ ys else ys) ↔ (((d ≡ true) × P) ⊎ Among x ys)) same
        (Among-if b x xs ys P i)

  Among-singleton : (x y : A) → Among x (y ∷ []) ↔ (x ≡ y)
  Among-singleton x y =
      (λ m. elim m [ inl same ↦ same | inr none_left ↦ elim none_left [ ] ], λ same. inl same)

module _ (is_ip : Text → Bool) (make : EndpointPort → EndpointAddress → Endpoint)
    (svc : MeshService) (e : Endpoint) where
  -- The endpoint is that of the port at an address which the IP parser reads, and whose hostname is
  -- the subdomain of the service, unless it has none.
  abbrev pub AtAddress : EndpointPort → EndpointAddress → Type 0
  AtAddress p a =
      (((is_empty (subdomain svc) || subdomain svc == a.hostname) && is_ip a.ip) ≡ true)
      × (e ≡ make p a)

  -- The port is the target port of the service, unless that is 0, which is not known.
  abbrev pub AtPort : List EndpointAddress → EndpointPort → Type 0
  AtPort addresses p =
      ((svc.target_port == 0 || p.port == svc.target_port) ≡ true) × Some (AtAddress p) addresses

  address_wanted-eq :
      (a : EndpointAddress)
      → address_wanted is_ip svc a
        ≡ ((is_empty (subdomain svc) || subdomain svc == a.hostname) && is_ip a.ip)
  address_wanted-eq a = ground arith

  port_wanted-eq :
      (p : EndpointPort) → port_wanted svc p ≡ (svc.target_port == 0 || p.port == svc.target_port)
  port_wanted-eq p = ground arith

  abbrev pub InSubset : EndpointSubset → Type 0
  InSubset s = Some (AtPort s.addresses) s.ports

  addresses_iff :
      (p : EndpointPort) (as' : List EndpointAddress)
      → Among e (endpoints_of_addresses is_ip make svc p as') ↔ Some (AtAddress p) as'
  unfolding endpoints_of_addresses
  addresses_iff p [] = (λ m. elim m [ ], λ s. elim s.1 [ ])
  addresses_iff p (a ∷ as') =
      let rest = endpoints_of_addresses is_ip make svc p as' in
      Some-iff (AtAddress p) a as' (Among e rest)
        (Among e (endpoints_of_addresses is_ip make svc p (a ∷ as')))
        (Among-if_append (address_wanted is_ip svc a)
          ((is_empty (subdomain svc) || subdomain svc == a.hostname) && is_ip a.ip) e
          (make p a ∷ []) rest (e ≡ make p a) (address_wanted-eq a) (Among-singleton e (make p a)))
        (addresses_iff p as')

  ports_iff :
      (addresses : List EndpointAddress) (ps : List EndpointPort)
      → Among e (endpoints_of_ports is_ip make svc addresses ps) ↔ Some (AtPort addresses) ps
  unfolding endpoints_of_ports
  ports_iff addresses [] = (λ m. elim m [ ], λ s. elim s.1 [ ])
  ports_iff addresses (p ∷ ps) =
      let rest = endpoints_of_ports is_ip make svc addresses ps in
      Some-iff (AtPort addresses) p ps (Among e rest)
        (Among e (endpoints_of_ports is_ip make svc addresses (p ∷ ps)))
        (Among-if_append (port_wanted svc p) (svc.target_port == 0 || p.port == svc.target_port) e
          (endpoints_of_addresses is_ip make svc p addresses) rest (Some (AtAddress p) addresses)
          (port_wanted-eq p) (addresses_iff p addresses))
        (ports_iff addresses ps)

  pub subsets_iff :
      (ss : List EndpointSubset)
      → Among e (endpoints_of_subsets is_ip make svc ss) ↔ Some InSubset ss
  unfolding endpoints_of_subsets
  subsets_iff [] = (λ m. elim m [ ], λ s. elim s.1 [ ])
  subsets_iff (s ∷ ss) =
      let rest = endpoints_of_subsets is_ip make svc ss in
      let both = Among-append_iff e (endpoints_of_ports is_ip make svc s.addresses s.ports) rest in
      let here = ports_iff s.addresses s.ports in
      Some-iff InSubset s ss (Among e rest) (Among e (endpoints_of_subsets is_ip make svc (s ∷ ss)))
        (
          λ m. elim (both.0 m) [ inl h ↦ inl (here.0 h) | inr h ↦ inr h ],
          λ h. both.1 (elim h [ inl k ↦ inl (here.1 k) | inr k ↦ inr k ]),
        )
        (subsets_iff ss)
