-- ===== src/K8s/Client/Siblings.antt =====
-- The mesh services that client.go of pkg/ecnet/k8s makes of a Kubernetes service.
use erie_canal_net.Base.{
  ℕ, ◌%◌, ◌^◌, ◌≡◌, refl, ap, subst, sym, true, false, List, [], ◌∷◌, ◌++◌, Option, none, some,
  Text, arith, nat_eq, list_eq, is_empty, All, All-append, inl, inr, ◌⊎◌, Bool-cases,
}
use erie_canal_net.Service.{MeshService, namespaced_key, IsLabel}
use erie_canal_net.Service.Names.{plain_name, headless_name}
use erie_canal_net.K8s.Hostnames.{is_headless_ip}
use erie_canal_net.Multicluster.ServiceImport.{
  CoreService, CoreServicePort, Endpoints, EndpointSubset, EndpointAddress,
}
use erie_canal_net.K8s.Client.{
  Informers, or_none, get_endpoints, plain_service, with_target_port, host_service, host_services,
  subset_services, or_whole, port_services, services_of_port, services_of_ports,
  service_to_mesh_services,
}

-- The hostnames of addresses are DNS labels, where there are any.
abbrev pub LabelledAddress : EndpointAddress → Type 0
LabelledAddress a = (is_empty a.hostname ≡ true) ⊎ IsLabel a.hostname

abbrev pub Labelled : Option Endpoints → Type 0
Labelled none = Unit
Labelled (some es) = All (λ s. All LabelledAddress s.addresses) es.subsets

module _ (svc : CoreService) (ln : IsLabel svc.name) where
  -- A mesh service made of the service: it leads back to it, and keeps the port.
  abbrev pub Sibling : ℕ → MeshService → Type 0
  Sibling port ms = (namespaced_key ms ≡ svc.namespace ++ b'/' ∷ svc.name) × (ms.port ≡ port)

  record Plain (port : ℕ) (ms : MeshService) : Type 0 where
    same_namespace : ms.namespace ≡ svc.namespace
    same_name : ms.name ≡ svc.name
    same_port : ms.port ≡ port

  Plain-Sibling : (port : ℕ) (ms : MeshService) → Plain port ms → Sibling port ms
  unfolding namespaced_key
  Plain-Sibling port ms p =
      let key = (plain_name ms (subst IsLabel (sym p.same_name) ln)).1 in
      (rw (namespaced_key, p.same_namespace, key, p.same_name) refl, p.same_port)

  Sibling-host :
      (port : ℕ) (ms : MeshService) (host : Text)
      → Plain port ms
      → IsLabel host
      → Sibling port (host_service ms host)
  unfolding namespaced_key
  Sibling-host port ms host p lh =
      let key =
        (headless_name (host_service ms host) host svc.name lh ln
          (ap (λ n. host ++ b'.' ∷ n) p.same_name)).1 in
      (rw (namespaced_key, key, p.same_namespace) refl, p.same_port)

  host_services-Sibling :
      (port : ℕ) (ms : MeshService) (as' : List EndpointAddress)
      → Plain port ms
      → All LabelledAddress as'
      → All (Sibling port) (host_services ms as')
  unfolding host_services
  host_services-Sibling port ms [] p l = tt
  host_services-Sibling port ms (a ∷ as') p l = elim (Bool-cases (is_empty a.hostname)) [
    | inl e ↦ rw (host_services, e) (host_services-Sibling port ms as' p l.1)
    | inr e ↦
        rw (host_services, e)
          (Sibling-host port ms a.hostname p (label e l.0), host_services-Sibling port ms as' p l.1)
  ]
    where
      label : is_empty a.hostname ≡ false → LabelledAddress a → IsLabel a.hostname
      label e (inl h) = ground (arith, e, h)
      label e (inr h) = h

  subset_services-Sibling :
      (port : ℕ) (ms : MeshService) (ss : List EndpointSubset)
      → Plain port ms
      → All (λ s. All LabelledAddress s.addresses) ss
      → All (Sibling port) (subset_services ms ss)
  unfolding subset_services
  subset_services-Sibling port ms [] p l = tt
  subset_services-Sibling port ms (s ∷ ss) p l =
      All-append (Sibling port) (host_services ms s.addresses) (subset_services ms ss)
        (host_services-Sibling port ms s.addresses p l.0) (subset_services-Sibling port ms ss p l.1)

  or_whole-Sibling :
      (port : ℕ) (ms : MeshService) (hosts : List MeshService)
      → Plain port ms
      → All (Sibling port) hosts
      → All (Sibling port) (or_whole ms hosts) × (is_empty (or_whole ms hosts) ≡ false)
  unfolding or_whole
  or_whole-Sibling port ms [] p l = ((Plain-Sibling port ms p, tt), refl)
  or_whole-Sibling port ms (h ∷ hosts) p l = (l, refl)

  port_services-Sibling :
      (port : ℕ) (ms : MeshService) (found : Option Endpoints)
      → Plain port ms
      → Labelled found
      → All (Sibling port) (port_services svc ms found)
        × (is_empty (port_services svc ms found) ≡ false)
  unfolding port_services
  port_services-Sibling port ms none p l = ((Plain-Sibling port ms p, tt), refl)
  port_services-Sibling port ms (some es) p l = elim (Bool-cases (is_headless_ip svc.cluster_ip)) [
    | inl e ↦
        rw (port_services, e)
          (or_whole-Sibling port ms (subset_services ms es.subsets) p
            (subset_services-Sibling port ms es.subsets p l))
    | inr e ↦ rw (port_services, e) ((Plain-Sibling port ms p, tt), refl)
  ]

  with_target_port-Plain :
      (p : CoreServicePort) (found : Option Endpoints)
      → Plain (p.port % 2 ^ 16) (with_target_port p (plain_service svc p) found)
  unfolding plain_service
  with_target_port-Plain p none = record {
    same_namespace = refl;
    same_name = refl;
    same_port = refl;
  }
  with_target_port-Plain p (some es) = record {
    same_namespace = refl;
    same_name = refl;
    same_port = refl;
  }

  -- Every mesh service of a port is of the service and the port, and there is one.
  abbrev Served : Informers → CoreServicePort → Type 0
  Served c p =
      All (Sibling (p.port % 2 ^ 16)) (services_of_port c svc p)
      × (is_empty (services_of_port c svc p) ≡ false)

  services_of_port-Served :
      (c : Informers) (p : CoreServicePort)
      → ((key : Text) → Labelled (or_none (c.endpoints_by_key key)))
      → Served c p
  unfolding services_of_port get_endpoints
  services_of_port-Served c p l =
      let ms = plain_service svc p in
      let found = or_none (get_endpoints c ms) in
      port_services-Sibling (p.port % 2 ^ 16) (with_target_port p ms found) found
        (with_target_port-Plain p found) (l (namespaced_key ms))

  -- The mesh services of a list of ports are, port by port, those of each port.
  abbrev pub OfPorts : Informers → List CoreServicePort → List MeshService → Type 0
  OfPorts c [] services = services ≡ []
  OfPorts c (p ∷ ps) services =
      (here : List MeshService) × (rest : List MeshService) × (services ≡ here ++ rest)
      × All (Sibling (p.port % 2 ^ 16)) here
      × (is_empty here ≡ false)
      × OfPorts c ps rest

  services_of_ports-OfPorts :
      (c : Informers) (ps : List CoreServicePort)
      → ((key : Text) → Labelled (or_none (c.endpoints_by_key key)))
      → OfPorts c ps (services_of_ports c svc ps)
  unfolding services_of_ports
  services_of_ports-OfPorts c [] l = refl
  services_of_ports-OfPorts c (p ∷ ps) l =
      let served = services_of_port-Served c p l in
      (
        services_of_port c svc p,
        services_of_ports c svc ps,
        refl,
        served.0,
        served.1,
        services_of_ports-OfPorts c ps l,
      )

-- If the name of the service and the hostnames of endpoints are DNS labels, then the mesh services
-- of a service are listed port by port in the order of its ports, at least one for each; and each of
-- them, those of the hosts of a headless service as well, has the number of its port and leads back
-- to the service by its namespaced key.
pub service_to_mesh_services-OfPorts :
    (c : Informers) (svc : CoreService) (ln : IsLabel svc.name)
    → ((key : Text) → Labelled (or_none (c.endpoints_by_key key)))
    → OfPorts svc ln c svc.ports (service_to_mesh_services c svc)
unfolding service_to_mesh_services
service_to_mesh_services-OfPorts c svc ln l = services_of_ports-OfPorts svc ln c svc.ports l
