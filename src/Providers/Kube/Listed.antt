-- ===== src/Providers/Kube/Listed.antt =====
-- Which endpoints the client of pkg/ecnet/service/providers/kube lists.
use erie_canal_net.Base.{
  ◌≡◌, refl, subst, ◌↔◌, Bool, [], Option, none, some, Text, Among, ◌%◌, ◌^◌, arith,
}
use erie_canal_net.Service.{MeshService}
use erie_canal_net.Multicluster.ServiceImport.{Endpoints, EndpointAddress, EndpointPort}
use erie_canal_net.K8s.Client.{Informers, or_none, get_endpoints}
use erie_canal_net.Catalog.Services.{Endpoint}
use erie_canal_net.Providers.Subsets.Listed.{Some, InSubset, subsets_iff}
use erie_canal_net.Providers.Kube.{endpoints_found, list_endpoints_for_service}

-- The endpoint has the address and the port, and nothing more.
abbrev pub plain : EndpointPort → EndpointAddress → Endpoint
plain p a = record {
  ip = a.ip;
  port = p.port % 2 ^ 32;
  weight = 0;
  cluster_key = [];
  lb_type = [];
  path = [];
}

module _ (is_ip : Text → Bool) (svc : MeshService) (e : Endpoint) where
  -- Endpoints were found, and the endpoint is one of some subset of them.
  abbrev pub IsFound : Option (Option Endpoints) → Type 0
  IsFound found =
      (es : Endpoints) × (found ≡ some (some es)) × Some (InSubset is_ip plain svc e) es.subsets

  endpoints_found_iff :
      (found : Option (Option Endpoints))
      → Among e (endpoints_found is_ip svc (or_none found)) ↔ IsFound found
  unfolding endpoints_found
  endpoints_found_iff none = (λ m. elim m [ ], λ f. absurd (ground (arith, f.1)))
  endpoints_found_iff (some none) = (λ m. elim m [ ], λ f. absurd (ground (arith, f.1)))
  endpoints_found_iff (some (some es)) =
      let listed = subsets_iff is_ip plain svc e es.subsets in
      (
        λ m. (es, refl, listed.0 m),
        λ f.
            let same : f.0 ≡ es = ground (arith, f.1) in
            listed.1
              (subst (λ (o : Endpoints). Some (InSubset is_ip plain svc e) o.subsets) same f.2),
      )

  -- An endpoint is listed for a service just if the client finds endpoints of the service, and it has,
  -- of some subset of them, an address which the IP parser reads and whose hostname is the subdomain
  -- of the service, if it has one, and a port which is the target port of the service, if that is not
  -- 0; and it has nothing else.
  pub list_endpoints_for_service_iff :
      (c : Informers)
      → Among e (list_endpoints_for_service is_ip c svc) ↔ IsFound (get_endpoints c svc)
  unfolding list_endpoints_for_service
  list_endpoints_for_service_iff c = endpoints_found_iff (get_endpoints c svc)
