-- ===== src/Providers/Kube.antt =====
-- client.go of pkg/ecnet/service/providers/kube, over the client of pkg/ecnet/k8s.
pub mod Listed
use erie_canal_net.Base.{
  ℕ, ◌%◌, ◌^◌, Bool, true, false, not, ◌&&◌, ◌||◌, List, [], ◌∷◌, ◌++◌, Option, none, some, Text,
  codes, ◌==◌, nat_eq, list_eq, if◌then◌else◌, is_empty, not_empty,
}
use erie_canal_net.Service.{MeshService, subdomain}
use erie_canal_net.Multicluster.ServiceImport.{
  CoreService, CoreServicePort, Endpoints, EndpointSubset, EndpointAddress, EndpointPort,
}
use erie_canal_net.K8s.Client.{
  Informers, or_none, get_service, get_endpoints, list_services, service_to_mesh_services,
}
use erie_canal_net.Providers.Subsets.{endpoints_of_subsets}
use erie_canal_net.Catalog.Services.{Endpoint, EndpointsProvider, ServiceProvider}

-- types.go: `providerName`, which `GetID` returns
abbrev pub kube_provider_name : Text
kube_provider_name = codes "kubernetes"

abbrev pub endpoint_at : Text → ℕ → Endpoint
endpoint_at ip port = record {
  ip = ip;
  port = port % 2 ^ 32;
  weight = 0;
  cluster_key = [];
  lb_type = [];
  path = [];
}

-- `is_ip` is whether `net.ParseIP` reads the address.
module _ (is_ip : Text → Bool) where
  endpoints_found : MeshService → Option Endpoints → List Endpoint
  unfolding endpoints_of_subsets
  endpoints_found svc none = []
  endpoints_found svc (some es) =
      endpoints_of_subsets is_ip (λ p a. endpoint_at a.ip p.port) svc es.subsets

  -- `ListEndpointsForService`
  unfoldable pub list_endpoints_for_service : Informers → MeshService → List Endpoint
  unfolding endpoints_found
  list_endpoints_for_service c svc = endpoints_found svc (or_none (get_endpoints c svc))

  endpoints_of_cluster_ip : Text → List CoreServicePort → List Endpoint
  endpoints_of_cluster_ip ip [] = []
  endpoints_of_cluster_ip ip (p ∷ ps) = endpoint_at ip p.port ∷ endpoints_of_cluster_ip ip ps

  -- `GetResolvableEndpointsForService`
  unfoldable pub get_resolvable_endpoints_for_service : Informers → MeshService → List Endpoint
  unfolding list_endpoints_for_service endpoints_of_cluster_ip
  get_resolvable_endpoints_for_service c svc = elim (get_service c svc) [
    | none ↦ []
    | some kube_service ↦
        if is_empty kube_service.cluster_ip || kube_service.cluster_ip == codes "None"
        then list_endpoints_for_service c svc
        else if is_ip kube_service.cluster_ip
        then endpoints_of_cluster_ip kube_service.cluster_ip kube_service.ports
        else []
  ]

  -- The client as a provider of endpoints
  abbrev pub kube_endpoints_provider : Informers → EndpointsProvider
  kube_endpoints_provider c = record {
    id = kube_provider_name;
    list_endpoints_for_service = list_endpoints_for_service c;
    get_resolvable_endpoints_for_service = get_resolvable_endpoints_for_service c;
  }

mesh_services_of : Informers → List CoreService → List MeshService
mesh_services_of c [] = []
mesh_services_of c (svc ∷ svcs) = service_to_mesh_services c svc ++ mesh_services_of c svcs

-- `ListServices`
unfoldable pub kube_list_services : Informers → List MeshService
unfolding mesh_services_of
kube_list_services c = mesh_services_of c (list_services c)

-- The client as a provider of services
abbrev pub kube_service_provider : Informers → ServiceProvider
kube_service_provider c = record { id = kube_provider_name; list_services = kube_list_services c }
