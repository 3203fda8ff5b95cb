-- ===== src/Providers/Fsm.antt =====
-- client.go of pkg/ecnet/service/providers/fsm, over the multicluster client.
pub mod Carried
use erie_canal_net.Base.{
  ℕ, ◌+◌, ◌-◌, ◌*◌, ◌%◌, ◌^◌, Bool, true, false, not, ◌&&◌, ◌||◌, List, [], ◌∷◌, ◌++◌, Option, none,
  some, Text, codes, ◌==◌, nat_eq, list_eq, Assoc, lookup, if◌then◌else◌, is_empty, is_digit, ltb,
}
use erie_canal_net.Service.{MeshService}
use erie_canal_net.Multicluster.ServiceImport.{
  CoreService, CoreServicePort, Endpoints, EndpointSubset, EndpointAddress, EndpointPort, Informers,
  get_service, list_services,
}
use erie_canal_net.Multicluster.Endpoints.{
  annotation_key, cluster_key_annotation, context_path_annotation, lb_type_annotation,
  lb_weight_annotation, get_endpoints,
}
use erie_canal_net.K8s.Client.{protocol_of, supported_protocols, string_deref}
use erie_canal_net.Catalog.Services.{Endpoint, EndpointsProvider, ServiceProvider, provider_name}
use erie_canal_net.Providers.Subsets.{endpoints_of_subsets}

-- The value of `strconv.ParseUint(s, 10, 32)`, whose error is dropped: zero at a character that is no
-- digit, the greatest number where the number passes it.
read_weight : ℕ → Text → ℕ
read_weight acc [] = acc
read_weight acc (c ∷ s) =
    let next = acc * 10 + (c - b'0') in
    let rest = read_weight next s in
    if not (is_digit c) then 0 else if ltb next (2 ^ 32) then rest else 2 ^ 32 - 1

abbrev pub text_or_empty : Option Text → Text
text_or_empty none = []
text_or_empty (some t) = t

-- The endpoint of an address and a port, by the annotations
unfoldable pub imported_endpoint : Assoc Text Text → EndpointPort → EndpointAddress → Endpoint
unfolding read_weight
imported_endpoint notes p a =
    let note : Text → Text =
      λ family. text_or_empty (lookup (annotation_key family a.ip p.port) notes) in
    record {
      ip = a.ip;
      port = p.port % 2 ^ 32;
      weight = read_weight 0 (note lb_weight_annotation);
      cluster_key = note cluster_key_annotation;
      lb_type = note lb_type_annotation;
      path = note context_path_annotation;
    }

-- The endpoints of the cluster IP carry the provider's name for a cluster key.
cluster_ip_endpoints : Text → List CoreServicePort → List Endpoint
cluster_ip_endpoints ip [] = []
cluster_ip_endpoints ip (p ∷ ps) =
    record {
      ip = ip;
      port = p.port % 2 ^ 32;
      weight = 0;
      cluster_key = provider_name;
      lb_type = [];
      path = [];
    }
    ∷ cluster_ip_endpoints ip ps

-- `is_ip` is whether `net.ParseIP` reads the address.
module _ (is_ip : Text → Bool) where
  endpoints_found : MeshService → Option Endpoints → List Endpoint
  endpoints_found svc none = []
  endpoints_found svc (some es) =
      endpoints_of_subsets is_ip (imported_endpoint es.annotations) svc es.subsets

  -- `ListEndpointsForService`
  unfoldable pub list_endpoints_for_service : Informers → MeshService → List Endpoint
  unfolding endpoints_found
  list_endpoints_for_service c svc = endpoints_found svc (get_endpoints c svc)

  -- `GetResolvableEndpointsForService`
  unfoldable pub get_resolvable_endpoints_for_service : Informers → MeshService → List Endpoint
  unfolding list_endpoints_for_service cluster_ip_endpoints
  get_resolvable_endpoints_for_service c svc = elim (get_service c svc) [
    | none ↦ []
    | some kube_service ↦
        if is_empty kube_service.cluster_ip || kube_service.cluster_ip == codes "None"
        then list_endpoints_for_service c svc
        else if is_ip kube_service.cluster_ip
        then cluster_ip_endpoints kube_service.cluster_ip kube_service.ports
        else []
  ]

  -- The client as a provider of endpoints
  abbrev pub fsm_endpoints_provider : Informers → EndpointsProvider
  fsm_endpoints_provider c = record {
    id = provider_name;
    list_endpoints_for_service = list_endpoints_for_service c;
    get_resolvable_endpoints_for_service = get_resolvable_endpoints_for_service c;
  }

-- `ServiceToMeshServices`: a mesh service for each port of each subset
unfoldable pub imported_service : CoreService → CoreServicePort → ℕ → MeshService
imported_service svc p target_port = record {
  namespace = svc.namespace;
  name = svc.name;
  port = p.port % 2 ^ 16;
  target_port = target_port;
  protocol = string_deref p.app_protocol (protocol_of p.name supported_protocols);
  service_import_uid = svc.uid;
}

targets_of_ports : CoreService → CoreServicePort → List EndpointPort → List MeshService
targets_of_ports svc p [] = []
targets_of_ports svc p (port ∷ ports) =
    imported_service svc p (port.port % 2 ^ 16) ∷ targets_of_ports svc p ports

targets_of_subsets : CoreService → CoreServicePort → List EndpointSubset → List MeshService
unfolding targets_of_ports
targets_of_subsets svc p [] = []
targets_of_subsets svc p (s ∷ ss) = targets_of_ports svc p s.ports ++ targets_of_subsets svc p ss

targets_found : CoreService → CoreServicePort → Option Endpoints → List MeshService
unfolding targets_of_subsets
targets_found svc p none = []
targets_found svc p (some es) = targets_of_subsets svc p es.subsets

imported_services_of_ports : Informers → CoreService → List CoreServicePort → List MeshService
unfolding targets_found imported_service
imported_services_of_ports c svc [] = []
imported_services_of_ports c svc (p ∷ ps) =
    targets_found svc p (get_endpoints c (imported_service svc p 0))
    ++ imported_services_of_ports c svc ps

unfoldable pub service_to_imported_services : Informers → CoreService → List MeshService
unfolding imported_services_of_ports
service_to_imported_services c svc = imported_services_of_ports c svc svc.ports

imported_services_of : Informers → List CoreService → List MeshService
imported_services_of c [] = []
imported_services_of c (svc ∷ svcs) =
    service_to_imported_services c svc ++ imported_services_of c svcs

-- `ListServices`
unfoldable pub fsm_list_services : Informers → List MeshService
unfolding imported_services_of
fsm_list_services c = imported_services_of c (list_services c)

-- The client as a provider of services
abbrev pub fsm_service_provider : Informers → ServiceProvider
fsm_service_provider c = record { id = provider_name; list_services = fsm_list_services c }
