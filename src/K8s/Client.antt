-- ===== src/K8s/Client.antt =====
-- client.go of pkg/ecnet/k8s: what the client reads of its informers, and the mesh services of a
-- Kubernetes service.
pub mod Siblings
use erie_canal_net.Base.{
  ℕ, ◌%◌, ◌^◌, Bool, true, false, not, ◌&&◌, ◌||◌, List, [], ◌∷◌, ◌++◌, Option, none, some, Text,
  codes, ◌==◌, nat_eq, list_eq, if◌then◌else◌, is_empty, not_empty, has_prefix, length, filterb,
}
use erie_canal_net.Service.{MeshService, namespaced_key}
use erie_canal_net.K8s.Hostnames.{is_headless_ip}
use erie_canal_net.Multicluster.ServiceImport.{
  CoreService, CoreServicePort, Endpoints, EndpointSubset, EndpointAddress, EndpointPort, Pod,
}

-- What the client reads of the informers: a cache answers a key with an error, with nothing, or with
-- an object.
pub record Informers : Type 0 where
  pub is_monitored_namespace : Text → Bool
  pub services : List CoreService
  pub pods : List Pod
  pub service_by_key : Text → Option (Option CoreService)
  pub endpoints_by_key : Text → Option (Option Endpoints)

abbrev pub or_none : {A : Type 0} → Option (Option A) → Option A
or_none none = none
or_none (some o) = o

-- `GetService`
unfoldable pub get_service : Informers → MeshService → Option CoreService
get_service c svc = or_none (c.service_by_key (namespaced_key svc))

-- `ListServices`
unfoldable pub list_services : Informers → List CoreService
list_services c = filterb (λ svc. c.is_monitored_namespace svc.namespace) c.services

-- `ListPods`
unfoldable pub list_pods : Informers → List Pod
list_pods c = filterb (λ pod. c.is_monitored_namespace pod.namespace) c.pods

-- `GetEndpoints`; `none` is the error.
unfoldable pub get_endpoints : Informers → MeshService → Option (Option Endpoints)
get_endpoints c svc = c.endpoints_by_key (namespaced_key svc)

-- constants.go: `SupportedProtocolsInMesh`
abbrev pub supported_protocols : List Text
supported_protocols = codes "tcp-server-first" ∷ codes "http" ∷ codes "tcp" ∷ codes "grpc" ∷ []

-- The protocol by the prefix of the port's name
pub protocol_of : Text → List Text → Text
protocol_of name [] = codes "http"
protocol_of name (p ∷ ps) = if has_prefix name (p ++ b'-' ∷ []) then p else protocol_of name ps

abbrev pub string_deref : Option Text → Text → Text
string_deref none default = default
string_deref (some t) default = t

port_of : Text → List EndpointPort → List EndpointPort → Option ℕ
port_of endpoint_name all [] = none
port_of endpoint_name all (p ∷ ps) =
    if is_empty endpoint_name || length all == 1
    then some (p.port % 2 ^ 16)
    else if p.name == endpoint_name
    then some (p.port % 2 ^ 16)
    else port_of endpoint_name all ps

port_of_subsets : Text → List EndpointSubset → ℕ
unfolding port_of
port_of_subsets endpoint_name [] = 0
port_of_subsets endpoint_name (s ∷ ss) = elim (port_of endpoint_name s.ports s.ports) [
  | none ↦ port_of_subsets endpoint_name ss
  | some port ↦ port
]

-- `GetTargetPortFromEndpoints`
unfoldable pub get_target_port_from_endpoints : Text → Endpoints → ℕ
unfolding port_of_subsets
get_target_port_from_endpoints endpoint_name es = port_of_subsets endpoint_name es.subsets

-- The mesh service of a port, before its target port is known
unfoldable pub plain_service : CoreService → CoreServicePort → MeshService
unfolding protocol_of
plain_service svc p = record {
  namespace = svc.namespace;
  name = svc.name;
  port = p.port % 2 ^ 16;
  target_port = 0;
  protocol = string_deref p.app_protocol (protocol_of p.name supported_protocols);
  service_import_uid = [];
}

abbrev pub with_target_port : CoreServicePort → MeshService → Option Endpoints → MeshService
with_target_port p mesh_svc none = mesh_svc
with_target_port p mesh_svc (some es) = record mesh_svc {
  target_port = get_target_port_from_endpoints p.name es;
}

-- The mesh services of the hosts of a headless service
abbrev pub host_service : MeshService → Text → MeshService
host_service mesh_svc hostname = record mesh_svc { name = hostname ++ b'.' ∷ mesh_svc.name }

host_services : MeshService → List EndpointAddress → List MeshService
host_services mesh_svc [] = []
host_services mesh_svc (a ∷ addresses) =
    let rest = host_services mesh_svc addresses in
    if is_empty a.hostname then rest else host_service mesh_svc a.hostname ∷ rest

subset_services : MeshService → List EndpointSubset → List MeshService
unfolding host_services
subset_services mesh_svc [] = []
subset_services mesh_svc (s ∷ ss) =
    host_services mesh_svc s.addresses ++ subset_services mesh_svc ss

-- The whole service stands for its hosts if none has a name.
or_whole : MeshService → List MeshService → List MeshService
or_whole mesh_svc [] = mesh_svc ∷ []
or_whole mesh_svc (s ∷ ss) = s ∷ ss

port_services : CoreService → MeshService → Option Endpoints → List MeshService
unfolding subset_services or_whole
port_services svc mesh_svc none = mesh_svc ∷ []
port_services svc mesh_svc (some es) =
    if is_headless_ip svc.cluster_ip
    then or_whole mesh_svc (subset_services mesh_svc es.subsets)
    else mesh_svc ∷ []

services_of_port : Informers → CoreService → CoreServicePort → List MeshService
unfolding port_services
services_of_port c svc p =
    let mesh_svc = plain_service svc p in
    let found = or_none (get_endpoints c mesh_svc) in
    port_services svc (with_target_port p mesh_svc found) found

services_of_ports : Informers → CoreService → List CoreServicePort → List MeshService
unfolding services_of_port
services_of_ports c svc [] = []
services_of_ports c svc (p ∷ ps) = services_of_port c svc p ++ services_of_ports c svc ps

-- `ServiceToMeshServices`
unfoldable pub service_to_mesh_services : Informers → CoreService → List MeshService
unfolding services_of_ports
service_to_mesh_services c svc = services_of_ports c svc svc.ports

-- The loops of `GetTargetPortForServicePort`
port_name : ℕ → List CoreServicePort → Text
port_name port [] = []
port_name port (p ∷ ps) = if p.port % 2 ^ 16 == port then p.name else port_name port ps

port_by_name : Text → List EndpointPort → Option ℕ
port_by_name name [] = none
port_by_name name (p ∷ ps) = if p.name == name then some (p.port % 2 ^ 16) else port_by_name name ps

port_in_subsets : Text → List EndpointSubset → Option ℕ
unfolding port_by_name
port_in_subsets name [] = none
port_in_subsets name (s ∷ ss) = elim (port_by_name name s.ports) [
  | none ↦ port_in_subsets name ss
  | some port ↦ some port
]

-- `GetTargetPortForServicePort`, for the key of a service; `none` is an error.
unfoldable pub get_target_port_for_service_port : Informers → Text → ℕ → Option ℕ
unfolding port_name port_in_subsets
get_target_port_for_service_port c key port = elim (or_none (c.service_by_key key)) [
  | none ↦ none
  | some svc ↦ elim (or_none (c.endpoints_by_key key)) [
    | none ↦ none
    | some es ↦ port_in_subsets (port_name port svc.ports) es.subsets
  ]
]
