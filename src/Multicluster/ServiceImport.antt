-- ===== src/Multicluster/ServiceImport.antt =====
-- service_import.go of pkg/ecnet/service/multicluster: Kubernetes objects made from the
-- `ServiceImport`s of other clusters.
use erie_canal_net.Base.{
  ℕ, ◌%◌, ◌^◌, ◌&&◌, not, List, [], ◌∷◌, ◌++◌, Option, none, some, Text, codes, ◌==◌, nat_eq,
  list_eq, Assoc, if◌then◌else◌, is_empty, equal_fold,
}
use erie_canal_net.Service.{MeshService, namespaced_key}
use erie_canal_net.Multicluster.TrafficPolicy.{Policies, is_locality}

-- v1alpha1: `Endpoint` with its `Target`
pub record ImportEndpoint : Type 0 where
  pub host : Text
  pub ip : Text
  pub port : ℕ
  pub path : Text
  pub cluster_key : Text

-- v1alpha1: `ServicePort`
pub record ImportPort : Type 0 where
  pub name : Text
  pub protocol : Text
  pub app_protocol : Option Text
  pub port : ℕ
  pub endpoints : List ImportEndpoint

-- v1alpha1: `ServiceImport`
pub record ServiceImport : Type 0 where
  pub uid : Text
  pub namespace : Text
  pub name : Text
  pub ports : List ImportPort
  pub service_account_name : Text

-- core/v1: what the program sets and reads of `ServicePort`, `Service`, `Endpoints`, `Pod`
pub record CoreServicePort : Type 0 where
  pub name : Text
  pub protocol : Text
  pub app_protocol : Option Text
  pub port : ℕ
  pub target_port : ℕ

pub record CoreService : Type 0 where
  pub uid : Text
  pub namespace : Text
  pub name : Text
  pub service_type : Text
  pub selector : Assoc Text Text
  pub cluster_ip : Text
  pub cluster_ips : List Text
  pub ports : List CoreServicePort

pub record EndpointAddress : Type 0 where
  pub ip : Text
  pub hostname : Text

pub record EndpointPort : Type 0 where
  pub name : Text
  pub protocol : Text
  pub app_protocol : Option Text
  pub port : ℕ

pub record EndpointSubset : Type 0 where
  pub addresses : List EndpointAddress
  pub ports : List EndpointPort

pub record Endpoints : Type 0 where
  pub namespace : Text
  pub name : Text
  pub annotations : Assoc Text Text
  pub subsets : List EndpointSubset

pub record Pod : Type 0 where
  pub namespace : Text
  pub name : Text
  pub labels : Assoc Text Text
  pub service_account_name : Text
  pub pod_ip : Text
  pub pod_ips : List Text

-- What the client reads of the informers: both caches by key, and the list of the imports.
pub record Informers : Type 0 where
  pub policies : Policies
  pub import_by_key : Text → Option ServiceImport
  pub imports : List ServiceImport

abbrev pub cluster_ip_type : Text
cluster_ip_type = codes "ClusterIP"

bare_service : Text → ServiceImport → CoreService
bare_service uid si = record {
  uid = uid;
  namespace = si.namespace;
  name = si.name;
  service_type = cluster_ip_type;
  selector = (codes "app", si.name) ∷ [];
  cluster_ip = [];
  cluster_ips = [];
  ports = [];
}

service_port : ImportPort → ImportEndpoint → CoreServicePort
service_port p ep = record {
  name = p.name;
  protocol = p.protocol;
  app_protocol = p.app_protocol;
  port = p.port;
  target_port = ep.port;
}

-- The cluster IP, its copy in the list of IPs and the port are set from an endpoint.
set_endpoint : CoreService → ImportPort → ImportEndpoint → CoreService
unfolding service_port
set_endpoint s p ep = record s {
  cluster_ip = ep.ip;
  cluster_ips = s.cluster_ips ++ ep.ip ∷ [];
  ports = s.ports ++ service_port p ep ∷ [];
}

-- The loop over the endpoints in `GetService`: it stops at the first one on the target port where no
-- cluster IP is set yet.
fill_service : MeshService → ImportPort → CoreService → List ImportEndpoint → CoreService
fill_service svc p s [] = s
fill_service svc p s (ep ∷ eps) =
    let next = fill_service svc p s eps in
    if svc.target_port == ep.port % 2 ^ 16 && is_empty s.cluster_ip
    then set_endpoint s p ep
    else next

service_of_ports : MeshService → ServiceImport → List ImportPort → Option CoreService
service_of_ports svc si [] = none
service_of_ports svc si (p ∷ ps) =
    if equal_fold si.name svc.name && (p.port % 2 ^ 16 == svc.port && not (is_empty p.endpoints))
    then some (fill_service svc p (bare_service si.uid si) p.endpoints)
    else service_of_ports svc si ps

-- `GetService`
unfoldable pub get_service : Informers → MeshService → Option CoreService
unfolding bare_service set_endpoint fill_service service_of_ports
get_service c svc =
    if is_locality c.policies svc then none else elim (c.import_by_key (namespaced_key svc)) [
      | none ↦ none
      | some si ↦ service_of_ports svc si si.ports
    ]

services_of_endpoints : ServiceImport → ImportPort → List ImportEndpoint → List CoreService
services_of_endpoints si p [] = []
services_of_endpoints si p (ep ∷ eps) =
    set_endpoint (bare_service ep.cluster_key si) p ep ∷ services_of_endpoints si p eps

services_of_ports : ServiceImport → List ImportPort → List CoreService
services_of_ports si [] = []
services_of_ports si (p ∷ ps) = services_of_endpoints si p p.endpoints ++ services_of_ports si ps

-- The service that `ListServices` asks about: only its namespace and name are set.
abbrev pub named_service : Text → Text → MeshService
named_service namespace name = record {
  namespace = namespace;
  name = name;
  port = 0;
  target_port = 0;
  protocol = [];
  service_import_uid = [];
}

services_of_imports : Policies → List ServiceImport → List CoreService
services_of_imports policies [] = []
services_of_imports policies (si ∷ sis) =
    if is_locality policies (named_service si.namespace si.name)
    then services_of_imports policies sis
    else services_of_ports si si.ports ++ services_of_imports policies sis

-- `ListServices`
unfoldable pub list_services : Informers → List CoreService
unfolding bare_service set_endpoint services_of_endpoints services_of_ports services_of_imports
list_services c = services_of_imports c.policies c.imports

namespace_of : Text → List ServiceImport → Option Text
namespace_of ns [] = none
namespace_of ns (si ∷ sis) =
    if equal_fold si.namespace ns then some si.namespace else namespace_of ns sis

-- `GetNamespace`: the name of the namespace that it makes up.
unfoldable pub get_namespace : Informers → Text → Option Text
unfolding namespace_of
get_namespace c ns = namespace_of ns c.imports

pods_of_endpoints : ServiceImport → List ImportEndpoint → List Pod
pods_of_endpoints si [] = []
pods_of_endpoints si (ep ∷ eps) =
    record {
      namespace = si.namespace;
      name = ep.host;
      labels = (codes "app", si.name) ∷ [];
      service_account_name = si.service_account_name;
      pod_ip = ep.ip;
      pod_ips = ep.ip ∷ [];
    }
    ∷ pods_of_endpoints si eps

pods_of_ports : ServiceImport → List ImportPort → List Pod
pods_of_ports si [] = []
pods_of_ports si (p ∷ ps) = pods_of_endpoints si p.endpoints ++ pods_of_ports si ps

pods_of_imports : List ServiceImport → List Pod
pods_of_imports [] = []
pods_of_imports (si ∷ sis) = pods_of_ports si si.ports ++ pods_of_imports sis

-- `ListPods`
unfoldable pub list_pods : Informers → List Pod
unfolding pods_of_endpoints pods_of_ports pods_of_imports
list_pods c = pods_of_imports c.imports
