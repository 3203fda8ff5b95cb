-- ===== src/Multicluster/Endpoints.antt =====
-- service_import.go of pkg/ecnet/service/multicluster: `GetEndpoints` and
-- `GetTargetPortForServicePort`.
pub mod Served
pub mod Selection
pub mod TargetPorts
pub mod Notes
use erie_canal_net.Base.{
  ℕ, ◌%◌, ◌^◌, Bool, true, false, ◌&&◌, ◌||◌, not, List, [], ◌∷◌, ◌++◌, Option, none, some, Text,
  codes, ◌==◌, nat_eq, list_eq, Assoc, lookup, insert, has_key, if◌then◌else◌, is_empty, equal_fold,
  decimal, ltb,
}
use erie_canal_net.Service.{MeshService, namespaced_key}
use erie_canal_net.Multicluster.TrafficPolicy.{
  LbWeight, locality, get_service_traffic_policy, get_lb_weight_for_service,
}
use erie_canal_net.Multicluster.ServiceImport.{
  ImportEndpoint, ImportPort, ServiceImport, Endpoints, EndpointSubset, EndpointAddress,
  EndpointPort, Informers, named_service,
}

-- types.go: the annotation keys, `fmt.Sprintf(".../%s/%d", ip, port)`
abbrev pub annotation_key : Text → Text → ℕ → Text
annotation_key family ip port = family ++ ip ++ b'/' ∷ decimal port

abbrev pub cluster_key_annotation : Text
cluster_key_annotation = codes "flomesh.io/ServiceImport/ClusterKey/"

abbrev pub context_path_annotation : Text
context_path_annotation = codes "flomesh.io/ServiceImport/ContextPath/"

abbrev pub lb_type_annotation : Text
lb_type_annotation = codes "flomesh.io/ServiceImport/LBType/"

abbrev pub lb_weight_annotation : Text
lb_weight_annotation = codes "flomesh.io/ServiceImport/LBWeight/"

annotate : Text → ImportEndpoint → ℕ → Assoc Text Text → Assoc Text Text
annotate lb_type ep weight notes =
    insert (annotation_key lb_weight_annotation ep.ip ep.port) (decimal weight) (
      insert (annotation_key lb_type_annotation ep.ip ep.port) lb_type (
        insert (annotation_key context_path_annotation ep.ip ep.port) ep.path
          (insert (annotation_key cluster_key_annotation ep.ip ep.port) ep.cluster_key notes)))

abbrev pub subset_of : ImportPort → ImportEndpoint → EndpointSubset
subset_of p ep = record {
  addresses = record { ip = ep.ip; hostname = ep.host } ∷ [];
  ports =
      record { name = p.name; protocol = p.protocol; app_protocol = p.app_protocol; port = ep.port }
      ∷ [];
}

-- The weight of an endpoint that the loop keeps; `none` where it goes on to the next.
pub kept_weight : MeshService → Assoc Text ℕ → ImportEndpoint → Option ℕ
kept_weight svc keys ep =
    if ltb 0 svc.target_port && not (svc.target_port == ep.port % 2 ^ 16)
    then none
    else if is_empty keys
    then some 0
    else lookup ep.cluster_key keys

add_endpoint : Text → ImportPort → ImportEndpoint → Endpoints → Option ℕ → Endpoints
add_endpoint lb_type p ep out none = out
add_endpoint lb_type p ep out (some weight) = record out {
  annotations = annotate lb_type ep weight out.annotations;
  subsets = out.subsets ++ subset_of p ep ∷ [];
}

pub add_endpoints :
    MeshService → Text → Assoc Text ℕ → ImportPort → Endpoints → List ImportEndpoint → Endpoints
unfolding kept_weight add_endpoint annotate
add_endpoints svc lb_type keys p out [] = out
add_endpoints svc lb_type keys p out (ep ∷ eps) =
    add_endpoints svc lb_type keys p (add_endpoint lb_type p ep out (kept_weight svc keys ep)) eps

pub no_endpoints : ServiceImport → Endpoints
no_endpoints si = record {
  namespace = si.namespace;
  name = si.name;
  annotations = [];
  subsets = [];
}

-- The condition under which the loop over the ports builds its result.
unfoldable pub port_selected : MeshService → ServiceImport → ImportPort → Bool
port_selected svc si p =
    equal_fold si.name svc.name
    && ((svc.port == 0 || svc.port == p.port % 2 ^ 16) && not (is_empty p.endpoints))

endpoints_of_ports :
    MeshService → Text → Assoc Text ℕ → ServiceImport → List ImportPort → Option Endpoints
unfolding port_selected add_endpoints no_endpoints
endpoints_of_ports svc lb_type keys si [] = none
endpoints_of_ports svc lb_type keys si (p ∷ ps) =
    if port_selected svc si p
    then some (add_endpoints svc lb_type keys p (no_endpoints si) p.endpoints)
    else endpoints_of_ports svc lb_type keys si ps

endpoints_of_import : MeshService → Text → Assoc Text ℕ → Option ServiceImport → Option Endpoints
unfolding endpoints_of_ports
endpoints_of_import svc lb_type keys none = none
endpoints_of_import svc lb_type keys (some si) = endpoints_of_ports svc lb_type keys si si.ports

-- `GetEndpoints`; its error is always nil.
unfoldable pub get_endpoints : Informers → MeshService → Option Endpoints
unfolding endpoints_of_import
get_endpoints c svc =
    let (lb_type, keys) = get_service_traffic_policy c.policies svc in
    if lb_type == locality
    then none
    else endpoints_of_import svc lb_type keys (c.import_by_key (namespaced_key svc))

-- The loops of `GetTargetPortForServicePort`.
target_ports_of_endpoints : Bool → Assoc Text ℕ → Assoc ℕ Bool → List ImportEndpoint → Assoc ℕ Bool
target_ports_of_endpoints aa keys out [] = out
target_ports_of_endpoints aa keys out (ep ∷ eps) =
    target_ports_of_endpoints aa keys
      (if is_empty keys || has_key ep.cluster_key keys
        then insert (ep.port % 2 ^ 16) aa out
        else out)
      eps

target_ports_of_ports :
    Bool → Assoc Text ℕ → Text → ℕ → Text → Assoc ℕ Bool → List ImportPort → Assoc ℕ Bool
unfolding target_ports_of_endpoints
target_ports_of_ports aa keys name port si_name out [] = out
target_ports_of_ports aa keys name port si_name out (p ∷ ps) =
    target_ports_of_ports aa keys name port si_name
      (if equal_fold si_name name && (p.port % 2 ^ 16 == port && not (is_empty p.endpoints))
        then target_ports_of_endpoints aa keys out p.endpoints
        else out)
      ps

-- `GetTargetPortForServicePort`; a nil map is empty.
unfoldable pub get_target_port_for_service_port : Informers → Text → Text → ℕ → Assoc ℕ Bool
unfolding target_ports_of_ports
get_target_port_for_service_port c namespace name port =
    let svc = named_service namespace name in
    let lb = get_lb_weight_for_service c.policies svc in
    if lb.lc then [] else elim (c.import_by_key (namespaced_key svc)) [
      | none ↦ []
      | some si ↦ target_ports_of_ports lb.aa lb.cluster_keys name port si.name [] si.ports
    ]
