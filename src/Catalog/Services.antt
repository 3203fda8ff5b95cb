-- ===== src/Catalog/Services.antt =====
-- service.go and endpoint.go of pkg/ecnet/catalog, over the interfaces of pkg/ecnet/service and
-- pkg/ecnet/service/endpoint.
pub mod Laws
use erie_canal_net.Base.{
  ℕ, Bool, true, false, ◌&&◌, List, [], ◌∷◌, ◌++◌, Text, codes, ◌==◌, nat_eq, list_eq, is_empty,
  if◌then◌else◌,
}
use erie_canal_net.Service.{MeshService}
use erie_canal_net.Multicluster.TrafficPolicy.{LbWeight}

-- endpoint/types.go: `Endpoint`; the IP address by its text.
pub record Endpoint : Type 0 where
  pub ip : Text
  pub port : ℕ
  pub weight : ℕ
  pub cluster_key : Text
  pub lb_type : Text
  pub path : Text

-- endpoint/types.go: `Provider`
pub record EndpointsProvider : Type 0 where
  pub id : Text
  pub list_endpoints_for_service : MeshService → List Endpoint
  pub get_resolvable_endpoints_for_service : MeshService → List Endpoint

-- service/types.go: `Provider`
pub record ServiceProvider : Type 0 where
  pub id : Text
  pub list_services : List MeshService

-- types.go: `MeshCatalog`; of the multicluster controller it calls `GetLbWeightForService`.
pub record MeshCatalog : Type 0 where
  pub service_providers : List ServiceProvider
  pub endpoints_providers : List EndpointsProvider
  pub get_lb_weight : MeshService → LbWeight

-- providers/fsm/types.go: `ProviderName`
abbrev pub provider_name : Text
provider_name = codes "flomesh"

abbrev pub is_multicluster : ServiceProvider → Bool
is_multicluster p = p.id == provider_name

-- The first loop of `listMeshServices`: the services, the same once more, and the other providers.
record Gathered : Type 0 where
  services : List MeshService
  mc_services : List MeshService
  other_providers : List ServiceProvider

abbrev nothing_gathered : Gathered
nothing_gathered = record { services = []; mc_services = []; other_providers = [] }

gather_one : Gathered → ServiceProvider → Gathered
gather_one g p =
    if is_multicluster p
    then record g {
      services = g.services ++ p.list_services;
      mc_services = g.mc_services ++ p.list_services;
    }
    else record g { other_providers = g.other_providers ++ p ∷ [] }

gather : Gathered → List ServiceProvider → Gathered
unfolding gather_one
gather g [] = g
gather g (p ∷ ps) = gather (gather_one g p) ps

abbrev pub same_service : MeshService → MeshService → Bool
same_service svc mc = svc.name == mc.name && svc.namespace == mc.namespace

-- The loop over `mcServices`, which stops at the first service of the same name and namespace.
append_if_imported : List MeshService → MeshService → List MeshService → List MeshService
append_if_imported services svc [] = services
append_if_imported services svc (mc ∷ mcs) =
    if same_service svc mc then services ++ svc ∷ [] else append_if_imported services svc mcs

append_imported : List MeshService → List MeshService → List MeshService → List MeshService
append_imported mcs services [] = services
append_imported mcs services (svc ∷ svcs) =
    append_imported mcs (append_if_imported services svc mcs) svcs

append_providers : List MeshService → List MeshService → List ServiceProvider → List MeshService
append_providers mcs services [] = services
append_providers mcs services (p ∷ ps) =
    append_providers mcs (append_imported mcs services p.list_services) ps

-- `listMeshServices`
unfoldable pub list_mesh_services : MeshCatalog → List MeshService
unfolding gather append_if_imported append_imported append_providers
list_mesh_services mc =
    let g = gather nothing_gathered mc.service_providers in
    if is_empty g.mc_services
    then g.services
    else append_providers g.mc_services g.services g.other_providers

-- `ListOutboundServices`
unfoldable pub list_outbound_services : MeshCatalog → List MeshService
unfolding list_mesh_services
list_outbound_services mc = list_mesh_services mc

append_endpoints : MeshService → List Endpoint → List EndpointsProvider → List Endpoint
append_endpoints svc out [] = out
append_endpoints svc out (p ∷ ps) =
    let ep = p.list_endpoints_for_service svc in
    append_endpoints svc (if is_empty ep then out else out ++ ep) ps

-- `listEndpointsForService`
unfoldable pub list_endpoints_for_service : MeshCatalog → MeshService → List Endpoint
unfolding append_endpoints
list_endpoints_for_service mc svc = append_endpoints svc [] mc.endpoints_providers

append_resolvable : MeshService → List Endpoint → List EndpointsProvider → List Endpoint
append_resolvable svc out [] = out
append_resolvable svc out (p ∷ ps) =
    append_resolvable svc (out ++ p.get_resolvable_endpoints_for_service svc) ps

-- `getDNSResolvableServiceEndpoints`
unfoldable pub get_dns_resolvable_service_endpoints : MeshCatalog → MeshService → List Endpoint
unfolding append_resolvable
get_dns_resolvable_service_endpoints mc svc = append_resolvable svc [] mc.endpoints_providers

-- `ListUpstreamEndpointsForService`; nil and an empty slice are one list.
unfoldable pub list_upstream_endpoints_for_service : MeshCatalog → MeshService → List Endpoint
unfolding list_endpoints_for_service
list_upstream_endpoints_for_service mc svc =
    let outbound_endpoints = list_endpoints_for_service mc svc in
    if is_empty outbound_endpoints then [] else outbound_endpoints
