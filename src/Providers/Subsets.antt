-- ===== src/Providers/Subsets.antt =====
-- The loops over the subsets of endpoints that client.go of pkg/ecnet/service/providers/kube and client.go
-- of pkg/ecnet/service/providers/fsm share: they differ in the endpoint that they make.
pub mod Listed
use erie_canal_net.Base.{
  ℕ, Bool, true, false, not, ◌&&◌, List, [], ◌∷◌, ◌++◌, Text, ◌==◌, nat_eq, list_eq, if◌then◌else◌,
  not_empty,
}
use erie_canal_net.Service.{MeshService, subdomain}
use erie_canal_net.Multicluster.ServiceImport.{EndpointSubset, EndpointAddress, EndpointPort}
use erie_canal_net.Catalog.Services.{Endpoint}

-- A target port of zero is not known.
abbrev pub port_wanted : MeshService → EndpointPort → Bool
port_wanted svc p = not (not (svc.target_port == 0) && not (p.port == svc.target_port))

-- `is_ip` is whether `net.ParseIP` reads the address.
abbrev pub address_wanted : (Text → Bool) → MeshService → EndpointAddress → Bool
address_wanted is_ip svc a =
    not (not_empty (subdomain svc) && not (subdomain svc == a.hostname)) && is_ip a.ip

-- `make` is the endpoint of a port and an address.
module _ (is_ip : Text → Bool) (make : EndpointPort → EndpointAddress → Endpoint) where
  endpoints_of_addresses : MeshService → EndpointPort → List EndpointAddress → List Endpoint
  endpoints_of_addresses svc p [] = []
  endpoints_of_addresses svc p (a ∷ as') =
      let rest = endpoints_of_addresses svc p as' in
      if address_wanted is_ip svc a then make p a ∷ rest else rest

  endpoints_of_ports : MeshService → List EndpointAddress → List EndpointPort → List Endpoint
  unfolding endpoints_of_addresses
  endpoints_of_ports svc addresses [] = []
  endpoints_of_ports svc addresses (p ∷ ps) =
      let rest = endpoints_of_ports svc addresses ps in
      if port_wanted svc p then endpoints_of_addresses svc p addresses ++ rest else rest

  unfoldable pub endpoints_of_subsets : MeshService → List EndpointSubset → List Endpoint
  unfolding endpoints_of_ports
  endpoints_of_subsets svc [] = []
  endpoints_of_subsets svc (s ∷ ss) =
      endpoints_of_ports svc s.addresses s.ports ++ endpoints_of_subsets svc ss
