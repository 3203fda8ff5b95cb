-- ===== src/K8s/Hostnames.antt =====
-- pkg/ecnet/k8s/util.go: hostnames of a service, and the parts of a hostname.
pub mod Laws
use erie_canal_net.Base.{
  ℕ, Bool, true, false, List, [], ◌∷◌, ◌++◌, Option, none, some, Text, codes, ◌==◌, nat_eq, list_eq,
  split, decimal, if◌then◌else◌,
}
use erie_canal_net.Service.{MeshService, first}

-- The names with their port, as `fmt.Sprintf("%s:%d", host, port)` writes it.
abbrev pub with_port : Text → ℕ → Text
with_port host port = host ++ b':' ∷ decimal port

abbrev pub svc_host : MeshService → Text
svc_host svc = svc.name ++ b'.' ∷ (svc.namespace ++ codes ".svc")

-- The loop over the segments of the trust domain.
domain_hostnames : ℕ → Text → List Text → List Text
domain_hostnames port hostname [] = []
domain_hostnames port hostname ([] ∷ segs) = domain_hostnames port hostname segs
domain_hostnames port hostname ((c ∷ seg) ∷ segs) =
    let longer = hostname ++ b'.' ∷ (c ∷ seg) in
    longer ∷ with_port longer port ∷ domain_hostnames port longer segs

local_hostnames : MeshService → Bool → List Text
local_hostnames svc true = svc.name ∷ with_port svc.name svc.port ∷ []
local_hostnames svc false = []

-- `GetHostnamesForService`; the package variable `trustDomain` is an argument.
unfoldable pub get_hostnames_for_service : Text → MeshService → Bool → List Text
unfolding domain_hostnames local_hostnames split
get_hostnames_for_service trust_domain svc local_namespace =
    local_hostnames svc local_namespace
    ++ (svc.name ++ b'.' ∷ svc.namespace)
      ∷ with_port (svc.name ++ b'.' ∷ svc.namespace) svc.port
      ∷ svc_host svc
      ∷ with_port (svc_host svc) svc.port
      ∷ domain_hostnames svc.port (svc_host svc) (split b'.' trust_domain)

-- What `splitHostName` asks the controller: whether a namespace is in the cache. The controller
-- may be nil.
abbrev pub Namespaces : Type 0
Namespaces = Option (Text → Bool)

two_parts : Namespaces → Text → Text → Text × Text
two_parts none p1 p2 = (p1, [])
two_parts (some known) p1 p2 = if known p2 then (p1, []) else (p2, p1)

three_parts : Namespaces → Text → Text → Text → Text × Text
three_parts none a b tld = if tld == codes "svc" then (a, []) else (b, a)
three_parts (some known) a b tld = if known tld then (b, a) else (a, [])

by_components : Namespaces → List Text → Text × Text
unfolding two_parts three_parts
by_components c (a ∷ []) = (a, [])
by_components c (a ∷ b ∷ []) = two_parts c a b
by_components c (a ∷ b ∷ tld ∷ []) = three_parts c a b tld
by_components c (a ∷ b ∷ _ ∷ _ ∷ []) = (b, a)
by_components c (a ∷ b ∷ _ ∷ _ ∷ _ ∷ []) = (a, [])
by_components c (a ∷ b ∷ _ ∷ _ ∷ _ ∷ _ ∷ []) = (b, a)
by_components c (a ∷ _) = (a, [])
by_components c [] = ([], [])

-- `splitHostName`: the service name and the subdomain.
unfoldable pub split_host_name : Namespaces → Text → Text × Text
unfolding by_components split
split_host_name c host = by_components c (split b'.' (first (split b':' host)))

-- `GetServiceFromHostname`
unfoldable pub get_service_from_hostname : Namespaces → Text → Text
unfolding split_host_name
get_service_from_hostname c host = (split_host_name c host).0

-- `GetSubdomainFromHostname`
unfoldable pub get_subdomain_from_hostname : Namespaces → Text → Text
unfolding split_host_name
get_subdomain_from_hostname c host = (split_host_name c host).1

two_chunks : List Text → Option (Text × Text)
two_chunks (namespace ∷ name ∷ []) = some (namespace, name)
two_chunks _ = none

-- `NamespacedNameFrom`
unfoldable pub namespaced_name_from : Text → Option (Text × Text)
unfolding two_chunks split
namespaced_name_from name = two_chunks (split b'/' name)

-- `IsHeadlessService`, on the cluster IP of the service
unfoldable pub is_headless_ip : Text → Bool
is_headless_ip [] = true
is_headless_ip (c ∷ ip) = c ∷ ip == codes "None"
