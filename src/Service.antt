-- ===== src/Service.antt =====
-- pkg/ecnet/service: the mesh's view of a service, and the texts that name it.
pub mod Names
use erie_canal_net.Base.{
  ℕ, ◌<◌, ◌^◌, ◌≡◌, Bool, true, false, not, ◌||◌, List, [], ◌∷◌, ◌++◌, Text, codes, any, not_empty,
  is_digit, leb, ◌&&◌, ◌==◌, nat_eq, list_eq, split, decimal, if◌then◌else◌, Eq, arith, ◌↔◌, ==_iff,
}

-- identity.go: `K8sServiceAccount`
pub record K8sServiceAccount : Type 0 where
  pub namespace : Text
  pub name : Text

-- `K8sServiceAccount.String`
unfoldable pub account_string : K8sServiceAccount → Text
account_string sa = sa.namespace ++ b'/' ∷ sa.name

-- types.go: `MeshService`; the ports are uint16.
pub record MeshService : Type 0 where
  pub namespace : Text
  pub name : Text
  pub port : ℕ
  pub target_port : ℕ
  pub protocol : Text
  pub service_import_uid : Text

abbrev pub first : List Text → Text
first [] = []
first (x ∷ xs) = x

abbrev pub last : List Text → Text
last [] = []
last (x ∷ []) = x
last (x ∷ y ∷ xs) = last (y ∷ xs)

subdomain_of : List Text → Text
subdomain_of (part ∷ []) = []
subdomain_of parts = first parts

-- `MeshService.Subdomain`
unfoldable pub subdomain : MeshService → Text
unfolding subdomain_of split
subdomain ms = subdomain_of (split b'.' ms.name)

-- `MeshService.ProviderKey`
unfoldable pub provider_key : MeshService → Text
unfolding split
provider_key ms = last (split b'.' ms.name)

-- `MeshService.NamespacedKey`
unfoldable pub namespaced_key : MeshService → Text
unfolding provider_key
namespaced_key ms = ms.namespace ++ b'/' ∷ provider_key ms

-- `MeshService.IsMultiClusterService`
unfoldable pub is_multi_cluster_service : MeshService → Bool
is_multi_cluster_service ms = not_empty ms.service_import_uid

-- `MeshService.SiblingTo`
unfoldable pub sibling_to : MeshService → MeshService → Bool
unfolding namespaced_key
sibling_to ms svc = namespaced_key ms == namespaced_key svc

-- `MeshService.String`
unfoldable pub string : MeshService → Text
string ms = ms.namespace ++ b'/' ∷ ms.name

-- `MeshService.ClusterName`
unfoldable pub cluster_name : MeshService → Text
cluster_name ms = ms.namespace ++ b'/' ∷ (ms.name ++ b'|' ∷ decimal ms.target_port)

-- `MeshService.FQDN`
unfoldable pub fqdn : MeshService → Text
fqdn ms = ms.name ++ b'.' ∷ (ms.namespace ++ codes ".svc.cluster.local")

-- service.go: `MeshService.ServerName`
unfoldable pub server_name : MeshService → Text
unfolding fqdn
server_name ms = fqdn ms

-- `MeshService.OutboundTrafficMatchName`
unfoldable pub outbound_traffic_match_name : MeshService → Text
unfolding string
outbound_traffic_match_name ms =
    codes "outbound" ++ b'_' ∷ (string ms ++ b'_' ∷ (decimal ms.port ++ b'_' ∷ ms.protocol))

-- types.go: `WeightedCluster`
pub record WeightedCluster : Type 0 where
  pub cluster_name : Text
  pub weight : ℕ

-- `==` on two weighted clusters
abbrev pub weighted_cluster_beq : WeightedCluster → WeightedCluster → Bool
weighted_cluster_beq a b = a.cluster_name == b.cluster_name && a.weight == b.weight

pub weighted_cluster_beq_iff : (a b : WeightedCluster) → (weighted_cluster_beq a b ≡ true) ↔ (a ≡ b)
weighted_cluster_beq_iff a b = ground (arith, ==_iff a.cluster_name b.cluster_name)

instance abbrev pub weighted_cluster_eq : Eq WeightedCluster
weighted_cluster_eq = record { test = weighted_cluster_beq; test_iff = weighted_cluster_beq_iff }

-- The characters of a DNS-1123 label, which Kubernetes requires of the name of a namespace, of a
-- service and of a pod.
abbrev pub label_char : ℕ → Bool
label_char c = (leb b'a' c && leb c b'z') || (is_digit c || c == b'-')

abbrev pub name_char : ℕ → Bool
name_char c = label_char c || c == b'.'

pub record IsLabel (s : Text) : Type 0 where
  pub present : not_empty s ≡ true
  pub chars : any (λ c. not (label_char c)) s ≡ false

-- One or more labels joined by dots: the name of a `MeshService`.
pub record IsName (s : Text) : Type 0 where
  pub present : not_empty s ≡ true
  pub chars : any (λ c. not (name_char c)) s ≡ false
