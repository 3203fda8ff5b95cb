-- ===== src/Ctrlplane/Names.antt =====
-- pkg/ecnet/bridge/ctrlplane/server/util.go: services read back from the names of clusters and of
-- traffic matches.
pub mod Laws
use erie_canal_net.Base.{
  ℕ, Bool, List, [], ◌∷◌, Option, none, some, Text, ◌==◌, nat_eq, ◌||◌, fields_func, parse_uint,
  to_lower, ◌%◌, ◌^◌,
}
use erie_canal_net.Service.{MeshService}
use erie_canal_net.K8s.Hostnames.{namespaced_name_from}
use erie_canal_net.Policy.{TrafficMatch}

abbrev pub cluster_separator : ℕ → Bool
cluster_separator r = r == b'/' || r == b'|'

service_at : Text → Text → Option ℕ → Option MeshService
service_at namespace name none = none
service_at namespace name (some port) = some (record {
  namespace = namespace;
  name = name;
  port = 0;
  target_port = port % 2 ^ 16;
  protocol = [];
  service_import_uid = [];
})

cluster_chunks : List Text → Option MeshService
cluster_chunks (namespace ∷ name ∷ port ∷ []) = service_at namespace name (parse_uint port 16)
cluster_chunks _ = none

-- `clusterToMeshSvc`; `none` is the error.
unfoldable pub cluster_to_mesh_svc : Text → Option MeshService
unfolding service_at cluster_chunks fields_func
cluster_to_mesh_svc cluster = cluster_chunks (fields_func cluster_separator cluster)

abbrev pub match_separator : ℕ → Bool
match_separator r = r == b'_'

service_named : TrafficMatch → Option (Text × Text) → Option MeshService
service_named tm none = none
service_named tm (some (namespace, name)) = some (record {
  namespace = namespace;
  name = name;
  port = 0;
  target_port = tm.destination_port % 2 ^ 16;
  protocol = to_lower tm.destination_protocol;
  service_import_uid = [];
})

match_chunks : TrafficMatch → List Text → Option MeshService
match_chunks tm (_ ∷ namespaced ∷ _ ∷ _ ∷ []) = service_named tm (namespaced_name_from namespaced)
match_chunks tm _ = none

-- `trafficMatchToMeshSvc`; `none` is nil.
unfoldable pub traffic_match_to_mesh_svc : TrafficMatch → Option MeshService
unfolding service_named match_chunks fields_func namespaced_name_from
traffic_match_to_mesh_svc tm = match_chunks tm (fields_func match_separator tm.name)
