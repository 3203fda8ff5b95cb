-- ===== src/Ctrlplane/Names/Laws.antt =====
-- Round trips of pkg/ecnet/bridge/ctrlplane/server/util.go with the names of pkg/ecnet/service.
use erie_canal_net.Base.{
  ℕ, ◌<◌, ◌^◌, ◌≡◌, refl, Bool, true, [], ◌∷◌, ◌++◌, some, Text, arith, any-append, Free,
  split_by-Free, split_by-append, fields_func, decimal, decimal-Free, not_empty-decimal,
  parse_uint-decimal, not_empty, codes, to_lower, only,
}
use erie_canal_net.Service.{
  MeshService, IsLabel, IsName, cluster_name, string, outbound_traffic_match_name,
}
use erie_canal_net.Service.Names.{IsLabel-Free, IsName-Free}
use erie_canal_net.K8s.Hostnames.{namespaced_name_from}
use erie_canal_net.Policy.{TrafficMatch}
use erie_canal_net.Ctrlplane.Names.{
  cluster_separator, cluster_to_mesh_svc, match_separator, traffic_match_to_mesh_svc,
}

-- A piece with characters in front of a separator is the first field.
fields_func-append :
    (p : ℕ → Bool) (s rest : Text) (sep : ℕ)
    → not_empty s ≡ true
    → Free p s
    → p sep ≡ true
    → fields_func p (s ++ sep ∷ rest) ≡ s ∷ fields_func p rest
unfolding fields_func
fields_func-append p s rest sep e h k = rw (split_by-append p s rest sep h k, e)

fields_func-Free :
    (p : ℕ → Bool) (s : Text) → not_empty s ≡ true → Free p s → fields_func p s ≡ s ∷ []
unfolding fields_func
fields_func-Free p s e h = rw (split_by-Free p s h, e)

not_empty-slash : (s t : Text) → not_empty (s ++ b'/' ∷ t) ≡ true
not_empty-slash [] t = refl
not_empty-slash (c ∷ s) t = refl

module _ (ms : MeshService) (ls : IsLabel ms.namespace) (ln : IsName ms.name) where
  cluster_name_fields :
      fields_func cluster_separator (cluster_name ms)
      ≡ ms.namespace ∷ ms.name ∷ decimal ms.target_port ∷ []
  unfolding cluster_name
  cluster_name_fields = rw (
    fields_func-append cluster_separator ms.namespace (ms.name ++ b'|' ∷ decimal ms.target_port)
        b'/' ls.present (IsLabel-Free cluster_separator ms.namespace (λ c h. ground arith) ls) refl,
    fields_func-append cluster_separator ms.name (decimal ms.target_port) b'|' ln.present
        (IsName-Free cluster_separator ms.name (λ c h. ground arith) ln) refl,
    fields_func-Free cluster_separator (decimal ms.target_port) (not_empty-decimal ms.target_port)
        (decimal-Free cluster_separator ms.target_port (λ c h. ground arith)),
  )

  -- Reading back the cluster name of a service, whose namespace is a DNS label, whose name is a DNS
  -- name and whose target port is a uint16, gives a service with that namespace, name and target
  -- port, and with no port, protocol or import UID.
  pub cluster_to_mesh_svc-cluster_name :
      ms.target_port < 2 ^ 16
      → cluster_to_mesh_svc (cluster_name ms)
        ≡ some (record ms { port = 0; protocol = []; service_import_uid = [] })
  unfolding cluster_to_mesh_svc
  cluster_to_mesh_svc-cluster_name h =
      rw (cluster_name_fields, parse_uint-decimal ms.target_port 16 h) (ground arith)

  string-Free : Free match_separator (string ms)
  unfolding string
  string-Free = ground (
    arith,
    any-append match_separator ms.namespace (b'/' ∷ ms.name),
    IsLabel-Free match_separator ms.namespace (λ c h. ground arith) ls,
    IsName-Free match_separator ms.name (λ c h. ground arith) ln,
  )

  not_empty-string : not_empty (string ms) ≡ true
  unfolding string
  not_empty-string = not_empty-slash ms.namespace ms.name

  namespaced_name_from-string : namespaced_name_from (string ms) ≡ some (ms.namespace, ms.name)
  unfolding string namespaced_name_from
  namespaced_name_from-string = rw (
    split_by-append (only b'/') ms.namespace ms.name b'/'
        (IsLabel-Free (only b'/') ms.namespace (λ c h. ground arith) ls) refl,
    split_by-Free (only b'/') ms.name (IsName-Free (only b'/') ms.name (λ c h. ground arith) ln),
  )

  match_name_fields :
      not_empty ms.protocol ≡ true
      → Free match_separator ms.protocol
      → fields_func match_separator (outbound_traffic_match_name ms)
        ≡ codes "outbound" ∷ string ms ∷ decimal ms.port ∷ ms.protocol ∷ []
  unfolding outbound_traffic_match_name
  match_name_fields e h = rw (
    fields_func-append match_separator (codes "outbound")
        (string ms ++ b'_' ∷ (decimal ms.port ++ b'_' ∷ ms.protocol)) b'_' refl refl refl,
    fields_func-append match_separator (string ms) (decimal ms.port ++ b'_' ∷ ms.protocol) b'_'
        not_empty-string string-Free refl,
    fields_func-append match_separator (decimal ms.port) ms.protocol b'_'
        (not_empty-decimal ms.port) (decimal-Free match_separator ms.port (λ c k. ground arith))
        refl,
    fields_func-Free match_separator ms.protocol e h,
  )

  -- Reading back a traffic match that carries the outbound name of a service, whose namespace is a
  -- DNS label, whose name is a DNS name and whose protocol is not empty and holds no underscore, and
  -- whose own port is below 2^16, gives the namespace and the name of the service, the protocol of
  -- the match in lower case, and the port of the match as the target port.
  pub traffic_match_to_mesh_svc-name :
      (tm : TrafficMatch)
      → tm.name ≡ outbound_traffic_match_name ms
      → not_empty ms.protocol ≡ true
      → Free match_separator ms.protocol
      → tm.destination_port < 2 ^ 16
      → traffic_match_to_mesh_svc tm
        ≡ some (record {
          namespace = ms.namespace;
          name = ms.name;
          port = 0;
          target_port = tm.destination_port;
          protocol = to_lower tm.destination_protocol;
          service_import_uid = [];
        })
  unfolding traffic_match_to_mesh_svc
  traffic_match_to_mesh_svc-name tm named e h lt =
      rw (named, match_name_fields e h, namespaced_name_from-string) (ground arith)
