-- ===== src/K8s/Hostnames/Laws.antt =====
-- The hostnames that pkg/ecnet/k8s/util.go gives to a service, read back by the same file.
use erie_canal_net.Base.{
  ℕ, ◌≡◌, refl, false, List, [], ◌∷◌, ◌++◌, Text, any-append, Free, only, split_by-Free,
  split_by-append, split, arith, codes, map, none, decimal, append_assoc, ◌∙◌,
}
use erie_canal_net.Service.{MeshService, IsLabel}
use erie_canal_net.Service.Names.{IsLabel-Free, IsLabel-dot}
use erie_canal_net.K8s.Hostnames.{
  with_port, split_host_name, by_components, get_hostnames_for_service,
}

IsLabel-colon : (s : Text) → IsLabel s → Free (only b':') s
IsLabel-colon s l = IsLabel-Free (only b':') s (λ c h. ground arith) l

-- A port behind a host changes nothing.
split_host_name-with_port :
    (host : Text) (port : ℕ)
    → Free (only b':') host
    → split_host_name none (with_port host port) ≡ split_host_name none host
unfolding split_host_name
split_host_name-with_port host port h =
    rw (
      split_by-append (only b':') host (decimal port) b':' h refl,
      split_by-Free (only b':') host h,
    )

components :
    (host : Text) (parts : List Text)
    → Free (only b':') host
    → split b'.' host ≡ parts
    → split_host_name none host ≡ by_components none parts
unfolding split_host_name
components host parts h e = rw (split_by-Free (only b':') host h, e)

module _ (svc : MeshService) (ln : IsLabel svc.name) (ls : IsLabel svc.namespace) where
  joined_Free : (s : Text) → Free (only b':') s → Free (only b':') (svc.name ++ b'.' ∷ s)
  joined_Free s h =
      ground (arith, any-append (only b':') svc.name (b'.' ∷ s), IsLabel-colon svc.name ln)

  long_Free : (rest : Text) → Free (only b':') rest → Free (only b':') (svc.namespace ++ rest)
  long_Free rest h =
      ground (arith, any-append (only b':') svc.namespace rest, IsLabel-colon svc.namespace ls)

  split-short : split b'.' (svc.name ++ b'.' ∷ svc.namespace) ≡ svc.name ∷ svc.namespace ∷ []
  unfolding split
  split-short = rw (
    split_by-append (only b'.') svc.name svc.namespace b'.' (IsLabel-dot svc.name ln) refl,
    split_by-Free (only b'.') svc.namespace (IsLabel-dot svc.namespace ls),
  )

  split-long :
      (rest : Text)
      → split b'.' (svc.name ++ b'.' ∷ (svc.namespace ++ b'.' ∷ rest))
        ≡ svc.name ∷ svc.namespace ∷ split b'.' rest
  unfolding split
  split-long rest = rw (
    split_by-append (only b'.') svc.name (svc.namespace ++ b'.' ∷ rest) b'.'
        (IsLabel-dot svc.name ln) refl,
    split_by-append (only b'.') svc.namespace rest b'.' (IsLabel-dot svc.namespace ls) refl,
  )

  host : Text → Text
  host rest = svc.name ++ b'.' ∷ (svc.namespace ++ rest)

  read_short :
      (port : ℕ)
      → (split_host_name none (svc.name ++ b'.' ∷ svc.namespace) ≡ (svc.name, []))
        × (split_host_name none (with_port (svc.name ++ b'.' ∷ svc.namespace) port)
            ≡ (svc.name, []))
  unfolding by_components
  read_short port = (
    components short (svc.name ∷ svc.namespace ∷ []) free split-short,
    split_host_name-with_port short port free
        ∙ components short (svc.name ∷ svc.namespace ∷ []) free split-short,
  )
    where
      short : Text
      short = svc.name ++ b'.' ∷ svc.namespace

      free : Free (only b':') short
      free = joined_Free svc.namespace (IsLabel-colon svc.namespace ls)

  -- a host with more components behind the namespace
  read_long :
      (rest : Text) (parts : List Text) (port : ℕ)
      → Free (only b':') rest
      → split b'.' rest ≡ parts
      → (split_host_name none (host (b'.' ∷ rest))
          ≡ by_components none (svc.name ∷ svc.namespace ∷ parts))
        × (split_host_name none (with_port (host (b'.' ∷ rest)) port)
            ≡ by_components none (svc.name ∷ svc.namespace ∷ parts))
  unfolding host
  read_long rest parts port h e =
      (read, split_host_name-with_port (host (b'.' ∷ rest)) port free ∙ read)
    where
      free : Free (only b':') (host (b'.' ∷ rest))
      free = joined_Free (svc.namespace ++ b'.' ∷ rest) (long_Free (b'.' ∷ rest) (ground arith))

      read :
          split_host_name none (host (b'.' ∷ rest))
          ≡ by_components none (svc.name ∷ svc.namespace ∷ parts)
      read =
          components (host (b'.' ∷ rest)) (svc.name ∷ svc.namespace ∷ parts) free
            (rw (← e) (split-long rest))

  hostnames-cluster_local :
      get_hostnames_for_service (codes "cluster.local") svc false
      ≡ (svc.name ++ b'.' ∷ svc.namespace)
        ∷ with_port (svc.name ++ b'.' ∷ svc.namespace) svc.port
        ∷ host (codes ".svc")
        ∷ with_port (host (codes ".svc")) svc.port
        ∷ host (codes ".svc.cluster")
        ∷ with_port (host (codes ".svc.cluster")) svc.port
        ∷ host (codes ".svc.cluster.local")
        ∷ with_port (host (codes ".svc.cluster.local")) svc.port
        ∷ []
  unfolding get_hostnames_for_service host
  hostnames-cluster_local = simp append_assoc

  -- If the name and the namespace of a service are both DNS labels, so that the name holds no dot,
  -- then without a controller, the hostnames that it is given under the trust domain
  -- `cluster.local` name it with no subdomain, but for `name.namespace.svc.cluster`, with or without
  -- its port: there the namespace is taken for the service and the name for a subdomain.
  pub split_host_name-hostnames :
      map (split_host_name none) (get_hostnames_for_service (codes "cluster.local") svc false)
      ≡ (svc.name, [])
        ∷ (svc.name, [])
        ∷ (svc.name, [])
        ∷ (svc.name, [])
        ∷ (svc.namespace, svc.name)
        ∷ (svc.namespace, svc.name)
        ∷ (svc.name, [])
        ∷ (svc.name, [])
        ∷ []
  unfolding by_components split
  split_host_name-hostnames =
      let short = read_short svc.port in
      let svc_only = read_long (codes "svc") (codes "svc" ∷ []) svc.port refl refl in
      let cluster =
        read_long (codes "svc.cluster") (codes "svc" ∷ codes "cluster" ∷ []) svc.port refl refl in
      let whole =
        read_long (codes "svc.cluster.local") (codes "svc" ∷ codes "cluster" ∷ codes "local" ∷ [])
          svc.port refl refl in
      rw (
        hostnames-cluster_local, short.0, short.1, svc_only.0, svc_only.1, cluster.0, cluster.1,
        whole.0, whole.1,
      )
