-- ===== src/Ctrlplane/Job.antt =====
-- jobs.go of pkg/ecnet/bridge/ctrlplane/server: `Run`, the whole job of a proxy.
use erie_canal_net.Base.{
  ℕ, ◌≡◌, refl, subst, Bool, List, [], Option, none, some, Text, arith, nat_eq, list_eq, SetOps,
  All, ◌==◌, false, inl, inr, Option-cases,
}
use erie_canal_net.Service.{MeshService, WeightedCluster, weighted_cluster_eq}
use erie_canal_net.Repo.{Request, Reply}
use erie_canal_net.Repo.Derive.{ReadsBack}
use erie_canal_net.Configurator.{EcnetConfigSpec, Plugin}
use erie_canal_net.Catalog.Services.{MeshCatalog, list_outbound_services}
use erie_canal_net.Ctrlplane.Config.{OutboundHttpRouteRule}
use erie_canal_net.Ctrlplane.Balance.{PipyConf, set_sidecar_log_level, run_outbound}
use erie_canal_net.Ctrlplane.Balance.Whole.{IsServed, run_outbound_total}
use erie_canal_net.Ctrlplane.Order.{set_sidecar_chain, reorder}
use erie_canal_net.Ctrlplane.Publish.{
  CodebaseNames, proxy_codebase, publish_sidecar_conf, unversioned,
}
use erie_canal_net.Ctrlplane.Publish.Etag.{publish_total, publish_again}

-- `new(PipyConf)`
abbrev pub new_pipy_conf : PipyConf
new_pipy_conf = record {
  sidecar_log_level = [];
  outbound = none;
  dns_resolve_db = [];
  chains = [];
  ts = none;
  version = none;
}

-- What a run leaves: whether everything was ready, or else a retry was asked for; the ETag; and the
-- requests sent.
pub record JobResult : Type 0 where
  pub ready : Bool
  pub etag : ℕ
  pub sent : List Request

module _ {F : Type 0} (sort_plugins : List (Plugin F) → List (Plugin F)) where
  -- `features` and `plugin`
  abbrev pub configured : EcnetConfigSpec F → PipyConf
  configured config =
      set_sidecar_chain sort_plugins config (set_sidecar_log_level config.log_level new_pipy_conf).1

  fresh : (config : EcnetConfigSpec F) → (configured config).outbound ≡ none
  unfolding set_sidecar_chain set_sidecar_log_level
  fresh config = ground arith

module _ {F : Type 0} (S : SetOps WeightedCluster) (T : MeshService → SetOps Text)
    (trust_domain : Text) (sort : List OutboundHttpRouteRule → List OutboundHttpRouteRule)
    (sort_plugins : List (Plugin F) → List (Plugin F)) (respond : List Request → Reply)
    (names : CodebaseNames) (now : ℕ) (marshal : PipyConf → Option Text)
    (marshal_indent : PipyConf → Text) where
  publish_built : ℕ → List Request → Option (Bool × PipyConf) → Option JobResult
  publish_built etag sent none = none
  publish_built etag sent (some (ready, built)) =
      elim (publish_sidecar_conf respond names now marshal marshal_indent etag (reorder sort built)
        [] sent) [
          | none ↦ none
          | some (etag', sent') ↦ some (record { ready = ready; etag = etag'; sent = sent' })
        ]

  -- `Run`, for a proxy with an ETag; `none` is a panic. The plugin set has no version.
  unfoldable pub run_job : EcnetConfigSpec F → MeshCatalog → ℕ → List Request → Option JobResult
  unfolding publish_built
  run_job config mc etag sent =
      publish_built etag sent (run_outbound S T trust_domain mc (configured sort_plugins config))

  built_total :
      (ready : Bool) (built : PipyConf) (etag : ℕ) (sent : List Request)
      → ReadsBack respond (proxy_codebase names)
      → (result : JobResult) × (publish_built etag sent (some (ready, built)) ≡ some result)
  unfolding publish_built
  built_total ready built etag sent back =
      let (etag', sent', e) =
        publish_total respond names now marshal marshal_indent etag (reorder sort built) [] sent
          back in
      (record { ready = ready; etag = etag'; sent = sent' }, rw (publish_built, e) refl)

  -- If every service of the catalog has a DNS label for a namespace, a DNS name for a name, a protocol
  -- that is not empty and holds no underscore, and a port that fits 16 bits, and if the repository can
  -- read back a codebase that it has just made, then the job of a proxy runs to its end: it does not
  -- panic.
  pub run_job_total :
      (config : EcnetConfigSpec F) (mc : MeshCatalog) (etag : ℕ) (sent : List Request)
      → All IsServed (list_outbound_services mc)
      → ReadsBack respond (proxy_codebase names)
      → (result : JobResult) × (run_job config mc etag sent ≡ some result)
  unfolding run_job
  run_job_total config mc etag sent served back =
      let (ready, built, e) =
        run_outbound_total S T trust_domain mc (configured sort_plugins config) served
          (fresh sort_plugins config) in
      let (result, done) = built_total ready built etag sent back in (result, rw (run_job, e) done)

module _ {F : Type 0} (trust_domain : Text) (names : CodebaseNames)
    (marshal : PipyConf → Option Text) (marshal_indent : PipyConf → Text)
    (S S' : SetOps WeightedCluster) (T T' : MeshService → SetOps Text)
    (sort sort' : List OutboundHttpRouteRule → List OutboundHttpRouteRule)
    (sort_plugins sort_plugins' : List (Plugin F) → List (Plugin F))
    (respond respond' : List Request → Reply) (now now' : ℕ) where
  built_again :
      (etag : ℕ) (sent later : List Request) (ready ready' : Bool) (built built' : PipyConf)
      (result : JobResult)
      → marshal (unversioned (reorder sort' built')) ≡ marshal (unversioned (reorder sort built))
      → publish_built S T trust_domain sort sort_plugins respond names now marshal marshal_indent
          etag sent
          (some (ready, built))
        ≡ some result
      → (result.etag == etag) ≡ false
      → publish_built S' T' trust_domain sort' sort_plugins' respond' names now' marshal
          marshal_indent result.etag later
          (some (ready', built'))
        ≡ some (record { ready = ready'; etag = result.etag; sent = later })
  unfolding publish_built
  built_again etag sent later ready ready' built built' result alike h moved =
      elim (Option-cases (
        publish_sidecar_conf respond names now marshal marshal_indent etag (reorder sort built) []
          sent)) [
            | inl panics ↦ absurd (ground (arith, h, panics))
            | inr ((etag', sent'), p) ↦
                let same : etag' ≡ result.etag = ground (arith, h, p) in
                let ends : publish_sidecar_conf respond' names now' marshal marshal_indent etag'
                      (reorder sort' built') [] later
                    ≡ some (etag', later) =
                  publish_again respond names now marshal marshal_indent respond' now' etag etag'
                    (reorder sort built) (reorder sort' built') [] sent sent' later p
                    (rw same moved) alike in
                ground (
                  arith,
                  subst
                      (λ n.
                        publish_sidecar_conf respond' names now' marshal marshal_indent n
                          (reorder sort' built') [] later
                        ≡ some (n, later))
                      same ends,
                )
          ]

  -- If a job of a proxy moved its ETag, and a later job builds a configuration that has, with its
  -- rules sorted and without version and time, the same JSON as that of the first, then the later
  -- job sends no request and leaves the ETag, whatever the time, the answers of the repository, the
  -- orders of the sets and the sorts are; whether everything was ready is what it found itself.
  pub run_job_again :
      (config config' : EcnetConfigSpec F) (mc mc' : MeshCatalog) (etag : ℕ)
      (sent later : List Request) (ready ready' : Bool) (built built' : PipyConf)
      (result : JobResult)
      → run_outbound S T trust_domain mc (configured sort_plugins config) ≡ some (ready, built)
      → run_outbound S' T' trust_domain mc' (configured sort_plugins' config')
        ≡ some (ready', built')
      → marshal (unversioned (reorder sort' built')) ≡ marshal (unversioned (reorder sort built))
      → run_job S T trust_domain sort sort_plugins respond names now marshal marshal_indent config
          mc etag sent
        ≡ some result
      → (result.etag == etag) ≡ false
      → run_job S' T' trust_domain sort' sort_plugins' respond' names now' marshal marshal_indent
          config' mc' result.etag later
        ≡ some (record { ready = ready'; etag = result.etag; sent = later })
  unfolding run_job
  run_job_again config config' mc mc' etag sent later ready ready' built built' result first second
        alike h moved =
      let ran : publish_built S T trust_domain sort sort_plugins respond names now marshal
            marshal_indent etag sent (some (ready, built))
          ≡ some result =
        subst
          (λ o.
            publish_built S T trust_domain sort sort_plugins respond names now marshal
              marshal_indent etag sent o
            ≡ some result)
          first h in
      rw (run_job, second)
        (built_again etag sent later ready ready' built built' result alike ran moved)
