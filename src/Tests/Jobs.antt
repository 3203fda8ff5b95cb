-- ===== src/Tests/Jobs.antt =====
-- The whole job of a proxy.
use erie_canal_net.Catalog.Outbound.{get_outbound_mesh_traffic_policy}
use erie_canal_net.Ctrlplane.Routes.{generate_route_policy}
use erie_canal_net.Ctrlplane.Balance.{PipyConf, run_outbound}
use erie_canal_net.Base.{
  decimal, parse_uint, Bool, List, Option, none, some, ◌==◌, false, ◌≡◌, refl, true, false, [],
  some, subst, ap, nat_eq, list_eq, list_set, ℕ, insertion_sort,
}
use erie_canal_net.Ctrlplane.Order.{less_rule, less_plugin}
use erie_canal_net.Catalog.Services.{list_outbound_services, MeshCatalog}
use erie_canal_net.Ctrlplane.Job.{
  new_pipy_conf, configured, run_job_again, JobResult, run_job, run_job_total,
}
use erie_canal_net.Repo.{batch, derive_codebase, status_ok, Reply, Request, failed, replied}
use erie_canal_net.Repo.Derive.{ReadsBack}
use erie_canal_net.Ctrlplane.Publish.{hash, publish_sidecar_conf, proxy_codebase}
use erie_canal_net.Service.{weighted_cluster_eq}
use erie_canal_net.Tests.Samples.{shop_catalog}
use erie_canal_net.Tests.Proxy.{domain, services-IsServed}
use erie_canal_net.Tests.Publishing.{names, json, pretty, repository}
use erie_canal_net.Tests.Ordering.{config, greater}

status_of : Reply → ℕ
status_of failed = 0
status_of (replied status codebase) = status

repository-ReadsBack : ReadsBack repository (proxy_codebase names)
unfolding status_of
repository-ReadsBack sent codebase made read status answered reply =
    subst (λ s. status_ok s ≡ true) (ap status_of reply) refl

run_job_example :
    (result : JobResult) × (run_job list_set
        (λ _. list_set)
        domain
        (insertion_sort less_rule)
        (insertion_sort (less_plugin greater))
        repository
        names
        0
        json
        pretty
        config
        shop_catalog
        0
        []
      ≡ some result)
run_job_example =
    run_job_total list_set (λ _. list_set) domain (insertion_sort less_rule)
      (insertion_sort (less_plugin greater)) repository names 0 json pretty config shop_catalog 0 []
      services-IsServed repository-ReadsBack

-- A catalog without services
abbrev bare_catalog : MeshCatalog
bare_catalog = record shop_catalog { service_providers = [] }

abbrev result_of : Option JobResult → JobResult
result_of none = record { ready = false; etag = 0; sent = [] }
result_of (some r) = r

abbrev job_result : JobResult
job_result = result_of (
    run_job list_set (λ _. list_set) domain (insertion_sort less_rule)
      (insertion_sort (less_plugin greater)) repository names 0 json pretty config bare_catalog 0
      [])

job_ran :
    run_job list_set
      (λ _. list_set)
      domain
      (insertion_sort less_rule)
      (insertion_sort (less_plugin greater))
      repository
      names
      0
      json
      pretty
      config
      bare_catalog
      0
      []
    ≡ some job_result
unfolding run_job run_outbound generate_route_policy get_outbound_mesh_traffic_policy
    list_outbound_services publish_sidecar_conf hash derive_codebase
job_ran = refl

job_moved : (job_result.etag == 0) ≡ false
unfolding run_job run_outbound generate_route_policy get_outbound_mesh_traffic_policy
    list_outbound_services publish_sidecar_conf hash derive_codebase parse_uint decimal batch
job_moved = refl

abbrev built_of : Option (Bool × PipyConf) → PipyConf
built_of none = new_pipy_conf
built_of (some r) = r.1

abbrev ready_of : Option (Bool × PipyConf) → Bool
ready_of none = false
ready_of (some r) = r.0

abbrev job_built : Option (Bool × PipyConf)
job_built =
    run_outbound list_set (λ _. list_set) domain bare_catalog
      (configured (insertion_sort (less_plugin greater)) config)

job_built-some : job_built ≡ some (ready_of job_built, built_of job_built)
unfolding run_outbound generate_route_policy get_outbound_mesh_traffic_policy list_outbound_services
job_built-some = refl

abbrev unreached : List Request → Reply
unreached _ = failed

-- A second later, when the repository is down
run_job_again_example :
    run_job list_set
      (λ _. list_set)
      domain
      (insertion_sort less_rule)
      (insertion_sort (less_plugin greater))
      unreached
      names
      1
      json
      pretty
      config
      bare_catalog
      job_result.etag
      job_result.sent
    ≡ some (record { ready = ready_of job_built; etag = job_result.etag; sent = job_result.sent })
run_job_again_example =
    run_job_again domain names json pretty list_set list_set (λ _. list_set) (λ _. list_set)
      (insertion_sort less_rule) (insertion_sort less_rule) (insertion_sort (less_plugin greater))
      (insertion_sort (less_plugin greater)) repository unreached 0 1 config config bare_catalog
      bare_catalog 0 [] job_result.sent (ready_of job_built) (ready_of job_built)
      (built_of job_built) (built_of job_built) job_result job_built-some job_built-some refl
      job_ran job_moved
