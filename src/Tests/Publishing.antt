-- ===== src/Tests/Publishing.antt =====
-- The Pipy repository and the publication of a configuration.
use erie_canal_net.Base.{
  parse_uint, ◌≡◌, ◌↔◌, ◌⊎◌, refl, false, List, [], ◌∷◌, ◌++◌, Option, none, some, Text, codes,
  ◌==◌, nat_eq, decimal,
}
use erie_canal_net.Repo.{
  codebase_of, BatchItem, Batch, get, post, patch, delete, no_body, json_codebase, content_body,
  Request, Reply, failed, replied, done_ok, repo_uri, batch, get_request, post_codebase,
  upsert_request, commit_request,
}
use erie_canal_net.Repo.Whole.{AllSubmitted, CutShort, batch_ok_iff}
use erie_canal_net.Ctrlplane.Balance.{PipyConf}
use erie_canal_net.Ctrlplane.Publish.{
  CodebaseNames, proxy_codebase, hash, unversioned, publish_sidecar_conf,
}
use erie_canal_net.Ctrlplane.Publish.Etag.{Kept, Moved, publish_outcomes}
use erie_canal_net.Ctrlplane.Publish.Versions.{Accepts, config_sent, first_publication}
use erie_canal_net.Tests.Proxy.{fresh_conf}

-- A repository that accepts everything and keeps the version that it was last given
abbrev last_version : List Request → Option Text
last_version [] = none
last_version (r ∷ sent) = elim r.body [
  | json_codebase codebase ↦ some codebase.version
  | no_body ↦ last_version sent
  | content_body _ _ ↦ last_version sent
]

abbrev pub repository : List Request → Reply
repository [] = failed
repository (r ∷ sent) = elim r.method [
  | get ↦ elim (last_version sent) [
    | none ↦ replied 404 (codebase_of [] [])
    | some version ↦ replied 200 (codebase_of version [])
  ]
  | post ↦ replied 201 (codebase_of [] [])
  | patch ↦ replied 200 (codebase_of [] [])
  | delete ↦ replied 200 (codebase_of [] [])
]

abbrev script : BatchItem
script = record {
  obsolete = false;
  path = [];
  filename = codes "main.js";
  content = codes "pipy()";
}

abbrev scripts : Batch
scripts = record { basepath = codes "ecnet/base"; items = script ∷ [] }

-- The requests of the base codebase, newest first
abbrev scripts_sent : List Request
scripts_sent =
    commit_request (codes "ecnet/base") 0
    ∷ upsert_request (codes "ecnet/base/main.js") (codes "pipy()")
    ∷ get_request (repo_uri (codes "ecnet/base"))
    ∷ post_codebase (codes "ecnet/base") (codebase_of (codes "0") [])
    ∷ get_request (repo_uri (codes "ecnet/base"))
    ∷ []

batch_ok_example : (batch repository (codes "0") (scripts ∷ []) [] ≡ (done_ok, scripts_sent)) ↔ (
    AllSubmitted repository (codes "0") (scripts ∷ []) [] scripts_sent
    ⊎ CutShort repository (codes "0") (scripts ∷ []) [] scripts_sent)
batch_ok_example = batch_ok_iff repository (codes "0") scripts [] [] scripts_sent

scripts_submitted : batch repository (codes "0") (scripts ∷ []) [] ≡ (done_ok, scripts_sent)
unfolding batch parse_uint
scripts_submitted = refl

abbrev pub names : CodebaseNames
names = record {
  ecnet_codebase = codes "ecnet/base";
  ecnet_proxy_codebase = codes "ecnet";
  ecnet_codebase_repo = codes "/ecnet/base";
}

abbrev pub json : PipyConf → Option Text
json _ = some (codes "{}")

abbrev pub pretty : PipyConf → Text
pretty _ = codes "{ }"

repository_Accepts : Accepts repository names 0 json pretty fresh_conf (hash (codes "{}")) []
repository_Accepts = record {
  is_new = (_, (_, refl, refl));
  derives = (_, (_, refl, refl));
  keeps_derived = (_, (_, refl, refl), refl);
  commits_derived = (_, (_, refl, refl));
  keeps_committed = (_, (_, refl, refl), refl);
  stores = (_, (_, refl, refl));
  commits = (_, (_, refl, refl));
}

new_hash : (hash (codes "{}") == 0) ≡ false
unfolding hash
new_hash = refl

abbrev after_first : List Request
after_first =
    record {
      method = patch;
      uri = repo_uri (proxy_codebase names);
      body = json_codebase (codebase_of (decimal (hash (codes "{}"))) []);
    }
    ∷ config_sent repository names 0 json pretty fresh_conf (hash (codes "{}")) []

first_publication_example :
    publish_sidecar_conf repository names 0 json pretty 0 fresh_conf [] []
    ≡ some (hash (codes "{}"), after_first)
first_publication_example =
    first_publication repository names 0 json pretty fresh_conf 0 (codes "{}") [] [] refl new_hash
      repository_Accepts

first_published :
    publish_sidecar_conf repository names 0 json pretty 0 fresh_conf [] []
    ≡ some (hash (codes "{}"), after_first)
first_published =
    first_publication repository names 0 json pretty fresh_conf 0 (codes "{}") [] [] refl new_hash
      repository_Accepts

publish_outcomes_example :
    Kept repository names 0 json pretty 0 (hash (codes "{}")) [] after_first
    ⊎ ((bytes : Text) × (json (unversioned fresh_conf) ≡ some bytes)
        × ((hash (bytes ++ []) == 0) ≡ false)
        × Moved repository names 0 json pretty
            (hash (bytes ++ []))
            (hash (codes "{}"))
            fresh_conf
            after_first)
publish_outcomes_example =
    publish_outcomes repository names 0 json pretty 0 (hash (codes "{}")) fresh_conf [] []
      after_first first_published
