-- ===== src/Ctrlplane/Publish/Versions.antt =====
-- The versions that a first publication of jobs.go of pkg/ecnet/bridge/ctrlplane/server goes through.
use Prim.Native.Nat.{bit_xor}
use erie_canal_net.Base.{
  ℕ, ◌+◌, ◌*◌, ◌%◌, ◌^◌, ◌<◌, ◌≡◌, refl, inl, inr, false, List, [], ◌∷◌, ◌++◌, Option, some, Text,
  arith, codes, ◌==◌, nat_eq, decimal, parse_uint-decimal,
}
use erie_canal_net.Repo.{
  Request, Reply, Codebase, codebase_of, done_ok, repo_uri, status_ok, status_made, is_success,
  get_request, post_codebase, upsert_request, commit_request, derive_codebase, batch, BatchItem,
  patch, json_codebase, full_path,
}
use erie_canal_net.Repo.Submit.{Answered, is_missing, asked, reread_uri}
use erie_canal_net.Repo.Derive.{derive_missing_ok}
use erie_canal_net.Repo.Whole.{batch_ok_iff}
use erie_canal_net.Ctrlplane.Publish.Etag.{publish_changed_ok}
use erie_canal_net.Ctrlplane.Balance.{PipyConf}
use erie_canal_net.Ctrlplane.Publish.{
  hash, hash_from, CodebaseNames, proxy_codebase, sub64, unversioned, config_batch, config_text,
  publish_changed, publish_sidecar_conf,
}

hash_from-lt : (h : ℕ) (bytes : Text) → h < 2 ^ 64 → hash_from h bytes < 2 ^ 64
unfolding hash_from
hash_from-lt h [] lt = lt
hash_from-lt h (c ∷ bytes) lt =
    hash_from-lt (bit_xor (h * 1099511628211 % 2 ^ 64) c % 2 ^ 64) bytes (omega arith)

hash-lt : (bytes : Text) → hash bytes < 2 ^ 64
unfolding hash
hash-lt bytes = hash_from-lt (14695981039346656037 % 2 ^ 64) bytes (omega arith)

-- Two commits after a derivation two versions back lead to the version, also where it wraps around.
two_commits : (cur : ℕ) → cur < 2 ^ 64 → ((sub64 cur 2 + 1) % 2 ^ 64 + 1) % 2 ^ 64 ≡ cur
two_commits cur lt = omega arith

module _ (respond : List Request → Reply) (names : CodebaseNames) (now : ℕ)
    (marshal : PipyConf → Option Text) (marshal_indent : PipyConf → Text) (conf : PipyConf)
    (cur : ℕ) (sent : List Request) where
  abbrev pub name : Text
  name = proxy_codebase names

  abbrev pub content : Text
  content = config_text respond names now marshal marshal_indent cur conf

  abbrev pub item : BatchItem
  item = record { obsolete = false; path = []; filename = codes "config.json"; content = content }

  -- The requests of a first publication, in order: the codebase is asked for, derived two versions
  -- back, read back and committed; then read again, given the configuration, and committed.
  abbrev pub derive_sent : List Request
  derive_sent =
      post_codebase name (codebase_of (decimal (sub64 cur 2)) names.ecnet_codebase_repo)
      ∷ asked name sent

  abbrev pub read_back : List Request
  read_back = get_request (reread_uri name) ∷ derive_sent

  abbrev pub derive_commit : List Request
  derive_commit = commit_request name (sub64 cur 2) ∷ read_back

  abbrev pub read_again : List Request
  read_again = asked name derive_commit

  abbrev pub config_sent : List Request
  config_sent = upsert_request (full_path name item) content ∷ read_again

  abbrev pub config_commit : List Request
  config_commit = commit_request name ((sub64 cur 2 + 1) % 2 ^ 64) ∷ config_sent

  -- The service has no such codebase yet, accepts every request, and answers with the version that the
  -- codebase was last given.
  pub record Accepts : Type 0 where
    pub is_new : (x : Codebase) × Answered respond is_missing (asked name sent) x
    pub derives : (x : Codebase) × Answered respond status_made derive_sent x
    pub keeps_derived :
        (x : Codebase) × Answered respond status_ok read_back x
        × (x.version ≡ decimal (sub64 cur 2))
    pub commits_derived : (x : Codebase) × Answered respond is_success derive_commit x
    pub keeps_committed :
        (x : Codebase) × Answered respond status_ok read_again x
        × (x.version ≡ decimal ((sub64 cur 2 + 1) % 2 ^ 64))
    pub stores : (x : Codebase) × Answered respond is_success config_sent x
    pub commits : (x : Codebase) × Answered respond is_success config_commit x

  derived_first :
      Accepts
      → derive_codebase respond name names.ecnet_codebase_repo (sub64 cur 2) sent
        ≡ some (done_ok, derive_commit)
  derived_first a =
      let back = a.keeps_derived in
      derive_missing_ok respond name names.ecnet_codebase_repo (sub64 cur 2) (sub64 cur 2) sent
        a.is_new.0 a.derives.0 a.commits_derived.0 back.0 a.is_new.1 a.derives.1 back.1
        (rw back.2 (parse_uint-decimal (sub64 cur 2) 64 (omega arith))) a.commits_derived.1

  uploaded_first :
      Accepts
      → batch respond (decimal (sub64 cur 1)) (config_batch name content ∷ []) derive_commit
        ≡ (done_ok, config_commit)
  uploaded_first a =
      let back = a.keeps_committed in
      (batch_ok_iff respond (decimal (sub64 cur 1)) (config_batch name content) [] derive_commit
          config_commit).1
        (inl (
          config_commit,
          (
            back.0,
            read_again,
            config_sent,
            inl (back.1, refl),
            inr (refl, a.stores, refl),
            (
              (sub64 cur 2 + 1) % 2 ^ 64,
              a.commits.0,
              rw back.2 (parse_uint-decimal ((sub64 cur 2 + 1) % 2 ^ 64) 64 (omega arith)),
              a.commits.1,
              refl,
            ),
          ),
          refl,
        ))

  changed_first :
      (prev : ℕ)
      → Accepts
      → publish_changed respond names now marshal marshal_indent prev cur conf sent
        ≡ some (cur, config_commit)
  changed_first prev a =
      publish_changed_ok respond names now marshal marshal_indent prev cur conf sent derive_commit
        config_commit (derived_first a) (uploaded_first a)

-- Whatever the hash of the configuration is, below 2 as well, where the version it is derived at wraps
-- around: if it is not the ETag of the proxy, and the service has no such codebase yet, accepts every
-- request and answers with the version that the codebase was last given, then publishing does not
-- panic, the ETag becomes that hash, the configuration is stored, and the last request commits the
-- codebase under just that hash.
pub first_publication :
    (respond : List Request → Reply) (names : CodebaseNames) (now : ℕ)
    (marshal : PipyConf → Option Text) (marshal_indent : PipyConf → Text) (conf : PipyConf)
    (prev : ℕ) (bytes plugin_set_v : Text) (sent : List Request)
    → marshal (unversioned conf) ≡ some bytes
    → (hash (bytes ++ plugin_set_v) == prev) ≡ false
    → Accepts respond names now marshal marshal_indent conf (hash (bytes ++ plugin_set_v)) sent
    → publish_sidecar_conf respond names now marshal marshal_indent prev conf plugin_set_v sent
      ≡ some (
        hash (bytes ++ plugin_set_v),
        record {
          method = patch;
          uri = repo_uri (proxy_codebase names);
          body = json_codebase (codebase_of (decimal (hash (bytes ++ plugin_set_v))) []);
        }
            ∷ config_sent respond names now marshal marshal_indent conf
                (hash (bytes ++ plugin_set_v))
                sent,
      )
unfolding publish_sidecar_conf
first_publication respond names now marshal marshal_indent conf prev bytes plugin_set_v sent json
      new a =
    ground (
      arith,
      json,
      new,
      changed_first respond names now marshal marshal_indent conf (hash (bytes ++ plugin_set_v))
          sent prev a,
      two_commits (hash (bytes ++ plugin_set_v)) (hash-lt (bytes ++ plugin_set_v)),
    )
