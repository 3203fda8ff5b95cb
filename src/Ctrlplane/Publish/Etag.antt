-- ===== src/Ctrlplane/Publish/Etag.antt =====
-- When `publishSidecarConf` of pkg/ecnet/bridge/ctrlplane/server/jobs.go moves the ETag of the proxy.
use erie_canal_net.Base.{
  ℕ, ◌≡◌, refl, subst, ◌⊎◌, inl, inr, false, List, [], ◌∷◌, ◌++◌, Option, none, some, Text, arith,
  ◌==◌, nat_eq, decimal, Bool-cases, Option-cases,
}
use erie_canal_net.Repo.{
  Batch, Request, Reply, Done, ClientError, done_ok, repo_uri, delete_request, derive_codebase,
  batch, delete_codebase,
}
use erie_canal_net.Repo.Derive.{ReadsBack, derive_err, derive_total}
use erie_canal_net.Repo.Submit.{Failed}
use erie_canal_net.Repo.Whole.{AllSubmitted, CutShort, submit_all_cases, batch-cons}
use erie_canal_net.Ctrlplane.Balance.{PipyConf}
use erie_canal_net.Ctrlplane.Publish.{
  hash, CodebaseNames, proxy_codebase, sub64, unversioned, config_batch, config_text, upload,
  settle, publish_changed, publish_sidecar_conf,
}

module _ (respond : List Request → Reply) (names : CodebaseNames) (now : ℕ)
    (marshal : PipyConf → Option Text) (marshal_indent : PipyConf → Text) where
  -- The configuration, as the one batch of its version
  abbrev pub batches : ℕ → PipyConf → List Batch
  batches cur conf =
      config_batch (proxy_codebase names)
        (config_text respond names now marshal marshal_indent cur conf)
      ∷ []

  -- The batch was submitted, or cut short.
  abbrev pub Uploaded : ℕ → PipyConf → List Request → List Request → Type 0
  Uploaded cur conf sent after =
      AllSubmitted respond (decimal (sub64 cur 1)) (batches cur conf) sent after
      ⊎ CutShort respond (decimal (sub64 cur 1)) (batches cur conf) sent after

  -- The ETag stays, and the codebase is deleted last if there was any request.
  abbrev pub Kept : ℕ → ℕ → List Request → List Request → Type 0
  Kept prev etag sent after =
      (etag ≡ prev)
      × ((after ≡ sent)
          ⊎ ((before : List Request) × (after
                ≡ delete_request (repo_uri (proxy_codebase names)) ∷ before)))

  abbrev pub Moved : ℕ → ℕ → PipyConf → List Request → Type 0
  Moved cur etag conf after =
      (etag ≡ cur) × ((between : List Request) × Uploaded cur conf between after)

  upload_outcomes :
      (cur : ℕ) (conf : PipyConf) (derived : Done) (sent : List Request)
      → (derived.success ≡ false → Failed derived)
      → ((after : List Request) × (upload respond names now marshal marshal_indent cur conf
              (derived, sent)
            ≡ (none, after))
          × Uploaded cur conf sent after)
        ⊎ ((e : ClientError) × (after : List Request) × (upload respond names now marshal
                marshal_indent cur conf
                (derived, sent)
              ≡ (some e, after)))
  unfolding upload
  upload_outcomes cur conf derived sent failure =
      let config =
        config_batch (proxy_codebase names)
          (config_text respond names now marshal marshal_indent cur conf) in
      let version = decimal (sub64 cur 1) in
      let whole = batch-cons respond version config [] sent in
      elim (Bool-cases derived.success) [
        | inr off ↦ let (e, same) = failure off in inr (e, sent, ground (arith, off, same))
        | inl on ↦ elim (submit_all_cases respond version (config ∷ []) sent) [
          | inl (after, s, h) ↦ inl (after, ground (arith, on, whole, s), h)
          | inr (done, after, s, (e, same)) ↦ inr (e, after, ground (arith, on, whole, s, same))
        ]
      ]

  settle_err :
      (prev cur : ℕ) (e : ClientError) (sent : List Request)
      → settle respond names now marshal marshal_indent prev cur (some e, sent)
        ≡ (prev, delete_request (repo_uri (proxy_codebase names)) ∷ sent)
  unfolding settle delete_codebase
  settle_err prev cur e sent = refl

  settle_ok :
      (prev cur : ℕ) (sent : List Request)
      → settle respond names now marshal marshal_indent prev cur (none, sent) ≡ (cur, sent)
  unfolding settle
  settle_ok prev cur sent = refl

  changed_outcomes :
      (prev cur etag : ℕ) (conf : PipyConf) (sent after : List Request)
      → publish_changed respond names now marshal marshal_indent prev cur conf sent
        ≡ some (etag, after)
      → Kept prev etag sent after ⊎ Moved cur etag conf after
  unfolding publish_changed
  changed_outcomes prev cur etag conf sent after h =
      let name = proxy_codebase names in
      elim (Option-cases
        (derive_codebase respond name names.ecnet_codebase_repo (sub64 cur 2) sent)) [
          | inl panics ↦ absurd (ground (arith, h, panics))
          | inr ((derived, s), d) ↦
              elim (upload_outcomes cur conf derived s (
                derive_err respond name names.ecnet_codebase_repo (sub64 cur 2) sent s derived d)) [
                  | inl (last, u, up) ↦
                      let ends = settle_ok prev cur last in
                      inr (
                        ground (arith, h, d, u, ends),
                        (s, subst (Uploaded cur conf s) (ground (arith, h, d, u, ends)) up),
                      )
                  | inr (e, last, u) ↦
                      let ends = settle_err prev cur e last in
                      inl (ground (arith, h, d, u, ends), inr (last, ground (arith, h, d, u, ends)))
                ]
        ]

  -- Publishing a configuration, unless it panics, ends in one of two ways. Either the proxy keeps its
  -- ETag, and there was no request or the last one deletes the codebase of the proxy. Or the ETag
  -- becomes the hash of the configuration without its version and time, which is not the one before,
  -- and the last requests submitted a batch with the configuration under that version whole, or made
  -- the codebase and did not get to upload it.
  pub publish_outcomes :
      (prev etag : ℕ) (conf : PipyConf) (plugin_set_v : Text) (sent after : List Request)
      → publish_sidecar_conf respond names now marshal marshal_indent prev conf plugin_set_v sent
        ≡ some (etag, after)
      → Kept prev etag sent after
        ⊎ ((bytes : Text) × (marshal (unversioned conf) ≡ some bytes)
            × ((hash (bytes ++ plugin_set_v) == prev) ≡ false)
            × Moved (hash (bytes ++ plugin_set_v)) etag conf after)
  unfolding publish_sidecar_conf
  publish_outcomes prev etag conf plugin_set_v sent after h =
      elim (Option-cases (marshal (unversioned conf))) [
        | inl no_json ↦ inl (ground (arith, h, no_json), inl (ground (arith, h, no_json)))
        | inr (bytes, json) ↦ elim (Bool-cases (hash (bytes ++ plugin_set_v) == prev)) [
          | inl same ↦ inl (ground (arith, h, json, same), inl (ground (arith, h, json, same)))
          | inr new ↦
              elim (changed_outcomes prev (hash (bytes ++ plugin_set_v)) etag conf sent after
                (ground (arith, h, json, new))) [
                  | inl kept ↦ inl kept
                  | inr moved ↦ inr (bytes, json, new, moved)
                ]
        ]
      ]

  -- After a publication that moved the ETag, a configuration of the same JSON is not published,
  -- at whatever time and with whatever answers.
  pub publish_again :
      (respond' : List Request → Reply) (now' prev etag : ℕ) (conf conf' : PipyConf)
      (plugin_set_v : Text) (sent after later : List Request)
      → publish_sidecar_conf respond names now marshal marshal_indent prev conf plugin_set_v sent
        ≡ some (etag, after)
      → (etag == prev) ≡ false
      → marshal (unversioned conf') ≡ marshal (unversioned conf)
      → publish_sidecar_conf respond' names now' marshal marshal_indent etag conf' plugin_set_v
          later
        ≡ some (etag, later)
  unfolding publish_sidecar_conf
  publish_again respond' now' prev etag conf conf' plugin_set_v sent after later h other alike =
      elim (publish_outcomes prev etag conf plugin_set_v sent after h) [
        | inl (same, _) ↦ absurd (ground (arith, same, other))
        | inr (bytes, json, new, (same, _)) ↦ ground (arith, json, same, alike)
      ]

  -- A derivation and an upload without error move the ETag.
  pub publish_changed_ok :
      (prev cur : ℕ) (conf : PipyConf) (sent derived after : List Request)
      → derive_codebase respond (proxy_codebase names) names.ecnet_codebase_repo (sub64 cur 2) sent
        ≡ some (done_ok, derived)
      → batch respond (decimal (sub64 cur 1)) (batches cur conf) derived ≡ (done_ok, after)
      → publish_changed respond names now marshal marshal_indent prev cur conf sent
        ≡ some (cur, after)
  unfolding publish_changed upload settle
  publish_changed_ok prev cur conf sent derived after d u = ground (arith, d, u)

  -- Publishing does not panic, if a codebase can be read back once it was made.
  pub publish_total :
      (prev : ℕ) (conf : PipyConf) (plugin_set_v : Text) (sent : List Request)
      → ReadsBack respond (proxy_codebase names)
      → (etag : ℕ) × (after : List Request) × (publish_sidecar_conf respond names now marshal
            marshal_indent prev conf plugin_set_v sent
          ≡ some (etag, after))
  unfolding publish_sidecar_conf publish_changed
  publish_total prev conf plugin_set_v sent back =
      elim (Option-cases (marshal (unversioned conf))) [
        | inl no_json ↦ (prev, sent, ground (arith, no_json))
        | inr (bytes, json) ↦
            let cur = hash (bytes ++ plugin_set_v) in
            let (done, s, d) =
              derive_total respond (proxy_codebase names) names.ecnet_codebase_repo (sub64 cur 2)
                sent back in
            let out =
              settle respond names now marshal marshal_indent prev cur
                (upload respond names now marshal marshal_indent cur conf (done, s)) in
            elim (Bool-cases (cur == prev)) [
              | inl same ↦ (prev, sent, ground (arith, json, same))
              | inr new ↦ (out.0, out.1, ground (arith, json, new, d))
            ]
      ]
