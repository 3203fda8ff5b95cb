-- ===== src/Ctrlplane/Publish.antt =====
-- jobs.go and server.go of pkg/ecnet/bridge/ctrlplane/server, and pkg/ecnet/pipy/util/hash.go: how the
-- configuration of the proxy is published to the Pipy repository.
pub mod Etag
pub mod Versions
use Prim.Native.Nat.{bit_xor}
use erie_canal_net.Base.{
  ℕ, ◌+◌, ◌-◌, ◌*◌, ◌%◌, ◌^◌, Bool, true, false, not, List, [], ◌∷◌, ◌++◌, Option, none, some, Text,
  codes, ◌==◌, nat_eq, not_empty, if◌then◌else◌, decimal,
}
use erie_canal_net.Repo.{
  Request, Reply, Done, BatchItem, Batch, ClientError, derive_codebase, batch, delete_codebase,
}
use erie_canal_net.Ctrlplane.Balance.{PipyConf}

-- hash.go: `Hash`, the 64-bit FNV-1 hash of the bytes
hash_from : ℕ → Text → ℕ
hash_from h [] = h
hash_from h (c ∷ bytes) = hash_from (bit_xor (h * 1099511628211 % 2 ^ 64) c % 2 ^ 64) bytes

unfoldable pub hash : Text → ℕ
unfolding hash_from
hash bytes = hash_from (14695981039346656037 % 2 ^ 64) bytes

-- server.go: the names of the codebases, which `NewRepoServer` puts under that of the configuration
pub record CodebaseNames : Type 0 where
  pub ecnet_codebase : Text
  pub ecnet_proxy_codebase : Text
  pub ecnet_codebase_repo : Text

unfoldable pub codebase_names : Text → CodebaseNames
codebase_names repo_server_codebase =
    let under : Text → Text = λ name.
      if not_empty repo_server_codebase then repo_server_codebase ++ b'/' ∷ name else name in
    record {
      ecnet_codebase = under (codes "ecnet/base");
      ecnet_proxy_codebase = under (codes "ecnet");
      ecnet_codebase_repo = b'/' ∷ under (codes "ecnet/base");
    }

abbrev pub proxy_codebase : CodebaseNames → Text
proxy_codebase names = names.ecnet_proxy_codebase ++ codes "/proxy.bridge.ecnet"

-- `a - b` of `uint64`
abbrev pub sub64 : ℕ → ℕ → ℕ
sub64 a b = (a + 2 ^ 64 - b) % 2 ^ 64

-- The configuration whose hash is its version
abbrev pub unversioned : PipyConf → PipyConf
unversioned conf = record conf { ts = none; version = none }

abbrev pub versioned : ℕ → ℕ → PipyConf → PipyConf
versioned now cur conf = record conf { ts = some now; version = some (decimal cur) }

abbrev pub config_batch : Text → Text → Batch
config_batch basepath content = record {
  basepath = basepath;
  items =
      record { obsolete = false; path = []; filename = codes "config.json"; content = content }
      ∷ [];
}

-- `marshal` and `marshal_indent` are those of encoding/json: the bytes, or an error.
module _ (respond : List Request → Reply) (names : CodebaseNames) (now : ℕ)
    (marshal : PipyConf → Option Text) (marshal_indent : PipyConf → Text) where
  abbrev pub config_text : ℕ → PipyConf → Text
  config_text cur conf = marshal_indent (versioned now cur (unversioned conf))

  -- The upload, if the derivation was a success; the error that is left.
  upload : ℕ → PipyConf → Done × List Request → Option ClientError × List Request
  upload cur conf (derived, sent) =
      let (done, sent') =
        batch respond (decimal (sub64 cur 1))
          (config_batch (proxy_codebase names) (config_text cur conf) ∷ []) sent in
      if derived.success then (done.err, sent') else (derived.err, sent)

  -- The new ETag; after an error the codebase is deleted.
  settle : ℕ → ℕ → Option ClientError × List Request → ℕ × List Request
  settle prev cur (none, sent) = (cur, sent)
  settle prev cur (some e, sent) = (prev, (delete_codebase respond (proxy_codebase names) sent).1)

  pub publish_changed : ℕ → ℕ → PipyConf → List Request → Option (ℕ × List Request)
  unfolding upload settle
  publish_changed prev cur conf sent =
      elim (derive_codebase respond (proxy_codebase names) names.ecnet_codebase_repo (sub64 cur 2)
        sent) [ none ↦ none | some derived ↦ some (settle prev cur (upload cur conf derived)) ]

  -- `publishSidecarConf`, from the ETag of the proxy to its next; `none` is a panic.
  unfoldable pub publish_sidecar_conf :
      ℕ → PipyConf → Text → List Request → Option (ℕ × List Request)
  unfolding publish_changed
  publish_sidecar_conf prev conf plugin_set_v sent = elim (marshal (unversioned conf)) [
    | none ↦ some (prev, sent)
    | some bytes ↦
        let cur = hash (bytes ++ plugin_set_v) in
        let changed = publish_changed prev cur conf sent in
        if cur == prev then some (prev, sent) else changed
  ]
