-- ===== src/Configurator.antt =====
-- client.go and methods.go of pkg/ecnet/configurator, over the types of
-- pkg/ecnet/apis/config/v1alpha1/ecnet_config.go that they read.
use erie_canal_net.Base.{
  ℕ, Bool, true, List, [], ◌∷◌, Option, none, some, Text, codes, ◌==◌, nat_eq, list_eq,
  if◌then◌else◌, Assoc, is_empty,
}
use erie_canal_net.Ticker.{ℤ, pos}

-- A priority is a float32: `F` is its type.
pub record PluginChainSpec (F : Type 0) : Type 0 where
  pub plugin : Text
  pub priority : F
  pub disable : Bool

pub record PluginChainsSpec (F : Type 0) : Type 0 where
  pub inbound_tcp_chains : List (PluginChainSpec F)
  pub inbound_http_chains : List (PluginChainSpec F)
  pub outbound_tcp_chains : List (PluginChainSpec F)
  pub outbound_http_chains : List (PluginChainSpec F)

-- `EcnetConfigSpec`: its sidecar, repository server and plugin chains
pub record EcnetConfigSpec (F : Type 0) : Type 0 where
  pub log_level : Text
  pub proxy_server_port : ℕ
  pub config_resync_interval : Text
  pub repo_ip_addr : Text
  pub repo_codebase : Text
  pub plugin_chains : PluginChainsSpec F

-- service/policy/types.go: `Plugin`
pub record Plugin (F : Type 0) : Type 0 where
  pub name : Text
  pub priority : F
  pub build_in : Bool

-- constants.go: `DefaultSidecarLogLevel`
abbrev pub default_sidecar_log_level : Text
default_sidecar_log_level = codes "error"

-- `strings.TrimPrefix(s, "/")` and `strings.TrimSuffix(s, "/")`
unfoldable pub trim_prefix_slash : Text → Text
trim_prefix_slash [] = []
trim_prefix_slash (c ∷ s) = if c == b'/' then s else c ∷ s

unfoldable pub trim_suffix_slash : Text → Text
trim_suffix_slash [] = []
trim_suffix_slash (c ∷ s) =
    let rest = c ∷ trim_suffix_slash s in if is_empty s then trim_prefix_slash (c ∷ s) else rest

module _ {F : Type 0} where
  -- `getEcnetConfig`: the configuration in the cache, or one of zero values on an error or a miss
  unfoldable pub get_ecnet_config : Option (Option (EcnetConfigSpec F)) → EcnetConfigSpec F
  get_ecnet_config cached =
      let zero_config : EcnetConfigSpec F = record {
        log_level = [];
        proxy_server_port = 0;
        config_resync_interval = [];
        repo_ip_addr = [];
        repo_codebase = [];
        plugin_chains = record {
          inbound_tcp_chains = [];
          inbound_http_chains = [];
          outbound_tcp_chains = [];
          outbound_http_chains = [];
        };
      } in
      elim cached [
        | none ↦ zero_config
        | some item ↦ elim item [ none ↦ zero_config | some config ↦ config ]
      ]

  -- `GetSidecarLogLevel`
  unfoldable pub get_sidecar_log_level : EcnetConfigSpec F → Text
  get_sidecar_log_level c = if is_empty c.log_level then default_sidecar_log_level else c.log_level

  -- `GetRepoServerIPAddr`, with the value of the environment variable
  unfoldable pub get_repo_server_ip_addr : Text → EcnetConfigSpec F → Text
  get_repo_server_ip_addr env c =
      let ip_addr = if is_empty env then c.repo_ip_addr else env in
      if is_empty ip_addr then codes "127.0.0.1" else ip_addr

  -- `GetRepoServerCodebase`, with the value of the environment variable
  unfoldable pub get_repo_server_codebase : Text → EcnetConfigSpec F → Text
  unfolding trim_prefix_slash trim_suffix_slash
  get_repo_server_codebase env c =
      trim_prefix_slash (trim_suffix_slash (if is_empty env then c.repo_codebase else env))

  -- `GetConfigResyncInterval`; `parse_duration` is `time.ParseDuration`.
  unfoldable pub get_config_resync_interval : (Text → Option ℤ) → EcnetConfigSpec F → ℤ
  get_config_resync_interval parse_duration c = elim (parse_duration c.config_resync_interval) [
    | none ↦ pos 0
    | some duration ↦ duration
  ]

  abbrev pub plugin_of : PluginChainSpec F → Plugin F
  plugin_of spec = record { name = spec.plugin; priority = spec.priority; build_in = true }

  -- The loop over the specifications of one mount point
  unfoldable pub enabled_plugins : List (PluginChainSpec F) → List (Plugin F)
  enabled_plugins [] = []
  enabled_plugins (spec ∷ specs) =
      let rest = enabled_plugins specs in if spec.disable then rest else plugin_of spec ∷ rest

  -- `GetGlobalPluginChains`
  unfoldable pub get_global_plugin_chains : EcnetConfigSpec F → Assoc Text (List (Plugin F))
  unfolding enabled_plugins
  get_global_plugin_chains c =
      (codes "inbound-tcp", enabled_plugins c.plugin_chains.inbound_tcp_chains)
      ∷ (codes "inbound-http", enabled_plugins c.plugin_chains.inbound_http_chains)
      ∷ (codes "outbound-tcp", enabled_plugins c.plugin_chains.outbound_tcp_chains)
      ∷ (codes "outbound-http", enabled_plugins c.plugin_chains.outbound_http_chains)
      ∷ []
