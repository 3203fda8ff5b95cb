-- ===== src/Tests/Ordering.antt =====
-- The order of rules and plugins.
use erie_canal_net.Base.{
  false, ◌≡◌, refl, inl, true, false, List, [], ◌∷◌, Text, codes, ltb, text_ltb, nat_eq, list_eq,
  Permᴰ, StrictWeak, ℕ, Bool, arith, lookup, insertion_sort, insertion_sort-IsSort,
}
use erie_canal_net.Configurator.{PluginChainSpec, EcnetConfigSpec}
use erie_canal_net.Ctrlplane.Config.{OutboundHttpRouteRule}
use erie_canal_net.Ctrlplane.Order.{less_rule, sort_rules, less_plugin, set_sidecar_chain}
use erie_canal_net.Ctrlplane.Order.Less.{
  less_rule-StrictWeak, Below, Plain, Ascending, sort_rules-Ascending,
}
use erie_canal_net.Ctrlplane.Order.Chains.{Chain, sidecar_chains}
use erie_canal_net.Service.{weighted_cluster_eq}
use erie_canal_net.Policy.{regex_match_all}
use erie_canal_net.Tests.Proxy.{fresh_conf}

abbrev rule_at : Text → OutboundHttpRouteRule
rule_at path = record {
  http_match_rule = record {
    path = path;
    match_type = codes "Prefix";
    headers = [];
    methods = [];
    allowed_any_method = true;
  };
  target_clusters = [];
}

less_rule_example :
    StrictWeak less_rule Plain × StrictWeak less_rule Below × (¬ StrictWeak less_rule (λ _. Unit))
unfolding text_ltb
less_rule_example =
    less_rule-StrictWeak (λ _. Unit) (rule_at regex_match_all) (rule_at (codes "/a"))
      (rule_at (codes "/b")) tt tt tt refl refl refl refl

abbrev rules : List OutboundHttpRouteRule
rules = rule_at (codes "/b") ∷ rule_at (codes "/a") ∷ rule_at (codes "/c") ∷ []

sort_rules_example :
    Permᴰ (sort_rules (insertion_sort less_rule) rules) rules
    × Ascending (sort_rules (insertion_sort less_rule) rules)
sort_rules_example =
    sort_rules-Ascending (insertion_sort less_rule) rules (insertion_sort-IsSort less_rule)
      (inl (refl, (refl, (refl, tt))))

sort_rules_run :
    sort_rules (insertion_sort less_rule) rules
    ≡ rule_at (codes "/a") ∷ rule_at (codes "/b") ∷ rule_at (codes "/c") ∷ []
unfolding sort_rules less_rule insertion_sort text_ltb
sort_rules_run = refl

-- Whole numbers stand for priorities.
abbrev pub greater : ℕ → ℕ → Bool
greater a b = ltb b a

greater_StrictWeak : StrictWeak greater (λ _. Unit)
greater_StrictWeak = record {
  irreflexive = λ a p. ground arith;
  transitive = λ a b c p q r h k. ground arith;
  alike = λ a b c p q r h k h' k'. ground arith;
}

abbrev chain_item : Text → ℕ → Bool → PluginChainSpec ℕ
chain_item plugin priority disable = record {
  plugin = plugin;
  priority = priority;
  disable = disable;
}

abbrev pub config : EcnetConfigSpec ℕ
config = record {
  log_level = codes "warn";
  proxy_server_port = 6060;
  config_resync_interval = codes "30s";
  repo_ip_addr = codes "127.0.0.1";
  repo_codebase = codes "/ecnet/";
  plugin_chains = record {
    inbound_tcp_chains = [];
    inbound_http_chains = chain_item (codes "log") 1 true ∷ [];
    outbound_tcp_chains = [];
    outbound_http_chains =
        chain_item (codes "log") 1 false
        ∷ chain_item (codes "auth") 9 false
        ∷ chain_item (codes "old") 5 true
        ∷ [];
  };
}

sidecar_chains_example :
    Chain greater config.plugin_chains.inbound_tcp_chains (
      lookup
        (codes "inbound-tcp")
        (set_sidecar_chain (insertion_sort (less_plugin greater)) config fresh_conf).chains)
    × Chain greater config.plugin_chains.inbound_http_chains (
        lookup
          (codes "inbound-http")
          (set_sidecar_chain (insertion_sort (less_plugin greater)) config fresh_conf).chains)
    × Chain greater config.plugin_chains.outbound_tcp_chains (
        lookup
          (codes "outbound-tcp")
          (set_sidecar_chain (insertion_sort (less_plugin greater)) config fresh_conf).chains)
    × Chain greater config.plugin_chains.outbound_http_chains (
        lookup
          (codes "outbound-http")
          (set_sidecar_chain (insertion_sort (less_plugin greater)) config fresh_conf).chains)
sidecar_chains_example =
    sidecar_chains greater (insertion_sort (less_plugin greater)) config fresh_conf
      (insertion_sort-IsSort (less_plugin greater)) greater_StrictWeak
