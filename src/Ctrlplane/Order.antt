-- ===== src/Ctrlplane/Order.antt =====
-- jobs.go, policy.go and plugin.go of pkg/ecnet/bridge/ctrlplane/server: the order of route rules and
-- of plugins. `sort` and `sort_plugins` are `sort.Sort` on the two slices.
pub mod Less
pub mod Chains
use erie_canal_net.Base.{
  ℕ, Bool, true, false, not, List, [], ◌∷◌, ◌++◌, Option, none, some, Text, codes, ◌==◌, nat_eq,
  list_eq, if◌then◌else◌, Assoc, insert, is_empty, length, ltb, text_ltb,
}
use erie_canal_net.Policy.{regex_match_all}
use erie_canal_net.Configurator.{Plugin, EcnetConfigSpec, get_global_plugin_chains}
use erie_canal_net.Ctrlplane.Config.{
  HttpMatchRule, OutboundHttpRouteRule, OutboundHttpRouteRules, OutboundTrafficMatch,
  OutboundTrafficPolicy, update_at,
}
use erie_canal_net.Ctrlplane.Balance.{PipyConf}

-- `Less` of `OutboundHTTPRouteRuleSlice`
unfoldable pub less_rule : OutboundHttpRouteRule → OutboundHttpRouteRule → Bool
less_rule a b =
    if a.http_match_rule.path == regex_match_all
    then false
    else text_ltb a.http_match_rule.path b.http_match_rule.path

module _ (sort : List OutboundHttpRouteRule → List OutboundHttpRouteRule) where
  -- `sort` of `OutboundHTTPRouteRuleSlice`
  unfoldable pub sort_rules : List OutboundHttpRouteRule → List OutboundHttpRouteRule
  sort_rules rules = if ltb 1 (length rules) then sort rules else rules

  sort_service_rules : Assoc Text OutboundHttpRouteRules → Assoc Text OutboundHttpRouteRules
  unfolding sort_rules
  sort_service_rules [] = []
  sort_service_rules ((service, rules) ∷ rest) =
      (service, record rules { route_rules = sort_rules rules.route_rules })
      ∷ sort_service_rules rest

  reorder_match : OutboundTrafficMatch → OutboundTrafficMatch
  unfolding sort_service_rules
  reorder_match m = record m {
    http_service_route_rules = sort_service_rules m.http_service_route_rules;
  }

  -- The matches at the positions that a port holds
  reorder_at : List ℕ → List OutboundTrafficMatch → List OutboundTrafficMatch
  unfolding reorder_match
  reorder_at [] matches = matches
  reorder_at (ptr ∷ ptrs) matches = reorder_at ptrs (update_at ptr reorder_match matches)

  reorder_ports : Assoc ℕ (List ℕ) → List OutboundTrafficMatch → List OutboundTrafficMatch
  unfolding reorder_at
  reorder_ports [] matches = matches
  reorder_ports ((_, ptrs) ∷ ports) matches = reorder_ports ports (reorder_at ptrs matches)

  reorder_policy : OutboundTrafficPolicy → OutboundTrafficPolicy
  unfolding reorder_ports
  reorder_policy otp = record otp { matches = reorder_ports otp.traffic_matches otp.matches }

  -- `reorder`
  unfoldable pub reorder : PipyConf → PipyConf
  unfolding reorder_policy
  reorder conf = elim conf.outbound [
    | none ↦ conf
    | some otp ↦ record conf { outbound = some (reorder_policy otp) }
  ]

-- `getPluginURI`
abbrev pub get_plugin_uri : Text → Text
get_plugin_uri name = codes "plugins/" ++ (name ++ codes ".js")

module _ {F : Type 0} (greater : F → F → Bool) where
  -- `Less` of `PluginSlice`; `greater` is `>` on float32.
  abbrev pub less_plugin : Plugin F → Plugin F → Bool
  less_plugin a b = greater a.priority b.priority

module _ {F : Type 0} where
  abbrev pub plugin_uri : Plugin F → Text
  plugin_uri p = if p.build_in then p.name ++ codes ".js" else get_plugin_uri p.name

  unfoldable pub plugin_uris : List (Plugin F) → List Text
  plugin_uris [] = []
  plugin_uris (p ∷ ps) = plugin_uri p ∷ plugin_uris ps

module _ {F : Type 0} (sort_plugins : List (Plugin F) → List (Plugin F)) where
  -- The loop over the mount points; sorting the slice sorts the items that it shares.
  set_chains : Assoc Text (List (Plugin F)) → Assoc Text (List Text) → Assoc Text (List Text)
  unfolding plugin_uris
  set_chains [] chains = chains
  set_chains ((mount_point, items) ∷ rest) chains = set_chains rest (
      if is_empty items
      then chains
      else insert mount_point (plugin_uris (sort_plugins items)) chains)

  -- `setSidecarChain`
  unfoldable pub set_sidecar_chain : EcnetConfigSpec F → PipyConf → PipyConf
  unfolding set_chains
  set_sidecar_chain c conf = record conf { chains = set_chains (get_global_plugin_chains c) [] }
