-- ===== src/Ctrlplane/Order/Chains.antt =====
-- The plugin chains that plugin.go of pkg/ecnet/bridge/ctrlplane/server makes of the configuration.
use erie_canal_net.Base.{
  ◌≡◌, refl, sym, ap, ◌∙◌, false, true, not, ◌++◌, map, filterb, All-perm, subst, ◌⊎◌, inl, inr,
  Bool, List, [], ◌∷◌, Option, none, some, Text, arith, codes, ◌==◌, nat_eq, list_eq, ==_iff,
  if◌then◌else◌, Assoc, lookup, insert, lookup-insert, UniqueKeys, is_empty, All, Permᴰ, StrictWeak,
  Ordered, IsSort, Bool-cases,
}
use erie_canal_net.Configurator.{
  Plugin, PluginChainSpec, EcnetConfigSpec, get_global_plugin_chains, enabled_plugins,
}
use erie_canal_net.Ctrlplane.Balance.{PipyConf}
use erie_canal_net.Ctrlplane.Order.{less_plugin, plugin_uris, set_chains, set_sidecar_chain}

module _ {F : Type 0} (sort : List (Plugin F) → List (Plugin F)) where
  -- What the loop leaves at a mount point
  abbrev chain_of : List (Plugin F) → Option (List Text) → Option (List Text)
  chain_of items before = if is_empty items then before else some (plugin_uris (sort items))

  chain_step :
      (at m : Text) (items : List (Plugin F)) (chains : Assoc Text (List Text))
      → lookup m (if is_empty items then chains else insert at (plugin_uris (sort items)) chains)
        ≡ (if at == m then chain_of items (lookup m chains) else lookup m chains)
  chain_step at m items chains =
      ground (arith, lookup-insert at m (plugin_uris (sort items)) chains)

module _ {F : Type 0} (sort : List (Plugin F) → List (Plugin F)) where
  set_chains-absent :
      (rest : Assoc Text (List (Plugin F))) (m : Text) (chains : Assoc Text (List Text))
      → lookup m rest ≡ none
      → lookup m (set_chains sort rest chains) ≡ lookup m chains
  unfolding set_chains lookup
  set_chains-absent [] m chains h = refl
  set_chains-absent ((at, items) ∷ rest) m chains h = elim (Bool-cases (at == m)) [
    | inl e ↦ absurd (ground (arith, e, h))
    | inr e ↦
        set_chains-absent rest m
          (if is_empty items then chains else insert at (plugin_uris (sort items)) chains)
          (ground (arith, e, h))
        ∙ ground (arith, chain_step sort at m items chains, e)
  ]

  set_chains-found :
      (rest : Assoc Text (List (Plugin F))) (m : Text) (items : List (Plugin F))
      (chains : Assoc Text (List Text))
      → UniqueKeys rest
      → lookup m rest ≡ some items
      → lookup m (set_chains sort rest chains) ≡ chain_of sort items (lookup m chains)
  unfolding set_chains lookup
  set_chains-found [] m items chains u h = ground arith
  set_chains-found ((at, here) ∷ rest) m items chains u h = elim (Bool-cases (at == m)) [
    | inl e ↦
        set_chains-absent rest m
          (if is_empty here then chains else insert at (plugin_uris (sort here)) chains)
          (subst (λ k. lookup k rest ≡ none) ((==_iff at m).0 e) u.0)
        ∙ ground (arith, chain_step sort at m here chains, e, h)
    | inr e ↦
        set_chains-found rest m items
          (if is_empty here then chains else insert at (plugin_uris (sort here)) chains) u.1
          (ground (arith, e, h))
        ∙ ground (arith, chain_step sort at m here chains, e)
  ]

All-Unit : {A : Type 0} (xs : List A) → All (λ _. Unit {0}) xs
All-Unit [] = tt
All-Unit (x ∷ xs) = (tt, All-Unit xs)

module _ {A B : Type 0} (f : A → B) where
  map-perm : (xs ys : List A) → Permᴰ xs ys → Permᴰ (map f xs) (map f ys)
  map-perm [] [] Permᴰ.nil = Permᴰ.nil
  map-perm (x ∷ xs) (y ∷ ys) (Permᴰ.cons e p) = Permᴰ.cons (ap f e) (map-perm xs ys p)
  map-perm (x ∷ x' ∷ xs) (y ∷ y' ∷ ys) (Permᴰ.swap e e') =
      subst (λ l. Permᴰ (f x ∷ f x' ∷ map f xs) (f y ∷ f y' ∷ map f l)) refl
        (Permᴰ.swap (ap f e) (ap f e'))
  map-perm xs zs (Permᴰ.trans {l₂ = ys} p q) = Permᴰ.trans (map-perm xs ys p) (map-perm ys zs q)

module _ {F : Type 0} where
  -- The specifications that are not disabled
  abbrev pub in_use : List (PluginChainSpec F) → List (PluginChainSpec F)
  in_use specs = filterb (λ s. not s.disable) specs

  -- The specification that a plugin came of
  abbrev spec_of : Plugin F → PluginChainSpec F
  spec_of p = record { plugin = p.name; priority = p.priority; disable = false }

  spec_of-plugin :
      (s : PluginChainSpec F)
      → s.disable ≡ false
      → record { plugin = s.plugin; priority = s.priority; disable = false } ≡ s
  spec_of-plugin s e =
      ap (λ d. record { plugin = s.plugin; priority = s.priority; disable = d }) (sym e)

  enabled_plugins-in_use :
      (specs : List (PluginChainSpec F)) → map spec_of (enabled_plugins specs) ≡ in_use specs
  unfolding enabled_plugins
  enabled_plugins-in_use [] = refl
  enabled_plugins-in_use (s ∷ specs) = elim (Bool-cases s.disable) [
    | inl off ↦ ground (arith, off, enabled_plugins-in_use specs)
    | inr on ↦ ground (arith, on, enabled_plugins-in_use specs, spec_of-plugin s on)
  ]

  enabled_plugins-built_in :
      (specs : List (PluginChainSpec F)) → All (λ p. p.build_in ≡ true) (enabled_plugins specs)
  unfolding enabled_plugins
  enabled_plugins-built_in [] = tt
  enabled_plugins-built_in (s ∷ specs) = elim (Bool-cases s.disable) [
    | inl off ↦ rw off (enabled_plugins-built_in specs)
    | inr on ↦ rw on (refl, enabled_plugins-built_in specs)
  ]

  plugin_uris-scripts :
      (ps : List (Plugin F))
      → All (λ p. p.build_in ≡ true) ps
      → plugin_uris ps ≡ map (λ s. s.plugin ++ codes ".js") (map spec_of ps)
  unfolding plugin_uris
  plugin_uris-scripts [] h = refl
  plugin_uris-scripts (p ∷ ps) h = ground (arith, h.0, plugin_uris-scripts ps h.1)

module _ {F : Type 0} (greater : F → F → Bool) where
  -- What a mount point has of the specifications of its plugins
  abbrev pub Chain : List (PluginChainSpec F) → Option (List Text) → Type 0
  Chain specs chain =
      ((in_use specs ≡ []) × (chain ≡ none))
      ⊎ ((kept : List (PluginChainSpec F)) × (is_empty (in_use specs) ≡ false)
          × Permᴰ kept (in_use specs)
          × Ordered (λ a b. greater a.priority b.priority) kept
          × (chain ≡ some (map (λ s. s.plugin ++ codes ".js") kept)))

  not_greater-specs :
      (p : Plugin F) (ps : List (Plugin F))
      → All (λ q. less_plugin greater q p ≡ false) ps
      → All (λ s. greater s.priority p.priority ≡ false) (map spec_of ps)
  not_greater-specs p [] h = tt
  not_greater-specs p (q ∷ qs) h = (h.0, not_greater-specs p qs h.1)

  Ordered-specs :
      (ps : List (Plugin F))
      → Ordered (less_plugin greater) ps
      → Ordered (λ a b. greater a.priority b.priority) (map spec_of ps)
  Ordered-specs [] h = tt
  Ordered-specs (p ∷ ps) h = (not_greater-specs p ps h.0, Ordered-specs ps h.1)

  less_plugin-StrictWeak :
      StrictWeak greater (λ _. Unit) → StrictWeak (less_plugin greater) (λ _. Unit)
  less_plugin-StrictWeak w = record {
    irreflexive = λ a _. w.irreflexive a.priority tt;
    transitive = λ a b c _ _ _. w.transitive a.priority b.priority c.priority tt tt tt;
    alike = λ a b c _ _ _. w.alike a.priority b.priority c.priority tt tt tt;
  }

module _ {F : Type 0} (greater : F → F → Bool) (sort : List (Plugin F) → List (Plugin F)) where
  items-Chain :
      (items : List (Plugin F)) (specs : List (PluginChainSpec F)) (chain : Option (List Text))
      → IsSort (less_plugin greater) sort
      → StrictWeak greater (λ _. Unit)
      → map spec_of items ≡ in_use specs
      → All (λ p. p.build_in ≡ true) items
      → chain ≡ chain_of sort items none
      → Chain greater specs chain
  items-Chain [] specs chain s weak same built e = inl (sym same, e)
  items-Chain (p ∷ ps) specs chain s weak same built e =
      let sorted = sort (p ∷ ps) in
      let perm = s.permutes (p ∷ ps) in
      inr (
        map spec_of sorted,
        subst (λ l. is_empty l ≡ false) same refl,
        subst (Permᴰ (map spec_of sorted)) same (map-perm spec_of sorted (p ∷ ps) perm),
        Ordered-specs greater sorted (
            s.orders (λ _. Unit) (p ∷ ps) (All-Unit (p ∷ ps))
              (less_plugin-StrictWeak greater weak)),
        e
            ∙ ap (λ l. some l)
                (plugin_uris-scripts sorted
                  (All-perm (λ q. q.build_in ≡ true) sorted (p ∷ ps) perm built)),
      )

  found-Chain :
      (c : EcnetConfigSpec F) (conf : PipyConf) (m : Text) (specs : List (PluginChainSpec F))
      → IsSort (less_plugin greater) sort
      → StrictWeak greater (λ _. Unit)
      → lookup m (get_global_plugin_chains c) ≡ some (enabled_plugins specs)
      → Chain greater specs (lookup m (set_sidecar_chain sort c conf).chains)
  unfolding set_sidecar_chain lookup get_global_plugin_chains
  found-Chain c conf m specs s weak h =
      items-Chain (enabled_plugins specs) specs (lookup m (set_sidecar_chain sort c conf).chains) s
        weak (enabled_plugins-in_use specs) (enabled_plugins-built_in specs)
        (set_chains-found sort (get_global_plugin_chains c) m (enabled_plugins specs) []
          (refl, (refl, (refl, (refl, tt)))) h)

  -- If the comparison of priorities is a strict weak order, then with any function that does what
  -- `sort.Sort` promises for the code's comparison of plugins, each of the four mount points has no
  -- chain if no plugin of its specifications is in use, and else just the scripts of those that are
  -- not disabled, each the name of the plugin with `.js`, in an order in which no priority is
  -- greater than one before it.
  pub sidecar_chains :
      (c : EcnetConfigSpec F) (conf : PipyConf)
      → IsSort (less_plugin greater) sort
      → StrictWeak greater (λ _. Unit)
      → Chain greater c.plugin_chains.inbound_tcp_chains
          (lookup (codes "inbound-tcp") (set_sidecar_chain sort c conf).chains)
        × Chain greater c.plugin_chains.inbound_http_chains
            (lookup (codes "inbound-http") (set_sidecar_chain sort c conf).chains)
        × Chain greater c.plugin_chains.outbound_tcp_chains
            (lookup (codes "outbound-tcp") (set_sidecar_chain sort c conf).chains)
        × Chain greater c.plugin_chains.outbound_http_chains
            (lookup (codes "outbound-http") (set_sidecar_chain sort c conf).chains)
  unfolding get_global_plugin_chains lookup
  sidecar_chains c conf s weak = (
    found-Chain c conf (codes "inbound-tcp") c.plugin_chains.inbound_tcp_chains s weak refl,
    found-Chain c conf (codes "inbound-http") c.plugin_chains.inbound_http_chains s weak refl,
    found-Chain c conf (codes "outbound-tcp") c.plugin_chains.outbound_tcp_chains s weak refl,
    found-Chain c conf (codes "outbound-http") c.plugin_chains.outbound_http_chains s weak refl,
  )
