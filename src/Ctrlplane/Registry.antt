-- ===== src/Ctrlplane/Registry.antt =====
-- registry.go of pkg/ecnet/bridge/ctrlplane/registry, and `fireExistProxies` of broadcast.go of
-- pkg/ecnet/bridge/ctrlplane/server. `U` is the type of a UUID; a new one is an argument.
use erie_canal_net.Base.{ℕ, ◌≡◌, refl, Bool, true, false, List, [], ◌∷◌, Option, none, some}

-- proxy.go: `Proxy`, without its locks and channels
pub record Proxy (U : Type 0) : Type 0 where
  pub uuid : U
  pub etag : ℕ

pub record ProxyRegistry (U : Type 0) : Type 0 where
  pub cache_proxy : Option (Proxy U)

module _ {U : Type 0} where
  -- `NewProxyRegistry`
  abbrev pub new_proxy_registry : ProxyRegistry U
  new_proxy_registry = record { cache_proxy = none }

  -- `RegisterProxy` and `GetConnectedProxy`
  unfoldable pub register_proxy : U → ProxyRegistry U → Proxy U × ProxyRegistry U
  register_proxy new_uuid r = elim r.cache_proxy [
    | none ↦
        let p : Proxy U = record { uuid = new_uuid; etag = 0 } in
        (p, record { cache_proxy = some p })
    | some p ↦ (p, r)
  ]

  abbrev pub get_connected_proxy : ProxyRegistry U → Option (Proxy U)
  get_connected_proxy r = r.cache_proxy

  -- `fireExistProxies`: the proxies, the registry, and whether a routine was begun that informs the proxy
  unfoldable pub fire_exist_proxies : U → ProxyRegistry U → List (Proxy U) × ProxyRegistry U × Bool
  unfolding register_proxy
  fire_exist_proxies new_uuid r = elim (get_connected_proxy r) [
    | none ↦ let (p, registered) = register_proxy new_uuid r in (p ∷ [], registered, true)
    | some p ↦ (p ∷ [], r, false)
  ]

  -- Whenever the listener fires, it fires one proxy; once it has, it fires that proxy again, whatever the
  -- next UUID is, and no second routine informs it.
  pub fire_exist_proxies_again :
      (first next : U) (r : ProxyRegistry U)
      → let (proxies, fired, _) = fire_exist_proxies first r in
        (p : Proxy U) × (proxies ≡ p ∷ [])
        × (fire_exist_proxies next fired ≡ (p ∷ [], fired, false))
  unfolding fire_exist_proxies register_proxy
  fire_exist_proxies_again first next r = cached r.cache_proxy
    where
      cached :
          (o : Option (Proxy U))
          → let (proxies, fired, _) = fire_exist_proxies first (record { cache_proxy = o }) in
            (p : Proxy U) × (proxies ≡ p ∷ [])
            × (fire_exist_proxies next fired ≡ (p ∷ [], fired, false))
      cached none = (record { uuid = first; etag = 0 }, refl, refl)
      cached (some p) = (p, refl, refl)
