-- ===== src/Messaging/Events/Topics.antt =====
-- On which topics the broker of pkg/ecnet/messaging publishes an event.
use erie_canal_net.Base.{
  ◌+◌, ◌%◌, ◌^◌, ◌≡◌, refl, ap, sym, subst, true, false, ◌∷◌, ◌++◌, Option, none, some, codes,
  arith, nat_eq, list_eq, Eq, inl, inr, ◌⊎◌,
}
use erie_canal_net.Messaging.Events.{
  PubSubMessage, ProxyUpdateEvent, pod, PodObject, Broker, get_proxy_update_event, process_event,
  update_proxies,
}
use erie_canal_net.Messaging.Events.Told.{
  updates_all, updates_pod, Routed, get_proxy_update_event-Routed,
}

module _ {P : Type 0} ⦃e : Eq P⦄ where
  -- The broker counts the event.
  abbrev pub Counted : Broker P → Broker P → Type 0
  Counted b after = after.total_q_proxy_event_count ≡ (b.total_q_proxy_event_count + 1) % 2 ^ 64

  abbrev pub Broadcast : PubSubMessage P → Broker P → Broker P → Type 0
  Broadcast msg b after =
      Counted b after
      × (after.proxy_update_ch
          ≡ record { msg = msg; topic = codes "proxy-update" } ∷ b.proxy_update_ch)
      × (after.proxy_published ≡ b.proxy_published)

  abbrev pub Addressed : PubSubMessage P → Broker P → Broker P → Type 0
  Addressed msg b after =
      (p : PodObject) × (msg.new_obj ≡ pod p)
      × Counted b after
      × (after.proxy_update_ch ≡ b.proxy_update_ch)
      × (after.proxy_published ≡ (codes "proxy:" ++ p.uid, msg) ∷ b.proxy_published)

  abbrev pub Ignored : Broker P → Broker P → Type 0
  Ignored b after =
      (after.total_q_proxy_event_count ≡ b.total_q_proxy_event_count)
      × (after.proxy_update_ch ≡ b.proxy_update_ch)
      × (after.proxy_published ≡ b.proxy_published)

  -- Just one of the three, by what the message is
  abbrev pub Told : PubSubMessage P → Broker P → Broker P → Type 0
  Told msg b after =
      ((updates_all msg ≡ true) × Broadcast msg b after)
      ⊎ ((updates_all msg ≡ false)
          × (((updates_pod msg ≡ true) × Addressed msg b after)
              ⊎ ((updates_pod msg ≡ false) × Ignored b after)))

  Routed-Told :
      (msg : PubSubMessage P) (o : Option (ProxyUpdateEvent P)) (b : Broker P)
      → Routed msg o
      → Told msg b (update_proxies o b)
  unfolding update_proxies
  Routed-Told msg o b (inl (u, at)) =
      subst (λ o'. Told msg b (update_proxies o' b)) (sym at) (inl (u, (refl, refl, refl)))
  Routed-Told msg o b (inr (u, inl (p, q, n, at))) =
      subst (λ o'. Told msg b (update_proxies o' b)) (sym at)
        (inr (u, inl (q, (p, n, refl, refl, refl))))
  Routed-Told msg o b (inr (u, inr (q, at))) =
      subst (λ o'. Told msg b (update_proxies o' b)) (sym at) (inr (u, inr (q, (refl, refl, refl))))

  kube_published-update_proxies :
      (o : Option (ProxyUpdateEvent P)) (b : Broker P)
      → (update_proxies o b).kube_published ≡ b.kube_published
  unfolding update_proxies
  kube_published-update_proxies none b = refl
  kube_published-update_proxies (some event) b = ground arith

  -- Processing an event publishes it on the topic of its kind, and does just one of three things
  -- more. It sends it once to the dispatcher, for all proxies, and counts it, modulo 2^64, if its
  -- kind is that of an endpoint, an imported service, a global traffic policy or `proxy-update`, if
  -- it updates the log level or the plugin chains of the configuration, or if it updates a pod that
  -- has a UID and keeps its scrape annotation. Else it publishes it once on the topic of that pod's
  -- proxy, and counts it, modulo 2^64, if it updates a pod and changes the annotation, where none
  -- is as an empty one. Else it leaves the proxies and the count.
  pub process_event_once :
      (msg : PubSubMessage P) (b : Broker P)
      → ((process_event msg b).kube_published ≡ (msg.kind, msg) ∷ b.kube_published)
        × Told msg b (process_event msg b)
  unfolding process_event
  process_event_once msg b = (
    ap (λ k. (msg.kind, msg) ∷ k) (kube_published-update_proxies (get_proxy_update_event msg) b),
    Routed-Told msg (get_proxy_update_event msg) b (get_proxy_update_event-Routed msg),
  )
