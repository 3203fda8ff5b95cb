-- ===== src/Messaging/Events.antt =====
-- broker.go and workqueue.go of pkg/ecnet/messaging: which events update the proxies, and how the
-- broker passes an event on. The kinds are those of pkg/ecnet/announcements.
pub mod Told
pub mod Topics
use erie_canal_net.Base.{
  ℕ, ◌+◌, ◌%◌, ◌^◌, Bool, true, false, not, ◌&&◌, ◌||◌, List, [], ◌∷◌, ◌++◌, Option, none, some,
  Text, codes, ◌==◌, nat_eq, list_eq, Eq, if◌then◌else◌, Assoc, lookup, any, not_empty,
}

-- announcements/types.go
abbrev pub proxy_update : Text
proxy_update = codes "proxy-update"

abbrev pub pod_updated : Text
pod_updated = codes "pod-updated"

abbrev pub ecnet_config_updated : Text
ecnet_config_updated = codes "ecnetconfig-updated"

-- The kinds of the first case
abbrev pub broadcast_kinds : List Text
broadcast_kinds =
    codes "endpoint-added"
    ∷ codes "endpoint-deleted"
    ∷ codes "endpoint-updated"
    ∷ codes "serviceimport-added"
    ∷ codes "serviceimport-deleted"
    ∷ codes "serviceimport-updated"
    ∷ codes "globaltrafficpolicy-added"
    ∷ codes "globaltrafficpolicy-deleted"
    ∷ codes "globaltrafficpolicy-updated"
    ∷ proxy_update
    ∷ []

-- What the broker reads of the objects of an event: the configuration, whose plugin chains are
-- compared with `DeepEqual`, or a pod.
pub record EcnetConfig (P : Type 0) : Type 0 where
  pub log_level : Text
  pub plugin_chains : P

pub record PodObject : Type 0 where
  pub uid : Text
  pub annotations : Assoc Text Text

pub data Object (P : Type 0) : Type 0 where
  config : EcnetConfig P → Object P
  pod : PodObject → Object P
  other : Object P

-- k8s/events: `PubSubMessage`
pub record PubSubMessage (P : Type 0) : Type 0 where
  pub kind : Text
  pub old_obj : Object P
  pub new_obj : Object P

-- types.go: `proxyUpdateEvent`
pub record ProxyUpdateEvent (P : Type 0) : Type 0 where
  pub msg : PubSubMessage P
  pub topic : Text

abbrev prometheus_scrape_annotation : Text
prometheus_scrape_annotation = codes "prometheus.io/scrape"

-- `GetPubSubTopicForProxyUUID`
unfoldable pub topic_for_proxy : Text → Text
topic_for_proxy uuid = codes "proxy:" ++ uuid

abbrev text_of : Option Text → Text
text_of none = []
text_of (some t) = t

abbrev scrape_annotation : PodObject → Text
scrape_annotation p = text_of (lookup prometheus_scrape_annotation p.annotations)

abbrev pub is_broadcast : Text → Bool
is_broadcast kind = any (λ k. k == kind) broadcast_kinds

module _ {P : Type 0} ⦃e : Eq P⦄ where
  abbrev on_topic : PubSubMessage P → Text → Option (ProxyUpdateEvent P)
  on_topic msg topic = some (record { msg = msg; topic = topic })

  config_event : PubSubMessage P → Object P → Object P → Option (ProxyUpdateEvent P)
  config_event msg (config old) (config new) =
      if not (old.log_level == new.log_level) || not (old.plugin_chains == new.plugin_chains)
      then on_topic msg proxy_update
      else none
  config_event msg _ _ = none

  pod_event : PubSubMessage P → Object P → Object P → Option (ProxyUpdateEvent P)
  pod_event msg (pod old) (pod new) =
      if not (scrape_annotation old == scrape_annotation new)
      then on_topic msg (topic_for_proxy new.uid)
      else if not_empty new.uid
      then on_topic msg proxy_update
      else none
  pod_event msg _ _ = none

  -- `getProxyUpdateEvent`
  unfoldable pub get_proxy_update_event : PubSubMessage P → Option (ProxyUpdateEvent P)
  unfolding config_event pod_event
  get_proxy_update_event msg =
      if is_broadcast msg.kind
      then on_topic msg proxy_update
      else if msg.kind == ecnet_config_updated
      then config_event msg msg.old_obj msg.new_obj
      else if msg.kind == pod_updated
      then pod_event msg msg.old_obj msg.new_obj
      else none

-- types.go: `Broker`; what was published is listed newest first with its topic, what was sent to the
-- dispatcher newest first.
pub record Broker (P : Type 0) : Type 0 where
  pub total_q_event_count : ℕ
  pub total_q_proxy_event_count : ℕ
  pub total_dispatched_proxy_event_count : ℕ
  pub proxy_published : List (Text × PubSubMessage P)
  pub kube_published : List (Text × PubSubMessage P)
  pub proxy_update_ch : List (ProxyUpdateEvent P)

module _ {P : Type 0} ⦃e : Eq P⦄ where
  -- The part of `processEvent` that updates proxies
  update_proxies : Option (ProxyUpdateEvent P) → Broker P → Broker P
  update_proxies none b = b
  update_proxies (some event) b =
      let counted = record b {
        total_q_proxy_event_count = (b.total_q_proxy_event_count + 1) % 2 ^ 64;
      } in
      if not (event.topic == proxy_update)
      then record counted {
        proxy_published = (event.topic, event.msg) ∷ b.proxy_published;
        total_dispatched_proxy_event_count = (b.total_dispatched_proxy_event_count + 1) % 2 ^ 64;
      }
      else record counted { proxy_update_ch = event ∷ b.proxy_update_ch }

  -- `processEvent`
  unfoldable pub process_event : PubSubMessage P → Broker P → Broker P
  unfolding update_proxies
  process_event msg b =
      let updated = update_proxies (get_proxy_update_event msg) b in
      record updated { kube_published = (msg.kind, msg) ∷ updated.kube_published }

  -- workqueue.go: `processNextItem`, for an item of the queue that is a message or is not; `false`
  -- where the queue is shut down.
  unfoldable pub process_next_item : Option (Option (PubSubMessage P)) → Broker P → Bool × Broker P
  process_next_item none b = (false, b)
  process_next_item (some item) b =
      let counted = record b { total_q_event_count = (b.total_q_event_count + 1) % 2 ^ 64 } in
      elim item [ none ↦ (true, counted) | some msg ↦ (true, process_event msg counted) ]
