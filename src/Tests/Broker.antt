-- ===== src/Tests/Broker.antt =====
-- The broker's dispatcher and topics.
use erie_canal_net.Base.{lookup, ℕ, ◌≡◌, refl, List, [], ◌∷◌, Text, codes, nat_eq, list_eq}
use erie_canal_net.Messaging.Dispatcher.{
  Action, receive, Dispatcher, Run, started, received, new_dispatcher, on_event,
}
use erie_canal_net.Messaging.Dispatcher.Batching.{Batched, Run-Batched}
use erie_canal_net.Messaging.Events.{
  PubSubMessage, pod, PodObject, Broker, process_event, pod_updated, get_proxy_update_event,
  proxy_update,
}
use erie_canal_net.Messaging.Events.Topics.{Told, process_event_once}

-- Two events a second apart, begun at 100
abbrev two_events : List (Action ℕ)
two_events = receive 105 8 ∷ receive 104 7 ∷ []

abbrev two_received : Dispatcher ℕ
two_received = on_event 105 8 (on_event 104 7 (new_dispatcher 0 100))

abbrev run_two : Run 0 100 two_events two_received
run_two = received 105 8 (received 104 7 started)

batching_example : Batched 0 100 two_events two_received
batching_example = Run-Batched 0 100 two_events two_received run_two

abbrev pod_of : Text → PodObject
pod_of scrape = record {
  uid = codes "3c1f";
  annotations = (codes "prometheus.io/scrape", scrape) ∷ [];
}

abbrev pod_update : PubSubMessage ℕ
pod_update = record {
  kind = pod_updated;
  old_obj = pod (pod_of (codes "false"));
  new_obj = pod (pod_of (codes "true"));
}

abbrev idle : Broker ℕ
idle = record {
  total_q_event_count = 0;
  total_q_proxy_event_count = 0;
  total_dispatched_proxy_event_count = 0;
  proxy_published = [];
  kube_published = [];
  proxy_update_ch = [];
}

process_once_example :
    ((process_event pod_update idle).kube_published ≡ (pod_update.kind, pod_update) ∷ [])
    × Told pod_update idle (process_event pod_update idle)
process_once_example = process_event_once pod_update idle

-- An update of a pod with the same annotation goes to every proxy.
unchanged_pod_broadcast :
    (process_event
      (record pod_update { old_obj = pod (pod_of (codes "true")) })
      idle).proxy_update_ch
    ≡ record {
      msg = record pod_update { old_obj = pod (pod_of (codes "true")) };
      topic = proxy_update;
    }
      ∷ []
unfolding process_event get_proxy_update_event lookup
unchanged_pod_broadcast = refl
