-- ===== src/K8s/Handlers.antt =====
-- event_handlers.go of pkg/ecnet/k8s: what the handlers of an informer queue for the broker.
use erie_canal_net.Base.{Bool, true, List, ◌∷◌, Option, none, some, Text, if◌then◌else◌}
use erie_canal_net.Messaging.Events.{Object, other, PubSubMessage}

-- `EventTypes`
pub record EventTypes : Type 0 where
  pub add : Text
  pub update : Text
  pub delete : Text

-- The calls of an informer
pub data Notice (P : Type 0) : Type 0 where
  added : Object P → Notice P
  updated : Object P → Object P → Notice P
  deleted : Object P → Notice P

module _ {P : Type 0} where
  -- A filter that is nil observes everything.
  abbrev pub observes : Option (Object P → Bool) → Object P → Bool
  observes none obj = true
  observes (some filter) obj = filter obj

  abbrev pub queue_if : Bool → PubSubMessage P → List (PubSubMessage P) → List (PubSubMessage P)
  queue_if observed msg queue = if observed then msg ∷ queue else queue

  -- `GetEventHandlerFuncs`, on the messages queued so far, newest first; `other` stands for nil.
  unfoldable pub get_event_handler_funcs :
      Option (Object P → Bool)
      → EventTypes
      → Notice P
      → List (PubSubMessage P)
      → List (PubSubMessage P)
  get_event_handler_funcs filter types (added obj) =
      queue_if (observes filter obj) (record { kind = types.add; old_obj = other; new_obj = obj })
  get_event_handler_funcs filter types (updated old_obj obj) =
      queue_if (observes filter obj)
        (record { kind = types.update; old_obj = old_obj; new_obj = obj })
  get_event_handler_funcs filter types (deleted obj) =
      queue_if (observes filter obj)
        (record { kind = types.delete; old_obj = obj; new_obj = other })
