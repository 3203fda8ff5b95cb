-- ===== src/Messaging/Events/Told.antt =====
-- Which events the broker of pkg/ecnet/messaging tells to every proxy, to one, or to none.
use erie_canal_net.Base.{
  ◌≡◌, refl, sym, subst, Bool, true, false, not, ◌&&◌, ◌||◌, [], ◌∷◌, ◌++◌, Option, none, some,
  Text, codes, arith, ◌==◌, nat_eq, list_eq, ==_iff, Eq, inl, inr, Bool-cases, ◌⊎◌, ◌∙◌,
  if◌then◌else◌, any, lookup, not_empty,
}
use erie_canal_net.Messaging.Events.{
  PubSubMessage, ProxyUpdateEvent, Object, config, pod, other, PodObject, is_broadcast,
  get_proxy_update_event, config_event, pod_event, topic_for_proxy,
}

-- The value of the annotation that asks for metrics, empty if there is none
abbrev pub scraped : PodObject → Text
scraped p = elim (lookup (codes "prometheus.io/scrape") p.annotations) [ none ↦ [] | some t ↦ t ]

not_pod :
    (k : Text) → (k == codes "ecnetconfig-updated") ≡ true → (k == codes "pod-updated") ≡ false
not_pod k c =
    subst (λ z. (z == codes "pod-updated") ≡ false)
      (sym ((==_iff k (codes "ecnetconfig-updated")).0 c)) refl

-- Whether the kind is in the list, or one of two others with a condition each.
module _ (l c n p s : Bool) where
  abbrev chosen : Bool
  chosen = l || (c && n) || (p && s)

  chosen_listed : l ≡ true → chosen ≡ true
  chosen_listed listed = ground (arith, listed)

  chosen_config : c ≡ true → n ≡ true → chosen ≡ true
  chosen_config at new = ground (arith, at, new)

  chosen_pod : p ≡ true → s ≡ true → chosen ≡ true
  chosen_pod at same = ground (arith, at, same)

  unchosen_config : l ≡ false → n ≡ false → p ≡ false → chosen ≡ false
  unchosen_config unlisted old off = ground (arith, unlisted, old, off)

  unchosen_pod : l ≡ false → c ≡ false → s ≡ false → chosen ≡ false
  unchosen_pod unlisted off moved = ground (arith, unlisted, off, moved)

  unchosen_rest : l ≡ false → c ≡ false → p ≡ false → chosen ≡ false
  unchosen_rest unlisted off off' = ground (arith, unlisted, off, off')

module _ {A : Type 0} (l c p : Bool) (x y z w : A) where
  abbrev routed : A
  routed = if l then x else if c then y else if p then z else w

  routed_listed : l ≡ true → routed ≡ x
  routed_listed listed = ground (arith, listed)

  routed_config : l ≡ false → c ≡ true → routed ≡ y
  routed_config unlisted at = ground (arith, unlisted, at)

  routed_pod : l ≡ false → c ≡ false → p ≡ true → routed ≡ z
  routed_pod unlisted off at = ground (arith, unlisted, off, at)

  routed_rest : l ≡ false → c ≡ false → p ≡ false → routed ≡ w
  routed_rest unlisted off off' = ground (arith, unlisted, off, off')

and_false : (p m : Bool) → p ≡ false → (p && m) ≡ false
and_false p m off = ground (arith, off)

and_true : (p m : Bool) → p ≡ true → (p && m) ≡ m
and_true p m on = ground (arith, on)

module _ {P : Type 0} ⦃e : Eq P⦄ where
  -- Both objects are configurations, of different log levels or plugin chains.
  abbrev pub is_new_config : Object P → Object P → Bool
  is_new_config (config old) (config new) =
      not (old.log_level == new.log_level && old.plugin_chains == new.plugin_chains)
  is_new_config _ _ = false

  -- Both objects are pods, with the same annotation, and the new one has a UID.
  abbrev pub is_same_pod : Object P → Object P → Bool
  is_same_pod (pod old) (pod new) = scraped old == scraped new && not_empty new.uid
  is_same_pod _ _ = false

  -- Both objects are pods, and the annotation changed.
  abbrev pub is_moved_pod : Object P → Object P → Bool
  is_moved_pod (pod old) (pod new) = not (scraped old == scraped new)
  is_moved_pod _ _ = false

  -- The events that every proxy is told
  abbrev pub updates_all : PubSubMessage P → Bool
  updates_all msg =
      any (λ k. k == msg.kind)
        (codes "endpoint-added"
          ∷ codes "endpoint-deleted"
          ∷ codes "endpoint-updated"
          ∷ codes "serviceimport-added"
          ∷ codes "serviceimport-deleted"
          ∷ codes "serviceimport-updated"
          ∷ codes "globaltrafficpolicy-added"
          ∷ codes "globaltrafficpolicy-deleted"
          ∷ codes "globaltrafficpolicy-updated"
          ∷ codes "proxy-update"
          ∷ [])
      || (msg.kind == codes "ecnetconfig-updated" && is_new_config msg.old_obj msg.new_obj)
      || (msg.kind == codes "pod-updated" && is_same_pod msg.old_obj msg.new_obj)

  -- The events that the proxy of one pod is told
  abbrev pub updates_pod : PubSubMessage P → Bool
  updates_pod msg = msg.kind == codes "pod-updated" && is_moved_pod msg.old_obj msg.new_obj

  abbrev pub to_all : PubSubMessage P → Option (ProxyUpdateEvent P)
  to_all msg = some (record { msg = msg; topic = codes "proxy-update" })

  abbrev pub to_pod : PubSubMessage P → PodObject → Option (ProxyUpdateEvent P)
  to_pod msg p = some (record { msg = msg; topic = codes "proxy:" ++ p.uid })

  config_event-cases :
      (msg : PubSubMessage P) (old new : Object P)
      → ((is_new_config old new ≡ true) × (config_event msg old new ≡ to_all msg))
        ⊎ ((is_new_config old new ≡ false) × (config_event msg old new ≡ none))
  unfolding config_event
  config_event-cases msg (config old) (config new) =
      elim (Bool-cases (is_new_config (config old) (config new))) [
        | inl e ↦ inl (e, ground (arith, e))
        | inr e ↦ inr (e, ground (arith, e))
      ]
  config_event-cases msg (config old) (pod new) = inr (refl, refl)
  config_event-cases msg (config old) other = inr (refl, refl)
  config_event-cases msg (pod old) new = inr (refl, refl)
  config_event-cases msg other new = inr (refl, refl)

  pod_event-cases :
      (msg : PubSubMessage P) (old new : Object P)
      → ((is_same_pod old new ≡ true) × (pod_event msg old new ≡ to_all msg))
        ⊎ ((is_same_pod old new ≡ false)
            × (((p : PodObject) × (is_moved_pod old new ≡ true)
                  × (new ≡ pod p)
                  × (pod_event msg old new ≡ to_pod msg p))
                ⊎ ((is_moved_pod old new ≡ false) × (pod_event msg old new ≡ none))))
  unfolding pod_event topic_for_proxy
  pod_event-cases msg (pod old) (pod new) = elim (Bool-cases (scraped old == scraped new)) [
    | inr moved ↦
        inr (ground (arith, moved), inl (new, ground (arith, moved), refl, ground (arith, moved)))
    | inl same ↦ elim (Bool-cases (not_empty new.uid)) [
      | inl uid ↦ inl (ground (arith, same, uid), ground (arith, same, uid))
      | inr no_uid ↦
          inr
            (ground (arith, same, no_uid), inr (ground (arith, same), ground (arith, same, no_uid)))
    ]
  ]
  pod_event-cases msg (pod old) (config new) = inr (refl, inr (refl, refl))
  pod_event-cases msg (pod old) other = inr (refl, inr (refl, refl))
  pod_event-cases msg (config old) new = inr (refl, inr (refl, refl))
  pod_event-cases msg other new = inr (refl, inr (refl, refl))

  -- The event that is made of a message
  abbrev pub Routed : PubSubMessage P → Option (ProxyUpdateEvent P) → Type 0
  Routed msg o =
      ((updates_all msg ≡ true) × (o ≡ to_all msg))
      ⊎ ((updates_all msg ≡ false)
          × (((p : PodObject) × (updates_pod msg ≡ true)
                × (msg.new_obj ≡ pod p)
                × (o ≡ to_pod msg p))
              ⊎ ((updates_pod msg ≡ false) × (o ≡ none))))

  module _ (msg : PubSubMessage P) where
    abbrev at_config : Bool
    at_config = msg.kind == codes "ecnetconfig-updated"

    abbrev at_pod : Bool
    at_pod = msg.kind == codes "pod-updated"

    abbrev new_config : Bool
    new_config = is_new_config msg.old_obj msg.new_obj

    abbrev same_pod : Bool
    same_pod = is_same_pod msg.old_obj msg.new_obj

    abbrev moved_pod : Bool
    moved_pod = is_moved_pod msg.old_obj msg.new_obj

    pub get_proxy_update_event-Routed : Routed msg (get_proxy_update_event msg)
    unfolding get_proxy_update_event
    get_proxy_update_event-Routed =
        let l = is_broadcast msg.kind in
        let cfg = config_event msg msg.old_obj msg.new_obj in
        let pd = pod_event msg msg.old_obj msg.new_obj in
        let nothing : Option (ProxyUpdateEvent P) = none in
        elim (Bool-cases l) [
          | inl b ↦ inl (
            chosen_listed l at_config new_config at_pod same_pod b,
            routed_listed l at_config at_pod (to_all msg) cfg pd nothing b,
          )
          | inr b ↦ elim (Bool-cases at_config) [
            | inl c ↦
                let off = not_pod msg.kind c in
                let here = routed_config l at_config at_pod (to_all msg) cfg pd nothing b c in
                elim (config_event-cases msg msg.old_obj msg.new_obj) [
                  | inl (new, e) ↦
                      inl (chosen_config l at_config new_config at_pod same_pod c new, here ∙ e)
                  | inr (old, e) ↦ inr (
                    unchosen_config l at_config new_config at_pod same_pod b old off,
                    inr (and_false at_pod moved_pod off, here ∙ e),
                  )
                ]
            | inr c ↦ elim (Bool-cases at_pod) [
              | inr p ↦ inr (
                unchosen_rest l at_config new_config at_pod same_pod b c p,
                inr (
                  and_false at_pod moved_pod p,
                  routed_rest l at_config at_pod (to_all msg) cfg pd nothing b c p,
                ),
              )
              | inl p ↦
                  let here = routed_pod l at_config at_pod (to_all msg) cfg pd nothing b c p in
                  elim (pod_event-cases msg msg.old_obj msg.new_obj) [
                    | inl (same, e) ↦
                        inl (chosen_pod l at_config new_config at_pod same_pod p same, here ∙ e)
                    | inr (differs, inl (q, moved, at, e)) ↦ inr (
                      unchosen_pod l at_config new_config at_pod same_pod b c differs,
                      inl (q, and_true at_pod moved_pod p ∙ moved, at, here ∙ e),
                    )
                    | inr (differs, inr (unmoved, e)) ↦ inr (
                      unchosen_pod l at_config new_config at_pod same_pod b c differs,
                      inr (and_true at_pod moved_pod p ∙ unmoved, here ∙ e),
                    )
                  ]
            ]
          ]
        ]
