-- ===== src/Natives/Requests.antt =====
-- When mqtt_subscribe, mqtt_unsubscribe and mqtt_publish of src/natives.cpp submit a request, and what
-- they do otherwise.
use amxx_mqtt_client.Prelude.{
  ℕ, ◌/◌, ◌≤◌, ◌≡◌, ◌≢◌, ◌↔◌, ◌⊎◌, ap, not, none, some, List, [], ◌∷◌, arith, ◌==◌, Option-cases,
  inl, inr,
}
use amxx_mqtt_client.External.{Cell, Text, Call, External}
use amxx_mqtt_client.MqttClient
use amxx_mqtt_client.MqttClientMgr.{Client, get_client}
use amxx_mqtt_client.World.{World, note}
use amxx_mqtt_client.Natives.Args.{param, arg_count}
use amxx_mqtt_client.Natives.Topics.{mqtt_subscribe, mqtt_unsubscribe, mqtt_publish, optional_param}

module _ (ext : External) (params : List Cell) (w : World) where
  abbrev pub topic_of : Text
  topic_of = ext.amx_string w.history (param params 2)

  -- The arguments that all three need: enough of them, a live client, and a topic.
  pub record IsRequest (needed : ℕ) (c : Client) : Type 0 where
    pub enough : needed ≤ arg_count params
    pub known : get_client w.mgr (param params 1) ≡ some c
    pub named : topic_of ≢ []

  abbrev pub subscribe_call : Client → Call
  subscribe_call c = Call.subscribe c.client topic_of (optional_param params 3)

  abbrev pub unsubscribe_call : Client → Call
  unsubscribe_call c = Call.unsubscribe c.client topic_of

  abbrev pub publish_call : Client → Call
  publish_call c =
      Call.publish c.client
        (record { topic = topic_of; payload = ext.amx_string w.history (param params 3) })
        (optional_param params 5) (not (optional_param params 4 == 0))

  -- With a QoS of 0, 1 or 2 where there is one, and no exception of Paho.
  abbrev pub CanSubscribe : Client → Type 0
  CanSubscribe c =
      IsRequest 2 c
      × (optional_param params 3 ≤ 2)
      × (ext.failure w.history (subscribe_call c) ≡ none)

  abbrev pub CanPublish : Client → Type 0
  CanPublish c =
      IsRequest 3 c
      × (optional_param params 5 ≤ 2)
      × (ext.failure w.history (publish_call c) ≡ none)

  abbrev pub CanUnsubscribe : Client → Type 0
  CanUnsubscribe c = IsRequest 2 c × (ext.failure w.history (unsubscribe_call c) ≡ none)

  pub subscribe_submits :
      (c : Client)
      → IsRequest 2 c
      → optional_param params 3 ≤ 2
      → ext.failure w.history (subscribe_call c) ≡ none
      → mqtt_subscribe ext params w ≡ (1, note (subscribe_call c) w)
  unfolding mqtt_subscribe MqttClient.subscribe
  subscribe_submits c r q f = ground (arith, r.named)

  pub subscribe_one : (mqtt_subscribe ext params w).0 ≡ 1 → (c : Client) × CanSubscribe c
  unfolding mqtt_subscribe MqttClient.subscribe
  subscribe_one e = elim (Option-cases (get_client w.mgr (param params 1))) [
    | inl none' ↦ absurd (ground arith)
    | inr (c, f) ↦ (
      c,
      (
        record { enough = ground arith; known = f; named = λ h. ground arith },
        ground arith,
        ground arith,
      ),
    )
  ]

  publish_submits :
      (c : Client)
      → IsRequest 3 c
      → optional_param params 5 ≤ 2
      → ext.failure w.history (publish_call c) ≡ none
      → mqtt_publish ext params w ≡ (1, note (publish_call c) w)
  unfolding mqtt_publish MqttClient.publish
  publish_submits c r q f = ground (arith, r.named)

  publish_one : (mqtt_publish ext params w).0 ≡ 1 → (c : Client) × CanPublish c
  unfolding mqtt_publish MqttClient.publish
  publish_one e = elim (Option-cases (get_client w.mgr (param params 1))) [
    | inl none' ↦ absurd (ground arith)
    | inr (c, f) ↦ (
      c,
      (
        record { enough = ground arith; known = f; named = λ h. ground arith },
        ground arith,
        ground arith,
      ),
    )
  ]

  unsubscribe_submits :
      (c : Client)
      → IsRequest 2 c
      → ext.failure w.history (unsubscribe_call c) ≡ none
      → mqtt_unsubscribe ext params w ≡ (1, note (unsubscribe_call c) w)
  unfolding mqtt_unsubscribe MqttClient.unsubscribe
  unsubscribe_submits c r f = ground (arith, r.named)

  unsubscribe_one : (mqtt_unsubscribe ext params w).0 ≡ 1 → (c : Client) × CanUnsubscribe c
  unfolding mqtt_unsubscribe MqttClient.unsubscribe
  unsubscribe_one e = elim (Option-cases (get_client w.mgr (param params 1))) [
    | inl none' ↦ absurd (ground arith)
    | inr (c, f) ↦
        (c, (record { enough = ground arith; known = f; named = λ h. ground arith }, ground arith))
  ]

  -- A native succeeds exactly if it can, for some client. Then it has made the one call for that client
  -- and changed nothing else; otherwise its result is 0.
  abbrev pub Submits : (Client → Type 0) → (Client → Call) → Cell × World → Type 0
  Submits Can call out =
      ((out.0 ≡ 1) ↔ ((c : Client) × Can c))
      × (((c : Client) × Can c × (out ≡ (1, note (call c) w))) ⊎ (out.0 ≡ 0))

  submits :
      (Can : Client → Type 0) (call : Client → Call) (out : Cell × World)
      → (out.0 ≡ 1 → (c : Client) × Can c)
      → ((c : Client) → Can c → out ≡ (1, note (call c) w))
      → (out.0 ≡ 1) ⊎ (out.0 ≡ 0)
      → Submits Can call out
  submits Can call out one all either = (
    (one, λ (c, can). ap (λ (t : Cell × World). t.0) (all c can)),
    elim either [
      | inl done ↦ let (c, can) = one done in inl (c, can, all c can)
      | inr refused ↦ inr refused
    ],
  )

  -- mqtt_subscribe returns 1 exactly on enough arguments, a live client, a topic that is not empty, a
  -- QoS of 0, 1 or 2 and no exception of Paho. It has then made one call, with that topic and QoS, and
  -- changed nothing else. In every other case it returns 0.
  pub mqtt_subscribe_iff : Submits CanSubscribe subscribe_call (mqtt_subscribe ext params w)
  unfolding mqtt_subscribe MqttClient.subscribe
  mqtt_subscribe_iff =
      submits CanSubscribe subscribe_call (mqtt_subscribe ext params w) subscribe_one
        (λ c (r, q, f). subscribe_submits c r q f) (ground arith)

  -- mqtt_publish returns 1 exactly on enough arguments, a live client, a topic that is not empty, a
  -- QoS of 0, 1 or 2 and no exception of Paho. It has then made one call, with that topic, payload,
  -- QoS and retained flag, and changed nothing else. In every other case it returns 0.
  pub mqtt_publish_iff : Submits CanPublish publish_call (mqtt_publish ext params w)
  unfolding mqtt_publish MqttClient.publish
  mqtt_publish_iff =
      submits CanPublish publish_call (mqtt_publish ext params w) publish_one
        (λ c (r, q, f). publish_submits c r q f) (ground arith)

  -- mqtt_unsubscribe returns 1 exactly on enough arguments, a live client, a topic that is not empty
  -- and no exception of Paho. It has then made one call, with that topic, and changed nothing else. In
  -- every other case it returns 0.
  pub mqtt_unsubscribe_iff : Submits CanUnsubscribe unsubscribe_call (mqtt_unsubscribe ext params w)
  unfolding mqtt_unsubscribe MqttClient.unsubscribe
  mqtt_unsubscribe_iff =
      submits CanUnsubscribe unsubscribe_call (mqtt_unsubscribe ext params w) unsubscribe_one
        (λ c (r, f). unsubscribe_submits c r f) (ground arith)

-- A plugin compiled before the QoS argument was added passes fewer cells: mqtt_subscribe and
-- mqtt_publish take QoS 0, and mqtt_publish takes the retained flag only if it was passed, whatever
-- stands in memory behind the arguments.
pub requests_of_old_plugins :
    (ext : External) (w : World) (two three four handle topic payload flag junk junk' : Cell)
    → two / 4 ≡ 2
    → three / 4 ≡ 3
    → four / 4 ≡ 4
    → (mqtt_subscribe ext (two ∷ handle ∷ topic ∷ junk ∷ []) w
        ≡ mqtt_subscribe ext (12 ∷ handle ∷ topic ∷ 0 ∷ []) w)
      × (mqtt_publish ext (three ∷ handle ∷ topic ∷ payload ∷ junk ∷ junk' ∷ []) w
          ≡ mqtt_publish ext (20 ∷ handle ∷ topic ∷ payload ∷ 0 ∷ 0 ∷ []) w)
      × (mqtt_publish ext (four ∷ handle ∷ topic ∷ payload ∷ flag ∷ junk ∷ []) w
          ≡ mqtt_publish ext (20 ∷ handle ∷ topic ∷ payload ∷ flag ∷ 0 ∷ []) w)
unfolding mqtt_subscribe mqtt_publish
requests_of_old_plugins ext w two three four handle topic payload flag junk junk' e₂ e₃ e₄ =
    (ground arith, ground arith, ground arith)
