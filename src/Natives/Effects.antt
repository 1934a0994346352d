-- ===== src/Natives/Effects.antt =====
-- What a native of src/natives.cpp does to the state of the module, whatever its arguments are.
use amxx_mqtt_client.Prelude.{
  ℕ, ◌<◌, ◌≡◌, refl, some, List, ◌∷◌, arith, ltb, Bool-cases, Option-cases, inl, inr, ◌==◌,
}
use amxx_mqtt_client.External.{
  Cell, minus_one, register_forward, External, History, NativeName, ParamType,
}
use amxx_mqtt_client.MqttClient.{Notice, on_disconnected, normal_disconnection}
use amxx_mqtt_client.MqttClient.Events.{handler_of, disconnect-notices, SameParts-of_eq}
use amxx_mqtt_client.AmxxMqttClient
use amxx_mqtt_client.MqttClientMgr
use amxx_mqtt_client.MqttClientMgr.{MqttClientMgr, Handle, Client, get_client}
use amxx_mqtt_client.MqttClientMgr.Changes.{Change, kept, updated, Inv, find-IsEntry}
use amxx_mqtt_client.MqttClientMgr.Operations.{make-Change, destroy-Change, destroy-silent}
use amxx_mqtt_client.CallbackDispatcher.{Dispatcher, dispatch, dispatch_all}
use amxx_mqtt_client.World.{World}
use amxx_mqtt_client.Natives
use amxx_mqtt_client.Natives.Clients.{
  destroy_client, mqtt_create, mqtt_destroy, mqtt_connect, mqtt_disconnect, mqtt_is_connect,
}
use amxx_mqtt_client.Natives.Topics.{mqtt_subscribe, mqtt_unsubscribe, mqtt_publish}
use amxx_mqtt_client.Natives.Callbacks.{
  connected_types, message_types, connection_lost_types, disconnected_types, set_callback,
  set_connected, set_message, set_connection_lost, set_disconnected, mqtt_set_connected_callback,
  mqtt_set_message_callback, mqtt_set_connection_lost_callback, mqtt_set_disconnected_callback,
}
use amxx_mqtt_client.Natives.Options.{mqtt_create_connect_options, mqtt_set_options}
use amxx_mqtt_client.Natives.Args.{arg_count, param}

-- The queue stays as it is, or a handler bound to a handle that has been given out is called.
pub data Queueing (next : ℕ) (d e : Dispatcher) : Type 0 where
  unchanged : e ≡ d → Queueing next d e
  queued : (n : Notice Handle) → handler_of n < next → e ≡ dispatch n d → Queueing next d e

pub record Effect (w v : World) : Type 0 where
  pub change : Change w.mgr v.mgr
  pub queueing : Queueing w.mgr.next_handle w.dispatcher v.dispatcher
  pub in_flight : v.in_flight ≡ w.in_flight
  pub frame_registry : v.frame_registry ≡ w.frame_registry

silent :
    (w v : World)
    → v.mgr ≡ w.mgr
    → v.dispatcher ≡ w.dispatcher
    → v.in_flight ≡ w.in_flight
    → v.frame_registry ≡ w.frame_registry
    → Effect w v
silent w v m d f r = record {
  change = kept m;
  queueing = unchanged d;
  in_flight = f;
  frame_registry = r;
}

pub destroy_client-Effect :
    (ext : External) (k : Handle) (w : World) → Effect w (destroy_client ext k w)
unfolding destroy_client dispatch_all
destroy_client-Effect ext k w = record {
  change = destroy-Change ext k w.mgr w.history;
  queueing = unchanged (ground (arith, destroy-silent ext k w.mgr w.history));
  in_flight = refl;
  frame_registry = refl;
}

module _ (ext : External) (params : List Cell) (w : World) where
  pub create-Effect : Effect w (mqtt_create ext params w).1
  unfolding mqtt_create
  create-Effect = elim (Bool-cases (ltb (arg_count params) 2)) [
    | inl few ↦
        silent w (mqtt_create ext params w).1 (ground arith) (ground arith) (ground arith)
          (ground arith)
    | inr enough ↦
        let b = ext.amx_string w.history (param params 1) in
        let i = ext.amx_string w.history (param params 2) in
        let e : (mqtt_create ext params w).1.mgr ≡ (MqttClientMgr.make ext b i w.mgr w.history).1 =
          ground arith in
        record {
          change = rw e (make-Change ext b i w.mgr w.history);
          queueing = unchanged (ground arith);
          in_flight = ground arith;
          frame_registry = ground arith;
        }
  ]

  destroy-Effect : Effect w (mqtt_destroy ext params w).1
  unfolding mqtt_destroy
  destroy-Effect = elim (Bool-cases (ltb (arg_count params) 1)) [
    | inl few ↦
        silent w (mqtt_destroy ext params w).1 (ground arith) (ground arith) (ground arith)
          (ground arith)
    | inr enough ↦ rw enough (destroy_client-Effect ext (param params 1) w)
  ]

  disconnect-Queueing :
      Inv w.mgr
      → (c : Client) → get_client w.mgr (param params 1) ≡ some c
      → Queueing w.mgr.next_handle w.dispatcher (mqtt_disconnect ext params w).1.dispatcher
  unfolding mqtt_disconnect dispatch_all get_client
  disconnect-Queueing v c e =
      let k = param params 1 in
      let entry = find-IsEntry w.mgr.next_handle w.mgr.clients k c v.entries e in
      elim (Bool-cases (ltb (arg_count params) 1)) [
        | inl few ↦ unchanged (ground arith)
        | inr enough ↦ elim (disconnect-notices k ext c.base w.history entry.2) [
          | inl none' ↦ unchanged (ground (arith, none'))
          | inr one ↦ queued (on_disconnected k normal_disconnection) entry.1 (ground (arith, one))
        ]
      ]

  disconnect-Effect : Inv w.mgr → Effect w (mqtt_disconnect ext params w).1
  unfolding mqtt_disconnect dispatch_all get_client
  disconnect-Effect v = record {
    change = kept (ground arith);
    queueing = elim (Option-cases (get_client w.mgr (param params 1))) [
      | inl e ↦ unchanged (ground arith)
      | inr (c, e) ↦ disconnect-Queueing v c e
    ];
    in_flight = ground arith;
    frame_registry = ground arith;
  }

  connect-Effect : Effect w (mqtt_connect ext params w).1
  unfolding mqtt_connect
  connect-Effect = silent w _ (ground arith) (ground arith) (ground arith) (ground arith)

  is_connect-Effect : Effect w (mqtt_is_connect ext params w).1
  unfolding mqtt_is_connect
  is_connect-Effect = silent w _ (ground arith) (ground arith) (ground arith) (ground arith)

  subscribe-Effect : Effect w (mqtt_subscribe ext params w).1
  unfolding mqtt_subscribe
  subscribe-Effect = silent w _ (ground arith) (ground arith) (ground arith) (ground arith)

  unsubscribe-Effect : Effect w (mqtt_unsubscribe ext params w).1
  unfolding mqtt_unsubscribe
  unsubscribe-Effect = silent w _ (ground arith) (ground arith) (ground arith) (ground arith)

  publish-Effect : Effect w (mqtt_publish ext params w).1
  unfolding mqtt_publish
  publish-Effect = silent w _ (ground arith) (ground arith) (ground arith) (ground arith)

  set_options-Effect : Effect w (mqtt_set_options ext params w).1
  unfolding mqtt_set_options
  set_options-Effect = silent w _ (ground arith) (ground arith) (ground arith) (ground arith)

create_options-Effect : (w : World) → Effect w (mqtt_create_connect_options w).1
unfolding mqtt_create_connect_options
create_options-Effect w = silent w _ (ground arith) (ground arith) (ground arith) (ground arith)

module _ (ext : External) (params : List Cell) (w : World) where
  set_callback-Effect :
      (name : NativeName) (types : List ParamType)
      (set : Client → Cell → History → Client × History)
      → ((c : Client) (id : Cell) (h : History) → (set c id h).0.base ≡ c.base)
      → Effect w (set_callback name types set ext params w).1
  unfolding set_callback get_client
  set_callback-Effect name types set keeps = record {
    change =
        let k = param params 1 in
        let name' = ext.amx_string w.history (param params 2) in
        let id = ext.forward w.history name' types in
        elim (Option-cases (get_client w.mgr k)) [
          | inl e ↦ kept (ground arith)
          | inr (c, e) ↦ elim (Bool-cases (ltb (arg_count params) 2)) [
            | inl few ↦ kept (ground arith)
            | inr enough ↦ elim (Bool-cases (id == minus_one)) [
              | inl bad ↦ kept (ground arith)
              | inr good ↦
                  let d = (set c id (register_forward name' types ∷ w.history)).0 in
                  updated k c d e (SameParts-of_eq (keeps c id _)) (ground arith)
            ]
          ]
        ];
    queueing = unchanged (ground arith);
    in_flight = ground arith;
    frame_registry = ground arith;
  }

-- Each native changes the manager in one of five ways, queues at most one event, and leaves the rest.
pub call-Effect :
    (ext : External) (name : NativeName) (params : List Cell) (w : World)
    → Inv w.mgr
    → Effect w (Natives.call ext name params w).1
unfolding Natives.call mqtt_set_connected_callback mqtt_set_message_callback
    mqtt_set_connection_lost_callback mqtt_set_disconnected_callback
    AmxxMqttClient.set_on_connected_forward_id AmxxMqttClient.set_on_message_forward_id
    AmxxMqttClient.set_on_connection_lost_forward_id AmxxMqttClient.set_disconnect_forward_id
call-Effect ext NativeName.mqtt_create params w v = create-Effect ext params w
call-Effect ext NativeName.mqtt_destroy params w v = destroy-Effect ext params w
call-Effect ext NativeName.mqtt_connect params w v = connect-Effect ext params w
call-Effect ext NativeName.mqtt_disconnect params w v = disconnect-Effect ext params w v
call-Effect ext NativeName.mqtt_is_connect params w v = is_connect-Effect ext params w
call-Effect ext NativeName.mqtt_subscribe params w v = subscribe-Effect ext params w
call-Effect ext NativeName.mqtt_unsubscribe params w v = unsubscribe-Effect ext params w
call-Effect ext NativeName.mqtt_publish params w v = publish-Effect ext params w
call-Effect ext NativeName.mqtt_set_connected_callback params w v =
    set_callback-Effect ext params w NativeName.mqtt_set_connected_callback connected_types
      set_connected (λ c id h. refl)
call-Effect ext NativeName.mqtt_set_message_callback params w v =
    set_callback-Effect ext params w NativeName.mqtt_set_message_callback message_types set_message
      (λ c id h. refl)
call-Effect ext NativeName.mqtt_set_connection_lost_callback params w v =
    set_callback-Effect ext params w NativeName.mqtt_set_connection_lost_callback
      connection_lost_types set_connection_lost (λ c id h. refl)
call-Effect ext NativeName.mqtt_set_disconnected_callback params w v =
    set_callback-Effect ext params w NativeName.mqtt_set_disconnected_callback disconnected_types
      set_disconnected (λ c id h. refl)
call-Effect ext NativeName.mqtt_create_connect_options params w v = create_options-Effect w
call-Effect ext NativeName.mqtt_set_options params w v = set_options-Effect ext params w
