-- ===== src/Natives/Calls.antt =====
-- Which calls the natives of src/natives.cpp make: none on the engine, and none that run plugins.
use amxx_mqtt_client.Prelude.{
  ◌≡◌, refl, ◌∙◌, Bool, true, false, List, [], ◌∷◌, arith, Option-cases, inl, inr, if◌then◌else◌,
}
use amxx_mqtt_client.IntMap.{find, IntMap}
use amxx_mqtt_client.External.{
  Cell, Text, Call, new_client, connect, disconnect, subscribe, unsubscribe, publish, delete_client,
  register_forward, unregister_forward, log_error, External, History, NativeName, ParamType,
}
use amxx_mqtt_client.MqttClient
use amxx_mqtt_client.AmxxMqttClient
use amxx_mqtt_client.MqttClientMgr
use amxx_mqtt_client.MqttClientMgr.{MqttClientMgr, Client, Handle, get_client}
use amxx_mqtt_client.MqttClientMgr.Operations.{make-Made, Made, full, exhausted, failed, made}
use amxx_mqtt_client.World.{World}
use amxx_mqtt_client.Natives
use amxx_mqtt_client.Natives.Args.{param}
use amxx_mqtt_client.Natives.Clients.{
  mqtt_create, mqtt_destroy, mqtt_connect, mqtt_disconnect, mqtt_is_connect,
}
use amxx_mqtt_client.Natives.Topics.{mqtt_subscribe, mqtt_unsubscribe, mqtt_publish}
use amxx_mqtt_client.Natives.Callbacks.{
  connected_types, message_types, connection_lost_types, disconnected_types, set_callback,
  set_connected, set_message, set_connection_lost, set_disconnected, mqtt_set_connected_callback,
  mqtt_set_message_callback, mqtt_set_connection_lost_callback, mqtt_set_disconnected_callback,
}
use amxx_mqtt_client.Natives.Options.{mqtt_create_connect_options, mqtt_set_options}

-- The calls on Paho, on the registry of forwards and on the error log.
abbrev pub is_client_call : Call → Bool
is_client_call (new_client _ _) = true
is_client_call (connect _ _) = true
is_client_call (disconnect _) = true
is_client_call (subscribe _ _ _) = true
is_client_call (unsubscribe _ _) = true
is_client_call (publish _ _ _ _) = true
is_client_call (delete_client _) = true
is_client_call (register_forward _ _) = true
is_client_call (unregister_forward _) = true
is_client_call (log_error _) = true
is_client_call _ = false

-- The other calls: on the engine, on plugins and on the module's own registration.
abbrev pub host_calls : History → List Call
host_calls [] = []
host_calls (c ∷ h) = if is_client_call c then host_calls h else c ∷ host_calls h

abbrev IsClientOnly : World → World → Type 0
IsClientOnly w v = host_calls v.history ≡ host_calls w.history

make-host_calls :
    (ext : External) (b i : Text) (m : MqttClientMgr) (h : History)
    → host_calls (MqttClientMgr.make ext b i m h).2 ≡ host_calls h
make-host_calls ext b i m h = go (make-Made ext b i m h)
  where
    go : {out : _} → Made ext b i m h out → host_calls out.2 ≡ host_calls h
    go (full _ e) = ground (arith, e)
    go (exhausted _ _ e) = ground (arith, e)
    go (failed _ _ _ _ e) = ground (arith, e)
    go (made _ _ p _ e) = ground (arith, e)

destruct-host_calls :
    (ext : External) (c : Client) (h : History)
    → host_calls (AmxxMqttClient.destruct ext c h).1 ≡ host_calls h
unfolding AmxxMqttClient.destruct MqttClient.destruct
destruct-host_calls ext c h = ground arith

destroy-host_calls :
    (ext : External) (k : Handle) (m : MqttClientMgr) (h : History)
    → host_calls (MqttClientMgr.destroy ext k m h).2 ≡ host_calls h
unfolding MqttClientMgr.destroy
destroy-host_calls ext k m h = elim (Option-cases (find m.clients k)) [
  | inl none' ↦ rw (none', MqttClientMgr.destroy)
  | inr (c, f) ↦ rw (f, MqttClientMgr.destroy) (destruct-host_calls ext c h)
]

destruct_all-host_calls :
    (ext : External) (m : IntMap Client) (h : History)
    → host_calls (MqttClientMgr.destruct_all ext m h).1 ≡ host_calls h
unfolding MqttClientMgr.destruct_all
destruct_all-host_calls ext [] h = refl
destruct_all-host_calls ext ((k, c) ∷ m) h =
    destruct_all-host_calls ext m (AmxxMqttClient.destruct ext c h).1 ∙ destruct-host_calls ext c h

-- So does tearing down every client.
pub reset-host_calls :
    (ext : External) (m : MqttClientMgr) (h : History)
    → host_calls (MqttClientMgr.reset ext m h).2 ≡ host_calls h
unfolding MqttClientMgr.reset
reset-host_calls ext m h = destruct_all-host_calls ext m.clients h

module _ (ext : External) (params : List Cell) (w : World) where
  create-host_calls : IsClientOnly w (mqtt_create ext params w).1
  unfolding mqtt_create
  create-host_calls = ground (
    arith,
    make-host_calls ext (ext.amx_string w.history (param params 1))
        (ext.amx_string w.history (param params 2)) w.mgr w.history,
  )

  destroy_native-host_calls : IsClientOnly w (mqtt_destroy ext params w).1
  unfolding mqtt_destroy
  destroy_native-host_calls =
      ground (arith, destroy-host_calls ext (param params 1) w.mgr w.history)

  set_callback-host_calls :
      (name : NativeName) (types : List ParamType)
      (set : Client → Cell → History → Client × History)
      → ((c : Client) (id : Cell) (h : History) → host_calls (set c id h).1 ≡ host_calls h)
      → IsClientOnly w (set_callback name types set ext params w).1
  unfolding set_callback
  set_callback-host_calls name types set quiet =
      elim (Option-cases (get_client w.mgr (param params 1))) [
        | inl none' ↦ ground arith
        | inr (c, f) ↦
            let callback = ext.amx_string w.history (param params 2) in
            ground (
              arith,
              quiet c (ext.forward w.history callback types)
                  (register_forward callback types ∷ w.history),
            )
      ]

-- A native makes no call on the engine, executes no forward, and neither registers natives nor
-- logs a line: its only calls are those on Paho, on the registry of forwards and on the error log.
pub call-host_calls :
    (ext : External) (name : NativeName) (params : List Cell) (w : World)
    → host_calls (Natives.call ext name params w).1.history ≡ host_calls w.history
unfolding Natives.call mqtt_connect mqtt_disconnect mqtt_is_connect mqtt_subscribe mqtt_unsubscribe
    mqtt_publish mqtt_set_connected_callback mqtt_set_message_callback
    mqtt_set_connection_lost_callback mqtt_set_disconnected_callback mqtt_create_connect_options
    mqtt_set_options MqttClient.connect MqttClient.disconnect MqttClient.subscribe
    MqttClient.unsubscribe MqttClient.publish AmxxMqttClient.set_on_message_forward_id
call-host_calls ext NativeName.mqtt_create params w = create-host_calls ext params w
call-host_calls ext NativeName.mqtt_destroy params w = destroy_native-host_calls ext params w
call-host_calls ext NativeName.mqtt_set_connected_callback params w =
    set_callback-host_calls ext params w NativeName.mqtt_set_connected_callback connected_types
      set_connected (λ c id h. refl)
call-host_calls ext NativeName.mqtt_set_message_callback params w =
    set_callback-host_calls ext params w NativeName.mqtt_set_message_callback message_types
      set_message (λ c id h. ground arith)
call-host_calls ext NativeName.mqtt_set_connection_lost_callback params w =
    set_callback-host_calls ext params w NativeName.mqtt_set_connection_lost_callback
      connection_lost_types set_connection_lost (λ c id h. refl)
call-host_calls ext NativeName.mqtt_set_disconnected_callback params w =
    set_callback-host_calls ext params w NativeName.mqtt_set_disconnected_callback
      disconnected_types set_disconnected (λ c id h. refl)
call-host_calls ext _ params w = ground arith
