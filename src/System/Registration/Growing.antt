-- ===== src/System/Registration/Growing.antt =====
-- The calls that src/ has made stay made: no event shortens the history.
use amxx_mqtt_client.Prelude.{◌≤◌, List, [], ◌∷◌, arith, length, Option-cases, inl, inr}
use amxx_mqtt_client.IntMap.{find, IntMap}
use amxx_mqtt_client.External.{Cell, Text, External, History, NativeName}
use amxx_mqtt_client.MqttClient
use amxx_mqtt_client.AmxxMqttClient
use amxx_mqtt_client.MqttClientMgr
use amxx_mqtt_client.MqttClientMgr.{MqttClientMgr, Client, Handle}
use amxx_mqtt_client.MqttClientMgr.Operations.{make-Made, Made, full, exhausted, failed, made}
use amxx_mqtt_client.World.{World}
use amxx_mqtt_client.Natives
use amxx_mqtt_client.Natives.Args.{param}
use amxx_mqtt_client.Natives.Clients.{
  mqtt_create, mqtt_destroy, mqtt_connect, mqtt_disconnect, mqtt_is_connect, destroy_client,
}
use amxx_mqtt_client.Natives.Topics.{mqtt_subscribe, mqtt_unsubscribe, mqtt_publish}
use amxx_mqtt_client.Natives.Callbacks.{
  mqtt_set_connected_callback, mqtt_set_message_callback, mqtt_set_connection_lost_callback,
  mqtt_set_disconnected_callback,
}
use amxx_mqtt_client.Natives.Options.{mqtt_create_connect_options, mqtt_set_options}
use amxx_mqtt_client.RehldsFrameHook.{register_rehlds_frame_hook, unregister_rehlds_frame_hook}
use amxx_mqtt_client.Module.{
  on_amxx_attach, on_amxx_detach, on_plugins_loaded, on_plugins_unloading, stop_dispatcher,
}
use amxx_mqtt_client.System.{
  Action, native, thread, attach, plugins_loaded, plugins_unloading, detach, act,
}
use amxx_mqtt_client.System.Frames.{history-thread_step}

destruct-length :
    (ext : External) (c : Client) (h : History)
    → length h ≤ length (AmxxMqttClient.destruct ext c h).1
unfolding AmxxMqttClient.destruct MqttClient.destruct
destruct-length ext c h = ground arith

destruct_all-length :
    (ext : External) (m : IntMap Client) (h : History)
    → length h ≤ length (MqttClientMgr.destruct_all ext m h).1
unfolding MqttClientMgr.destruct_all
destruct_all-length ext [] h = omega arith
destruct_all-length ext ((k, c) ∷ m) h =
    omega (
      arith,
      destruct-length ext c h,
      destruct_all-length ext m (AmxxMqttClient.destruct ext c h).1,
    )

reset-length :
    (ext : External) (m : MqttClientMgr) (h : History)
    → length h ≤ length (MqttClientMgr.reset ext m h).2
unfolding MqttClientMgr.reset
reset-length ext m h = destruct_all-length ext m.clients h

make-length :
    (ext : External) (b i : Text) (m : MqttClientMgr) (h : History)
    → length h ≤ length (MqttClientMgr.make ext b i m h).2
make-length ext b i m h = go (make-Made ext b i m h)
  where
    go : {out : _} → Made ext b i m h out → length h ≤ length out.2
    go (full _ e) = ground (arith, e)
    go (exhausted _ _ e) = ground (arith, e)
    go (failed _ _ _ _ e) = ground (arith, e)
    go (made _ _ p _ e) = ground (arith, e)

destroy-length :
    (ext : External) (k : Handle) (m : MqttClientMgr) (h : History)
    → length h ≤ length (MqttClientMgr.destroy ext k m h).2
unfolding MqttClientMgr.destroy
destroy-length ext k m h = elim (Option-cases (find m.clients k)) [
  | inl none' ↦ ground (arith, none')
  | inr (c, f) ↦ rw (f, MqttClientMgr.destroy) (destruct-length ext c h)
]

abbrev Grows : World → World → Type 0
Grows w v = length w.history ≤ length v.history

call-Grows :
    (ext : External) (name : NativeName) (params : List Cell) (w : World)
    → Grows w (Natives.call ext name params w).1
unfolding Natives.call mqtt_create mqtt_destroy destroy_client mqtt_connect mqtt_disconnect
    mqtt_is_connect mqtt_subscribe mqtt_unsubscribe mqtt_publish mqtt_set_connected_callback
    mqtt_set_message_callback mqtt_set_connection_lost_callback mqtt_set_disconnected_callback
    mqtt_create_connect_options mqtt_set_options MqttClient.connect MqttClient.disconnect
    MqttClient.subscribe MqttClient.unsubscribe MqttClient.publish
    AmxxMqttClient.set_on_message_forward_id
call-Grows ext NativeName.mqtt_create params w =
    let b = ext.amx_string w.history (param params 1) in
    let i = ext.amx_string w.history (param params 2) in
    ground (arith, make-length ext b i w.mgr w.history)
call-Grows ext NativeName.mqtt_destroy params w =
    ground (arith, destroy-length ext (param params 1) w.mgr w.history)
call-Grows ext NativeName.mqtt_connect params w = ground arith
call-Grows ext NativeName.mqtt_disconnect params w = ground arith
call-Grows ext NativeName.mqtt_is_connect params w = ground arith
call-Grows ext NativeName.mqtt_subscribe params w = ground arith
call-Grows ext NativeName.mqtt_unsubscribe params w = ground arith
call-Grows ext NativeName.mqtt_publish params w = ground arith
call-Grows ext NativeName.mqtt_set_connected_callback params w = ground arith
call-Grows ext NativeName.mqtt_set_message_callback params w = ground arith
call-Grows ext NativeName.mqtt_set_connection_lost_callback params w = ground arith
call-Grows ext NativeName.mqtt_set_disconnected_callback params w = ground arith
call-Grows ext NativeName.mqtt_create_connect_options params w = ground arith
call-Grows ext NativeName.mqtt_set_options params w = ground arith

pub act-Grows : (ext : External) (a : Action) (w : World) → Grows w (act ext a w)
unfolding act on_amxx_attach register_rehlds_frame_hook on_plugins_loaded on_plugins_unloading
    on_amxx_detach unregister_rehlds_frame_hook
act-Grows ext (native name params) w = call-Grows ext name params w
act-Grows ext (thread t) w = ground (arith, history-thread_step t w)
act-Grows ext (attach e) w = ground arith
act-Grows ext plugins_loaded w = omega arith
act-Grows ext plugins_unloading w = reset-length ext w.mgr w.history
act-Grows ext detach w =
    let u = unregister_rehlds_frame_hook (stop_dispatcher w) in
    let unhooked : length w.history ≤ length u.history = ground arith in
    omega (arith, unhooked, reset-length ext u.mgr u.history)
