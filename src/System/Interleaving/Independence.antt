-- ===== src/System/Interleaving/Independence.antt =====
-- The game thread does not look at the handlers that threads of Paho have copied.
use amxx_mqtt_client.Prelude.{◌≡◌, List, arith}
use amxx_mqtt_client.External.{Cell, External, History, NativeName, ParamType}
use amxx_mqtt_client.MqttClient.{Notice}
use amxx_mqtt_client.MqttClientMgr.{Handle, Client}
use amxx_mqtt_client.World.{World}
use amxx_mqtt_client.Natives
use amxx_mqtt_client.Natives.Clients.{
  mqtt_create, mqtt_destroy, mqtt_connect, mqtt_disconnect, mqtt_is_connect,
}
use amxx_mqtt_client.Natives.Topics.{mqtt_subscribe, mqtt_unsubscribe, mqtt_publish}
use amxx_mqtt_client.Natives.Callbacks.{
  connected_types, message_types, connection_lost_types, disconnected_types, set_callback,
  set_connected, set_message, set_connection_lost, set_disconnected, mqtt_set_connected_callback,
  mqtt_set_message_callback, mqtt_set_connection_lost_callback, mqtt_set_disconnected_callback,
}
use amxx_mqtt_client.Natives.Options.{mqtt_create_connect_options, mqtt_set_options}
use amxx_mqtt_client.RehldsFrameHook.{register_rehlds_frame_hook, unregister_rehlds_frame_hook}
use amxx_mqtt_client.Module.{
  on_amxx_attach, on_amxx_detach, on_plugins_loaded, on_plugins_unloading,
}
use amxx_mqtt_client.System.{
  Action, native, thread, attach, plugins_loaded, plugins_unloading, detach, act,
}
use amxx_mqtt_client.System.Interleaving.{IsGame}

abbrev pub with_flight : List (Notice Handle) → World → World
with_flight ns w = record w { in_flight = ns }

module _ (ext : External) (params : List Cell) (ns : List (Notice Handle)) (w : World) where
  create_flight :
      (mqtt_create ext params (with_flight ns w)).1 ≡ with_flight ns (mqtt_create ext params w).1
  unfolding mqtt_create
  create_flight = ground arith

  destroy_flight :
      (mqtt_destroy ext params (with_flight ns w)).1 ≡ with_flight ns (mqtt_destroy ext params w).1
  unfolding mqtt_destroy
  destroy_flight = ground arith

  connect_flight :
      (mqtt_connect ext params (with_flight ns w)).1 ≡ with_flight ns (mqtt_connect ext params w).1
  unfolding mqtt_connect
  connect_flight = ground arith

  disconnect_flight :
      (mqtt_disconnect ext params (with_flight ns w)).1
      ≡ with_flight ns (mqtt_disconnect ext params w).1
  unfolding mqtt_disconnect
  disconnect_flight = ground arith

  is_connect_flight :
      (mqtt_is_connect ext params (with_flight ns w)).1
      ≡ with_flight ns (mqtt_is_connect ext params w).1
  unfolding mqtt_is_connect
  is_connect_flight = ground arith

  subscribe_flight :
      (mqtt_subscribe ext params (with_flight ns w)).1
      ≡ with_flight ns (mqtt_subscribe ext params w).1
  unfolding mqtt_subscribe
  subscribe_flight = ground arith

  unsubscribe_flight :
      (mqtt_unsubscribe ext params (with_flight ns w)).1
      ≡ with_flight ns (mqtt_unsubscribe ext params w).1
  unfolding mqtt_unsubscribe
  unsubscribe_flight = ground arith

  publish_flight :
      (mqtt_publish ext params (with_flight ns w)).1 ≡ with_flight ns (mqtt_publish ext params w).1
  unfolding mqtt_publish
  publish_flight = ground arith

  create_options_flight :
      (mqtt_create_connect_options (with_flight ns w)).1
      ≡ with_flight ns (mqtt_create_connect_options w).1
  unfolding mqtt_create_connect_options
  create_options_flight = ground arith

  set_options_flight :
      (mqtt_set_options ext params (with_flight ns w)).1
      ≡ with_flight ns (mqtt_set_options ext params w).1
  unfolding mqtt_set_options
  set_options_flight = ground arith

  set_callback_flight :
      (name : NativeName) (types : List ParamType)
      (set : Client → Cell → History → Client × History)
      → (set_callback name types set ext params (with_flight ns w)).1
        ≡ with_flight ns (set_callback name types set ext params w).1
  unfolding set_callback
  set_callback_flight name types set = ground arith

-- Each native does the same, whatever handlers are in flight, and leaves them alone.
call_flight :
    (ext : External) (name : NativeName) (params : List Cell) (ns : List (Notice Handle))
    (w : World)
    → (Natives.call ext name params (with_flight ns w)).1
      ≡ with_flight ns (Natives.call ext name params w).1
unfolding Natives.call mqtt_set_connected_callback mqtt_set_message_callback
    mqtt_set_connection_lost_callback mqtt_set_disconnected_callback
call_flight ext NativeName.mqtt_create params ns w = create_flight ext params ns w
call_flight ext NativeName.mqtt_destroy params ns w = destroy_flight ext params ns w
call_flight ext NativeName.mqtt_connect params ns w = connect_flight ext params ns w
call_flight ext NativeName.mqtt_disconnect params ns w = disconnect_flight ext params ns w
call_flight ext NativeName.mqtt_is_connect params ns w = is_connect_flight ext params ns w
call_flight ext NativeName.mqtt_subscribe params ns w = subscribe_flight ext params ns w
call_flight ext NativeName.mqtt_unsubscribe params ns w = unsubscribe_flight ext params ns w
call_flight ext NativeName.mqtt_publish params ns w = publish_flight ext params ns w
call_flight ext NativeName.mqtt_set_options params ns w = set_options_flight ext params ns w
call_flight ext NativeName.mqtt_set_connected_callback params ns w =
    set_callback_flight ext params ns w NativeName.mqtt_set_connected_callback connected_types
      set_connected
call_flight ext NativeName.mqtt_set_message_callback params ns w =
    set_callback_flight ext params ns w NativeName.mqtt_set_message_callback message_types
      set_message
call_flight ext NativeName.mqtt_set_connection_lost_callback params ns w =
    set_callback_flight ext params ns w NativeName.mqtt_set_connection_lost_callback
      connection_lost_types set_connection_lost
call_flight ext NativeName.mqtt_set_disconnected_callback params ns w =
    set_callback_flight ext params ns w NativeName.mqtt_set_disconnected_callback disconnected_types
      set_disconnected
call_flight ext NativeName.mqtt_create_connect_options params ns w =
    create_options_flight ext params ns w

-- So does everything that the game thread does.
pub act_flight :
    (ext : External) (a : Action) (ns : List (Notice Handle)) (w : World)
    → IsGame a
    → act ext a (with_flight ns w) ≡ with_flight ns (act ext a w)
unfolding act on_amxx_attach register_rehlds_frame_hook on_plugins_loaded on_plugins_unloading
    on_amxx_detach unregister_rehlds_frame_hook
act_flight ext (native name params) ns w g = call_flight ext name params ns w
act_flight ext (thread t) ns w g = absurd g
act_flight ext (attach e) ns w g = ground arith
act_flight ext plugins_loaded ns w g = ground arith
act_flight ext plugins_unloading ns w g = ground arith
act_flight ext detach ns w g = ground arith
