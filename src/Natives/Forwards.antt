-- ===== src/Natives/Forwards.antt =====
-- The forwards that three of the mqtt_set_…_callback natives of src/natives.cpp register, and those that
-- a client of src/AmxxMqttClient.cpp gives back.
use amxx_mqtt_client.Prelude.{
  ◌≡◌, ◌≢◌, refl, none, some, List, [], ◌∷◌, arith, ◌==◌, if◌then◌else◌, ◌≤◌,
}
use amxx_mqtt_client.IntMap.{find-erase}
use amxx_mqtt_client.External.{
  Cell, Text, minus_one, register_forward, unregister_forward, delete_client, ParamType, External,
  History,
}
use amxx_mqtt_client.MqttClient
use amxx_mqtt_client.AmxxMqttClient
use amxx_mqtt_client.MqttClientMgr
use amxx_mqtt_client.MqttClientMgr.{MqttClientMgr, Client, Handle, get_client}
use amxx_mqtt_client.MqttClientMgr.Operations.{destroy-silent}
use amxx_mqtt_client.CallbackDispatcher.{dispatch_all}
use amxx_mqtt_client.World.{World, note}
use amxx_mqtt_client.Natives.Args.{param, arg_count}
use amxx_mqtt_client.Natives.Clients.{destroy_client}
use amxx_mqtt_client.Natives.Callbacks.{
  connected_types, connection_lost_types, disconnected_types, mqtt_set_connected_callback,
  mqtt_set_connection_lost_callback, mqtt_set_disconnected_callback,
}

-- The forwards of a client, those of the four that are not -1, in the order of its destructor.
abbrev if_set : Cell → List Cell → List Cell
if_set id rest = if id == minus_one then rest else id ∷ rest

abbrev pub forwards : Client → List Cell
forwards c = if_set c.on_connected_forward_id (
    if_set c.on_message_forward_id
      (if_set c.on_connection_lost_forward_id (if_set c.on_disconnect_forward_id [])))

-- The calls that unregister forwards, one by one, on top of those made before.
abbrev pub unregistered : List Cell → History → History
unregistered [] h = h
unregistered (id ∷ ids) h = unregistered ids (unregister_forward id ∷ h)

destruct-calls :
    (ext : External) (c : Client) (h : History)
    → (AmxxMqttClient.destruct ext c h).1 ≡ delete_client c.client ∷ unregistered (forwards c) h
unfolding AmxxMqttClient.destruct MqttClient.destruct
destruct-calls ext c h = ground arith

-- Destroying a live client unregisters each of its forwards once, and then deletes its Paho client; no
-- other call is made. The queue, the other clients and the next handle stay as they were.
pub destroy_client_calls :
    (ext : External) (k : Handle) (c : Client) (w : World)
    → get_client w.mgr k ≡ some c
    → let v = destroy_client ext k w in
      (v.history ≡ delete_client c.client ∷ unregistered (forwards c) w.history)
      × (v.dispatcher ≡ w.dispatcher)
      × (v.mgr.next_handle ≡ w.mgr.next_handle)
      × ((j : Handle) → get_client v.mgr j ≡ (if k == j then none else get_client w.mgr j))
unfolding destroy_client get_client MqttClientMgr.destroy dispatch_all
destroy_client_calls ext k c w f = (
  rw (f, MqttClientMgr.destroy) (destruct-calls ext c w.history),
  rw (destroy-silent ext k w.mgr w.history) refl,
  rw (f, MqttClientMgr.destroy),
  λ j. rw (f, MqttClientMgr.destroy) (find-erase w.mgr.clients k j),
)

module _ (ext : External) (params : List Cell) (w : World) (c : Client) where
  abbrev pub callback_name : Text
  callback_name = ext.amx_string w.history (param params 2)

  abbrev pub registering : List ParamType → World
  registering types = note (register_forward callback_name types) w

  abbrev pub new_id : List ParamType → Cell
  new_id types = ext.forward w.history callback_name types

  -- A client after the write of a forward id through the pointer that getClient returned.
  abbrev pub with_client : Client → World → World
  with_client d v = record v { mgr = MqttClientMgr.update v.mgr (param params 1) d }

  -- With enough arguments and a live client, if AMX Mod X registers the forward, each of the
  -- three natives but the one for messages returns 1 and overwrites the id that the client had.
  -- The only call that it makes is the registration of the new forward: one that was registered
  -- before is not unregistered.
  pub other_callbacks_leak :
      2 ≤ arg_count params
      → get_client w.mgr (param params 1) ≡ some c
      → new_id connected_types ≢ minus_one
      → new_id connection_lost_types ≢ minus_one
      → new_id disconnected_types ≢ minus_one
      → (mqtt_set_connected_callback ext params w ≡ (
        1,
        with_client
            (record c { on_connected_forward_id = new_id connected_types })
            (registering connected_types),
      ))
        × (mqtt_set_connection_lost_callback ext params w ≡ (
          1,
          with_client
              (record c { on_connection_lost_forward_id = new_id connection_lost_types })
              (registering connection_lost_types),
        ))
        × (mqtt_set_disconnected_callback ext params w ≡ (
          1,
          with_client
              (record c { on_disconnect_forward_id = new_id disconnected_types })
              (registering disconnected_types),
        ))
  unfolding mqtt_set_connected_callback mqtt_set_connection_lost_callback
      mqtt_set_disconnected_callback AmxxMqttClient.set_on_connected_forward_id
      AmxxMqttClient.set_on_connection_lost_forward_id AmxxMqttClient.set_disconnect_forward_id
  other_callbacks_leak enough f a b d = (ground arith, ground arith, ground arith)
