-- ===== src/Examples/Plugins.antt =====
-- The theorems on natives at concrete arguments.
use amxx_mqtt_client.Prelude.{
  length, ◌≡◌, ◌+◌, ◌≤◌, refl, none, some, List, [], ◌∷◌, arith, if◌then◌else◌, ◌==◌, ltb,
}
use amxx_mqtt_client.IntMap.{find}
use amxx_mqtt_client.External.{Cell, Call, External, delete_client, NativeName, invalid_option_name}
use amxx_mqtt_client.MqttClientMgr.{Handle, get_client}
use amxx_mqtt_client.ConnectOptionMgr.{get_options, new_option}
use amxx_mqtt_client.ConnectOptionMgr.Indices.{look}
use amxx_mqtt_client.CallbackDispatcher.{CallbackType}
use amxx_mqtt_client.World.{World}
use amxx_mqtt_client.Natives
use amxx_mqtt_client.Natives.Args.{arg_count}
use amxx_mqtt_client.Natives.Clients.{destroy_client, mqtt_connect}
use amxx_mqtt_client.Natives.Topics.{mqtt_subscribe, mqtt_publish}
use amxx_mqtt_client.Natives.Options.{mqtt_set_options}
use amxx_mqtt_client.Natives.Growth.{probes, probes_grow}
use amxx_mqtt_client.Natives.Requests.{
  CanSubscribe, CanPublish, Submits, subscribe_call, publish_call, mqtt_subscribe_iff,
  mqtt_publish_iff, requests_of_old_plugins,
}
use amxx_mqtt_client.Natives.Forwards.{forwards, unregistered, destroy_client_calls}
use amxx_mqtt_client.Natives.Leaks.{sets, registrations, unregistrations, repeated_callbacks_leak}
use amxx_mqtt_client.Natives.Settings.{mqtt_connect_consumes, mqtt_set_options_writes, option_after}
use amxx_mqtt_client.Natives.Reports.{reports, call-IsReported}
use amxx_mqtt_client.Examples.{working, client, world}

-- Client 1, topic 3 and QoS 2; the same with payload 6, retained; client 1 and topic 3.
abbrev subscription : List Cell
subscription = 12 ∷ 1 ∷ 3 ∷ 2 ∷ []

abbrev publication : List Cell
publication = 20 ∷ 1 ∷ 3 ∷ 6 ∷ 1 ∷ 2 ∷ []

abbrev two_cells : List Cell
two_cells = 8 ∷ 1 ∷ 3 ∷ []

mqtt_subscribe_iff_example :
    Submits working subscription world
      (CanSubscribe working subscription world)
      (subscribe_call working subscription world)
      (mqtt_subscribe working subscription world)
mqtt_subscribe_iff_example = mqtt_subscribe_iff working subscription world

mqtt_publish_iff_example :
    Submits working publication world
      (CanPublish working publication world)
      (publish_call working publication world)
      (mqtt_publish working publication world)
mqtt_publish_iff_example = mqtt_publish_iff working publication world

requests_of_old_plugins_example :
    (mqtt_subscribe working (8 ∷ 1 ∷ 3 ∷ 9 ∷ []) world
      ≡ mqtt_subscribe working (12 ∷ 1 ∷ 3 ∷ 0 ∷ []) world)
    × (mqtt_publish working (12 ∷ 1 ∷ 3 ∷ 6 ∷ 9 ∷ 8 ∷ []) world
        ≡ mqtt_publish working (20 ∷ 1 ∷ 3 ∷ 6 ∷ 0 ∷ 0 ∷ []) world)
    × (mqtt_publish working (16 ∷ 1 ∷ 3 ∷ 6 ∷ 1 ∷ 9 ∷ []) world
        ≡ mqtt_publish working (20 ∷ 1 ∷ 3 ∷ 6 ∷ 1 ∷ 0 ∷ []) world)
requests_of_old_plugins_example =
    requests_of_old_plugins working world 8 12 16 1 3 6 1 9 8 refl refl refl

destroy_client_calls_example :
    let v = destroy_client working 1 world in
    (v.history ≡ delete_client client.client ∷ unregistered (forwards client) world.history)
    × (v.dispatcher ≡ world.dispatcher)
    × (v.mgr.next_handle ≡ world.mgr.next_handle)
    × ((j : Handle) → get_client v.mgr j ≡ (if 1 == j then none else get_client world.mgr j))
unfolding get_client find
destroy_client_calls_example = destroy_client_calls working 1 client world refl

-- Connect options 5 of the client, and a session expiry interval of 60 seconds in them.
abbrev connection : List Cell
connection = 8 ∷ 1 ∷ 5 ∷ []

abbrev expiry : List Cell
expiry = 12 ∷ 5 ∷ 3 ∷ 60 ∷ []

mqtt_connect_consumes_example :
    let out = mqtt_connect working connection world in
    let call = Call.connect 7 [] in
    (out.1.history ≡ call ∷ [])
    × (out.0 ≡ 1)
    × ((j : Cell) → look out.1.options j ≡ (if 5 == j then none else look world.options j))
    × (out.1.mgr ≡ world.mgr)
    × (out.1.dispatcher ≡ world.dispatcher)
unfolding get_client get_options find arg_count
mqtt_connect_consumes_example =
    mqtt_connect_consumes working connection world client new_option (omega arith) refl refl

mqtt_set_options_writes_example :
    let out = mqtt_set_options working expiry world in
    (out.0 ≡ (if ltb 3 4 then 1 else 0))
    × ((j : Cell)
        → look out.1.options j ≡ (
            if 5 == j
            then some (
                if ltb 3 4
                then option_after working expiry world client new_option 3
                else new_option)
            else look world.options j))
    × (out.1.mgr ≡ world.mgr)
    × (out.1.history
        ≡ (if ltb 3 4 then world.history else Call.log_error invalid_option_name ∷ world.history))
unfolding get_options find arg_count
mqtt_set_options_writes_example =
    mqtt_set_options_writes working expiry world client new_option (omega arith) refl

abbrev called : Cell × World
called = Natives.call working NativeName.mqtt_publish publication world

call-IsReported_example :
    (called.0 ≤ 1) × (called.0 + reports called.1.history ≡ reports world.history + 1)
call-IsReported_example = call-IsReported working NativeName.mqtt_publish publication world refl

probes_grow_example :
    length (probes working 1000 6 world).options.options ≡ length world.options.options + 1000
probes_grow_example = probes_grow working 1000 6 world (omega arith, tt) (omega arith)

-- Every function is there, and each forward gets the id 77.
abbrev finding : External
finding = record working { forward = λ h name types. 77 }

-- The callback for lost connections twice, and then the other two.
abbrev settings : List (CallbackType × List Cell)
settings =
    (CallbackType.connection_lost, 8 ∷ 1 ∷ 3 ∷ [])
    ∷ (CallbackType.connection_lost, 8 ∷ 1 ∷ 4 ∷ [])
    ∷ (CallbackType.connected, 8 ∷ 1 ∷ 5 ∷ [])
    ∷ (CallbackType.disconnected, 8 ∷ 1 ∷ 6 ∷ [])
    ∷ []

repeated_callbacks_leak_example :
    let v = destroy_client finding 1 (sets finding settings world) in
    (registrations v.history ≡ length settings + registrations world.history)
    × (unregistrations v.history ≤ 4 + unregistrations world.history)
unfolding get_client find arg_count
repeated_callbacks_leak_example =
    repeated_callbacks_leak finding 1 settings world client (λ h name types e. ground (arith, e))
      refl (ground arith)
