-- ===== src/Examples/Clients.antt =====
-- The theorems on clients, options and the engine at concrete inputs.
use amxx_mqtt_client.Prelude.{
  ◌≡◌, refl, true, false, none, some, List, [], ◌∷◌, map, if◌then◌else◌, ◌↔◌,
}
use amxx_mqtt_client.External.{
  connected, message_arrived, connection_lost, NetworkEvent, register_hook, no_error,
}
use amxx_mqtt_client.MqttClient.{receive_all}
use amxx_mqtt_client.MqttClient.Events.{receive_all_trace, flag_after_all, notice_of, SameParts}
use amxx_mqtt_client.MqttClientMgr
use amxx_mqtt_client.MqttClientMgr.Operations.{make-Made, Made}
use amxx_mqtt_client.ConnectOptionMgr
use amxx_mqtt_client.ConnectOptionMgr.{is_used, get_options, max_index}
use amxx_mqtt_client.ConnectOptionMgr.Consistency.{make-Indexed, Indexed}
use amxx_mqtt_client.RehldsFrameHook.{
  find_frame_registry, register_rehlds_frame_hook, check_rehlds_api, find_engine_factory,
}
use amxx_mqtt_client.RehldsFrameHook.Registry.{
  find_frame_registry_iff, register_agrees_check, Offers,
}
use amxx_mqtt_client.Examples.{working, base, mgr, options, arrived, world, engine}

abbrev heard : List NetworkEvent
heard = connected [] ∷ message_arrived arrived ∷ connection_lost [] ∷ []

receive_all_trace_example :
    ((receive_all base heard).0.is_connected ≡ flag_after_all heard base.is_connected)
    × ((receive_all base heard).1 ≡ (if base.stopping then [] else map (notice_of 1) heard))
    × SameParts base (receive_all base heard).0
receive_all_trace_example =
    receive_all_trace 1 base heard
      (record { connected = refl; message = refl; lost = refl; disconnected = refl })

make-Made_example :
    Made working (1 ∷ []) (2 ∷ []) mgr [] (MqttClientMgr.make working (1 ∷ []) (2 ∷ []) mgr [])
make-Made_example = make-Made working (1 ∷ []) (2 ∷ []) mgr []

make-Indexed_example : Indexed options (ConnectOptionMgr.make options)
make-Indexed_example = make-Indexed options

find_frame_registry_iff_example :
    (find_frame_registry (engine 3 14) ≡ (some 5, no_error)) ↔ Offers (engine 3 14) 5
find_frame_registry_iff_example = find_frame_registry_iff (engine 3 14) 5

-- The version check: 3.7 and 3.14 pass, 3.6 and 4.0 do not.
versions :
    ((check_rehlds_api (engine 3 7)).0 ≡ true)
    × ((check_rehlds_api (engine 3 14)).0 ≡ true)
    × ((check_rehlds_api (engine 3 6)).0 ≡ false)
    × ((check_rehlds_api (engine 4 0)).0 ≡ false)
unfolding check_rehlds_api find_frame_registry find_engine_factory
versions = (refl, refl, refl, refl)

register_agrees_check_example :
    ((register_rehlds_frame_hook (engine 3 14) world).0 ≡ (check_rehlds_api (engine 3 14)).0)
    × ((register_rehlds_frame_hook (engine 3 14) world).2.history
        ≡ (elim (find_frame_registry (engine 3 14)).0 [
          | none ↦ world.history
          | some r ↦ register_hook r ∷ world.history
        ]))
    × ((register_rehlds_frame_hook (engine 3 14) world).2.frame_registry
        ≡ (find_frame_registry (engine 3 14)).0)
register_agrees_check_example = register_agrees_check (engine 3 14) world refl
