-- ===== src/Examples/Silence.antt =====
-- What whole runs leave of the connection flag and of the silence between maps, at concrete states.
use amxx_mqtt_client.Prelude.{◌≡◌, refl, List, [], ◌∷◌, arith}
use amxx_mqtt_client.IntMap.{find}
use amxx_mqtt_client.External.{NativeName, connected, connection_lost, action_success}
use amxx_mqtt_client.MqttClientMgr.{get_client}
use amxx_mqtt_client.CallbackDispatcher.{idle}
use amxx_mqtt_client.ServerFrame.Batch.{executions}
use amxx_mqtt_client.Natives.Args.{arg_count}
use amxx_mqtt_client.Natives.Clients.{mqtt_is_connect}
use amxx_mqtt_client.Module.{on_plugins_unloading}
use amxx_mqtt_client.System.{
  ThreadAction, network, deliver, thread_steps, Step, action, frame, native, thread, detach, run,
}
use amxx_mqtt_client.System.Connection.{mqtt_is_connect-thread_steps}
use amxx_mqtt_client.System.Closing.{on_plugins_unloading_silences}
use amxx_mqtt_client.Examples.{working, client, world, script}
use amxx_mqtt_client.Examples.Runs.{world-IsSound}

-- Client 1 is connected again after it lost its connection; an event of client 2 changes nothing.
abbrev traffic : List ThreadAction
traffic =
    network 1 (connection_lost [])
    ∷ deliver 0
    ∷ network 1 (connected [])
    ∷ network 2 action_success
    ∷ []

mqtt_is_connect-thread_steps_example :
    mqtt_is_connect working (4 ∷ 1 ∷ []) (thread_steps traffic world)
    ≡ (1, thread_steps traffic world)
unfolding get_client find arg_count
mqtt_is_connect-thread_steps_example =
    mqtt_is_connect-thread_steps working (4 ∷ 1 ∷ []) traffic world client (omega arith) refl

-- A late event of the old client, a new client, a frame and the detach.
abbrev between_maps : List Step
between_maps =
    action (thread (deliver 0))
    ∷ action (native NativeName.mqtt_create (8 ∷ 1 ∷ 2 ∷ []))
    ∷ frame script
    ∷ action detach
    ∷ []

on_plugins_unloading_silences_example :
    let v = run working between_maps (on_plugins_unloading working world) in
    (executions v.history ≡ executions world.history) × (v.dispatcher ≡ idle)
on_plugins_unloading_silences_example =
    on_plugins_unloading_silences working between_maps world world-IsSound
      (refl, (refl, (tt, (refl, tt))))
