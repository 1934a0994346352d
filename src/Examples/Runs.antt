-- ===== src/Examples/Runs.antt =====
-- The theorems on frames and on whole runs at concrete states.
use amxx_mqtt_client.Prelude.{
  length, min, ◌≡◌, ◌≤◌, ◌<◌, ◌+◌, ◌++◌, refl, sym, none, List, [], ◌∷◌, arith, take, drop,
}
use mathlib.Core.List.{append-nil}
use amxx_mqtt_client.IntMap.{find, assign}
use amxx_mqtt_client.External.{Cell, NativeName, message_arrived, execute_forward, cell, string}
use amxx_mqtt_client.MqttClientMgr.{Client, Handle, get_client}
use amxx_mqtt_client.MqttClientMgr.Changes.{Inv}
use amxx_mqtt_client.CallbackDispatcher.{CallbackEvent}
use amxx_mqtt_client.World.{initial}
use amxx_mqtt_client.ServerFrame.{
  on_server_frame, process_loop, process_pending_callbacks, resolve, execute_callback,
}
use amxx_mqtt_client.ServerFrame.Batch.{executions}
use amxx_mqtt_client.ServerFrame.Order.{
  with_queue, delivered, process_pending_callbacks_idle, process_pending_callbacks_appends,
  IsAppending, added,
}
use amxx_mqtt_client.Natives.Clients.{destroy_client, mqtt_create}
use amxx_mqtt_client.System.{
  Step, action, frame, native, thread, network, deliver, act, attach, plugins_loaded,
  plugins_unloading, detach, step, run,
}
use amxx_mqtt_client.System.Soundness.{run-IsSound}
use amxx_mqtt_client.System.Threads.{IsSound}
use amxx_mqtt_client.System.Handles.{destroy_client_final, mqtt_create_unique}
use amxx_mqtt_client.System.Frames.{executions-step_le, allowance}
use amxx_mqtt_client.System.Hooks.{IsHookedOnce, run-IsHookedOnce}
use amxx_mqtt_client.System.Options.{run-HasConsistent}
use amxx_mqtt_client.System.Delivery.{event_delivered, after}
use amxx_mqtt_client.CallbackDispatcher.Queue.{event_of}
use amxx_mqtt_client.MqttClient.Events.{notice_of}
use amxx_mqtt_client.System.{on_network, on_deliver}
use amxx_mqtt_client.Module.{on_plugins_unloading, on_plugins_loaded, on_amxx_attach}
use amxx_mqtt_client.CallbackDispatcher.{start, dispatch, pop, pop_list, forward_call, arguments_of}
use amxx_mqtt_client.ConnectOptionMgr.Indices.{IsConsistent}
use amxx_mqtt_client.MqttClientMgr
use amxx_mqtt_client.Natives
use amxx_mqtt_client.Natives.Callbacks.{mqtt_set_message_callback}
use amxx_mqtt_client.MqttClient.{receive, fresh}
use amxx_mqtt_client.RehldsFrameHook.{
  register_rehlds_frame_hook, find_frame_registry, find_engine_factory,
}
use amxx_mqtt_client.AmxxMqttClient
use amxx_mqtt_client.Examples.{
  working, client, world, mgr, engine, alone, busy, script, quiet, message_event, arrived,
}

mgr-Inv : Inv mgr
mgr-Inv = record {
  positive = omega arith;
  bounded = omega arith;
  entries = (
    (
      omega arith,
      omega arith,
      record { connected = refl; message = refl; lost = refl; disconnected = refl },
      refl,
    ),
    tt,
  );
  size = omega arith;
}

pub world-IsSound : IsSound world
world-IsSound = record {
  mgr = mgr-Inv;
  queue = record { given = (omega arith, tt); quiet = λ p. absurd (ground (arith, p)) };
  flying = (omega arith, tt);
}

-- A whole life of the module.
abbrev life : List Step
life =
    action (attach (engine 3 14))
    ∷ action plugins_loaded
    ∷ action (native NativeName.mqtt_create (8 ∷ 1 ∷ 2 ∷ []))
    ∷ action (native NativeName.mqtt_set_message_callback (8 ∷ 1 ∷ 3 ∷ []))
    ∷ action (thread (network 1 (message_arrived arrived)))
    ∷ action (thread (deliver 0))
    ∷ frame script
    ∷ action plugins_unloading
    ∷ action detach
    ∷ []

run-IsSound_example : IsSound (run working life world)
run-IsSound_example = run-IsSound working life world world-IsSound

destroy_client_final_example :
    (get_client (run working life (destroy_client working 1 world)).mgr 1 ≡ none)
    × ((e : CallbackEvent)
        → resolve (record e { handle = 1 }) (run working life (destroy_client working 1 world))
          ≡ none)
unfolding get_client find
destroy_client_final_example = destroy_client_final working 1 client world life world-IsSound refl

abbrev creation : List Cell
creation = 8 ∷ 1 ∷ 2 ∷ []

executions-step_le_example :
    executions (step working (frame script) world).history
    ≤ executions world.history + allowance (frame script)
executions-step_le_example = executions-step_le working (frame script) world

process_pending_callbacks_idle_example :
    process_pending_callbacks alone (with_queue world (message_event ∷ []) [])
    ≡ with_queue world
        (drop 256 (message_event ∷ []))
        (delivered world (take 256 (message_event ∷ [])) [])
process_pending_callbacks_idle_example =
    process_pending_callbacks_idle (record { pawn = λ c w. refl; meanwhile = λ k w. refl }) world
      (message_event ∷ []) []

-- A thread adds an event in each round.
abbrev busy_appends : IsAppending busy
busy_appends = record {
  by_pawn = λ c w. [];
  by_others = λ k w. message_event ∷ [];
  pawn = λ c w. (sym (append-nil _), refl);
  meanwhile = λ k w. (refl, refl);
}

process_pending_callbacks_appends_example :
    (process_pending_callbacks busy world).dispatcher.pending
    ≡ drop 256 world.dispatcher.pending
      ++ added busy_appends
          (min (length world.dispatcher.pending) 256)
          world.dispatcher.pending
          world
process_pending_callbacks_appends_example =
    process_pending_callbacks_appends busy_appends world refl

run-IsHookedOnce_example : IsHookedOnce (run working life initial)
run-IsHookedOnce_example = run-IsHookedOnce working life

-- A client of the old map is gone with the map, and the next one gets another handle.
mqtt_create_unique_example :
    (mqtt_create working creation world).0
    < (mqtt_create working creation
        (run working (action plugins_unloading ∷ []) (mqtt_create working creation world).1)).0
unfolding mqtt_create MqttClientMgr.make AmxxMqttClient.construct run step act on_plugins_unloading
    MqttClientMgr.reset
mqtt_create_unique_example =
    mqtt_create_unique working creation creation world (action plugins_unloading ∷ []) world-IsSound
      (omega arith) (omega arith)

-- From the attach to a message of the network, the plugin's forward is executed with handle, topic and
-- payload.
abbrev first_frame : List Step
first_frame =
    action (attach (engine 3 14))
    ∷ action plugins_loaded
    ∷ action (native NativeName.mqtt_create (8 ∷ 1 ∷ 2 ∷ []))
    ∷ action (native NativeName.mqtt_set_message_callback (8 ∷ 1 ∷ 3 ∷ []))
    ∷ action (thread (network 1 (message_arrived arrived)))
    ∷ action (thread (deliver 0))
    ∷ frame quiet
    ∷ []

message_heard :
    take 1 (run working first_frame initial).history
    ≡ execute_forward 77 (cell 1 ∷ string (3 ∷ []) ∷ string (4 ∷ []) ∷ []) ∷ []
unfolding run step act mqtt_create on_server_frame process_pending_callbacks process_loop get_client
    find Natives.call mqtt_set_message_callback MqttClientMgr.make on_plugins_loaded on_amxx_attach
    register_rehlds_frame_hook find_frame_registry find_engine_factory AmxxMqttClient.construct
    MqttClientMgr.update assign receive AmxxMqttClient.set_on_message_forward_id
    AmxxMqttClient.with_no_forwards fresh start dispatch pop resolve execute_callback forward_call
    arguments_of pop_list
message_heard = refl

event_delivered_example :
    let v =
      process_pending_callbacks alone
        (on_deliver 1 (on_network 1 (message_arrived arrived) world)) in
    let before = delivered world (message_event ∷ []) [] in
    (v.dispatcher.pending ≡ [])
    × (v.history
        ≡ after (forward_call client (event_of (notice_of 1 (message_arrived arrived)))) before)
unfolding get_client find
event_delivered_example =
    event_delivered 1 (message_arrived arrived) client world alone
      (record { pawn = λ c w. refl; meanwhile = λ k w. refl }) refl
      (record { connected = refl; message = refl; lost = refl; disconnected = refl }) refl refl
      (omega arith)

run-HasConsistent_example : IsConsistent (run working life initial).options
run-HasConsistent_example = run-HasConsistent working life
