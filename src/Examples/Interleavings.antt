-- ===== src/Examples/Interleavings.antt =====
-- The theorems on callbacks that run beside one another and beside a destructor, at concrete runs.
use amxx_mqtt_client.Prelude.{◌≡◌, ◌++◌, refl, true, false, List, [], ◌∷◌, arith}
use amxx_mqtt_client.Prelude.Takes.{Supplies}
use amxx_mqtt_client.IntMap.{find, erase, assign}
use amxx_mqtt_client.External.{Call, NativeName, message_arrived, connection_lost}
use amxx_mqtt_client.MqttClient.{Notice, on_message, on_connection_lost}
use amxx_mqtt_client.MqttClient.Callbacks.{
  Connection, start, write_flag, copied, entered, holding, calling, locking, draining, Steps, here,
  next, enter, lock, copy, call, destruct,
}
use amxx_mqtt_client.MqttClient.Callbacks.Ending.{Ends, destructor-Ends}
use amxx_mqtt_client.MqttClient.Callbacks.Stopping.{in_hand, stopping-calls}
use amxx_mqtt_client.MqttClientMgr.{Handle, Client}
use amxx_mqtt_client.AmxxMqttClient.{unregister_if_set}
use amxx_mqtt_client.MqttClientMgr
use amxx_mqtt_client.Natives.Args.{arg_count}
use amxx_mqtt_client.System.{Action, acts, thread, network, native}
use amxx_mqtt_client.System.Interleaving.Traces.{without_deliveries}
use amxx_mqtt_client.System.Interleaving
use amxx_mqtt_client.System.Interleaving.{
  State, idle, one, stopped, unregister_forwards, on_enter, on_copy,
}
use amxx_mqtt_client.System.Interleaving.Atomicity.{Steps-acts}
use amxx_mqtt_client.Examples.{base, client, arrived, world, working}
use amxx_mqtt_client.Examples.Runs.{world-IsSound}

-- A callback has copied its handler, another is about to copy, and the destructor has the lock.
abbrev torn : Connection Handle
torn = record {
  client = record base { is_connected = false };
  phase = locking;
  locked = true;
  callbacks = calling (on_message 1 arrived) ∷ entered (connection_lost []) ∷ [];
  called = [];
}

torn_reached : Steps (start base) torn
unfolding write_flag copied
torn_reached =
    next
      (next
        (next
          (next (next here (enter (message_arrived arrived) (ground arith)))
            (lock (message_arrived arrived) [] [] refl refl))
          (enter (connection_lost []) (ground arith)))
        (copy (message_arrived arrived) [] (entered (connection_lost []) ∷ []) refl))
      (destruct refl refl)

destructor-Ends_example : Ends 5 torn
destructor-Ends_example = destructor-Ends 5 base torn_reached (ground arith)

-- Then m_stopping is set, and both callbacks go on.
abbrev drained : Connection Handle
drained = record torn {
  client = record base { is_connected = false; stopping = true };
  phase = draining;
  locked = false;
}

abbrev over : Connection Handle
over = record drained { callbacks = []; called = on_message 1 arrived ∷ [] }

over_reached : Steps drained over
unfolding write_flag copied
over_reached =
    next
      (next
        (next here (lock (connection_lost []) (calling (on_message 1 arrived) ∷ []) [] refl refl))
        (call (on_message 1 arrived) [] (holding (connection_lost []) ∷ []) refl))
      (copy (connection_lost []) [] [] refl)

stopping-calls_example :
    (since : List (Notice Handle)) × (over.called ≡ drained.called ++ since)
    × Supplies (in_hand drained.callbacks) (since ++ in_hand over.callbacks)
stopping-calls_example = stopping-calls refl over_reached

-- A callback of client 1 begins, mqtt_destroy takes the client out of the map, the callback copies its
-- handler, and the destructors run.
abbrev destroyed : State
destroyed = record {
  world = record world {
    mgr = record { clients = []; next_handle = 2 };
    in_flight = on_message 1 arrived ∷ on_connection_lost 1 [] ∷ [];
    history =
        Call.delete_client 7
        ∷ Call.unregister_forward 42
        ∷ Call.unregister_forward 41
        ∷ Call.unregister_forward 40
        ∷ [];
  };
  task = idle;
  entered = [];
}

abbrev lost : Client
lost = record client { base = record base { is_connected = false } }

unfoldable destroyed_reached :
    Interleaving.Steps working (record { world = world; task = idle; entered = [] }) destroyed
unfolding write_flag copied on_enter on_copy unregister_forwards find erase assign arg_count
    MqttClientMgr.update unregister_if_set
destroyed_reached =
    let u = one (4 ∷ 1 ∷ []) refl in
    Interleaving.next
      (Interleaving.next
        (Interleaving.next
          (Interleaving.next
            (Interleaving.next
              (Interleaving.next
                (Interleaving.next Interleaving.here
                  (Interleaving.enter 1 (connection_lost []) client refl))
                (Interleaving.begin_destroy (4 ∷ 1 ∷ []) refl lost refl refl))
              (Interleaving.copy 1 (connection_lost []) [] [] refl))
            (Interleaving.unregister u 1 lost [] refl))
          (Interleaving.stop u 1 lost [] refl))
        (Interleaving.delete u 1 (stopped lost) [] refl))
      (Interleaving.finish u refl)

Steps-acts_example :
    (as' : List Action) × (ns : List (Notice Handle)) × (without_deliveries as'
      ≡ thread (network 1 (connection_lost [])) ∷ native NativeName.mqtt_destroy (4 ∷ 1 ∷ []) ∷ [])
    × (acts working as' world ≡ record destroyed.world { in_flight = ns })
    × Supplies ns destroyed.world.in_flight
unfolding destroyed_reached
Steps-acts_example = Steps-acts working world world-IsSound destroyed_reached refl
