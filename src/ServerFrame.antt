-- ===== src/ServerFrame.antt =====
-- ExecuteCallback and ProcessPendingCallbacks of src/CallbackDispatcher.cpp, and OnServerFrame of
-- src/RehldsFrameHook.cpp. What runs while the queue is not locked is a parameter: `engine_frame`, the
-- engine under callNext, `pawn`, the plugin's
-- code under a forward, which may call natives and unload plugins, and `meanwhile`, what the other
-- threads do before a round takes the lock, by the rounds left.
pub mod Invariants
pub mod Batch
pub mod Order
pub mod Draining
use amxx_mqtt_client.Prelude.{ℕ, zero, suc, Option, none, some, min, length}
use amxx_mqtt_client.External.{Call, call_next}
use amxx_mqtt_client.MqttClientMgr
use amxx_mqtt_client.CallbackDispatcher.{CallbackEvent, pop, forward_call, max_callbacks_per_frame}
use amxx_mqtt_client.World.{World, note}

pub record Surroundings : Type 0 where
  pub engine_frame : World → World
  pub pawn : Call → World → World
  pub meanwhile : ℕ → World → World

-- The forward that an event would execute now.
unfoldable pub resolve : CallbackEvent → World → Option Call
resolve event w = elim (MqttClientMgr.get_client w.mgr event.handle) [
  | none ↦ none
  | some client ↦ forward_call client event
]

unfoldable pub execute_callback : Surroundings → CallbackEvent → World → World
unfolding resolve
execute_callback s event w = elim (resolve event w) [
  | none ↦ w
  | some call ↦ s.pawn call (note call w)
]

unfoldable pub process_loop : Surroundings → ℕ → World → World
process_loop s zero w = w
process_loop s (suc remaining) w =
    let w' = s.meanwhile remaining w in
    elim (pop w'.dispatcher) [
      | none ↦ w'
      | some (event, d) ↦
          process_loop s remaining (execute_callback s event (record w' { dispatcher = d }))
    ]

unfoldable pub process_pending_callbacks : Surroundings → World → World
process_pending_callbacks s w =
    process_loop s (min (length w.dispatcher.pending) max_callbacks_per_frame) w

unfoldable pub on_server_frame : Surroundings → World → World
on_server_frame s w = process_pending_callbacks s (s.engine_frame (note call_next w))
