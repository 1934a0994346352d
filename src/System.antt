-- ===== src/System.antt =====
-- The module as a whole: the events that drive it, one after the other. Between two of them no lock is
-- held. A thread of Paho that delivers an event does two things: it changes the client and copies the
-- handler (`network`), and later calls the handler (`deliver`); other events may come in between.

pub mod Threads
pub mod Soundness
pub mod Invariants
pub mod Handles
pub mod Frames
pub mod Hooks
pub mod Delivery
pub mod Options
pub mod Connection
pub mod Closing
pub mod Refinement
pub mod Registration
pub mod Interleaving
use amxx_mqtt_client.Prelude.{ℕ, zero, suc, Option, none, some, List, [], ◌∷◌, ◌++◌}
use amxx_mqtt_client.External.{Cell, Call, History, NativeName, NetworkEvent, External}
use amxx_mqtt_client.MqttClient
use amxx_mqtt_client.MqttClient.{Notice}
use amxx_mqtt_client.MqttClientMgr
use amxx_mqtt_client.MqttClientMgr.{Handle}
use amxx_mqtt_client.CallbackDispatcher.{dispatch}
use amxx_mqtt_client.World.{World}
use amxx_mqtt_client.Natives
use amxx_mqtt_client.RehldsFrameHook.{Engine}
use amxx_mqtt_client.ServerFrame.{Surroundings, on_server_frame}
use amxx_mqtt_client.Module.{
  on_amxx_attach, on_amxx_detach, on_plugins_loaded, on_plugins_unloading,
}

pub data ThreadAction : Type 0 where
  network : Handle → NetworkEvent → ThreadAction
  deliver : ℕ → ThreadAction

-- What the game thread does outside a server frame, or in one under a plugin's callback.
pub data Action : Type 0 where
  native : NativeName → List Cell → Action
  thread : ThreadAction → Action
  attach : Engine → Action
  plugins_loaded plugins_unloading detach : Action

-- The k-th of the handlers in flight, and the others.
unfoldable pub pick : ℕ → List (Notice Handle) → Option (Notice Handle × List (Notice Handle))
pick k [] = none
pick zero (n ∷ ns) = some (n, ns)
pick (suc k) (n ∷ ns) = elim (pick k ns) [ none ↦ none | some (x, rest) ↦ some (x, n ∷ rest) ]

unfoldable pub on_network : Handle → NetworkEvent → World → World
on_network handle e w = elim (MqttClientMgr.get_client w.mgr handle) [
  | none ↦ w
  | some c ↦
      let (b, ns) = MqttClient.receive c.base e in
      record w {
        mgr = MqttClientMgr.update w.mgr handle (record c { base = b });
        in_flight = w.in_flight ++ ns;
      }
]

unfoldable pub on_deliver : ℕ → World → World
unfolding pick
on_deliver k w = elim (pick k w.in_flight) [
  | none ↦ w
  | some (n, ns) ↦ record w { dispatcher = dispatch n w.dispatcher; in_flight = ns }
]

unfoldable pub thread_step : ThreadAction → World → World
unfolding on_network on_deliver
thread_step (network handle e) w = on_network handle e w
thread_step (deliver k) w = on_deliver k w

unfoldable pub act : External → Action → World → World
act ext (native name params) w = (Natives.call ext name params w).1
act ext (thread t) w = thread_step t w
act ext (attach e) w = on_amxx_attach e w
act ext plugins_loaded w = on_plugins_loaded w
act ext plugins_unloading w = on_plugins_unloading ext w
act ext detach w = on_amxx_detach ext w

unfoldable pub thread_steps : List ThreadAction → World → World
unfolding thread_step
thread_steps [] w = w
thread_steps (t ∷ ts) w = thread_steps ts (thread_step t w)

unfoldable pub acts : External → List Action → World → World
unfolding act
acts ext [] w = w
acts ext (a ∷ rest) w = acts ext rest (act ext a w)

-- What the surroundings do in a frame, by the calls made so far.
pub record Script : Type 0 where
  pub frame_actions : List Action
  pub pawn_actions : History → Call → List Action
  pub thread_actions : History → ℕ → List ThreadAction

unfoldable pub surroundings : External → Script → Surroundings
unfolding acts thread_steps
surroundings ext s = record {
  engine_frame = λ w. acts ext s.frame_actions w;
  pawn = λ call w. acts ext (s.pawn_actions w.history call) w;
  meanwhile = λ k w. thread_steps (s.thread_actions w.history k) w;
}

pub data Step : Type 0 where
  action : Action → Step
  frame : Script → Step

unfoldable pub step : External → Step → World → World
unfolding act surroundings
step ext (action a) w = act ext a w
step ext (frame s) w = on_server_frame (surroundings ext s) w

unfoldable pub run : External → List Step → World → World
unfolding step
run ext [] w = w
run ext (s ∷ ss) w = run ext ss (step ext s w)
