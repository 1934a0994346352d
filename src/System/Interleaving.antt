-- ===== src/System/Interleaving.antt =====
-- The module with steps of System taken apart, as the threads of the program make them. A callback of
-- src/MqttClient.cpp writes the flag of its client, and later copies the handler under m_handlerMutex.
-- The game thread destroys clients bit by bit: mqtt_destroy of src/natives.cpp takes one out of the map,
-- OnPluginsUnloading and OnAmxxDetach of src/module.cpp stop the queue and swap the map, and then the
-- destructors of src/AmxxMqttClient.cpp and src/MqttClient.cpp run. Anything may happen in between.
pub mod Independence
pub mod Farewell
pub mod Commuting
pub mod Traces
pub mod Simulation
pub mod GameSteps
pub mod ThreadSteps
pub mod HandlerSteps
pub mod Atomicity
use amxx_mqtt_client.Prelude.{ℕ, ◌≡◌, true, false, none, some, List, [], ◌∷◌, ◌++◌, ltb}
use amxx_mqtt_client.IntMap.{IntMap, find, erase, assign}
use amxx_mqtt_client.External.{
  Cell, Call, History, NativeName, NetworkEvent, External, log, detach_banner,
}
use amxx_mqtt_client.MqttClient.{Notice}
use amxx_mqtt_client.MqttClient.Callbacks.{write_flag, copied}
use amxx_mqtt_client.AmxxMqttClient.{unregister_if_set}
use amxx_mqtt_client.AmxxMqttClient
use amxx_mqtt_client.MqttClientMgr
use amxx_mqtt_client.MqttClientMgr.{Handle, Client}
use amxx_mqtt_client.CallbackDispatcher.{dispatch}
use amxx_mqtt_client.World.{World, note}
use amxx_mqtt_client.Natives.Args.{param, arg_count}
use amxx_mqtt_client.RehldsFrameHook.{unregister_rehlds_frame_hook}
use amxx_mqtt_client.Module.{stop_dispatcher, reset_options}
use amxx_mqtt_client.System.{
  Action, native, thread, attach, plugins_loaded, plugins_unloading, detach, act,
}

-- What destroys clients: mqtt_destroy with enough arguments, and the two resets.
pub data Cause : Type 0 where
  one : (params : List Cell) → ltb (arg_count params) 1 ≡ false → Cause
  unloading detaching : Cause

abbrev pub action_of : Cause → Action
action_of (one params _) = native NativeName.mqtt_destroy params
action_of unloading = plugins_unloading
action_of detaching = detach

-- What comes next for the first of the clients that are being destroyed.
pub data Stage : Type 0 where
  forwards stopping deleting : Stage

-- What the game thread is at: nothing of this, a reset that has stopped the queue, or the destructors of
-- clients that are in the map no more.
pub data Task : Type 0 where
  idle : Task
  resetting : Cause → Task
  closing : Cause → IntMap Client → Stage → Task

abbrev pub dying : Task → IntMap Client
dying idle = []
dying (resetting _) = []
dying (closing _ cs _) = cs

-- `entered` holds the callbacks that have written the flag and not yet copied the handler.
pub record State : Type 0 where
  pub world : World
  pub task : Task
  pub entered : List (Handle × NetworkEvent)

-- What the game thread does.
abbrev pub IsGame : Action → Type 0
IsGame (native _ _) = Unit
IsGame (thread _) = ⊥
IsGame (attach _) = Unit
IsGame plugins_loaded = Unit
IsGame plugins_unloading = Unit
IsGame detach = Unit

-- The body of ~AmxxMqttClient.
unfoldable pub unregister_forwards : Client → History → History
unfolding unregister_if_set
unregister_forwards c h =
    let h₁ = unregister_if_set (AmxxMqttClient.get_on_connected_forward_id c) h in
    let h₂ = unregister_if_set (AmxxMqttClient.get_on_message_forward_id c) h₁ in
    let h₃ = unregister_if_set (AmxxMqttClient.get_on_connection_lost_forward_id c) h₂ in
    unregister_if_set (AmxxMqttClient.get_disconnect_forward_id c) h₃

abbrev pub stopped : Client → Client
stopped c = record c { base = record c.base { stopping = true } }

abbrev pub flagged : NetworkEvent → Client → Client
flagged e c = record c { base = write_flag e c.base }

abbrev pub with_clients : IntMap Client → World → World
with_clients m w = record w { mgr = record w.mgr { clients = m } }

-- What the function that destroys the clients does when they are gone.
abbrev pub last : Cause → World → World
last (one _ _) w = w
last unloading w = reset_options w
last detaching w = note (log detach_banner) (reset_options w)

unfoldable pub on_enter : Handle → NetworkEvent → Client → World → World
on_enter k e c w = record w { mgr = MqttClientMgr.update w.mgr k (flagged e c) }

-- What copyHandler gives a callback. A client that is gone has set m_stopping before.
unfoldable pub on_copy :
    Handle → NetworkEvent → IntMap Client → IntMap Client → List (Notice Handle)
on_copy k e live cs = elim (find live k) [
  | some c ↦ copied e c.base
  | none ↦ elim (find cs k) [ some c ↦ copied e c.base | none ↦ [] ]
]

-- A step of the game thread, or one of a thread of Paho.
pub data Step (ext : External) (s : State) : State → Type 0 where
  game :
      (a : Action)
      → IsGame a
      → s.task ≡ idle
      → Step ext s (record s { world = act ext a s.world; task = idle })
  begin_destroy :
      (params : List Cell) (enough : ltb (arg_count params) 1 ≡ false) (c : Client)
      → s.task ≡ idle
      → find s.world.mgr.clients (param params 1) ≡ some c
      → Step ext s (record s {
        world = with_clients (erase s.world.mgr.clients (param params 1)) s.world;
        task = closing (one params enough) ((param params 1, c) ∷ []) forwards;
      })
  begin_unloading :
      s.task ≡ idle
      → Step ext s (record s { world = stop_dispatcher s.world; task = resetting unloading })
  begin_detach :
      s.task ≡ idle
      → Step ext s (record s {
        world = unregister_rehlds_frame_hook (stop_dispatcher s.world);
        task = resetting detaching;
      })
  swap :
      (u : Cause)
      → s.task ≡ resetting u
      → Step ext s (record s {
        world = with_clients [] s.world;
        task = closing u s.world.mgr.clients forwards;
      })
  unregister :
      (u : Cause) (k : Handle) (c : Client) (cs : IntMap Client)
      → s.task ≡ closing u ((k, c) ∷ cs) forwards
      → Step ext s (record s {
        world = record s.world { history = unregister_forwards c s.world.history };
        task = closing u ((k, c) ∷ cs) stopping;
      })
  stop :
      (u : Cause) (k : Handle) (c : Client) (cs : IntMap Client)
      → s.task ≡ closing u ((k, c) ∷ cs) stopping
      → Step ext s (record s { task = closing u ((k, stopped c) ∷ cs) deleting })
  delete :
      (u : Cause) (k : Handle) (c : Client) (cs : IntMap Client)
      → s.task ≡ closing u ((k, c) ∷ cs) deleting
      → Step ext s (record s {
        world = note (Call.delete_client c.base.client) s.world;
        task = closing u cs forwards;
      })
  finish :
      (u : Cause)
      → s.task ≡ closing u [] forwards
      → Step ext s (record s { world = last u s.world; task = idle })
  enter :
      (k : Handle) (e : NetworkEvent) (c : Client)
      → find s.world.mgr.clients k ≡ some c
      → Step ext s (record s { world = on_enter k e c s.world; entered = s.entered ++ (k, e) ∷ [] })
  enter_dying :
      (k : Handle) (e : NetworkEvent) (c : Client) (u : Cause) (cs : IntMap Client) (p : Stage)
      → s.task ≡ closing u cs p
      → find cs k ≡ some c
      → Step ext s (record s {
        task = closing u (assign cs k (flagged e c)) p;
        entered = s.entered ++ (k, e) ∷ [];
      })
  copy :
      (k : Handle) (e : NetworkEvent) (xs ys : List (Handle × NetworkEvent))
      → s.entered ≡ xs ++ ((k, e) ∷ ys)
      → Step ext s (record s {
        world = record s.world {
          in_flight = s.world.in_flight ++ on_copy k e s.world.mgr.clients (dying s.task);
        };
        entered = xs ++ ys;
      })
  call :
      (n : Notice Handle) (xs ys : List (Notice Handle))
      → s.world.in_flight ≡ xs ++ (n ∷ ys)
      → Step ext s (record s {
        world = record s.world { in_flight = xs ++ ys; dispatcher = dispatch n s.world.dispatcher };
      })

pub data Steps (ext : External) (s : State) : State → Type 0 where
  here : Steps ext s s
  next : {t u : State} → Steps ext s t → Step ext t u → Steps ext s u
