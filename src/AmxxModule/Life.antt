-- ===== src/AmxxModule/Life.antt =====
-- The life of the module in the process of the server: AMX Mod X loads it, asks it whether it can run
-- on the game, attaches it, and then drives it until it detaches it. The threads of Paho run all the
-- time. That nothing but AMXX_CheckGame and AMXX_Attach is called before AMXX_Attach has succeeded, and
-- no export after AMXX_Detach, is what AMX Mod X promises its modules (src/sdk/moduleconfig.h).
pub mod Linked
pub mod Invariants
pub mod Departure
use amxx_mqtt_client.Prelude.{ℕ, ◌≡◌, ◌≢◌, Option}
use amxx_mqtt_client.External.{External}
use amxx_mqtt_client.World
use amxx_mqtt_client.RehldsFrameHook.{Engine}
use amxx_mqtt_client.System.{ThreadAction, thread_step, Step, step}
use amxx_mqtt_client.AmxxModule.Requests.{ok}
use amxx_mqtt_client.AmxxModule.Exports.{
  Loaded, just_loaded, Requester, amxx_check_game, amxx_attach, amxx_detach, amxx_plugins_loaded,
  amxx_plugins_unloading, amxx_plugins_unloaded,
}

pub data Phase : Type 0 where
  waiting attached detached : Phase

pub record Host : Type 0 where
  pub phase : Phase
  pub module_state : Loaded

abbrev pub at : Phase → Loaded → Host
at p l = record { phase = p; module_state = l }

-- `ran` is a native, a frame, or any other event of System.
pub data HostStep (ext : External) : Host → Host → Type 0 where
  checked :
      (e : Engine) (l : Loaded) → HostStep ext (at waiting l) (at waiting (amxx_check_game e l).1)
  linked :
      (e : Engine) (r : Option Requester) (l : Loaded)
      → (amxx_attach e r l).0 ≡ ok
      → HostStep ext (at waiting l) (at attached (amxx_attach e r l).1)
  refused :
      (e : Engine) (r : Option Requester) (l : Loaded)
      → (amxx_attach e r l).0 ≢ ok
      → HostStep ext (at waiting l) (at waiting (amxx_attach e r l).1)
  loaded : (l : Loaded) → HostStep ext (at attached l) (at attached (amxx_plugins_loaded l).1)
  unloading :
      (l : Loaded) → HostStep ext (at attached l) (at attached (amxx_plugins_unloading ext l))
  unloaded : (l : Loaded) → HostStep ext (at attached l) (at attached (amxx_plugins_unloaded l))
  ran :
      (s : Step) (l : Loaded)
      → HostStep ext (at attached l) (at attached (record l { world = step ext s l.world }))
  left : (l : Loaded) → HostStep ext (at attached l) (at detached (amxx_detach ext l).1)
  threads :
      (t : ThreadAction) (p : Phase) (l : Loaded)
      → HostStep ext (at p l) (at p (record l { world = thread_step t l.world }))

-- A state that the module reaches after it was loaded.
pub data Reached (ext : External) : Host → Type 0 where
  start : Reached ext (at waiting (just_loaded World.initial))
  later : {h g : Host} → Reached ext h → HostStep ext h g → Reached ext g
