-- ===== src/AmxxModule/Life/Invariants.antt =====
-- What the module keeps from its loading on: the exports of src/sdk/amxxmodule.cpp and the invariants of
-- the events of System.
use amxx_mqtt_client.Prelude.{inl, inr, Option, none, some, Bool-cases}
use amxx_mqtt_client.External.{External, HookError, print_stderr}
use amxx_mqtt_client.World.{World, note, initial}
use amxx_mqtt_client.RehldsFrameHook.{Engine, check_rehlds_api}
use amxx_mqtt_client.Module.{on_amxx_check_game}
use amxx_mqtt_client.System.{
  Step, action, attach, plugins_loaded, plugins_unloading, detach, thread, step, act,
}
use amxx_mqtt_client.System.Soundness.{initial-IsSound}
use amxx_mqtt_client.System.Threads.{IsSound}
use amxx_mqtt_client.System.Invariants.{IsInvariant, Both, step-Both}
use amxx_mqtt_client.AmxxModule.Exports.{
  Loaded, Requester, amxx_check_game, amxx_attach, amxx_detach, amxx_plugins_loaded,
  amxx_plugins_unloading, amxx_plugins_unloaded,
}
use amxx_mqtt_client.AmxxModule.Exports.Attaching.{amxx_attach-IsOutcome}
use amxx_mqtt_client.AmxxModule.Life.{
  Host, HostStep, checked, linked, refused, loaded, unloading, unloaded, ran, left, threads,
  Reached, start, later,
}

-- The world of the module stays as it is, reports an error on stderr, or takes a step of System.
data Moved (ext : External) (w : World) : World → Type 0 where
  still : Moved ext w w
  reported : (error : HookError) → Moved ext w (note (print_stderr error) w)
  stepped : (s : Step) → Moved ext w (step ext s w)

check-Moved :
    (ext : External) (e : Engine) (l : Loaded) → Moved ext l.world (amxx_check_game e l).1.world
unfolding amxx_check_game on_amxx_check_game
check-Moved ext e l = elim (Bool-cases (check_rehlds_api e).0) [
  | inl found ↦ rw found still
  | inr missing ↦ rw missing (reported (check_rehlds_api e).1)
]

attach-Moved :
    (ext : External) (e : Engine) (r : Option Requester) (l : Loaded)
    → Moved ext l.world (amxx_attach e r l).1.world
unfolding amxx_attach step act
attach-Moved ext e none l = still
attach-Moved ext e (some (address, core)) l = elim (amxx_attach-IsOutcome e address core l) [
  | inl (_, _, hooked) ↦ rw hooked (stepped (action (attach e)))
  | inr (_, _, same) ↦ rw same still
]

HostStep-Moved :
    (ext : External) (h g : Host)
    → HostStep ext h g
    → Moved ext h.module_state.world g.module_state.world
unfolding amxx_detach amxx_plugins_loaded amxx_plugins_unloading amxx_plugins_unloaded step act
HostStep-Moved ext _ _ (checked e l) = check-Moved ext e l
HostStep-Moved ext _ _ (linked e r l h) = attach-Moved ext e r l
HostStep-Moved ext _ _ (refused e r l h) = attach-Moved ext e r l
HostStep-Moved ext _ _ (loaded l) = stepped (action plugins_loaded)
HostStep-Moved ext _ _ (unloading l) = stepped (action plugins_unloading)
HostStep-Moved ext _ _ (unloaded l) = still
HostStep-Moved ext _ _ (ran s l) = stepped s
HostStep-Moved ext _ _ (left l) = stepped (action detach)
HostStep-Moved ext _ _ (threads t p l) = stepped (action (thread t))

module _ (ext : External) {Q : World → Type 0} (inv : IsInvariant ext Q)
    (noted : (error : HookError) (w : World) → Q w → Q (note (print_stderr error) w)) where
  Moved-Both : (w v : World) → Moved ext w v → Both ext inv w → Both ext inv v
  Moved-Both w _ still b = b
  Moved-Both w _ (reported error) b =
      (record { mgr = b.0.mgr; queue = b.0.queue; flying = b.0.flying }, noted error w b.1)
  Moved-Both w _ (stepped s) b = step-Both ext inv s w b

  -- What the events of System keep, and holds at first, holds in every state that the module reaches.
  pub reached-Both :
      (h : Host) → Q initial → Reached ext h → IsSound h.module_state.world × Q h.module_state.world
  reached-Both _ q start = (initial-IsSound, q)
  reached-Both h q (later {h = g} before s) =
      Moved-Both g.module_state.world h.module_state.world (HostStep-Moved ext g h s)
        (reached-Both g q before)
