-- ===== src/AmxxModule/Life/Departure.antt =====
-- After AMXX_Detach of src/sdk/amxxmodule.cpp: the module may be unloaded, and its threads of Paho, which
-- may still run, reach nothing.
use amxx_mqtt_client.Prelude.{◌≡◌, refl, ◌∙◌, none, [], arith}
use mathlib.Core.Path.{subst}
use amxx_mqtt_client.IntMap.{find}
use amxx_mqtt_client.External.{External}
use amxx_mqtt_client.MqttClientMgr
use amxx_mqtt_client.MqttClientMgr.{get_client}
use amxx_mqtt_client.ConnectOptionMgr
use amxx_mqtt_client.CallbackDispatcher.{idle, stop}
use amxx_mqtt_client.World.{World}
use amxx_mqtt_client.RehldsFrameHook.{unregister_rehlds_frame_hook}
use amxx_mqtt_client.Module.{on_amxx_detach, reset_clients, reset_options, stop_dispatcher}
use amxx_mqtt_client.System.{ThreadAction, network, deliver, on_network, on_deliver, thread_step}
use amxx_mqtt_client.System.Closing.{thread-IsClosed, unregister-IsClosed, reset-IsClosed}
use amxx_mqtt_client.System.Frames.{history-thread_step}
use amxx_mqtt_client.System.Hooks.{
  hooks_in, hooks_out, IsHookedOnce, IsHookedOnce-IsInvariant, registry-thread_step,
}
use amxx_mqtt_client.System.Options.{options-thread_step}
use amxx_mqtt_client.AmxxModule.Exports.{amxx_detach}
use amxx_mqtt_client.AmxxModule.Life.{
  Phase, waiting, attached, detached, Host, HostStep, checked, linked, refused, loaded, unloading,
  unloaded, ran, left, threads, Reached, start, later,
}
use amxx_mqtt_client.AmxxModule.Life.Invariants.{reached-Both}

-- No clients, no options, no event, and no hook.
pub record IsGone (w : World) : Type 0 where
  pub clients : w.mgr.clients ≡ []
  pub options : w.options ≡ ConnectOptionMgr.empty
  pub dispatcher : w.dispatcher ≡ idle
  pub registry : w.frame_registry ≡ none

unregister-registry : (w : World) → (unregister_rehlds_frame_hook w).frame_registry ≡ none
unfolding unregister_rehlds_frame_hook
unregister-registry w = ground arith

detach-IsGone : (ext : External) (w : World) → IsGone (on_amxx_detach ext w)
unfolding on_amxx_detach reset_options MqttClientMgr.reset ConnectOptionMgr.reset stop_dispatcher
    stop reset_clients
detach-IsGone ext w = record {
  clients = refl;
  options = refl;
  dispatcher =
      reset-IsClosed ext (unregister_rehlds_frame_hook (stop_dispatcher w))
      ∙ unregister-IsClosed (stop_dispatcher w);
  registry = unregister-registry (stop_dispatcher w);
}

clients-thread_step :
    (t : ThreadAction) (w : World) → w.mgr.clients ≡ [] → (thread_step t w).mgr.clients ≡ []
unfolding thread_step on_network on_deliver get_client find
clients-thread_step (network k e) w h = ground (arith, h)
clients-thread_step (deliver k) w h = ground (arith, h)

thread-IsGone : (t : ThreadAction) (w : World) → IsGone w → IsGone (thread_step t w)
thread-IsGone t w g = record {
  clients = clients-thread_step t w g.clients;
  options = options-thread_step t w ∙ g.options;
  dispatcher = thread-IsClosed t w g.dispatcher;
  registry = registry-thread_step t w ∙ g.registry;
}

abbrev IsGoneIfDetached : Phase → World → Type 0
IsGoneIfDetached waiting w = Unit
IsGoneIfDetached attached w = Unit
IsGoneIfDetached detached w = IsGone w

HostStep-IsGone :
    (ext : External) (h g : Host)
    → HostStep ext h g
    → IsGoneIfDetached h.phase h.module_state.world
    → IsGoneIfDetached g.phase g.module_state.world
unfolding amxx_detach
HostStep-IsGone ext _ _ (checked e l) d = tt
HostStep-IsGone ext _ _ (linked e r l h) d = tt
HostStep-IsGone ext _ _ (refused e r l h) d = tt
HostStep-IsGone ext _ _ (loaded l) d = tt
HostStep-IsGone ext _ _ (unloading l) d = tt
HostStep-IsGone ext _ _ (unloaded l) d = tt
HostStep-IsGone ext _ _ (ran s l) d = tt
HostStep-IsGone ext _ _ (left l) d = detach-IsGone ext l.world
HostStep-IsGone ext _ _ (threads t waiting l) d = tt
HostStep-IsGone ext _ _ (threads t attached l) d = tt
HostStep-IsGone ext _ _ (threads t detached l) d = thread-IsGone t l.world d

reached-IsGone :
    (ext : External) (h : Host) → Reached ext h → IsGoneIfDetached h.phase h.module_state.world
reached-IsGone ext _ start = tt
reached-IsGone ext h (later {h = g} before s) =
    HostStep-IsGone ext g h s (reached-IsGone ext g before)

-- What comes after a state.
pub data Onward (ext : External) (h : Host) : Host → Type 0 where
  here : Onward ext h h
  on : {f g : Host} → Onward ext h f → HostStep ext f g → Onward ext h g

abbrev IsSilent : Host → Host → Type 0
IsSilent h g = (g.phase ≡ detached) × (g.module_state.world.history ≡ h.module_state.world.history)

step-IsSilent : (ext : External) (f g : Host) → HostStep ext f g → f.phase ≡ detached → IsSilent f g
step-IsSilent ext _ _ (checked e l) d = absurd (ground (arith, d))
step-IsSilent ext _ _ (linked e r l h) d = absurd (ground (arith, d))
step-IsSilent ext _ _ (refused e r l h) d = absurd (ground (arith, d))
step-IsSilent ext _ _ (loaded l) d = absurd (ground (arith, d))
step-IsSilent ext _ _ (unloading l) d = absurd (ground (arith, d))
step-IsSilent ext _ _ (unloaded l) d = absurd (ground (arith, d))
step-IsSilent ext _ _ (ran s l) d = absurd (ground (arith, d))
step-IsSilent ext _ _ (left l) d = absurd (ground (arith, d))
step-IsSilent ext _ _ (threads t p l) d = (d, history-thread_step t l.world)

Onward-IsSilent : (ext : External) (h g : Host) → Onward ext h g → h.phase ≡ detached → IsSilent h g
Onward-IsSilent ext h _ here d = (d, refl)
Onward-IsSilent ext h g (on {f = f} before s) d =
    let (p, same) = Onward-IsSilent ext h f before d in
    let (q, same') = step-IsSilent ext f g s p in (q, same' ∙ same)

reached-IsHookedOnce :
    (ext : External) (h : Host) → Reached ext h → IsHookedOnce h.module_state.world
reached-IsHookedOnce ext h r =
    (reached-Both ext (IsHookedOnce-IsInvariant ext) (λ error w q. omega (arith, q)) h refl r).1

Onward-Reached : (ext : External) (h g : Host) → Reached ext h → Onward ext h g → Reached ext g
Onward-Reached ext h _ r here = r
Onward-Reached ext h _ r (on {f = f} before s) = later (Onward-Reached ext h f r before) s

detached-IsGone :
    (ext : External) (g : Host) → Reached ext g → g.phase ≡ detached → IsGone g.module_state.world
detached-IsGone ext g r d =
    subst (λ p. IsGoneIfDetached p g.module_state.world) d (reached-IsGone ext g r)

gone-hooks : (w : World) → IsHookedOnce w → IsGone w → hooks_in w.history ≡ hooks_out w.history
gone-hooks w h gone = ground (arith, h, gone.registry)

-- Once AMX Mod X has detached the module, whatever it and the engine did with it before, it has no
-- clients, no connect options, no waiting events and no hook, and as many hooks were taken out of the
-- engine's registry as were put in. However its threads of Paho run on, this stays, and the module
-- makes no call of anything.
pub detached_is_final :
    (ext : External) (h g : Host)
    → Reached ext h
    → h.phase ≡ detached
    → Onward ext h g
    → IsGone g.module_state.world
      × (hooks_in g.module_state.world.history ≡ hooks_out g.module_state.world.history)
      × (g.module_state.world.history ≡ h.module_state.world.history)
detached_is_final ext h g r d o =
    let (d', same) = Onward-IsSilent ext h g o d in
    let r' = Onward-Reached ext h g r o in
    let gone = detached-IsGone ext g r' d' in
    (gone, gone-hooks g.module_state.world (reached-IsHookedOnce ext g r') gone, same)
