-- ===== src/System/Hooks.antt =====
-- Hooks over the life of the module: src/RehldsFrameHook.cpp hooks into the engine's frames at most once
-- at a time.
use amxx_mqtt_client.Prelude.{ℕ, ◌+◌, ◌≡◌, refl, ap, Option, none, some, List, [], ◌∷◌, arith}
use amxx_mqtt_client.External.{Call, register_hook, unregister_hook, External, History}
use amxx_mqtt_client.World.{World, initial}
use amxx_mqtt_client.Natives
use amxx_mqtt_client.Natives.Calls.{host_calls, call-host_calls, reset-host_calls}
use amxx_mqtt_client.Natives.Effects.{call-Effect}
use amxx_mqtt_client.RehldsFrameHook.{register_rehlds_frame_hook, unregister_rehlds_frame_hook}
use amxx_mqtt_client.Module.{
  on_amxx_attach, on_amxx_detach, on_plugins_loaded, on_plugins_unloading, reset_clients,
  stop_dispatcher, reset_options, start_dispatcher,
}
use amxx_mqtt_client.System.{
  ThreadAction, network, deliver, Action, native, thread, attach, plugins_loaded, plugins_unloading,
  detach, on_network, on_deliver, thread_step, act, Step, run,
}
use amxx_mqtt_client.System.Soundness.{initial-IsSound}
use amxx_mqtt_client.System.Threads.{IsSound}
use amxx_mqtt_client.System.Invariants.{IsInvariant, run-IsInvariant}
use amxx_mqtt_client.System.Frames.{history-thread_step}

-- The hooks put into the engine's registry, and those taken out.
abbrev hook_weight : Call → ℕ
hook_weight (register_hook _) = 1
hook_weight _ = 0

abbrev pub hooks_in : History → ℕ
hooks_in [] = 0
hooks_in (c ∷ h) = hook_weight c + hooks_in h

abbrev unhook_weight : Call → ℕ
unhook_weight (unregister_hook _) = 1
unhook_weight _ = 0

abbrev pub hooks_out : History → ℕ
hooks_out [] = 0
hooks_out (c ∷ h) = unhook_weight c + hooks_out h

abbrev pub is_hooked : Option ℕ → ℕ
is_hooked none = 0
is_hooked (some _) = 1

-- One hook is in while frameRegistry is set, and none while it is null.
abbrev pub IsHookedOnce : World → Type 0
IsHookedOnce w = hooks_in w.history ≡ hooks_out w.history + is_hooked w.frame_registry

hooks-host_calls :
    (h : History)
    → (hooks_in h ≡ hooks_in (host_calls h)) × (hooks_out h ≡ hooks_out (host_calls h))
hooks-host_calls [] = (refl, refl)
hooks-host_calls (c ∷ h) = let ih = hooks-host_calls h in (ground (arith, ih), ground (arith, ih))

hooks_same :
    (w v : World)
    → host_calls v.history ≡ host_calls w.history
    → v.frame_registry ≡ w.frame_registry
    → IsHookedOnce w
    → IsHookedOnce v
hooks_same w v e r h =
    ground
      (arith, hooks-host_calls w.history, hooks-host_calls v.history, ap hooks_in e, ap hooks_out e)

pub registry-thread_step :
    (t : ThreadAction) (w : World) → (thread_step t w).frame_registry ≡ w.frame_registry
unfolding thread_step on_network on_deliver
registry-thread_step (network k e) w = ground arith
registry-thread_step (deliver k) w = ground arith

reset-IsHookedOnce :
    (ext : External) (w : World) → IsHookedOnce w → IsHookedOnce (reset_clients ext w)
unfolding reset_clients
reset-IsHookedOnce ext w h =
    hooks_same w (reset_clients ext w) (reset-host_calls ext w.mgr w.history) refl h

unhook-IsHookedOnce : (w : World) → IsHookedOnce w → IsHookedOnce (unregister_rehlds_frame_hook w)
unfolding unregister_rehlds_frame_hook
unhook-IsHookedOnce w h = ground (arith, h)

act-IsHookedOnce :
    (ext : External) (a : Action) (w : World)
    → IsSound w
    → IsHookedOnce w
    → IsHookedOnce (act ext a w)
unfolding act on_amxx_attach register_rehlds_frame_hook on_plugins_loaded on_plugins_unloading
    on_amxx_detach reset_options stop_dispatcher start_dispatcher
act-IsHookedOnce ext (native name params) w s h =
    hooks_same w (Natives.call ext name params w).1 (call-host_calls ext name params w)
      (call-Effect ext name params w s.mgr).frame_registry h
act-IsHookedOnce ext (thread t) w s h =
    hooks_same w (thread_step t w) (ap host_calls (history-thread_step t w))
      (registry-thread_step t w) h
act-IsHookedOnce ext (attach e) w s h = ground (arith, h)
act-IsHookedOnce ext plugins_loaded w s h = h
act-IsHookedOnce ext plugins_unloading w s h = reset-IsHookedOnce ext (stop_dispatcher w) h
act-IsHookedOnce ext detach w s h =
    let u = unregister_rehlds_frame_hook (stop_dispatcher w) in
    omega (arith, reset-IsHookedOnce ext u (unhook-IsHookedOnce (stop_dispatcher w) h))

pub IsHookedOnce-IsInvariant : (ext : External) → IsInvariant ext IsHookedOnce
IsHookedOnce-IsInvariant ext = record {
  act = act-IsHookedOnce ext;
  thread = λ t w s h.
      hooks_same w (thread_step t w) (ap host_calls (history-thread_step t w))
        (registry-thread_step t w) h;
  next_called = λ w h. omega (arith, h);
  executed = λ id args w e h q. omega (arith, h);
  popped = λ w e d h q. h;
}

-- From the initial state of the module, whatever happens in whatever order, the hooks put into the
-- engine's registry are those taken out, and one more exactly while frameRegistry is set.
pub run-IsHookedOnce : (ext : External) (ts : List Step) → IsHookedOnce (run ext ts initial)
run-IsHookedOnce ext ts =
    (run-IsInvariant ext (IsHookedOnce-IsInvariant ext) ts initial (initial-IsSound, refl)).1
