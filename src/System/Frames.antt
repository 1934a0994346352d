-- ===== src/System/Frames.antt =====
-- Forwards and frame hooks over the life of the module: src/CallbackDispatcher.cpp executes forwards
-- in server frames alone, and src/RehldsFrameHook.cpp is hooked in at most once at a time.
use amxx_mqtt_client.Prelude.{ℕ, ◌+◌, ◌≤◌, ◌≡◌, refl, sym, ap, ◌∙◌, List, [], ◌∷◌, arith}
use amxx_mqtt_client.External.{External, History, call_next}
use amxx_mqtt_client.MqttClientMgr
use amxx_mqtt_client.MqttClientMgr.{Handle}
use amxx_mqtt_client.World.{World, note}
use amxx_mqtt_client.Natives.Calls.{host_calls, call-host_calls, reset-host_calls}
use amxx_mqtt_client.RehldsFrameHook.{register_rehlds_frame_hook, unregister_rehlds_frame_hook}
use amxx_mqtt_client.ServerFrame.{on_server_frame}
use amxx_mqtt_client.ServerFrame.Batch.{
  executions, IsPassive, executions-process_pending_callbacks_le,
}
use amxx_mqtt_client.Module.{
  on_amxx_attach, on_amxx_detach, on_plugins_loaded, on_plugins_unloading, stop_dispatcher,
}
use amxx_mqtt_client.System.{
  ThreadAction, network, deliver, Action, native, thread, attach, plugins_loaded, plugins_unloading,
  detach, on_network, on_deliver, thread_step, act, thread_steps, acts, Script, surroundings, Step,
  action, frame, step,
}

executions-host_calls : (h : History) → executions h ≡ executions (host_calls h)
executions-host_calls [] = refl
executions-host_calls (c ∷ h) = ground (arith, executions-host_calls h)

executions_same : (h g : History) → host_calls g ≡ host_calls h → executions g ≡ executions h
executions_same h g e = executions-host_calls g ∙ ap executions e ∙ sym (executions-host_calls h)

pub history-thread_step : (t : ThreadAction) (w : World) → (thread_step t w).history ≡ w.history
unfolding thread_step on_network on_deliver
history-thread_step (network k e) w = ground arith
history-thread_step (deliver k) w = ground arith

history-thread_steps :
    (ts : List ThreadAction) (w : World) → (thread_steps ts w).history ≡ w.history
unfolding thread_steps
history-thread_steps [] w = refl
history-thread_steps (t ∷ ts) w =
    history-thread_steps ts (thread_step t w) ∙ history-thread_step t w

pub executions-act :
    (ext : External) (a : Action) (w : World)
    → executions (act ext a w).history ≡ executions w.history
unfolding act on_amxx_attach register_rehlds_frame_hook on_plugins_loaded on_plugins_unloading
    on_amxx_detach unregister_rehlds_frame_hook
executions-act ext (native name params) w =
    executions_same w.history _ (call-host_calls ext name params w)
executions-act ext (thread t) w = ap executions (history-thread_step t w)
executions-act ext (attach e) w = ground arith
executions-act ext plugins_loaded w = refl
executions-act ext plugins_unloading w =
    executions_same w.history _ (reset-host_calls ext w.mgr w.history)
executions-act ext detach w =
    let u = unregister_rehlds_frame_hook (stop_dispatcher w) in
    let unhooked : executions u.history ≡ executions w.history = ground arith in
    omega (
      arith,
      unhooked,
      executions_same u.history (MqttClientMgr.reset ext u.mgr u.history).2
          (reset-host_calls ext u.mgr u.history),
    )

executions-acts :
    (ext : External) (as' : List Action) (w : World)
    → executions (acts ext as' w).history ≡ executions w.history
unfolding acts
executions-acts ext [] w = refl
executions-acts ext (a ∷ rest) w = executions-acts ext rest (act ext a w) ∙ executions-act ext a w

surroundings-IsPassive : (ext : External) (s : Script) → IsPassive (surroundings ext s)
unfolding surroundings
surroundings-IsPassive ext s = record {
  pawn = λ c w. executions-acts ext (s.pawn_actions w.history c) w;
  meanwhile = λ k w. ap executions (history-thread_steps (s.thread_actions w.history k) w);
}

pub executions-engine_frame :
    (ext : External) (s : Script) (w : World)
    → executions ((surroundings ext s).engine_frame (note call_next w)).history
      ≡ executions w.history
unfolding surroundings
executions-engine_frame ext s w =
    omega (arith, executions-acts ext s.frame_actions (note call_next w))

-- What a step may execute: nothing outside a frame, and 256 forwards in one.
abbrev pub allowance : Step → ℕ
allowance (action a) = 0
allowance (frame s) = 256

-- Natives, the threads of Paho and map changes execute no forward, and a server frame at most 256,
-- whatever natives plugins call in it and whatever events arrive meanwhile.
pub executions-step_le :
    (ext : External) (t : Step) (w : World)
    → executions (step ext t w).history ≤ executions w.history + allowance t
unfolding step on_server_frame
executions-step_le ext (action a) w = omega (arith, executions-act ext a w)
executions-step_le ext (frame s) w =
    let u = (surroundings ext s).engine_frame (note call_next w) in
    omega (
      arith,
      executions-engine_frame ext s w,
      executions-process_pending_callbacks_le (surroundings-IsPassive ext s) u,
    )
