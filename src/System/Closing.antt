-- ===== src/System/Closing.antt =====
-- Between two maps: what happens after OnPluginsUnloading of src/module.cpp and before the next
-- OnPluginsLoaded.
use amxx_mqtt_client.Prelude.{
  ◌≡◌, refl, ap, ◌∙◌, Bool, true, false, List, [], ◌∷◌, arith, All, Option-cases, inl, inr,
}
use amxx_mqtt_client.External.{External, call_next}
use amxx_mqtt_client.MqttClient.{Notice}
use amxx_mqtt_client.MqttClientMgr.{Handle, get_client}
use amxx_mqtt_client.MqttClientMgr.Operations.{reset-silent}
use amxx_mqtt_client.CallbackDispatcher.{Dispatcher, idle, enqueue, dispatch, dispatch_all, stop}
use amxx_mqtt_client.CallbackDispatcher.Queue.{dispatch-enqueue}
use amxx_mqtt_client.World.{World, note}
use amxx_mqtt_client.Natives
use amxx_mqtt_client.Natives.Effects.{Queueing, unchanged, queued, call-Effect}
use amxx_mqtt_client.RehldsFrameHook.{
  Engine, register_rehlds_frame_hook, unregister_rehlds_frame_hook,
}
use amxx_mqtt_client.ServerFrame.{on_server_frame, process_pending_callbacks, process_loop}
use amxx_mqtt_client.ServerFrame.Batch.{executions}
use amxx_mqtt_client.Module.{
  on_amxx_attach, on_amxx_detach, on_plugins_unloading, reset_clients, stop_dispatcher,
  reset_options,
}
use amxx_mqtt_client.System.{
  ThreadAction, network, deliver, Action, native, thread, attach, plugins_loaded, plugins_unloading,
  detach, pick, on_network, on_deliver, thread_step, act, acts, Script, surroundings, Step, action,
  frame, step, run,
}
use amxx_mqtt_client.System.Threads.{IsSound}
use amxx_mqtt_client.System.Soundness.{act-IsSound, step-IsSound, surroundings-Keeps}
use amxx_mqtt_client.System.Frames.{executions-act, executions-engine_frame}

abbrev pub opens : Action → Bool
opens plugins_loaded = true
opens _ = false

-- Plugins are not loaded in the step. Of a frame only its own actions are asked: with no event in the
-- queue, none of its callbacks runs.
abbrev pub NeverOpens : Step → Type 0
NeverOpens (action a) = opens a ≡ false
NeverOpens (frame s) = All (λ a. opens a ≡ false) s.frame_actions

-- No event is accepted and none waits.
abbrev pub IsClosed : World → Type 0
IsClosed w = w.dispatcher ≡ idle

dispatch-idle : (n : Notice Handle) (d : Dispatcher) → d ≡ idle → dispatch n d ≡ idle
unfolding enqueue
dispatch-idle n d h = dispatch-enqueue n d ∙ ap (enqueue _) h

pub thread-IsClosed : (t : ThreadAction) (w : World) → IsClosed w → IsClosed (thread_step t w)
unfolding thread_step on_network on_deliver
thread-IsClosed (network k e) w h = elim (Option-cases (get_client w.mgr k)) [
  | inl none' ↦ rw (none', on_network) h
  | inr (c, f) ↦ rw (f, on_network) h
]
thread-IsClosed (deliver k) w h = elim (Option-cases (pick k w.in_flight)) [
  | inl none' ↦ rw (none', on_deliver) h
  | inr ((n, ns), f) ↦ rw (f, on_deliver) (dispatch-idle n w.dispatcher h)
]

Queueing-IsClosed :
    (w v : World) → Queueing w.mgr.next_handle w.dispatcher v.dispatcher → IsClosed w → IsClosed v
Queueing-IsClosed w v (unchanged e) h = e ∙ h
Queueing-IsClosed w v (queued n _ e) h = e ∙ dispatch-idle n w.dispatcher h

attach-IsClosed : (e : Engine) (w : World) → (on_amxx_attach e w).dispatcher ≡ w.dispatcher
unfolding on_amxx_attach register_rehlds_frame_hook
attach-IsClosed e w = ground arith

pub unregister-IsClosed : (w : World) → (unregister_rehlds_frame_hook w).dispatcher ≡ w.dispatcher
unfolding unregister_rehlds_frame_hook
unregister-IsClosed w = ground arith

pub reset-IsClosed : (ext : External) (w : World) → (reset_clients ext w).dispatcher ≡ w.dispatcher
unfolding reset_clients dispatch_all
reset-IsClosed ext w = rw (reset-silent ext w.mgr w.history)

unloading-IsClosed : (ext : External) (w : World) → IsClosed (on_plugins_unloading ext w)
unfolding on_plugins_unloading reset_options stop_dispatcher stop
unloading-IsClosed ext w = reset-IsClosed ext (stop_dispatcher w)

act-IsClosed :
    (ext : External) (a : Action) (w : World)
    → opens a ≡ false
    → IsSound w
    → IsClosed w
    → IsClosed (act ext a w)
unfolding act on_amxx_detach reset_options stop_dispatcher stop
act-IsClosed ext (native name params) w o s h =
    Queueing-IsClosed w (Natives.call ext name params w).1
      (call-Effect ext name params w s.mgr).queueing h
act-IsClosed ext (thread t) w o s h = thread-IsClosed t w h
act-IsClosed ext (attach e) w o s h = attach-IsClosed e w ∙ h
act-IsClosed ext plugins_loaded w o s h = absurd (ground (arith, o))
act-IsClosed ext plugins_unloading w o s h = unloading-IsClosed ext w
act-IsClosed ext detach w o s h =
    reset-IsClosed ext (unregister_rehlds_frame_hook (stop_dispatcher w))
    ∙ unregister-IsClosed (stop_dispatcher w)

acts-IsClosed :
    (ext : External) (todo : List Action) (w : World)
    → All (λ a. opens a ≡ false) todo
    → IsSound w
    → IsClosed w
    → IsClosed (acts ext todo w)
unfolding acts
acts-IsClosed ext [] w o s h = h
acts-IsClosed ext (a ∷ rest) w o s h =
    acts-IsClosed ext rest (act ext a w) o.1 (act-IsSound ext a w s) (act-IsClosed ext a w o.0 s h)

frame_closed :
    (ext : External) (s : Script) (w : World)
    → IsClosed ((surroundings ext s).engine_frame (note call_next w))
    → on_server_frame (surroundings ext s) w ≡ (surroundings ext s).engine_frame (note call_next w)
unfolding on_server_frame process_pending_callbacks process_loop
frame_closed ext s w h = rw h refl

abbrev IsUnheard : World → World → Type 0
IsUnheard w v = (executions v.history ≡ executions w.history) × IsClosed v

step-IsUnheard :
    (ext : External) (t : Step) (w : World)
    → NeverOpens t
    → IsSound w
    → IsClosed w
    → IsUnheard w (step ext t w)
unfolding step surroundings
step-IsUnheard ext (action a) w o s h = (executions-act ext a w, act-IsClosed ext a w o s h)
step-IsUnheard ext (frame script) w o s h =
    let sound = (surroundings-Keeps ext script).next_called w s in
    let closed = acts-IsClosed ext script.frame_actions (note call_next w) o sound h in
    rw (frame_closed ext script w closed) (executions-engine_frame ext script w, closed)

run-IsUnheard :
    (ext : External) (ts : List Step) (w : World)
    → All NeverOpens ts
    → IsSound w
    → IsClosed w
    → IsUnheard w (run ext ts w)
unfolding run
run-IsUnheard ext [] w o s h = (refl, h)
run-IsUnheard ext (t ∷ ts) w o s h =
    let (n, c) = step-IsUnheard ext t w o.0 s h in
    let (n', c') = run-IsUnheard ext ts (step ext t w) o.1 (step-IsSound ext t w s) c in
    (n' ∙ n, c')

-- From a sound state, once plugins are being unloaded, no forward of a plugin is executed and no event
-- waits until plugins are loaded again, whatever natives are called, whatever Paho's threads deliver,
-- and however many frames the server runs.
pub on_plugins_unloading_silences :
    (ext : External) (ts : List Step) (w : World)
    → IsSound w
    → All NeverOpens ts
    → let v = run ext ts (on_plugins_unloading ext w) in
      (executions v.history ≡ executions w.history) × (v.dispatcher ≡ idle)
unfolding act
on_plugins_unloading_silences ext ts w s o =
    let (n, c) =
      run-IsUnheard ext ts (on_plugins_unloading ext w) o (act-IsSound ext plugins_unloading w s)
        (unloading-IsClosed ext w) in
    (n ∙ executions-act ext plugins_unloading w, c)
