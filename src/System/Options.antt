-- ===== src/System/Options.antt =====
-- The handles of connect options over the life of the module.
use amxx_mqtt_client.Prelude.{◌≡◌, List, arith}
use amxx_mqtt_client.External.{External}
use amxx_mqtt_client.ConnectOptionMgr
use amxx_mqtt_client.ConnectOptionMgr.Indices.{IsConsistent}
use amxx_mqtt_client.ConnectOptionMgr.Consistency.{reset-IsConsistent}
use amxx_mqtt_client.World.{World, initial}
use amxx_mqtt_client.Natives.Indices.{call-OptionChange, OptionChange-IsConsistent}
use amxx_mqtt_client.RehldsFrameHook.{
  Engine, register_rehlds_frame_hook, unregister_rehlds_frame_hook,
}
use amxx_mqtt_client.Module.{
  on_amxx_attach, on_amxx_detach, on_plugins_loaded, on_plugins_unloading, reset_clients,
  stop_dispatcher, reset_options, start_dispatcher,
}
use amxx_mqtt_client.System.{
  ThreadAction, network, deliver, Action, native, thread, attach, plugins_loaded, plugins_unloading,
  detach, on_network, on_deliver, thread_step, act, Step, run,
}
use amxx_mqtt_client.System.Soundness.{initial-IsSound}
use amxx_mqtt_client.System.Threads.{IsSound}
use amxx_mqtt_client.System.Invariants.{IsInvariant, run-IsInvariant}

abbrev HasConsistent : World → Type 0
HasConsistent w = IsConsistent w.options

pub options-thread_step : (t : ThreadAction) (w : World) → (thread_step t w).options ≡ w.options
unfolding thread_step on_network on_deliver
options-thread_step (network k e) w = ground arith
options-thread_step (deliver k) w = ground arith

options-attach : (e : Engine) (w : World) → (on_amxx_attach e w).options ≡ w.options
unfolding on_amxx_attach register_rehlds_frame_hook
options-attach e w = ground arith

act-HasConsistent :
    (ext : External) (a : Action) (w : World)
    → IsSound w
    → HasConsistent w
    → HasConsistent (act ext a w)
unfolding act on_plugins_loaded on_plugins_unloading on_amxx_detach start_dispatcher reset_options
act-HasConsistent ext (native name params) w s v =
    OptionChange-IsConsistent (call-OptionChange ext name params w) v
act-HasConsistent ext (thread t) w s v = rw (options-thread_step t w) v
act-HasConsistent ext (attach e) w s v = rw (options-attach e w) v
act-HasConsistent ext plugins_loaded w s v = v
act-HasConsistent ext plugins_unloading w s v =
    reset-IsConsistent (reset_clients ext (stop_dispatcher w)).options
act-HasConsistent ext detach w s v =
    reset-IsConsistent
      (reset_clients ext (unregister_rehlds_frame_hook (stop_dispatcher w))).options

HasConsistent-IsInvariant : (ext : External) → IsInvariant ext HasConsistent
HasConsistent-IsInvariant ext = record {
  act = act-HasConsistent ext;
  thread = λ t w s v. rw (options-thread_step t w) v;
  next_called = λ w v. v;
  executed = λ id args w e v q. v;
  popped = λ w e d v q. v;
}

-- From the initial state of the module, whatever happens in whatever order, the handles of connect
-- options in use are those with options behind them, all of them between 1 and MAX_INDEX, although
-- plugins may pass any number for a handle.
pub run-HasConsistent :
    (ext : External) (ts : List Step) → IsConsistent (run ext ts initial).options
unfolding ConnectOptionMgr.reset
run-HasConsistent ext ts =
    (run-IsInvariant ext (HasConsistent-IsInvariant ext) ts initial
      (initial-IsSound, reset-IsConsistent ConnectOptionMgr.empty)).1
