-- ===== src/System/Soundness.antt =====
-- The invariant of the module: what holds of its whole state after any events, in any order.
use amxx_mqtt_client.Prelude.{◌≡◌, refl, List, [], ◌∷◌, arith}
use amxx_mqtt_client.External.{External}
use amxx_mqtt_client.MqttClientMgr
use amxx_mqtt_client.MqttClientMgr.{MqttClientMgr, Handle, Client, get_client}
use amxx_mqtt_client.MqttClientMgr.Changes.{Change, kept, cleared, Inv}
use amxx_mqtt_client.MqttClientMgr.Operations.{reset-silent}
use amxx_mqtt_client.CallbackDispatcher.{dispatch_all}
use amxx_mqtt_client.CallbackDispatcher.Queue.{start-IsQueue, stop-IsQueue, pop-IsQueue}
use amxx_mqtt_client.World.{World, initial}
use amxx_mqtt_client.Natives.Effects.{call-Effect}
use amxx_mqtt_client.RehldsFrameHook.{
  register_rehlds_frame_hook, unregister_rehlds_frame_hook, Engine,
}
use amxx_mqtt_client.ServerFrame.Invariants.{Keeps, on_server_frame-Keeps}
use amxx_mqtt_client.Module.{
  on_amxx_attach, on_amxx_detach, on_plugins_loaded, on_plugins_unloading, reset_clients,
  stop_dispatcher,
}
use amxx_mqtt_client.System.{
  ThreadAction, Action, native, thread, attach, plugins_loaded, plugins_unloading, detach,
  thread_step, act, thread_steps, acts, Script, surroundings, Step, action, frame, step, run,
}
use amxx_mqtt_client.System.Threads.{IsSound, Effect-IsSound, thread-IsSound, thread-Change}

-- Every event of the game thread or of another thread changes the manager in one of the five ways.
pub act-Change :
    (ext : External) (a : Action) (w : World) → Inv w.mgr → Change w.mgr (act ext a w).mgr
unfolding act on_amxx_attach register_rehlds_frame_hook on_plugins_loaded on_plugins_unloading
    on_amxx_detach unregister_rehlds_frame_hook MqttClientMgr.reset
act-Change ext (native name params) w v = (call-Effect ext name params w v).change
act-Change ext (thread t) w v = thread-Change t w
act-Change ext (attach e) w v = kept (ground arith)
act-Change ext plugins_loaded w v = kept (ground arith)
act-Change ext plugins_unloading w v = cleared (ground arith)
act-Change ext detach w v = cleared (ground arith)

same-IsSound :
    (w v : World)
    → v.mgr ≡ w.mgr
    → v.dispatcher ≡ w.dispatcher
    → v.in_flight ≡ w.in_flight
    → IsSound w
    → IsSound v
same-IsSound w v m d f s = record {
  mgr = rw m s.mgr;
  queue = rw (m, d) s.queue;
  flying = rw (m, f) s.flying;
}

attach-IsSound : (e : Engine) (w : World) → IsSound w → IsSound (on_amxx_attach e w)
unfolding on_amxx_attach register_rehlds_frame_hook
attach-IsSound e w s = same-IsSound w _ (ground arith) (ground arith) (ground arith) s

stop-IsSound : (w : World) → IsSound w → IsSound (stop_dispatcher w)
unfolding stop_dispatcher
stop-IsSound w s = record {
  mgr = s.mgr;
  queue = stop-IsQueue w.mgr.next_handle w.dispatcher;
  flying = s.flying;
}

unregister-IsSound : (w : World) → IsSound w → IsSound (unregister_rehlds_frame_hook w)
unfolding unregister_rehlds_frame_hook
unregister-IsSound w s = same-IsSound w _ (ground arith) (ground arith) (ground arith) s

reset-IsSound : (ext : External) (w : World) → IsSound w → IsSound (reset_clients ext w)
unfolding reset_clients dispatch_all MqttClientMgr.reset
reset-IsSound ext w s =
    let quiet = reset-silent ext w.mgr w.history in
    record {
      mgr = record {
        positive = s.mgr.positive;
        bounded = s.mgr.bounded;
        entries = tt;
        size = omega arith;
      };
      queue = rw quiet s.queue;
      flying = s.flying;
    }

pub act-IsSound : (ext : External) (a : Action) (w : World) → IsSound w → IsSound (act ext a w)
unfolding act on_plugins_loaded on_plugins_unloading on_amxx_detach
act-IsSound ext (native name params) w s =
    Effect-IsSound w _ (call-Effect ext name params w s.mgr) s
act-IsSound ext (thread t) w s = thread-IsSound t w s
act-IsSound ext (attach e) w s = attach-IsSound e w s
act-IsSound ext plugins_loaded w s = record {
  mgr = s.mgr;
  queue = start-IsQueue w.mgr.next_handle w.dispatcher s.queue;
  flying = s.flying;
}
act-IsSound ext plugins_unloading w s =
    same-IsSound (reset_clients ext (stop_dispatcher w)) _ refl refl refl
      (reset-IsSound ext _ (stop-IsSound w s))
act-IsSound ext detach w s =
    same-IsSound (reset_clients ext (unregister_rehlds_frame_hook (stop_dispatcher w))) _ refl refl
      refl (reset-IsSound ext _ (unregister-IsSound _ (stop-IsSound w s)))

thread_steps-IsSound :
    (ts : List ThreadAction) (w : World) → IsSound w → IsSound (thread_steps ts w)
unfolding thread_steps
thread_steps-IsSound [] w s = s
thread_steps-IsSound (t ∷ ts) w s = thread_steps-IsSound ts (thread_step t w) (thread-IsSound t w s)

acts-IsSound :
    (ext : External) (as' : List Action) (w : World) → IsSound w → IsSound (acts ext as' w)
unfolding acts
acts-IsSound ext [] w s = s
acts-IsSound ext (a ∷ rest) w s = acts-IsSound ext rest (act ext a w) (act-IsSound ext a w s)

pub surroundings-Keeps : (ext : External) (s : Script) → Keeps IsSound (surroundings ext s)
unfolding surroundings
surroundings-Keeps ext s = record {
  engine_frame = λ w h. acts-IsSound ext s.frame_actions w h;
  pawn = λ call w h. acts-IsSound ext (s.pawn_actions w.history call) w h;
  meanwhile = λ k w h. thread_steps-IsSound (s.thread_actions w.history k) w h;
  next_called = λ w h. same-IsSound w _ refl refl refl h;
  executed = λ id args w e h q. same-IsSound w _ refl refl refl h;
  popped = λ w e d h q. record {
    mgr = h.mgr;
    queue = pop-IsQueue w.mgr.next_handle w.dispatcher e d q h.queue;
    flying = h.flying;
  };
}

pub step-IsSound : (ext : External) (t : Step) (w : World) → IsSound w → IsSound (step ext t w)
unfolding step
step-IsSound ext (action a) w s = act-IsSound ext a w s
step-IsSound ext (frame script) w s = on_server_frame-Keeps (surroundings-Keeps ext script) w s

-- Natives with any arguments, events of Paho, map changes, hooks and server frames with any of these
-- inside, in any order, keep a sound state sound: there are at most 10000 clients, each stands under a
-- handle that has been given out, has all four handlers bound to it and is not being destroyed, the next
-- handle is between 1 and 2 ^ 31, each event and each handler in flight is for a handle that has been
-- given out, and no event waits while none are accepted.
pub run-IsSound : (ext : External) (ts : List Step) (w : World) → IsSound w → IsSound (run ext ts w)
unfolding run
run-IsSound ext [] w s = s
run-IsSound ext (t ∷ ts) w s = run-IsSound ext ts (step ext t w) (step-IsSound ext t w s)

pub initial-IsSound : IsSound initial
initial-IsSound = record {
  mgr = record { positive = omega arith; bounded = omega arith; entries = tt; size = omega arith };
  queue = record { given = tt; quiet = λ p. refl };
  flying = tt;
}
