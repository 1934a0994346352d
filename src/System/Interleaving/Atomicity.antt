-- ===== src/System/Interleaving/Atomicity.antt =====
-- System is what comes of the program's finer steps.
use mathlib.Core.List.{append-nil}
use mathlib.Core.Path.{subst}
use amxx_mqtt_client.Prelude.{◌≡◌, refl, sym, List, [], ◌∷◌, ◌++◌}
use amxx_mqtt_client.Prelude.Takes.{Supplies, Supplies-refl, Supplies-prefix}
use amxx_mqtt_client.External.{External}
use amxx_mqtt_client.MqttClient.{Notice}
use amxx_mqtt_client.MqttClientMgr.{Handle}
use amxx_mqtt_client.World.{World}
use amxx_mqtt_client.System.{Action, act, acts}
use amxx_mqtt_client.System.Threads.{IsSound}
use amxx_mqtt_client.System.Interleaving.{
  State, Task, idle, Step, game, begin_destroy, begin_unloading, begin_detach, swap, unregister,
  stop, delete, finish, enter, enter_dying, copy, call, Steps, here, next,
}
use amxx_mqtt_client.System.Interleaving.Traces.{
  without_deliveries, without_deliveries-append, traced, trace,
}
use amxx_mqtt_client.System.Interleaving.Simulation.{IsSimulated, Matches}
use amxx_mqtt_client.System.Interleaving.GameSteps.{
  game-Matches, begin_destroy-Matches, begin_unloading-Matches, begin_detach-Matches, swap-Matches,
  unregister-Matches, stop-Matches, delete-Matches, finish-Matches,
}
use amxx_mqtt_client.System.Interleaving.ThreadSteps.{enter-Matches, enter_dying-Matches}
use amxx_mqtt_client.System.Interleaving.HandlerSteps.{copy-Matches, call-Matches}

module _ (ext : External) where
  abbrev Sim : State → World → Type 0
  Sim s v = IsSimulated ext s.world s.task s.entered v

  abbrev Follows : State → World → List Action → Type 0
  Follows t v given = Matches ext t.world t.task t.entered v given

  -- What the task of a state is known to be.
  at_task :
      (s : State) (v : World) (t : Task)
      → s.task ≡ t
      → Sim s v
      → IsSimulated ext s.world t s.entered v
  at_task s v t e r = subst (λ t'. IsSimulated ext s.world t' s.entered v) e r

  Step-Follows : {s t : State} (v : World) (p : Step ext s t) → Sim s v → Follows t v (traced p)
  Step-Follows {s} v (game a g i) r =
      game-Matches ext s.world s.entered v a g (at_task s v idle i r)
  Step-Follows {s} v (begin_destroy params enough c i f) r =
      begin_destroy-Matches ext s.world s.entered v params enough c f (at_task s v _ i r)
  Step-Follows {s} v (begin_unloading i) r =
      begin_unloading-Matches ext s.world s.entered v (at_task s v _ i r)
  Step-Follows {s} v (begin_detach i) r =
      begin_detach-Matches ext s.world s.entered v (at_task s v _ i r)
  Step-Follows {s} v (swap u i) r = swap-Matches ext s.world s.entered v u (at_task s v _ i r)
  Step-Follows {s} v (unregister u k c cs i) r =
      unregister-Matches ext s.world s.entered v u k c cs (at_task s v _ i r)
  Step-Follows {s} v (stop u k c cs i) r =
      stop-Matches ext s.world s.entered v u k c cs (at_task s v _ i r)
  Step-Follows {s} v (delete u k c cs i) r =
      delete-Matches ext s.world s.entered v u k c cs (at_task s v _ i r)
  Step-Follows {s} v (finish u i) r = finish-Matches ext s.world s.entered v u (at_task s v _ i r)
  Step-Follows {s} v (enter k e c f) r = enter-Matches ext s.world s.entered v k e s.task c f r
  Step-Follows {s} v (enter_dying k e c u cs p i f) r =
      enter_dying-Matches ext s.world s.entered v k e u cs p c f (at_task s v _ i r)
  Step-Follows {s} v (copy k e xs ys at) r =
      copy-Matches ext s.world s.entered v s.task k e xs ys at r
  Step-Follows {s} v (call n xs ys at) r = call-Matches ext s.world s.entered v n xs ys s.task at r

  acts-append :
      (as' bs : List Action) (w : World) → acts ext (as' ++ bs) w ≡ acts ext bs (acts ext as' w)
  unfolding acts
  acts-append [] bs w = refl
  acts-append (a ∷ as') bs w = acts-append as' bs (act ext a w)

  Steps-Follows : {s t : State} (v : World) (rs : Steps ext s t) → Sim s v → Follows t v (trace rs)
  unfolding acts
  Steps-Follows v here r = record { actions = []; others = refl; simulated = r }
  Steps-Follows v (next {t = t} {u = u} rs p) r =
      let q = Steps-Follows v rs r in
      let l = Step-Follows (acts ext q.actions v) p q.simulated in
      record {
        actions = q.actions ++ l.actions;
        others = rw (without_deliveries-append q.actions l.actions, q.others, l.others) refl;
        simulated = subst (Sim u) (sym (acts-append q.actions l.actions v)) l.simulated;
      }

  -- What the module does outside server frames when callbacks and destructors run beside one another is
  -- what System says. Whatever the game thread does there, and however its steps, the parts of the
  -- destruction of clients among them, and those of Paho's threads follow one another, once no
  -- destruction is under way the state is the one that certain actions of System reach from the same
  -- sound state: the same clients with the same flags and forwards, options, queue, hook and calls.
  -- These are, in this order, the actions of the game thread, each destruction as one where it ends, and
  -- the events of the network where the callbacks write the flag, and between them calls of handlers.
  -- Only the handlers in flight may be more there: all that are in flight here are among them, each as
  -- often.
  pub Steps-acts :
      (w : World) {t : State}
      → IsSound w
      → (rs : Steps ext (record { world = w; task = idle; entered = [] }) t) → t.task ≡ idle
      → (as' : List Action) × (ns : List (Notice Handle)) × (without_deliveries as' ≡ trace rs)
        × (acts ext as' w ≡ record t.world { in_flight = ns })
        × Supplies ns t.world.in_flight
  Steps-acts w {t} sound rs i =
      let start : Sim (record { world = w; task = idle; entered = [] }) w = record {
        sound = sound;
        done = refl;
        supplied = rw append-nil (Supplies-refl w.in_flight);
        known = tt;
        ready = tt;
      } in
      let q = Steps-Follows w rs start in
      let v = acts ext q.actions w in
      let r = at_task t v idle i q.simulated in
      (q.actions, v.in_flight, q.others, r.done, Supplies-prefix _ _ r.supplied)
