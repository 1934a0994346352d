-- ===== src/System/Invariants.antt =====
-- The invariant rule for the module as a whole: what each event keeps, every run keeps, with the state
-- sound all along.
use amxx_mqtt_client.Prelude.{◌≡◌, some, List, [], ◌∷◌}
use amxx_mqtt_client.External.{Cell, Argument, External, execute_forward, call_next}
use amxx_mqtt_client.CallbackDispatcher.{CallbackEvent, Dispatcher, pop}
use amxx_mqtt_client.World.{World, note}
use amxx_mqtt_client.ServerFrame.{resolve}
use amxx_mqtt_client.ServerFrame.Invariants.{Keeps, on_server_frame-Keeps}
use amxx_mqtt_client.System.{
  ThreadAction, Action, thread_step, act, thread_steps, acts, Script, surroundings, Step, action,
  frame, step, run,
}
use amxx_mqtt_client.System.Soundness.{act-IsSound, surroundings-Keeps}
use amxx_mqtt_client.System.Threads.{IsSound, thread-IsSound}

pub record IsInvariant (ext : External) (Q : World → Type 0) : Type 0 where
  pub act : (a : Action) (w : World) → IsSound w → Q w → Q (act ext a w)
  pub thread : (t : ThreadAction) (w : World) → IsSound w → Q w → Q (thread_step t w)
  pub next_called : (w : World) → Q w → Q (note call_next w)
  pub executed :
      (id : Cell) (args : List Argument) (w : World) (e : CallbackEvent)
      → Q w
      → resolve e w ≡ some (execute_forward id args)
      → Q (note (execute_forward id args) w)
  pub popped :
      (w : World) (e : CallbackEvent) (d : Dispatcher)
      → Q w
      → pop w.dispatcher ≡ some (e, d)
      → Q (record w { dispatcher = d })

module _ (ext : External) {Q : World → Type 0} (inv : IsInvariant ext Q) where
  abbrev pub Both : World → Type 0
  Both w = IsSound w × Q w

  act-Both : (a : Action) (w : World) → Both w → Both (act ext a w)
  act-Both a w h = (act-IsSound ext a w h.0, inv.act a w h.0 h.1)

  thread_steps-Both : (ts : List ThreadAction) (w : World) → Both w → Both (thread_steps ts w)
  unfolding thread_steps
  thread_steps-Both [] w h = h
  thread_steps-Both (t ∷ ts) w h =
      thread_steps-Both ts (thread_step t w) (thread-IsSound t w h.0, inv.thread t w h.0 h.1)

  acts-Both : (as' : List Action) (w : World) → Both w → Both (acts ext as' w)
  unfolding acts
  acts-Both [] w h = h
  acts-Both (a ∷ rest) w h = acts-Both rest (act ext a w) (act-Both a w h)

  surroundings-Both : (s : Script) → Keeps Both (surroundings ext s)
  unfolding surroundings
  surroundings-Both s = record {
    engine_frame = λ w h. acts-Both s.frame_actions w h;
    pawn = λ call w h. acts-Both (s.pawn_actions w.history call) w h;
    meanwhile = λ k w h. thread_steps-Both (s.thread_actions w.history k) w h;
    next_called = λ w h. ((surroundings-Keeps ext s).next_called w h.0, inv.next_called w h.1);
    executed = λ id args w e h q.
        ((surroundings-Keeps ext s).executed id args w e h.0 q, inv.executed id args w e h.1 q);
    popped = λ w e d h q. ((surroundings-Keeps ext s).popped w e d h.0 q, inv.popped w e d h.1 q);
  }

  pub step-Both : (t : Step) (w : World) → Both w → Both (step ext t w)
  unfolding step
  step-Both (action a) w h = act-Both a w h
  step-Both (frame s) w h = on_server_frame-Keeps (surroundings-Both s) w h

  pub run-IsInvariant :
      (ts : List Step) (w : World) → IsSound w × Q w → IsSound (run ext ts w) × Q (run ext ts w)
  unfolding run
  run-IsInvariant [] w h = h
  run-IsInvariant (t ∷ ts) w h = run-IsInvariant ts (step ext t w) (step-Both t w h)
