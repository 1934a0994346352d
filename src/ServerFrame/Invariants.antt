-- ===== src/ServerFrame/Invariants.antt =====
-- The invariant rule for the server frame of src/CallbackDispatcher.cpp: what the surroundings and the
-- queue's own steps keep, a whole frame keeps, whatever is called back.
use amxx_mqtt_client.Prelude.{ℕ, zero, suc, ◌≡◌, some, List, ◌∷◌, arith, inl, inr, Option-cases}
use amxx_mqtt_client.External.{Call, Cell, Argument, cell, execute_forward, call_next}
use amxx_mqtt_client.MqttClientMgr.{get_client}
use amxx_mqtt_client.CallbackDispatcher.{
  CallbackEvent, Dispatcher, pop, forward_call, forward_of, arguments_of,
}
use amxx_mqtt_client.World.{World, note}
use amxx_mqtt_client.ServerFrame.{
  Surroundings, resolve, execute_callback, process_loop, process_pending_callbacks, on_server_frame,
}

pub record Keeps (P : World → Type 0) (s : Surroundings) : Type 0 where
  pub engine_frame : (w : World) → P w → P (s.engine_frame w)
  pub pawn : (call : Call) (w : World) → P w → P (s.pawn call w)
  pub meanwhile : (k : ℕ) (w : World) → P w → P (s.meanwhile k w)
  pub next_called : (w : World) → P w → P (note call_next w)
  pub executed :
      (id : Cell) (args : List Argument) (w : World) (e : CallbackEvent)
      → P w
      → resolve e w ≡ some (execute_forward id args)
      → P (note (execute_forward id args) w)
  pub popped :
      (w : World) (e : CallbackEvent) (d : Dispatcher)
      → P w
      → pop w.dispatcher ≡ some (e, d)
      → P (record w { dispatcher = d })

-- An event resolves to nothing but the execution of a forward.
pub resolve-executes :
    (e : CallbackEvent) (w : World) (call : Call)
    → resolve e w ≡ some call
    → (id : Cell) × (args : List Argument) × (call ≡ execute_forward id args)
unfolding resolve forward_call
resolve-executes e w call q = elim (Option-cases (get_client w.mgr e.handle)) [
  | inl none' ↦ absurd (ground arith)
  | inr (c, f) ↦ (forward_of c e.type, cell e.handle ∷ arguments_of e.type e, ground arith)
]

module _ {P : World → Type 0} {s : Surroundings} (keeps : Keeps P s) where
  execute_callback-Keeps : (e : CallbackEvent) (w : World) → P w → P (execute_callback s e w)
  unfolding execute_callback
  execute_callback-Keeps e w h = elim (Option-cases (resolve e w)) [
    | inl none' ↦ rw (none', execute_callback) h
    | inr (call, q) ↦
        let (id, args, same) = resolve-executes e w call q in
        rw (q, execute_callback)
          (keeps.pawn call _ (rw same (keeps.executed id args w e h (rw same at q))))
  ]

  process_loop-Keeps : (k : ℕ) (w : World) → P w → P (process_loop s k w)
  unfolding process_loop
  process_loop-Keeps zero w h = h
  process_loop-Keeps (suc k) w h =
      let w' = s.meanwhile k w in
      let h' = keeps.meanwhile k w h in
      elim (Option-cases (pop w'.dispatcher)) [
        | inl none' ↦ rw (none', process_loop) h'
        | inr ((e, d), q) ↦
            rw (q, process_loop)
              (process_loop-Keeps k (execute_callback s e (record w' { dispatcher = d }))
                (execute_callback-Keeps e _ (keeps.popped w' e d h' q)))
      ]

  pub on_server_frame-Keeps : (w : World) → P w → P (on_server_frame s w)
  unfolding on_server_frame process_pending_callbacks
  on_server_frame-Keeps w h = process_loop-Keeps _ _ (keeps.engine_frame _ (keeps.next_called w h))
