-- ===== src/ServerFrame/Batch.antt =====
-- One server frame of src/CallbackDispatcher.cpp: how many events it takes.
use amxx_mqtt_client.Prelude.{
  ℕ, zero, suc, ◌+◌, ◌≤◌, ◌≡◌, [], ◌∷◌, arith, inl, inr, Option-cases, min, length,
}
use amxx_mqtt_client.External.{Call, execute_forward, History}
use amxx_mqtt_client.CallbackDispatcher.{CallbackEvent, pop, max_callbacks_per_frame, forward_call}
use amxx_mqtt_client.World.{World, note}
use amxx_mqtt_client.ServerFrame.{
  Surroundings, resolve, execute_callback, process_loop, process_pending_callbacks,
}

abbrev weight : Call → ℕ
weight (execute_forward _ _) = 1
weight _ = 0

-- The forwards executed so far.
abbrev pub executions : History → ℕ
executions [] = 0
executions (c ∷ h) = weight c + executions h

-- No forward is executed but by the loop itself.
pub record IsPassive (s : Surroundings) : Type 0 where
  pub pawn : (c : Call) (w : World) → executions (s.pawn c w).history ≡ executions w.history
  pub meanwhile : (k : ℕ) (w : World) → executions (s.meanwhile k w).history ≡ executions w.history

module _ {s : Surroundings} (passive : IsPassive s) where
  executions-execute_callback_le :
      (e : CallbackEvent) (w : World)
      → executions (execute_callback s e w).history ≤ executions w.history + 1
  unfolding execute_callback resolve forward_call
  executions-execute_callback_le e w = elim (Option-cases (resolve e w)) [
    | inl none' ↦ rw (none', execute_callback) (omega arith)
    | inr (call, q) ↦
        rw (q, execute_callback)
          (let le : weight call ≤ 1 = ground arith in
            omega (arith, passive.pawn call (note call w)))
  ]

  executions-process_loop_le :
      (k : ℕ) (w : World) → executions (process_loop s k w).history ≤ executions w.history + k
  unfolding process_loop
  executions-process_loop_le zero w = omega arith
  executions-process_loop_le (suc k) w =
      let w' = s.meanwhile k w in
      let same = passive.meanwhile k w in
      elim (Option-cases (pop w'.dispatcher)) [
        | inl none' ↦ rw (none', process_loop) (omega (arith, same))
        | inr ((e, d), q) ↦
            let u = record w' { dispatcher = d } in
            rw (q, process_loop)
              (omega (
                arith,
                same,
                executions-execute_callback_le e u,
                executions-process_loop_le k (execute_callback s e u),
              ))
      ]

  -- A server frame executes at most 256 forwards, whatever plugins and threads do meanwhile.
  pub executions-process_pending_callbacks_le :
      (w : World) → executions (process_pending_callbacks s w).history ≤ executions w.history + 256
  unfolding process_pending_callbacks
  executions-process_pending_callbacks_le w = omega (
    arith,
    executions-process_loop_le (min (length w.dispatcher.pending) max_callbacks_per_frame) w,
  )
