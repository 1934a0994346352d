-- ===== src/ServerFrame/Order.antt =====
-- One server frame of src/CallbackDispatcher.cpp: in which order it takes events, and what is left.
use amxx_mqtt_client.Prelude.{
  Option, ℕ, zero, suc, ◌≤◌, ◌≡◌, refl, sym, ap, ◌∙◌, length-append, true, none, some, List, [],
  ◌∷◌, ◌++◌, arith, inl, inr, Option-cases, min, length, take, drop,
}
use native.Mathlib.Nat.{min-zero, zero-min, suc-min-suc}
use mathlib.Core.List.{append-nil, append_assoc}
use amxx_mqtt_client.External.{Call, History}
use amxx_mqtt_client.CallbackDispatcher.{CallbackEvent, Dispatcher, pop, max_callbacks_per_frame}
use amxx_mqtt_client.World.{World, note}
use amxx_mqtt_client.ServerFrame.{
  Surroundings, resolve, execute_callback, process_loop, process_pending_callbacks,
}

module _ {ℓ} {A : Type ℓ} where
  drop-min-length : (n : ℕ) (xs : List A) → drop (min (length xs) n) xs ≡ drop n xs
  drop-min-length zero [] = refl
  drop-min-length zero (x ∷ xs) = rw (min-zero (length (x ∷ xs)))
  drop-min-length (suc n) [] = rw (zero-min (suc n))
  drop-min-length (suc n) (x ∷ xs) = rw (suc-min-suc (length xs) n) (drop-min-length n xs)

  take-min-length : (n : ℕ) (xs : List A) → take (min (length xs) n) xs ≡ take n xs
  take-min-length zero [] = refl
  take-min-length zero (x ∷ xs) = rw (min-zero (length (x ∷ xs)))
  take-min-length (suc n) [] = rw (zero-min (suc n))
  take-min-length (suc n) (x ∷ xs) =
      rw (suc-min-suc (length xs) n) (ap (λ ys. x ∷ ys) (take-min-length n xs))

  drop-append : (n : ℕ) (xs ys : List A) → n ≤ length xs → drop n (xs ++ ys) ≡ drop n xs ++ ys
  drop-append zero xs ys h = refl
  drop-append (suc n) [] ys h = absurd (omega arith)
  drop-append (suc n) (x ∷ xs) ys h = drop-append n xs ys (omega arith)

process_loop_next :
    (s : Surroundings) (k : ℕ) (w : World) (e : CallbackEvent) (d : Dispatcher)
    → pop (s.meanwhile k w).dispatcher ≡ some (e, d)
    → process_loop s (suc k) w
      ≡ process_loop s k (execute_callback s e (record (s.meanwhile k w) { dispatcher = d }))
unfolding process_loop
process_loop_next s k w e d q = rw (q, process_loop)

-- Nothing happens beside the loop.
pub record IsIdle (s : Surroundings) : Type 0 where
  pub pawn : (c : Call) (w : World) → s.pawn c w ≡ w
  pub meanwhile : (k : ℕ) (w : World) → s.meanwhile k w ≡ w

-- The calls that events resolve to, in their order, on top of those made before.
abbrev pub delivered : World → List CallbackEvent → History → History
delivered w [] h = h
delivered w (e ∷ es) h = delivered w es (elim (resolve e w) [ none ↦ h | some call ↦ call ∷ h ])

abbrev pub with_queue : World → List CallbackEvent → History → World
with_queue w es h = record w { dispatcher = record { accepting = true; pending = es }; history = h }

module _ {s : Surroundings} (idle : IsIdle s) where
  execute_callback_idle :
      (e : CallbackEvent) (w : World) (es : List CallbackEvent) (h : History)
      → execute_callback s e (with_queue w es h)
        ≡ with_queue w es (elim (resolve e w) [ none ↦ h | some call ↦ call ∷ h ])
  unfolding execute_callback resolve
  execute_callback_idle e w es h = elim (Option-cases (resolve e w)) [
    | inl none' ↦ ground arith
    | inr (call, q) ↦ ground (arith, idle.pawn call (with_queue w es (call ∷ h)))
  ]

  process_loop_idle :
      (n : ℕ) (w : World) (es : List CallbackEvent) (h : History)
      → process_loop s n (with_queue w es h) ≡ with_queue w (drop n es) (delivered w (take n es) h)
  unfolding process_loop pop
  process_loop_idle zero w es h = refl
  process_loop_idle (suc n) w [] h =
      let same = idle.meanwhile n (with_queue w [] h) in rw (same, process_loop, same)
  process_loop_idle (suc n) w (e ∷ es) h =
      let now = with_queue w (e ∷ es) h in
      let rest : Dispatcher = record { accepting = true; pending = es } in
      let same = idle.meanwhile n now in
      process_loop_next s n now e rest (ap (λ (v : World). pop v.dispatcher) same)
      ∙ ap (λ (v : World). process_loop s n (execute_callback s e (record v { dispatcher = rest })))
          same
      ∙ ap (process_loop s n) (execute_callback_idle e w es h)
      ∙ process_loop_idle n w es _

  -- With nothing beside it and the queue accepting events, a frame executes the forwards of the
  -- first 256 events that wait, in the order in which they were queued, skips those with no client
  -- or no forward, and leaves the others in order for the next frame.
  pub process_pending_callbacks_idle :
      (w : World) (es : List CallbackEvent) (h : History)
      → process_pending_callbacks s (with_queue w es h)
        ≡ with_queue w (drop 256 es) (delivered w (take 256 es) h)
  unfolding process_pending_callbacks
  process_pending_callbacks_idle w es h = rw (
    process_loop_idle (min (length es) max_callbacks_per_frame) w es h,
    drop-min-length 256 es,
    take-min-length 256 es,
  )

-- What runs beside the loop adds given events to the queue, and neither stops nor restarts it.
pub record IsAppending (s : Surroundings) : Type 0 where
  pub by_pawn : Call → World → List CallbackEvent
  pub by_others : ℕ → World → List CallbackEvent
  pub pawn :
      (c : Call) (w : World)
      → ((s.pawn c w).dispatcher.pending ≡ w.dispatcher.pending ++ by_pawn c w)
        × ((s.pawn c w).dispatcher.accepting ≡ w.dispatcher.accepting)
  pub meanwhile :
      (k : ℕ) (w : World)
      → ((s.meanwhile k w).dispatcher.pending ≡ w.dispatcher.pending ++ by_others k w)
        × ((s.meanwhile k w).dispatcher.accepting ≡ w.dispatcher.accepting)

pop-cons :
    (d : Dispatcher) (e : CallbackEvent) (es : List CallbackEvent)
    → d.accepting ≡ true
    → d.pending ≡ e ∷ es
    → pop d ≡ some (e, record { accepting = true; pending = es })
unfolding pop
pop-cons d e es a p = rw (a, p)

module _ {s : Surroundings} (appending : IsAppending s) where
  -- What the plugin adds that is called for an event, if one is.
  abbrev pub added_by : Option Call → World → List CallbackEvent
  added_by none w = []
  added_by (some call) w = appending.by_pawn call (note call w)

  abbrev pub added_for : CallbackEvent → World → List CallbackEvent
  added_for e w = added_by (resolve e w) w

  -- What is added in `n` rounds, of which each takes the next of the events that wait.
  abbrev pub added : ℕ → List CallbackEvent → World → List CallbackEvent
  added zero es w = []
  added (suc n) [] w = []
  added (suc n) (e ∷ es) w =
      let xs = appending.by_others n w in
      let v = record (s.meanwhile n w) {
        dispatcher = record { accepting = true; pending = es ++ xs };
      } in
      let ys = added_for e v in (xs ++ ys) ++ added n (es ++ (xs ++ ys)) (execute_callback s e v)

  execute_callback_appends :
      (e : CallbackEvent) (w : World)
      → ((execute_callback s e w).dispatcher.pending ≡ w.dispatcher.pending ++ added_for e w)
        × ((execute_callback s e w).dispatcher.accepting ≡ w.dispatcher.accepting)
  unfolding execute_callback
  execute_callback_appends e w = elim (Option-cases (resolve e w)) [
    | inl none' ↦ rw (none', execute_callback) (sym (append-nil _), refl)
    | inr (call, q) ↦ rw (q, execute_callback) (appending.pawn call (note call w))
  ]

  process_loop_appends :
      (n : ℕ) (w : World) (es : List CallbackEvent)
      → w.dispatcher.pending ≡ es
      → w.dispatcher.accepting ≡ true
      → n ≤ length es
      → (process_loop s n w).dispatcher.pending ≡ drop n es ++ added n es w
  unfolding process_loop
  process_loop_appends zero w es p a le = p ∙ sym (append-nil es)
  process_loop_appends (suc n) w [] p a le = absurd (omega arith)
  process_loop_appends (suc n) w (e ∷ es) p a le =
      let xs = appending.by_others n w in
      let (p', a') = appending.meanwhile n w in
      let d : Dispatcher = record { accepting = true; pending = es ++ xs } in
      let q =
        pop-cons (s.meanwhile n w).dispatcher e (es ++ xs) (a' ∙ a) (p' ∙ ap (λ l. l ++ xs) p) in
      let v = record (s.meanwhile n w) { dispatcher = d } in
      let ys = added_for e v in
      let (p'', a'') = execute_callback_appends e v in
      let zs = added n (es ++ (xs ++ ys)) (execute_callback s e v) in
      ap (λ (u : World). u.dispatcher.pending) (process_loop_next s n w e d q)
      ∙ process_loop_appends n (execute_callback s e v) (es ++ (xs ++ ys))
          (p'' ∙ append_assoc es xs ys) a'' (omega (arith, length-append {0} es (xs ++ ys)))
      ∙ ap (λ l. l ++ zs) (drop-append n es (xs ++ ys) (omega arith))
      ∙ append_assoc (drop n es) (xs ++ ys) zs

  -- While plugins and threads only add events and the queue accepts them, a frame takes the first 256
  -- events out of the queue, or all if fewer wait. Those behind them wait in their order afterwards, and
  -- behind these stands what was added during the frame and nothing else: for each event that was taken
  -- what the threads added before and what the plugin added that was called, in this order.
  pub process_pending_callbacks_appends :
      (w : World)
      → w.dispatcher.accepting ≡ true
      → let es = w.dispatcher.pending in
        (process_pending_callbacks s w).dispatcher.pending
        ≡ drop 256 es ++ added (min (length es) 256) es w
  unfolding process_pending_callbacks
  process_pending_callbacks_appends w a =
      let es = w.dispatcher.pending in
      let n = min (length es) max_callbacks_per_frame in
      process_loop_appends n w es refl a (omega arith)
      ∙ ap (λ l. l ++ added n es w) (drop-min-length 256 es)
