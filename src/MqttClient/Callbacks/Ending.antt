-- ===== src/MqttClient/Callbacks/Ending.antt =====
-- The destructor of src/MqttClient.cpp against callbacks that are running: it ends.
use amxx_mqtt_client.Prelude.{
  ℕ, zero, suc, ◌+◌, ◌*◌, ◌≤◌, ◌<◌, ◌≡◌, ◌≢◌, ◌⊎◌, refl, List, [], ◌∷◌, ◌++◌, map, length, arith,
  Bool-cases, inl, inr,
}
use amxx_mqtt_client.External.{NetworkEvent, connected}
use amxx_mqtt_client.MqttClient.{MqttClient, Notice}
use amxx_mqtt_client.MqttClient.Callbacks.{
  Callback, entered, holding, calling, Phase, running, locking, draining, gone, Connection, Step,
  enter, copied, lock, copy, call, destruct, set_stopping, delete, Steps, start,
}
use amxx_mqtt_client.MqttClient.Callbacks.Lock.{
  IsLocked, Step-IsLocked, Steps-IsLocked, start-IsLocked, holder_of,
}

-- A step that is not the arrival of another event.
abbrev pub IsMove : {H : Type 0} {s t : Connection H} → Step s t → Type 0
IsMove (enter _ _) = ⊥
IsMove (lock _ _ _ _ _) = Unit
IsMove (copy _ _ _ _) = Unit
IsMove (call _ _ _ _) = Unit
IsMove (destruct _ _) = Unit
IsMove (set_stopping _) = Unit
IsMove (delete _ _) = Unit

-- Some step can be made until the destructor is through, and whichever are made, it comes to that, if
-- no more than `n` other events arrive.
pub data Ends {H : Type 0} : ℕ → Connection H → Type 0 where
  ended : {n : ℕ} {s : Connection H} → s.phase ≡ gone → Ends n s
  going :
      {n : ℕ} {s t : Connection H} (p : Step s t)
      → IsMove p
      → ((u : Connection H) (q : Step s u) → IsMove q → Ends n u)
      → ((m : ℕ) (u : Connection H) (q : Step s u) → n ≡ suc m → Ends m u)
      → Ends n s

-- What is left to do.
abbrev weight : {H : Type 0} → List (Callback H) → ℕ
weight [] = 0
weight (entered _ ∷ cs) = 3 + weight cs
weight (holding _ ∷ cs) = 2 + weight cs
weight (calling _ ∷ cs) = 1 + weight cs

abbrev ahead : Phase → ℕ
ahead running = 3
ahead locking = 2
ahead draining = 1
ahead gone = 0

phase_gone : (p : Phase) → (p ≡ gone) ⊎ (p ≢ gone)
phase_gone running = inr (λ e. cc)
phase_gone locking = inr (λ e. cc)
phase_gone draining = inr (λ e. cc)
phase_gone gone = inl refl

module _ {H : Type 0} where
  weight-append : (xs ys : List (Callback H)) → weight (xs ++ ys) ≡ weight xs + weight ys
  weight-append [] ys = omega arith
  weight-append (entered e ∷ xs) ys = omega (arith, weight-append xs ys)
  weight-append (holding e ∷ xs) ys = omega (arith, weight-append xs ys)
  weight-append (calling n ∷ xs) ys = omega (arith, weight-append xs ys)

  weight-calling : (ns : List (Notice H)) → weight (map calling ns) ≡ length ns
  weight-calling [] = refl
  weight-calling (n ∷ ns) = omega (arith, weight-calling ns)

  copied-one : (e : NetworkEvent) (c : MqttClient H) → length (copied e c) ≤ 1
  unfolding copied
  copied-one (connected msg) c = ground arith
  copied-one e c = ground arith

  measure : Connection H → ℕ
  measure s = ahead s.phase + weight s.callbacks

  -- A move leaves less to do, and an event that arrives at most 3 more.
  move-lt : {s t : Connection H} (p : Step s t) → IsMove p → measure t < measure s
  unfolding measure
  move-lt (enter e alive) m = absurd m
  move-lt (lock e xs ys at free) m =
      ground (arith, weight-append xs (entered e ∷ ys), weight-append xs (holding e ∷ ys))
  move-lt {s} (copy e xs ys at) m =
      let ns = copied e s.client in
      ground (
        arith,
        weight-append xs (holding e ∷ ys),
        weight-append xs (map calling ns ++ ys),
        weight-append (map calling ns) ys,
        weight-calling ns,
        copied-one e s.client,
      )
  move-lt (call n xs ys at) m =
      ground (arith, weight-append xs (calling n ∷ ys), weight-append xs ys)
  move-lt (destruct r free) m = ground arith
  move-lt (set_stopping r) m = ground arith
  move-lt (delete r none') m = ground arith

  IsMove-or_arrival : {s t : Connection H} (p : Step s t) → IsMove p ⊎ (measure t ≤ measure s + 3)
  unfolding measure
  IsMove-or_arrival {s} (enter e alive) =
      inr (ground (arith, weight-append s.callbacks (entered e ∷ [])))
  IsMove-or_arrival (lock e xs ys at free) = inl tt
  IsMove-or_arrival (copy e xs ys at) = inl tt
  IsMove-or_arrival (call n xs ys at) = inl tt
  IsMove-or_arrival (destruct r free) = inl tt
  IsMove-or_arrival (set_stopping r) = inl tt
  IsMove-or_arrival (delete r none') = inl tt

  step-le : {s t : Connection H} → Step s t → measure t ≤ measure s + 3
  step-le p = elim (IsMove-or_arrival p) [ inl m ↦ omega (arith, move-lt p m) | inr h ↦ h ]

  -- The destructor has begun.
  abbrev Begun : Connection H → Type 0
  Begun s = s.phase ≢ running

  Step-Begun : {s t : Connection H} → Step s t → Begun s → Begun t
  Step-Begun (enter e alive) b = b
  Step-Begun (lock e xs ys at free) b = b
  Step-Begun (copy e xs ys at) b = b
  Step-Begun (call n xs ys at) b = b
  Step-Begun (destruct r free) b = ground arith
  Step-Begun (set_stopping r) b = ground arith
  Step-Begun (delete r none') b = ground arith

  -- A step that can be made while callbacks are running in the reset of m_pClient.
  drain-IsMove :
      (s : Connection H) (c : Callback H) (cs : List (Callback H))
      → IsLocked s
      → s.phase ≡ draining
      → s.callbacks ≡ c ∷ cs
      → (t : Connection H) × (p : Step s t) × IsMove p
  drain-IsMove s (entered e) cs l d at = elim (Bool-cases s.locked) [
    | inl held ↦
        let (e', xs, ys, at') = holder_of s.callbacks (ground (arith, l.owners)) in
        (_, copy e' xs ys at', tt)
    | inr free ↦ (_, lock e [] cs at free, tt)
  ]
  drain-IsMove s (holding e) cs l d at = (_, copy e [] cs at, tt)
  drain-IsMove s (calling n) cs l d at = (_, call n [] cs at, tt)

  can-IsMove :
      (s : Connection H) (ph : Phase) (cs : List (Callback H))
      → IsLocked s
      → s.phase ≡ ph
      → s.callbacks ≡ cs
      → ph ≢ running
      → ph ≢ gone
      → (t : Connection H) × (p : Step s t) × IsMove p
  can-IsMove s running cs l e at b g = absurd (b refl)
  can-IsMove s locking cs l e at b g = (_, set_stopping e, tt)
  can-IsMove s draining [] l e at b g = (_, delete e at, tt)
  can-IsMove s draining (c ∷ cs) l e at b g = drain-IsMove s c cs l e at
  can-IsMove s gone cs l e at b g = absurd (g refl)

  ends :
      (fuel n : ℕ) (s : Connection H) → measure s + 4 * n < fuel → IsLocked s → Begun s → Ends n s
  ends zero n s small l b = absurd (omega arith)
  ends (suc fuel) n s small l b = elim (phase_gone s.phase) [
    | inl g ↦ ended g
    | inr g ↦
        let (t, p, m) = can-IsMove s s.phase s.callbacks l refl refl b g in
        going p m
          (λ u q m'.
            ends fuel n u (omega (arith, move-lt q m')) (Step-IsLocked q l) (Step-Begun q b))
          (λ k u q e. ends fuel k u (omega (arith, step-le q)) (Step-IsLocked q l) (Step-Begun q b))
  ]

  -- Once the destructor has begun on a connection, with any callbacks under way, and however Paho's
  -- threads are scheduled, it ends, if Paho starts no more than some finite number of callbacks. No
  -- callback waits for m_handlerMutex for ever, and so MQTTAsync_destroy, which waits for them, returns.
  pub destructor-Ends :
      (n : ℕ) (c : MqttClient H) {s : Connection H}
      → Steps (start c) s
      → s.phase ≢ running
      → Ends n s
  destructor-Ends n c {s} r b =
      ends (measure s + 4 * n + 1) n s (omega arith) (Steps-IsLocked (start-IsLocked c) r) b
