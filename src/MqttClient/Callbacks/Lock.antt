-- ===== src/MqttClient/Callbacks/Lock.antt =====
-- Who has m_handlerMutex of src/MqttClient.cpp while callbacks and the destructor run.
use amxx_mqtt_client.Prelude.{
  ℕ, ◌+◌, ◌<◌, ◌≡◌, refl, ap, if◌then◌else◌, List, [], ◌∷◌, ◌++◌, map, arith,
}
use amxx_mqtt_client.MqttClient.{MqttClient, Notice}
use amxx_mqtt_client.External.{NetworkEvent}
use amxx_mqtt_client.MqttClient.Callbacks.{
  Callback, entered, holding, calling, Phase, running, locking, draining, gone, Connection, Step,
  enter, copied, lock, copy, call, destruct, set_stopping, delete, Steps, here, next, start,
}

-- The places of the program that have the lock.
abbrev pub holders : {H : Type 0} → List (Callback H) → ℕ
holders [] = 0
holders (entered _ ∷ cs) = holders cs
holders (holding _ ∷ cs) = holders cs + 1
holders (calling _ ∷ cs) = holders cs

abbrev pub owner : Phase → ℕ
owner running = 0
owner locking = 1
owner draining = 0
owner gone = 0

-- Every place that has the lock is counted in m_handlerMutex, which is taken or not.
pub record IsLocked {H : Type 0} (s : Connection H) : Type 0 where
  pub owners : owner s.phase + holders s.callbacks ≡ (if s.locked then 1 else 0)

module _ {H : Type 0} where
  pub holders-append : (xs ys : List (Callback H)) → holders (xs ++ ys) ≡ holders xs + holders ys
  holders-append [] ys = omega arith
  holders-append (entered e ∷ xs) ys = holders-append xs ys
  holders-append (holding e ∷ xs) ys = omega (arith, holders-append xs ys)
  holders-append (calling n ∷ xs) ys = holders-append xs ys

  holders-calling : (ns : List (Notice H)) → holders (map calling ns) ≡ 0
  holders-calling [] = refl
  holders-calling (n ∷ ns) = holders-calling ns

  pub Step-IsLocked : {s t : Connection H} → Step s t → IsLocked s → IsLocked t
  Step-IsLocked {s} (enter e alive) l = ground (arith, holders-append s.callbacks (entered e ∷ []))
  Step-IsLocked (lock e xs ys at free) l =
      ground (arith, holders-append xs (entered e ∷ ys), holders-append xs (holding e ∷ ys))
  Step-IsLocked {s} (copy e xs ys at) l =
      let ns = copied e s.client in
      ground (
        arith,
        holders-append xs (holding e ∷ ys),
        holders-append xs (map calling ns ++ ys),
        holders-append (map calling ns) ys,
        holders-calling ns,
      )
  Step-IsLocked (call n xs ys at) l =
      ground (arith, holders-append xs (calling n ∷ ys), holders-append xs ys)
  Step-IsLocked (destruct r free) l = ground arith
  Step-IsLocked (set_stopping r) l = ground arith
  Step-IsLocked (delete r none') l = ground arith

  pub Steps-IsLocked : {s t : Connection H} → IsLocked s → Steps s t → IsLocked t
  Steps-IsLocked l here = l
  Steps-IsLocked l (next r p) = Step-IsLocked p (Steps-IsLocked l r)

  pub start-IsLocked : (c : MqttClient H) → IsLocked (start c)
  start-IsLocked c = record { owners = refl }

  -- A callback that has the lock.
  pub holder_of :
      (cs : List (Callback H))
      → 0 < holders cs
      → (e : NetworkEvent) × (xs : List (Callback H)) × (ys : List (Callback H)) × (cs
          ≡ xs ++ (holding e ∷ ys))
  holder_of [] h = absurd (omega arith)
  holder_of (holding e ∷ cs) h = (e, [], cs, refl)
  holder_of (entered e ∷ cs) h =
      let (e', xs, ys, at) = holder_of cs h in (e', entered e ∷ xs, ys, ap (◌∷◌ (entered e)) at)
  holder_of (calling n ∷ cs) h =
      let (e', xs, ys, at) = holder_of cs h in (e', calling n ∷ xs, ys, ap (◌∷◌ (calling n)) at)
