-- ===== src/MqttClient/Callbacks/Stopping.antt =====
-- m_stopping of src/MqttClient.cpp: which handlers are still called once it is set.
use mathlib.Core.List.{append_assoc, append-nil}
use amxx_mqtt_client.Prelude.{◌≡◌, ◌∙◌, refl, sym, true, List, [], ◌∷◌, ◌++◌, arith}
use amxx_mqtt_client.Prelude.Takes.{Supplies, Supplies-refl, Supplies-front}
use amxx_mqtt_client.External.{NetworkEvent, connected}
use amxx_mqtt_client.MqttClient.{MqttClient, Notice}
use amxx_mqtt_client.MqttClient.Callbacks.{
  Callback, entered, holding, calling, Connection, Step, enter, copied, write_flag, lock, copy,
  call, destruct, set_stopping, delete, Steps, here, next,
}

-- The handlers that callbacks have copied and not yet called.
abbrev pub in_hand : {H : Type 0} → List (Callback H) → List (Notice H)
in_hand [] = []
in_hand (entered _ ∷ cs) = in_hand cs
in_hand (holding _ ∷ cs) = in_hand cs
in_hand (calling n ∷ cs) = n ∷ in_hand cs

module _ {H : Type 0} where
  in_hand-append : (xs ys : List (Callback H)) → in_hand (xs ++ ys) ≡ in_hand xs ++ in_hand ys
  in_hand-append [] ys = refl
  in_hand-append (entered e ∷ xs) ys = in_hand-append xs ys
  in_hand-append (holding e ∷ xs) ys = in_hand-append xs ys
  in_hand-append (calling n ∷ xs) ys = cc (in_hand-append xs ys)

  copied-stopping : (e : NetworkEvent) (c : MqttClient H) → c.stopping ≡ true → copied e c ≡ []
  unfolding copied
  copied-stopping (connected msg) c h = ground arith
  copied-stopping e c h = ground arith

  write_flag-stopping :
      (e : NetworkEvent) (c : MqttClient H) → (write_flag e c).stopping ≡ c.stopping
  unfolding write_flag
  write_flag-stopping (connected msg) c = refl
  write_flag-stopping e c = refl

  -- What has been called since `s`, and what is still to be called, was in hand in `s`.
  record IsRest (s t : Connection H) : Type 0 where
    stopping : t.client.stopping ≡ true
    since : List (Notice H)
    called : t.called ≡ s.called ++ since
    supplied : Supplies (in_hand s.callbacks) (since ++ in_hand t.callbacks)

  kept_IsRest :
      {s t u : Connection H}
      → IsRest s t
      → u.client.stopping ≡ true
      → u.called ≡ t.called
      → in_hand u.callbacks ≡ in_hand t.callbacks
      → IsRest s u
  kept_IsRest r stop same hand = record {
    stopping = stop;
    since = r.since;
    called = same ∙ r.called;
    supplied = rw hand r.supplied;
  }

  Step-IsRest : {s t u : Connection H} → IsRest s t → Step t u → IsRest s u
  Step-IsRest {t} r (enter e alive) =
      kept_IsRest r (write_flag-stopping e t.client ∙ r.stopping) refl
        (in_hand-append t.callbacks (entered e ∷ []) ∙ append-nil (in_hand t.callbacks))
  Step-IsRest r (lock e xs ys at free) =
      kept_IsRest r r.stopping refl
        (ground (arith, in_hand-append xs (holding e ∷ ys), in_hand-append xs (entered e ∷ ys)))
  Step-IsRest {t} r (copy e xs ys at) = kept_IsRest r r.stopping refl (
      ground (
        arith,
        copied-stopping e t.client r.stopping,
        in_hand-append xs (holding e ∷ ys),
        in_hand-append xs ys,
      ))
  Step-IsRest {s} {t} r (call n xs ys at) = record {
    stopping = r.stopping;
    since = r.since ++ n ∷ [];
    called = rw r.called (append_assoc s.called r.since (n ∷ []));
    supplied = rw append_assoc (
        rw (in_hand-append xs ys) (
          Supplies-front r.since (in_hand xs) (in_hand ys) n
            (rw (← in_hand-append xs (calling n ∷ ys)) (rw (← at) r.supplied))));
  }
  Step-IsRest r (destruct b free) = kept_IsRest r r.stopping refl refl
  Step-IsRest r (set_stopping b) = kept_IsRest r refl refl refl
  Step-IsRest r (delete b none') = kept_IsRest r r.stopping refl refl

  Steps-IsRest : {s t : Connection H} → s.client.stopping ≡ true → Steps s t → IsRest s t
  Steps-IsRest {s} h here = record {
    stopping = h;
    since = [];
    called = sym (append-nil s.called);
    supplied = Supplies-refl (in_hand s.callbacks);
  }
  Steps-IsRest h (next r p) = Step-IsRest (Steps-IsRest h r) p

  -- Once m_stopping is set, only handlers that callbacks had copied before are called, each at most once,
  -- whatever the threads do and whatever other events arrive.
  pub stopping-calls :
      {s t : Connection H}
      → s.client.stopping ≡ true
      → Steps s t
      → (since : List (Notice H)) × (t.called ≡ s.called ++ since)
        × Supplies (in_hand s.callbacks) (since ++ in_hand t.callbacks)
  stopping-calls h r = let q = Steps-IsRest h r in (q.since, q.called, q.supplied)
