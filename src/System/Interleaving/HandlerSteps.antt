-- ===== src/System/Interleaving/HandlerSteps.antt =====
-- Handlers that the callbacks of Interleaving copy and call, matched by System.
use mathlib.Core.List.{append_assoc, append-nil}
use amxx_mqtt_client.Prelude.{
  ℕ, suc, ◌≡◌, ◌∙◌, ◌⊎◌, inl, inr, refl, sym, ap, false, some, List, [], ◌∷◌, ◌++◌, arith, ltb,
  Option-cases,
}
use amxx_mqtt_client.Prelude.Takes.{
  Takes, first, later, Supplies, Supplies-without, Supplies-middle, Supplies-front,
}
use amxx_mqtt_client.IntMap.{IntMap, find}
use amxx_mqtt_client.External.{Cell, NetworkEvent, External}
use amxx_mqtt_client.MqttClient.{Notice}
use amxx_mqtt_client.MqttClient.Events.{notice_of}
use amxx_mqtt_client.MqttClientMgr.{Handle, Client}
use amxx_mqtt_client.CallbackDispatcher.{Dispatcher, enqueue, dispatch}
use amxx_mqtt_client.CallbackDispatcher.Queue.{dispatch-enqueue}
use amxx_mqtt_client.World.{World}
use amxx_mqtt_client.Natives.Args.{arg_count}
use amxx_mqtt_client.System.{thread, deliver, pick, on_deliver, thread_step, act, acts}
use amxx_mqtt_client.System.Threads.{thread-IsSound}
use amxx_mqtt_client.System.Interleaving.{
  one, unloading, detaching, action_of, Stage, Task, idle, resetting, closing, dying, on_copy,
}
use amxx_mqtt_client.System.Interleaving.Independence.{with_flight}
use amxx_mqtt_client.System.Interleaving.Farewell.{complete}
use amxx_mqtt_client.System.Interleaving.Commuting.{one-queue}
use amxx_mqtt_client.System.Interleaving.Simulation.{
  IsSimulated, IsKnown, IsReady, Matches, after, expected, expected-append, find-All, copied-bound,
  complete-flight,
}
use amxx_mqtt_client.System.Interleaving.ThreadSteps.{task-IsLive}

pick-Takes :
    {ns rest : List (Notice Handle)} {n : Notice Handle}
    → Takes ns n rest
    → (k : ℕ) × (pick k ns ≡ some (n, rest))
unfolding pick
pick-Takes first = (0, refl)
pick-Takes (later t) = let (k, e) = pick-Takes t in (suc k, ground (arith, e))

-- What a callback copies, or does not, was expected.
copy-supplied :
    (ns fs cs xs ys : List (Notice Handle)) (n : Notice Handle)
    → (cs ≡ []) ⊎ (cs ≡ n ∷ [])
    → Supplies ns (fs ++ (xs ++ (n ∷ ys)))
    → Supplies ns ((fs ++ cs) ++ (xs ++ ys))
copy-supplied ns fs cs xs ys n (inl e) r =
    rw (e, append-nil, ← append_assoc) (Supplies-without (fs ++ xs) ys n (rw append_assoc r))
copy-supplied ns fs cs xs ys n (inr e) r = rw (e, append_assoc) (Supplies-front fs xs ys n r)

-- A queue that accepts nothing.
dispatch-closed : (n : Notice Handle) (d : Dispatcher) → d.accepting ≡ false → dispatch n d ≡ d
unfolding enqueue
dispatch-closed n d h = dispatch-enqueue n d ∙ ground arith

abbrev requeued : List (Notice Handle) → Dispatcher → World → World
requeued ns d w = record w { in_flight = ns; dispatcher = d }

module _ (ext : External) (w : World) (es : List (Handle × NetworkEvent)) (v : World) where
  on_copy-bound :
      (t : Task) (k : Handle) (e : NetworkEvent)
      → IsSimulated ext w t es v
      → (on_copy k e w.mgr.clients (dying t) ≡ [])
        ⊎ (on_copy k e w.mgr.clients (dying t) ≡ notice_of k e ∷ [])
  unfolding on_copy
  on_copy-bound t k e r = elim (Option-cases (find w.mgr.clients k)) [
    | inr (c, f) ↦
        rw (f, on_copy) (copied-bound k c.base e (task-IsLive ext w es v t k c r f).bound)
    | inl f ↦ elim (Option-cases (find (dying t) k)) [
      | inr (c, g) ↦
          let b = (find-All (IsKnown v.mgr.clients) (dying t) k c r.known g).0 in
          rw (f, on_copy) (rw (g, on_copy) (copied-bound k c.base e b))
      | inl g ↦ inl (rw (f, on_copy) (rw (g, on_copy)))
    ]
  ]

  done-flight :
      (t : Task) (ns : List (Notice Handle))
      → IsSimulated ext w t es v
      → after ext t v ≡ with_flight v.in_flight (complete t (with_flight ns w))
  done-flight t ns r = r.done ∙ sym (complete-flight t ns v.in_flight w)

  pub copy-Matches :
      (t : Task) (k : Handle) (e : NetworkEvent) (xs ys : List (Handle × NetworkEvent))
      → es ≡ xs ++ ((k, e) ∷ ys)
      → IsSimulated ext w t es v
      → Matches ext
          (with_flight (w.in_flight ++ on_copy k e w.mgr.clients (dying t)) w)
          t
          (xs ++ ys)
          v
          []
  unfolding acts
  copy-Matches t k e xs ys at r = record {
    actions = [];
    others = refl;
    simulated = record {
      sound = r.sound;
      done = done-flight t _ r;
      supplied = rw expected-append (
          copy-supplied v.in_flight w.in_flight _ (expected xs) (expected ys) (notice_of k e)
            (on_copy-bound t k e r) (rw (← expected-append xs ((k, e) ∷ ys), ← at) r.supplied));
      known = r.known;
      ready = r.ready;
    };
  }

  module _ (n : Notice Handle) (xs ys : List (Notice Handle)) where
    abbrev called : World
    called = record w { in_flight = xs ++ ys; dispatcher = dispatch n w.dispatcher }

    -- The handler's event is thrown away, and System leaves the handler in flight.
    refused-Matches :
        (t : Task)
        → w.in_flight ≡ xs ++ (n ∷ ys)
        → w.dispatcher.accepting ≡ false
        → IsSimulated ext w t es v
        → Matches ext called t es v []
    unfolding acts
    refused-Matches t at shut r = rw (dispatch-closed n w.dispatcher shut) (record {
      actions = [];
      others = refl;
      simulated = record {
        sound = r.sound;
        done = done-flight t _ r;
        supplied = rw append_assoc (
            Supplies-without xs (ys ++ expected es) n
              (rw (← append_assoc xs (n ∷ ys) (expected es), ← at) r.supplied));
        known = r.known;
        ready = r.ready;
      };
    })

    -- System calls the handler too.
    deliver-Matches :
        (t : Task)
        → w.in_flight ≡ xs ++ (n ∷ ys)
        → ((rest : List (Notice Handle)) (x : World)
            → x ≡ record v { in_flight = rest; dispatcher = dispatch n v.dispatcher }
            → after ext t x ≡ with_flight rest (complete t called))
        → IsReady t w.mgr (dispatch n w.dispatcher) v.mgr
        → IsSimulated ext w t es v
        → Matches ext called t es v []
    unfolding acts act thread_step on_deliver
    deliver-Matches t at done ready r =
        let es' = expected es in
        let (rest, taken, left) =
          Supplies-middle xs (ys ++ es') n {xs = v.in_flight}
            (rw (← append_assoc xs (n ∷ ys) es', ← at) r.supplied) in
        let (k, picked) = pick-Takes taken in
        let x = record v { in_flight = rest; dispatcher = dispatch n v.dispatcher } in
        let reached : on_deliver k v ≡ x = rw (picked, on_deliver) in
        record {
          actions = thread (deliver k) ∷ [];
          others = refl;
          simulated = record {
            sound = thread-IsSound (deliver k) v r.sound;
            done = rw reached (done rest x refl);
            supplied = rw (reached, append_assoc) left;
            known = rw reached r.known;
            ready = rw reached ready;
          };
        }

    one-called :
        (params : List Cell) (enough : ltb (arg_count params) 1 ≡ false) (cs : IntMap Client)
        (p : Stage) (rest : List (Notice Handle))
        → IsSimulated ext w (closing (one params enough) cs p) es v
        → requeued rest (dispatch n v.dispatcher) (act ext (action_of (one params enough)) v)
          ≡ with_flight rest (complete (closing (one params enough) cs p) called)
    one-called params enough cs p rest r =
        let x = act ext (action_of (one params enough)) v in
        let own : x.dispatcher ≡ v.dispatcher =
          ap (λ (y : World). y.dispatcher)
            (one-queue ext params enough v.in_flight v.dispatcher v) in
        let same : v.dispatcher ≡ w.dispatcher =
          sym own ∙ ap (λ (y : World). y.dispatcher) r.done in
        ap (λ d. requeued rest (dispatch n d) x) same
        ∙ ap (requeued rest (dispatch n w.dispatcher)) r.done

    pub call-Matches :
        (t : Task)
        → w.in_flight ≡ xs ++ (n ∷ ys)
        → IsSimulated ext w t es v
        → Matches ext called t es v []
    call-Matches idle at r =
        deliver-Matches idle at
          (λ rest x e. e ∙ ap (λ y. requeued rest (dispatch n y.dispatcher) y) r.done) tt r
    call-Matches (resetting u) at r = refused-Matches (resetting u) at r.ready.1 r
    call-Matches (closing (one params enough) cs p) at r =
        deliver-Matches (closing (one params enough) cs p) at
          (λ rest x e.
            ap (act ext (action_of (one params enough))) e
            ∙ one-queue ext params enough rest (dispatch n v.dispatcher) v
            ∙ one-called params enough cs p rest r)
          r.ready r
    call-Matches (closing unloading cs p) at r =
        refused-Matches (closing unloading cs p) at r.ready.0 r
    call-Matches (closing detaching cs p) at r =
        refused-Matches (closing detaching cs p) at r.ready.0 r
