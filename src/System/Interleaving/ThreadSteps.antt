-- ===== src/System/Interleaving/ThreadSteps.antt =====
-- The steps of Paho's threads in Interleaving, matched by System: what a callback does in two steps it
-- does there at the first.
use mathlib.Core.List.{append_assoc}
use amxx_mqtt_client.Prelude.{
  refl, ◌≡◌, ◌≢◌, ◌∙◌, sym, ap, false, some, List, [], ◌∷◌, ◌++◌, arith, ltb,
}
use amxx_mqtt_client.Prelude.Takes.{Supplies, Supplies-append}
use amxx_mqtt_client.IntMap.{IntMap, find, assign}
use amxx_mqtt_client.External.{Cell, NetworkEvent, External}
use amxx_mqtt_client.MqttClient.{Notice}
use amxx_mqtt_client.MqttClient.Callbacks.{write_flag}
use amxx_mqtt_client.MqttClient.Events.{notice_of, receive-notice}
use amxx_mqtt_client.MqttClientMgr
use amxx_mqtt_client.MqttClientMgr.{MqttClientMgr, Handle, Client}
use amxx_mqtt_client.World.{World}
use amxx_mqtt_client.Natives.Args.{param, arg_count}
use amxx_mqtt_client.System.{thread, network, on_network, thread_step, act, acts}
use amxx_mqtt_client.System.Threads.{thread-IsSound}
use amxx_mqtt_client.System.Interleaving.{
  Cause, one, unloading, detaching, action_of, Stage, forwards, Task, idle, resetting, closing,
  dying, flagged, with_clients, last, on_enter,
}
use amxx_mqtt_client.System.Interleaving.Independence.{with_flight}
use amxx_mqtt_client.System.Interleaving.Farewell.{complete, with_history, farewell-assign}
use amxx_mqtt_client.System.Interleaving.Commuting.{
  IsReset, reset-network, one-gone, one-find, one-network, one-network_ne,
}
use amxx_mqtt_client.System.Interleaving.Simulation.{
  IsSimulated, IsKnown, IsReady, HasHandle, IsLive, Matches, after, expected, expected-append,
  find-IsLive, All-assign, find-All, IsReady-closing, write_flag-client, write_flag-IsBound,
  network-live, network-flight, IsKnown-network,
}

no_client : (k : Handle) (c : Client) → find [] k ≡ some c → ⊥
unfolding find
no_client k c f = ground arith

module _ (ext : External) (w : World) (es : List (Handle × NetworkEvent)) (v : World) where
  -- A client that is in the map here is in that of System, as it is.
  one-live :
      (params : List Cell) (enough : ltb (arg_count params) 1 ≡ false) (cs : IntMap Client)
      (p : Stage) (k : Handle) (c : Client)
      → IsSimulated ext w (closing (one params enough) cs p) es v
      → find w.mgr.clients k ≡ some c
      → (k ≢ param params 1) × (find v.mgr.clients k ≡ some c)
  one-live params enough cs p k c r f =
      let left = act ext (action_of (one params enough)) v in
      let here : find left.mgr.clients k ≡ some c = rw (ap (λ (x : World). x.mgr) r.done) f in
      let other : k ≢ param params 1 = λ same.
        ground (arith, one-gone ext params enough v, here, ap (find left.mgr.clients) same) in
      (other, sym (one-find ext params enough v k (λ e. other (sym e))) ∙ here)

  pub task-IsLive :
      (t : Task) (k : Handle) (c : Client)
      → IsSimulated ext w t es v
      → find w.mgr.clients k ≡ some c
      → IsLive k c v
  task-IsLive idle k c r f = find-IsLive k c v r.sound (rw (ap (λ (x : World). x.mgr) r.done) f)
  task-IsLive (resetting u) k c r f = find-IsLive k c v r.sound (rw (← r.ready.2) f)
  task-IsLive (closing (one params enough) cs p) k c r f =
      find-IsLive k c v r.sound (one-live params enough cs p k c r f).1
  task-IsLive (closing unloading cs p) k c r f = absurd (no_client k c (rw r.ready.1 at f))
  task-IsLive (closing detaching cs p) k c r f = absurd (no_client k c (rw r.ready.1 at f))

  -- A callback that begins: System puts its handler in flight at once.
  module _ (k : Handle) (e : NetworkEvent) where
    abbrev more : List (Notice Handle)
    more = v.in_flight ++ notice_of k e ∷ []

    reset-more :
        (u : Cause) (d : Client)
        → IsReset u
        → IsLive k d v
        → act ext (action_of u) (on_network k e v) ≡ with_flight more (act ext (action_of u) v)
    reset-more u d q l =
        reset-network ext k e d v l.found u q
        ∙ ap (λ ns. with_flight (v.in_flight ++ ns) (act ext (action_of u) v))
            (ground (arith, receive-notice k d.base e l.bound, l.awake))

    enter-done :
        (t : Task) (c : Client)
        → IsSimulated ext w t es v
        → find w.mgr.clients k ≡ some c
        → IsLive k c v
        → after ext t (on_network k e v) ≡ with_flight more (complete t (on_enter k e c w))
    unfolding on_enter MqttClientMgr.update
    enter-done idle c r f l =
        network-live k e c v l ∙ ap (λ x. with_flight more (on_enter k e c x)) r.done
    enter-done (resetting u) c r f l =
        reset-more u c r.ready.0 l
        ∙ ap (with_flight more) r.done
        ∙ ap (λ h. with_flight more (last u (with_history h (with_clients [] w))))
            (sym (
              farewell-assign w.mgr.clients forwards k c (write_flag e c.base) w.history f
                (write_flag-client c.base e)))
    enter-done (closing (one params enough) cs p) c r f l =
        let x = with_flight v.in_flight (complete (closing (one params enough) cs p) w) in
        one-network_ne ext params enough k e c v (one-live params enough cs p k c r f).0 l.found
        ∙ ap (on_network k e) r.done
        ∙ network-live k e c x (record { found = f; bound = l.bound; awake = l.awake })
    enter-done (closing unloading cs p) c r f l = absurd (no_client k c (rw r.ready.1 at f))
    enter-done (closing detaching cs p) c r f l = absurd (no_client k c (rw r.ready.1 at f))

    enter-IsReady :
        (t : Task) (c : Client)
        → IsSimulated ext w t es v
        → find w.mgr.clients k ≡ some c
        → IsLive k c v
        → IsReady t (on_enter k e c w).mgr w.dispatcher (on_network k e v).mgr
    unfolding on_enter
    enter-IsReady idle c r f l = tt
    enter-IsReady (resetting u) c r f l = (
      r.ready.0,
      r.ready.1,
      ap (λ m. MqttClientMgr.update m k (flagged e c)) r.ready.2
          ∙ sym (ap (λ (x : World). x.mgr) (network-live k e c v l)),
    )
    enter-IsReady (closing (one params enough) cs p) c r f l = r.ready
    enter-IsReady (closing unloading cs p) c r f l = absurd (no_client k c (rw r.ready.1 at f))
    enter-IsReady (closing detaching cs p) c r f l = absurd (no_client k c (rw r.ready.1 at f))

    more-supplied :
        (ns : List (Notice Handle))
        → Supplies v.in_flight (ns ++ expected es)
        → Supplies more (ns ++ expected (es ++ (k, e) ∷ []))
    more-supplied ns r =
        rw (expected-append es ((k, e) ∷ []), ← append_assoc) (Supplies-append (notice_of k e) r)

    pub enter-Matches :
        (t : Task) (c : Client)
        → find w.mgr.clients k ≡ some c
        → IsSimulated ext w t es v
        → Matches ext (on_enter k e c w) t (es ++ (k, e) ∷ []) v (thread (network k e) ∷ [])
    unfolding acts act thread_step on_enter
    enter-Matches t c f r =
        let l = task-IsLive t k c r f in
        record {
          actions = thread (network k e) ∷ [];
          others = refl;
          simulated = record {
            sound = thread-IsSound (network k e) v r.sound;
            done = rw (network-flight k e c v l) (enter-done t c r f l);
            supplied = rw (network-flight k e c v l) (more-supplied w.in_flight r.supplied);
            known = IsKnown-network k e c v l (dying t) r.known;
            ready = enter-IsReady t c r f l;
          };
        }

    dying-done :
        (u : Cause) (cs : IntMap Client) (p : Stage) (c d : Client)
        → IsSimulated ext w (closing u cs p) es v
        → find cs k ≡ some c
        → IsLive k d v
        → act ext (action_of u) (on_network k e v) ≡ with_flight more (act ext (action_of u) v)
    dying-done (one params enough) cs p c d r f l =
        let same : k ≡ param params 1 = find-All (HasHandle (param params 1)) cs k c r.ready f in
        ap (λ j. act ext (action_of (one params enough)) (on_network j e v)) same
        ∙ one-network ext params enough e d v (ap (find v.mgr.clients) (sym same) ∙ l.found)
        ∙ ap (λ ns. with_flight (v.in_flight ++ ns) (act ext (action_of (one params enough)) v))
            (ground (arith, receive-notice k d.base e l.bound, l.awake))
    dying-done unloading cs p c d r f l = reset-more unloading d tt l
    dying-done detaching cs p c d r f l = reset-more detaching d tt l

    pub enter_dying-Matches :
        (u : Cause) (cs : IntMap Client) (p : Stage) (c : Client)
        → find cs k ≡ some c
        → IsSimulated ext w (closing u cs p) es v
        → Matches ext w
            (closing u (assign cs k (flagged e c)) p)
            (es ++ (k, e) ∷ [])
            v
            (thread (network k e) ∷ [])
    unfolding acts act thread_step
    enter_dying-Matches u cs p c f r =
        let (b, d, g) = find-All (IsKnown v.mgr.clients) cs k c r.known f in
        let l = find-IsLive k d v r.sound g in
        let same =
          farewell-assign cs p k c (write_flag e c.base) w.history f (write_flag-client c.base e) in
        record {
          actions = thread (network k e) ∷ [];
          others = refl;
          simulated = record {
            sound = thread-IsSound (network k e) v r.sound;
            done = rw (network-flight k e d v l) (
                dying-done u cs p c d r f l
                ∙ ap (with_flight more) r.done
                ∙ ap (λ h. with_flight more (last u (with_history h w))) (sym same));
            supplied = rw (network-flight k e d v l) (more-supplied w.in_flight r.supplied);
            known = IsKnown-network k e d v l _ (
                All-assign (IsKnown v.mgr.clients) cs k (flagged e c) r.known
                  (write_flag-IsBound k c.base e b, d, g));
            ready =
                IsReady-closing u cs _ p p w.mgr v.mgr _ w.dispatcher
                  (λ j h.
                    All-assign (HasHandle j) cs k (flagged e c) h
                      (find-All (HasHandle j) cs k c h f))
                  r.ready;
          };
        }
