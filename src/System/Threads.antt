-- ===== src/System/Threads.antt =====
-- What holds of the whole state of the module, and that the threads of Paho keep it: the callbacks of
-- src/MqttClient.cpp and the handlers of src/MqttClientMgr.cpp.
use amxx_mqtt_client.Prelude.{
  ℕ, zero, suc, ◌≤◌, ◌<◌, ◌≡◌, some, List, [], ◌∷◌, arith, All, All-append, All-map, inl, inr,
  Option-cases, Bool, true, false, if◌then◌else◌,
}
use amxx_mqtt_client.External.{NetworkEvent}
use amxx_mqtt_client.MqttClient
use amxx_mqtt_client.MqttClient.{Notice}
use amxx_mqtt_client.MqttClient.Events.{
  handler_of, notice_of, receive-SameParts, receive-notice, notice_of-handler,
}
use amxx_mqtt_client.MqttClientMgr
use amxx_mqtt_client.MqttClientMgr.{MqttClientMgr, Handle, Client, get_client}
use amxx_mqtt_client.MqttClientMgr.Changes.{
  Change, kept, updated, Inv, Change-Inv, Change-next, find-IsEntry,
}
use amxx_mqtt_client.CallbackDispatcher.Queue.{IsQueue, IsQueue-mono, dispatch-IsQueue}
use amxx_mqtt_client.World.{World}
use amxx_mqtt_client.Natives.Effects.{Effect, Queueing, unchanged, queued}
use amxx_mqtt_client.System.{
  ThreadAction, network, deliver, pick, on_network, on_deliver, thread_step,
}

-- The handler in flight is bound to a handle that has been given out.
abbrev pub IsGiven : ℕ → Notice Handle → Type 0
IsGiven next n = handler_of n < next

-- The manager's invariant, and every event and handler in flight under a handle that has been given
-- out; no event waits while none are accepted.
pub record IsSound (w : World) : Type 0 where
  pub mgr : Inv w.mgr
  pub queue : IsQueue w.mgr.next_handle w.dispatcher
  pub flying : All (IsGiven w.mgr.next_handle) w.in_flight

pub All-IsGiven_mono :
    (m n : ℕ) (ns : List (Notice Handle)) → m ≤ n → All (IsGiven m) ns → All (IsGiven n) ns
All-IsGiven_mono m n ns le = All-map (IsGiven m) (IsGiven n) ns (λ x h. omega arith)

pub Effect-IsSound : (w v : World) → Effect w v → IsSound w → IsSound v
Effect-IsSound w v f s = record {
  mgr = Change-Inv f.change s.mgr;
  queue = IsQueue-mono w.mgr.next_handle v.mgr.next_handle _ (Change-next f.change) (go f.queueing);
  flying = rw f.in_flight (All-IsGiven_mono w.mgr.next_handle _ _ (Change-next f.change) s.flying);
}
  where
    go :
        Queueing w.mgr.next_handle w.dispatcher v.dispatcher
        → IsQueue w.mgr.next_handle v.dispatcher
    go (unchanged e) = rw e s.queue
    go (queued n h e) = rw e (dispatch-IsQueue w.mgr.next_handle n w.dispatcher h s.queue)

-- An event of the network updates a client and puts at most one notice in flight.
network-Change : (k : Handle) (e : NetworkEvent) (w : World) → Change w.mgr (on_network k e w).mgr
unfolding on_network get_client
network-Change k e w = elim (Option-cases (get_client w.mgr k)) [
  | inl none' ↦ kept (ground arith)
  | inr (c, f) ↦
      updated k c (record c { base = (MqttClient.receive c.base e).0 }) f
        (receive-SameParts c.base e) (ground arith)
]

network-IsSound :
    (k : Handle) (e : NetworkEvent) (w : World) → IsSound w → IsSound (on_network k e w)
unfolding on_network get_client MqttClientMgr.update
network-IsSound k e w s = elim (Option-cases (get_client w.mgr k)) [
  | inl none' ↦ rw (none', on_network) s
  | inr (c, f) ↦
      let entry = find-IsEntry w.mgr.next_handle w.mgr.clients k c s.mgr.entries f in
      let one = receive-notice k c.base e entry.2 in
      let mgr = Change-Inv (network-Change k e w) s.mgr in
      rw (f, on_network)
        (record {
          mgr = rw (f, on_network) at mgr;
          queue = s.queue;
          flying = All-append (IsGiven w.mgr.next_handle) w.in_flight _ s.flying (
              rw one (
                Given-if c.base.stopping w.mgr.next_handle (notice_of k e)
                  (rw (notice_of-handler k e) entry.1)));
        })
]
  where
    Given-if :
        (b : Bool) (n : ℕ) (x : Notice Handle)
        → handler_of x < n
        → All (IsGiven n) (if b then [] else x ∷ [])
    Given-if true n x h = tt
    Given-if false n x h = (h, tt)

pub pick-All :
    (next : ℕ) (k : ℕ) (ns : List (Notice Handle)) (n : Notice Handle) (rest : List (Notice Handle))
    → pick k ns ≡ some (n, rest)
    → All (IsGiven next) ns
    → IsGiven next n × All (IsGiven next) rest
unfolding pick
pick-All next k [] n rest e h = absurd (ground arith)
pick-All next zero (x ∷ ns) n rest e h = ground arith
pick-All next (suc k) (x ∷ ns) n rest e h = elim (Option-cases (pick k ns)) [
  | inl none' ↦ absurd (ground arith)
  | inr ((y, ys), q) ↦
      let ih = pick-All next k ns y ys q h.1 in
      let head : n ≡ y = ground arith in
      let tail : rest ≡ x ∷ ys = ground arith in (rw head ih.0, rw tail (h.0, ih.1))
]

deliver-IsSound : (k : ℕ) (w : World) → IsSound w → IsSound (on_deliver k w)
unfolding on_deliver
deliver-IsSound k w s = elim (Option-cases (pick k w.in_flight)) [
  | inl none' ↦ rw (none', on_deliver) s
  | inr ((n, rest), e) ↦
      let h = pick-All w.mgr.next_handle k w.in_flight n rest e s.flying in
      rw (e, on_deliver)
        (record {
          mgr = s.mgr;
          queue = dispatch-IsQueue w.mgr.next_handle n w.dispatcher h.0 s.queue;
          flying = h.1;
        })
]

pub thread-IsSound : (t : ThreadAction) (w : World) → IsSound w → IsSound (thread_step t w)
unfolding thread_step
thread-IsSound (network k e) w s = network-IsSound k e w s
thread-IsSound (deliver k) w s = deliver-IsSound k w s

pub thread-Change : (t : ThreadAction) (w : World) → Change w.mgr (thread_step t w).mgr
unfolding thread_step on_deliver
thread-Change (network k e) w = network-Change k e w
thread-Change (deliver k) w = kept (ground arith)
