-- ===== src/System/Delivery.antt =====
-- From a thread of Paho to the plugin: src/MqttClient.cpp, the handlers of src/MqttClientMgr.cpp and
-- src/CallbackDispatcher.cpp together.
use amxx_mqtt_client.Prelude.{
  ℕ, zero, suc, ◌≤◌, ◌<◌, ◌≡◌, refl, ap, ◌∙◌, true, false, Option, none, some, List, [], ◌∷◌, ◌++◌,
  arith, length, take, drop, length-append,
}
use amxx_mqtt_client.IntMap.{find-assign}
use amxx_mqtt_client.External.{Call, History, NetworkEvent}
use amxx_mqtt_client.MqttClient.{MqttClient, Notice, receive}
use amxx_mqtt_client.MqttClient.Events.{IsBound, notice_of, receive-notice, notice_of-handler}
use amxx_mqtt_client.MqttClientMgr
use amxx_mqtt_client.MqttClientMgr.{Handle, Client, get_client}
use amxx_mqtt_client.CallbackDispatcher.{
  CallbackEvent, CallbackType, enqueue, forward_of, forward_call,
}
use amxx_mqtt_client.CallbackDispatcher.Queue.{event_of, event_of-handle, dispatch-enqueue}
use amxx_mqtt_client.World.{World}
use amxx_mqtt_client.ServerFrame.{Surroundings, resolve, process_pending_callbacks}
use amxx_mqtt_client.ServerFrame.Order.{
  IsIdle, delivered, with_queue, process_pending_callbacks_idle,
}
use amxx_mqtt_client.System.{on_network, on_deliver, pick}

module _ {ℓ} {A : Type ℓ} where
  take-all : (n : ℕ) (xs : List A) → length xs ≤ n → take n xs ≡ xs
  take-all zero [] h = refl
  take-all zero (x ∷ xs) h = absurd (omega arith)
  take-all (suc n) [] h = refl
  take-all (suc n) (x ∷ xs) h = ap (λ ys. x ∷ ys) (take-all n xs (omega arith))

  drop-all : (n : ℕ) (xs : List A) → length xs ≤ n → drop n xs ≡ []
  drop-all zero [] h = refl
  drop-all zero (x ∷ xs) h = absurd (omega arith)
  drop-all (suc n) [] h = refl
  drop-all (suc n) (x ∷ xs) h = drop-all n xs (omega arith)

forward_of-base :
    (c : Client) (b : MqttClient Handle) (t : CallbackType)
    → forward_of (record c { base = b }) t ≡ forward_of c t
unfolding forward_of
forward_of-base c b CallbackType.connected = refl
forward_of-base c b t = refl

forward_call-base :
    (c : Client) (b : MqttClient Handle) (x : CallbackEvent)
    → forward_call (record c { base = b }) x ≡ forward_call c x
unfolding forward_call
forward_call-base c b x = ground (arith, forward_of-base c b x.type)

-- What becomes of a connection changes no forward.
resolve-update :
    (w v : World) (k : Handle) (c : Client) (b : MqttClient Handle) (x : CallbackEvent)
    → get_client w.mgr k ≡ some c
    → v.mgr ≡ MqttClientMgr.update w.mgr k (record c { base = b })
    → resolve x v ≡ resolve x w
unfolding resolve get_client MqttClientMgr.update
resolve-update w v k c b x f e =
    ground
      (arith, find-assign w.mgr.clients k x.handle (record c { base = b }), forward_call-base c b x)

resolve-live :
    (w : World) (k : Handle) (c : Client) (x : CallbackEvent)
    → get_client w.mgr k ≡ some c
    → x.handle ≡ k
    → resolve x w ≡ forward_call c x
unfolding resolve
resolve-live w k c x f h =
    let g : get_client w.mgr x.handle ≡ some c = ap (get_client w.mgr) h ∙ f in rw (g, resolve)

delivered_same :
    (w v : World) (es : List CallbackEvent) (h : History)
    → ((x : CallbackEvent) → resolve x v ≡ resolve x w)
    → delivered v es h ≡ delivered w es h
delivered_same w v [] h same = refl
delivered_same w v (e ∷ es) h same = rw (same e) (delivered_same w v es _ same)

-- With the call made, if there is one.
abbrev pub after : Option Call → History → History
after none h = h
after (some call) h = call ∷ h

after-elim :
    (o : Option Call) (h : History) → (elim o [ none ↦ h | some call ↦ call ∷ h ]) ≡ after o h
after-elim none h = refl
after-elim (some call) h = refl

delivered-snoc :
    (w : World) (es : List CallbackEvent) (x : CallbackEvent) (h : History)
    → delivered w (es ++ x ∷ []) h ≡ after (resolve x w) (delivered w es h)
delivered-snoc w [] x h = after-elim (resolve x w) h
delivered-snoc w (e ∷ es) x h = delivered-snoc w es x _

pick-snoc :
    (ns : List (Notice Handle)) (n : Notice Handle) → pick (length ns) (ns ++ n ∷ []) ≡ some (n, ns)
unfolding pick
pick-snoc [] n = refl
pick-snoc (m ∷ ns) n = ground (arith, pick-snoc ns n)

module _ (k : Handle) (e : NetworkEvent) (c : Client) (w : World) where
  -- The state after a thread of Paho has handled the event and then called the handler.
  abbrev pub handled : World
  handled = on_deliver (length w.in_flight) (on_network k e w)

  abbrev told : World
  told = record w {
    mgr = MqttClientMgr.update w.mgr k (record c { base = (receive c.base e).0 });
    dispatcher = enqueue (event_of (notice_of k e)) w.dispatcher;
  }

  handled-told :
      get_client w.mgr k ≡ some c → IsBound k c.base → c.base.stopping ≡ false → handled ≡ told
  unfolding on_deliver on_network
  handled-told f b open' =
      let n : (receive c.base e).1 ≡ notice_of k e ∷ [] =
        ground (arith, receive-notice k c.base e b, open') in
      let mid = record w {
        mgr = MqttClientMgr.update w.mgr k (record c { base = (receive c.base e).0 });
        in_flight = w.in_flight ++ notice_of k e ∷ [];
      } in
      let changed : on_network k e w ≡ mid = rw (f, on_network, n) in
      ap (on_deliver (length w.in_flight)) changed
      ∙ rw (on_deliver, pick-snoc w.in_flight (notice_of k e), dispatch-enqueue)

  -- While the queue is accepting events and fewer than 256 wait, an event of Paho for a live
  -- client that is bound to its handle and not being destroyed, once the client has called its
  -- handler, reaches the plugin in the next frame in which nothing happens beside the loop. The
  -- frame leaves no event, executes the forwards of those that waited, in their order, and then
  -- the one that the client has for this event, with the handle and the event's arguments; if it
  -- has none, it executes no more.
  pub event_delivered :
      (s : Surroundings)
      → IsIdle s
      → get_client w.mgr k ≡ some c
      → IsBound k c.base
      → c.base.stopping ≡ false
      → w.dispatcher.accepting ≡ true
      → length w.dispatcher.pending < 256
      → let v = process_pending_callbacks s handled in
        let before = delivered w w.dispatcher.pending w.history in
        (v.dispatcher.pending ≡ [])
        × (v.history ≡ after (forward_call c (event_of (notice_of k e))) before)
  unfolding enqueue
  event_delivered s idle f b open' a room =
      let x = event_of (notice_of k e) in
      let es = w.dispatcher.pending ++ x ∷ [] in
      let fits : length es ≤ 256 = omega (arith, length-append w.dispatcher.pending (x ∷ [])) in
      let queued : told ≡ with_queue told es w.history = ground (arith, a) in
      let ran : process_pending_callbacks s handled
          ≡ with_queue told [] (delivered told es w.history) =
        ap (process_pending_callbacks s) (handled-told f b open' ∙ queued)
        ∙ process_pending_callbacks_idle idle told es w.history
        ∙ rw (take-all 256 es fits, drop-all 256 es fits) refl in
      let now = λ (y : CallbackEvent). resolve-update w told k c (receive c.base e).0 y f refl in
      let handle : x.handle ≡ k = event_of-handle (notice_of k e) ∙ notice_of-handler k e in
      rw ran (
        refl,
        delivered-snoc told w.dispatcher.pending x w.history
            ∙ ap (λ o. after o (delivered told w.dispatcher.pending w.history))
                (now x ∙ resolve-live w k c x f handle)
            ∙ ap (after (forward_call c x))
                (delivered_same w told w.dispatcher.pending w.history now),
      )
