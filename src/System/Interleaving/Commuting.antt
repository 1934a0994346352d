-- ===== src/System/Interleaving/Commuting.antt =====
-- What the threads of Paho do before a destruction could as well be done after it, or is undone by it.
use amxx_mqtt_client.Prelude.{
  ℕ, ◌≡◌, ◌≢◌, ◌∙◌, sym, ap, false, none, some, inl, inr, List, [], ◌∷◌, ◌++◌, arith, ltb,
  Option-cases,
}
use amxx_mqtt_client.IntMap.{IntMap, find, erase, assign, find-erase, find-assign}
use amxx_mqtt_client.External.{Cell, Call, History, NetworkEvent, External}
use amxx_mqtt_client.MqttClient.{Notice, receive}
use amxx_mqtt_client.MqttClient.Events.{receive-SameParts}
use amxx_mqtt_client.MqttClientMgr
use amxx_mqtt_client.MqttClientMgr.{Handle, Client}
use amxx_mqtt_client.CallbackDispatcher.{Dispatcher, dispatch_all}
use amxx_mqtt_client.World.{World}
use amxx_mqtt_client.Natives
use amxx_mqtt_client.Natives.Args.{param, arg_count}
use amxx_mqtt_client.Natives.Clients.{mqtt_destroy, destroy_client}
use amxx_mqtt_client.RehldsFrameHook.{unregister_rehlds_frame_hook}
use amxx_mqtt_client.Module.{stop_dispatcher, reset_options}
use amxx_mqtt_client.System.{on_network, act}
use amxx_mqtt_client.System.Interleaving.{
  Cause, one, unloading, detaching, action_of, forwards, closing, resetting, unregister_forwards,
  with_clients, last,
}
use amxx_mqtt_client.System.Interleaving.Independence.{with_flight}
use amxx_mqtt_client.System.Interleaving.Farewell.{
  farewell, with_history, complete, farewell-assign, unloading-complete, detaching-complete,
  one-complete,
}

-- A reset: the queue is stopped first, and the map is emptied.
abbrev pub IsReset : Cause → Type 0
IsReset (one _ _) = ⊥
IsReset unloading = Unit
IsReset detaching = Unit

abbrev pub received : Client → NetworkEvent → Client
received c e = record c { base = (receive c.base e).0 }

module _ {V : Type 0} where
  erase-assign_ne :
      (m : IntMap V) (k j : ℕ) (v : V) → k ≢ j → erase (assign m k v) j ≡ assign (erase m j) k v
  unfolding erase assign
  erase-assign_ne [] k j v ne = ground arith
  erase-assign_ne ((i, u) ∷ m) k j v ne = ground (arith, erase-assign_ne m k j v ne)

  erase-assign_self : (m : IntMap V) (k : ℕ) (v : V) → erase (assign m k v) k ≡ erase m k
  unfolding erase assign
  erase-assign_self [] k v = ground arith
  erase-assign_self ((i, u) ∷ m) k v = ground (arith, erase-assign_self m k v)

-- An event for a live client.
pub on_network-live :
    (k : Handle) (e : NetworkEvent) (c : Client) (w : World)
    → find w.mgr.clients k ≡ some c
    → on_network k e w
      ≡ with_flight
          (w.in_flight ++ (receive c.base e).1)
          (with_clients (assign w.mgr.clients k (received c e)) w)
unfolding on_network MqttClientMgr.get_client MqttClientMgr.update
on_network-live k e c w f = rw (f, on_network)

module _ (ext : External) (k : Handle) (e : NetworkEvent) (c : Client) (w : World)
    (f : find w.mgr.clients k ≡ some c) where
  receive-client : (receive c.base e).0.client ≡ c.base.client
  receive-client = (receive-SameParts c.base e).client

  abbrev flight : List (Notice Handle)
  flight = w.in_flight ++ (receive c.base e).1

  -- The map with the event, and what the destructors make of it.
  abbrev heard : World
  heard = with_flight flight (with_clients (assign w.mgr.clients k (received c e)) w)

  goodbye :
      (h : History)
      → farewell (assign w.mgr.clients k (received c e)) forwards h
        ≡ farewell w.mgr.clients forwards h
  goodbye h = farewell-assign w.mgr.clients forwards k c (receive c.base e).0 h f receive-client

  hook-heard :
      unregister_rehlds_frame_hook (stop_dispatcher heard)
      ≡ with_flight flight (
          with_clients
            (assign w.mgr.clients k (received c e))
            (unregister_rehlds_frame_hook (stop_dispatcher w)))
  unfolding unregister_rehlds_frame_hook stop_dispatcher
  hook-heard = ground arith

  hook-clients : (unregister_rehlds_frame_hook (stop_dispatcher w)).mgr.clients ≡ w.mgr.clients
  unfolding unregister_rehlds_frame_hook stop_dispatcher
  hook-clients = ground arith

  -- A reset undoes the event but for the handler in flight.
  pub reset-network :
      (u : Cause)
      → IsReset u
      → act ext (action_of u) (on_network k e w) ≡ with_flight flight (act ext (action_of u) w)
  unfolding stop_dispatcher reset_options
  reset-network (one params enough) r = absurd r
  reset-network unloading r =
      ap (act ext (action_of unloading)) (on_network-live k e c w f)
      ∙ unloading-complete ext heard
      ∙ ap (λ h. last unloading (with_history h (with_clients [] (stop_dispatcher heard))))
          (goodbye w.history)
      ∙ sym (ap (with_flight flight) (unloading-complete ext w))
  reset-network detaching r =
      let v = unregister_rehlds_frame_hook (stop_dispatcher w) in
      ap (act ext (action_of detaching)) (on_network-live k e c w f)
      ∙ detaching-complete ext heard
      ∙ ap (complete (resetting detaching)) hook-heard
      ∙ ap (λ h. with_flight flight (last detaching (with_history h (with_clients [] v))))
          (goodbye v.history ∙ ap (λ m. farewell m forwards v.history) (sym hook-clients))
      ∙ sym (ap (with_flight flight) (detaching-complete ext w))

module _ (ext : External) (params : List Cell) (enough : ltb (arg_count params) 1 ≡ false) where
  abbrev handle : Handle
  handle = param params 1

  abbrev destroyed : World → World
  destroyed w = act ext (action_of (one params enough)) w

  one-absent : (w : World) → find w.mgr.clients handle ≡ none → destroyed w ≡ w
  unfolding act Natives.call mqtt_destroy destroy_client MqttClientMgr.destroy dispatch_all
  one-absent w f = ground arith

  pub one-gone : (w : World) → find (destroyed w).mgr.clients handle ≡ none
  one-gone w = elim (Option-cases (find w.mgr.clients handle)) [
    | inl f ↦ rw (one-absent w f) f
    | inr (c, f) ↦
        rw (one-complete ext params enough c w f)
          (ground (arith, find-erase w.mgr.clients handle handle))
  ]

  -- mqtt_destroy leaves other clients, the queue and the handlers in flight as they are.
  pub one-find :
      (w : World) (k : Handle)
      → handle ≢ k
      → find (destroyed w).mgr.clients k ≡ find w.mgr.clients k
  one-find w k ne = elim (Option-cases (find w.mgr.clients handle)) [
    | inl f ↦ rw (one-absent w f)
    | inr (c, f) ↦
        rw (one-complete ext params enough c w f)
          (ground (arith, find-erase w.mgr.clients handle k))
  ]

  pub one-queue :
      (ns : List (Notice Handle)) (d : Dispatcher) (w : World)
      → destroyed (record w { in_flight = ns; dispatcher = d })
        ≡ record (destroyed w) { in_flight = ns; dispatcher = d }
  one-queue ns d w = elim (Option-cases (find w.mgr.clients handle)) [
    | inl f ↦ rw (one-absent w f) (one-absent (record w { in_flight = ns; dispatcher = d }) f)
    | inr (c, f) ↦
        rw (one-complete ext params enough c w f)
          (one-complete ext params enough c (record w { in_flight = ns; dispatcher = d }) f)
  ]

  -- An event for another client commutes with it, and one for the same client is undone.
  pub one-network_ne :
      (k : Handle) (e : NetworkEvent) (d : Client) (w : World)
      → k ≢ handle
      → find w.mgr.clients k ≡ some d
      → destroyed (on_network k e w) ≡ on_network k e (destroyed w)
  one-network_ne k e d w ne g =
      let m = w.mgr.clients in
      let live = on_network-live k e d w g in
      let v = heard ext k e d w g in
      let other : find v.mgr.clients handle ≡ find m handle =
        ground (arith, find-assign m k handle (received d e)) in
      ap destroyed live ∙ elim (Option-cases (find m handle)) [
        | inl f ↦ one-absent v (other ∙ f) ∙ sym live ∙ sym (ap (on_network k e) (one-absent w f))
        | inr (c, f) ↦
            let x =
              complete (closing (one params enough) ((handle, c) ∷ []) forwards)
                (with_clients (erase m handle) w) in
            one-complete ext params enough c v (other ∙ f)
            ∙ ap (λ m'. with_flight v.in_flight (with_clients m' x))
                (erase-assign_ne m k handle (received d e) ne)
            ∙ sym (on_network-live k e d x (ground (arith, find-erase m handle k)))
            ∙ sym (ap (on_network k e) (one-complete ext params enough c w f))
      ]

  pub one-network :
      (e : NetworkEvent) (c : Client) (w : World)
      → find w.mgr.clients handle ≡ some c
      → destroyed (on_network handle e w)
        ≡ with_flight (w.in_flight ++ (receive c.base e).1) (destroyed w)
  unfolding unregister_forwards
  one-network e c w f =
      let m = w.mgr.clients in
      let v = heard ext handle e c w f in
      let self : find v.mgr.clients handle ≡ some (received c e) =
        ground (arith, find-assign m handle handle (received c e)) in
      ap destroyed (on_network-live handle e c w f)
      ∙ one-complete ext params enough (received c e) v self
      ∙ ap
          (λ m'. with_flight v.in_flight (
            with_history (farewell ((handle, received c e) ∷ []) forwards w.history)
              (with_clients m' w)))
          (erase-assign_self m handle (received c e))
      ∙ ap
          (λ p. with_flight v.in_flight (
            with_history (Call.delete_client p ∷ unregister_forwards c w.history)
              (with_clients (erase m handle) w)))
          ((receive-SameParts c.base e).client)
      ∙ sym (ap (with_flight v.in_flight) (one-complete ext params enough c w f))
