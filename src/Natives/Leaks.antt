-- ===== src/Natives/Leaks.antt =====
-- The natives of src/natives.cpp that overwrite the id of a forward, with setOnConnectedForwardId,
-- setOnConnectionLostForwardId and setDisconnectForwardId of src/AmxxMqttClient.cpp, called again and
-- again for one client.
use amxx_mqtt_client.Prelude.{ap, ℕ, ◌+◌, ◌≤◌, ◌≡◌, ◌≢◌, refl, some, List, [], ◌∷◌, arith, length}
use amxx_mqtt_client.IntMap.{find-assign}
use amxx_mqtt_client.External.{
  Cell, Text, ParamType, External, History, minus_one, register_forward, unregister_forward,
}
use amxx_mqtt_client.MqttClientMgr
use amxx_mqtt_client.MqttClientMgr.{Client, Handle, get_client}
use amxx_mqtt_client.CallbackDispatcher.{
  CallbackType, connected, message, connection_lost, disconnected,
}
use amxx_mqtt_client.World.{World, note}
use amxx_mqtt_client.Natives
use amxx_mqtt_client.Natives.Args.{param, arg_count}
use amxx_mqtt_client.Natives.Clients.{destroy_client}
use amxx_mqtt_client.Natives.Forwards.{
  forwards, unregistered, destroy_client_calls, other_callbacks_leak,
}
use amxx_mqtt_client.Natives.Deliveries.{setter}

-- How many of the calls register a forward, and how many unregister one.
abbrev pub registrations : History → ℕ
registrations [] = 0
registrations (register_forward _ _ ∷ h) = registrations h + 1
registrations (_ ∷ h) = registrations h

abbrev pub unregistrations : History → ℕ
unregistrations [] = 0
unregistrations (unregister_forward _ ∷ h) = unregistrations h + 1
unregistrations (_ ∷ h) = unregistrations h

registrations-unregistered :
    (ids : List Cell) (h : History) → registrations (unregistered ids h) ≡ registrations h
registrations-unregistered [] h = refl
registrations-unregistered (id ∷ ids) h = registrations-unregistered ids (unregister_forward id ∷ h)

unregistrations-unregistered :
    (ids : List Cell) (h : History)
    → unregistrations (unregistered ids h) ≡ length ids + unregistrations h
unregistrations-unregistered [] h = omega arith
unregistrations-unregistered (id ∷ ids) h =
    omega (arith, unregistrations-unregistered ids (unregister_forward id ∷ h))

forwards_le : (c : Client) → length (forwards c) ≤ 4
forwards_le c = ground arith

-- A plugin that sets callbacks one after the other.
abbrev pub sets : External → List (CallbackType × List Cell) → World → World
sets ext [] w = w
sets ext ((t, params) ∷ ss) w = sets ext ss (Natives.call ext (setter t) params w).1

-- Each is of one of the three kinds but messages, with enough arguments, for the client `k`.
abbrev pub AreOverwriting : Handle → List (CallbackType × List Cell) → Type 0
AreOverwriting k [] = Unit
AreOverwriting k ((message, _) ∷ ss) = ⊥
AreOverwriting k ((_, params) ∷ ss) =
    (2 ≤ arg_count params) × (param params 1 ≡ k) × AreOverwriting k ss

-- What the calls leave: the client is live, and so many forwards more are registered.
record Left (k : Handle) (n : ℕ) (w v : World) : Type 0 where
  kept : Client
  live : get_client v.mgr k ≡ some kept
  more : registrations v.history ≡ n + registrations w.history
  none_less : unregistrations v.history ≡ unregistrations w.history

module _ (ext : External) (k : Handle)
    (finds : (h : History) (name : Text) (types : List ParamType)
      → ext.forward h name types ≢ minus_one) where
  -- A client under the handle, and one more call that registers a forward.
  left :
      (w v : World) (params : List Cell) (d : Client) (name : Text) (types : List ParamType)
      → param params 1 ≡ k
      → v
        ≡ note
            (register_forward name types)
            (record w { mgr = MqttClientMgr.update w.mgr (param params 1) d })
      → Left k 1 w v
  unfolding get_client MqttClientMgr.update
  left w v params d name types own e = record {
    kept = d;
    live = rw (e, find-assign w.mgr.clients (param params 1) k d) (ground (arith, own));
    more = rw e (omega arith);
    none_less = rw e refl;
  }

  set-Left :
      (t : CallbackType) (params : List Cell) (ss : List (CallbackType × List Cell)) (w : World)
      (c : Client)
      → get_client w.mgr k ≡ some c
      → AreOverwriting k ((t, params) ∷ ss)
      → Left k 1 w (Natives.call ext (setter t) params w).1
  unfolding Natives.call
  set-Left connected params ss w c f o =
      let all =
        other_callbacks_leak ext params w c o.0 (rw o.1 f) (finds _ _ _) (finds _ _ _)
          (finds _ _ _) in
      left w _ params _ _ _ o.1 (ap (λ out. out.1) all.0)
  set-Left connection_lost params ss w c f o =
      let all =
        other_callbacks_leak ext params w c o.0 (rw o.1 f) (finds _ _ _) (finds _ _ _)
          (finds _ _ _) in
      left w _ params _ _ _ o.1 (ap (λ out. out.1) all.1)
  set-Left message params ss w c f o = elim o [ ]
  set-Left disconnected params ss w c f o =
      let all =
        other_callbacks_leak ext params w c o.0 (rw o.1 f) (finds _ _ _) (finds _ _ _)
          (finds _ _ _) in
      left w _ params _ _ _ o.1 (ap (λ out. out.1) all.2)

  sets-Left :
      (ss : List (CallbackType × List Cell)) (w : World) (c : Client)
      → get_client w.mgr k ≡ some c
      → AreOverwriting k ss
      → Left k (length ss) w (sets ext ss w)
  sets-Left [] w c f o = record { kept = c; live = f; more = omega arith; none_less = refl }
  sets-Left ((t, params) ∷ ss) w c f o =
      let l = set-Left t params ss w c f o in
      let r = sets-Left ss (Natives.call ext (setter t) params w).1 l.kept l.live (rest t o) in
      record {
        kept = r.kept;
        live = r.live;
        more = omega (arith, l.more, r.more);
        none_less = omega (arith, l.none_less, r.none_less);
      }
    where
      rest : (t : CallbackType) → AreOverwriting k ((t, params) ∷ ss) → AreOverwriting k ss
      rest connected o = o.2
      rest connection_lost o = o.2
      rest message o = elim o [ ]
      rest disconnected o = o.2

-- With a live client and functions that AMX Mod X finds, `n` calls that set callbacks of that client,
-- other than the one for messages and each with enough arguments, make `n` calls that register a
-- forward. With the destruction of the client after them they make at most four that unregister one.
pub repeated_callbacks_leak :
    (ext : External) (k : Handle) (ss : List (CallbackType × List Cell)) (w : World) (c : Client)
    → ((h : History) (name : Text) (types : List ParamType) → ext.forward h name types ≢ minus_one)
    → get_client w.mgr k ≡ some c
    → AreOverwriting k ss
    → let v = destroy_client ext k (sets ext ss w) in
      (registrations v.history ≡ length ss + registrations w.history)
      × (unregistrations v.history ≤ 4 + unregistrations w.history)
repeated_callbacks_leak ext k ss w c finds f o =
    let l = sets-Left ext k finds ss w c f o in
    let calls = (destroy_client_calls ext k l.kept (sets ext ss w) l.live).0 in
    let h = (sets ext ss w).history in
    (
      rw calls (omega (arith, l.more, registrations-unregistered (forwards l.kept) h)),
      rw calls (
          omega (
            arith,
            l.none_less,
            forwards_le l.kept,
            unregistrations-unregistered (forwards l.kept) h,
          )),
    )
