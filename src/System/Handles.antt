-- ===== src/System/Handles.antt =====
-- Handles over the whole life of the module: src/MqttClientMgr.cpp gives each out once.
use amxx_mqtt_client.Prelude.{ℕ, ◌+◌, ◌≤◌, ◌<◌, ◌≡◌, refl, none, some, List, arith}
use amxx_mqtt_client.IntMap.{find-erase}
use amxx_mqtt_client.External.{Cell, History, Result, External}
use amxx_mqtt_client.MqttClientMgr
use amxx_mqtt_client.MqttClientMgr.{MqttClientMgr, Handle, Client, get_client}
use amxx_mqtt_client.MqttClientMgr.Changes.{
  Change, Change-next, IsDead, Change-IsDead, find-IsEntry,
}
use amxx_mqtt_client.MqttClientMgr.Operations.{make-Made, Made, full, exhausted, failed, made}
use amxx_mqtt_client.CallbackDispatcher.{CallbackEvent}
use amxx_mqtt_client.World.{World}
use amxx_mqtt_client.Natives.Clients.{destroy_client, mqtt_create}
use amxx_mqtt_client.Natives.Args.{param}
use amxx_mqtt_client.Natives.Effects.{destroy_client-Effect, create-Effect}
use amxx_mqtt_client.ServerFrame.{resolve}
use amxx_mqtt_client.System.{Step, run}
use amxx_mqtt_client.System.Invariants.{IsInvariant, run-IsInvariant}
use amxx_mqtt_client.System.Soundness.{act-Change}
use amxx_mqtt_client.System.Threads.{IsSound, Effect-IsSound, thread-Change}

-- What every change of the manager keeps, every run of the module keeps.
Change-IsInvariant :
    (ext : External) (Q : MqttClientMgr → Type 0)
    → ((m n : MqttClientMgr) → Change m n → Q m → Q n)
    → IsInvariant ext (λ w. Q w.mgr)
Change-IsInvariant ext Q lasting = record {
  act = λ a w s q. lasting w.mgr _ (act-Change ext a w s.mgr) q;
  thread = λ t w s q. lasting w.mgr _ (thread-Change t w) q;
  next_called = λ w q. q;
  executed = λ id args w e q r. q;
  popped = λ w e d q p. q;
}

IsDead-lasting : (ext : External) (k : Handle) → IsInvariant ext (λ w. IsDead k w.mgr)
IsDead-lasting ext k = Change-IsInvariant ext (IsDead k) (λ m n c d. Change-IsDead k c d)

next_lasting : (ext : External) (k : ℕ) → IsInvariant ext (λ w. k ≤ w.mgr.next_handle)
next_lasting ext k =
    Change-IsInvariant ext (λ m. k ≤ m.next_handle) (λ m n c le. omega (arith, Change-next c, le))

destroyed-IsDead :
    (ext : External) (k : Handle) (c : Client) (w : World)
    → IsSound w
    → get_client w.mgr k ≡ some c
    → IsSound (destroy_client ext k w) × IsDead k (destroy_client ext k w).mgr
unfolding destroy_client MqttClientMgr.destroy get_client
destroyed-IsDead ext k c w s f =
    let entry = find-IsEntry w.mgr.next_handle w.mgr.clients k c s.mgr.entries f in
    let gone = find-erase w.mgr.clients k k in
    (
      Effect-IsSound w _ (destroy_client-Effect ext k w) s,
      rw (f, MqttClientMgr.destroy) (record { given = entry.1; absent = ground (arith, gone) }),
    )

-- In a sound state, once a live client is destroyed, its handle names no client again and no event for it executes a forward,
-- whatever events, natives, map changes and server frames follow.
pub destroy_client_final :
    (ext : External) (k : Handle) (c : Client) (w : World) (ts : List Step)
    → IsSound w
    → get_client w.mgr k ≡ some c
    → (get_client (run ext ts (destroy_client ext k w)).mgr k ≡ none)
      × ((e : CallbackEvent)
          → resolve (record e { handle = k }) (run ext ts (destroy_client ext k w)) ≡ none)
unfolding get_client resolve
destroy_client_final ext k c w ts s f =
    let end = run-IsInvariant ext (IsDead-lasting ext k) ts _ (destroyed-IsDead ext k c w s f) in
    (end.1.absent, λ e. ground (arith, end.1.absent))

-- The native returns 0, or the next handle.
mqtt_create_next :
    (ext : External) (params : List Cell) (w : World)
    → 0 < (mqtt_create ext params w).0
    → ((mqtt_create ext params w).0 ≡ w.mgr.next_handle)
      × ((mqtt_create ext params w).1.mgr.next_handle ≡ w.mgr.next_handle + 1)
unfolding mqtt_create
mqtt_create_next ext params w h =
    go
      (make-Made ext (ext.amx_string w.history (param params 1))
        (ext.amx_string w.history (param params 2)) w.mgr w.history)
      refl
  where
    go :
        {out : Result Cell × MqttClientMgr × History}
        → Made ext
            (ext.amx_string w.history (param params 1))
            (ext.amx_string w.history (param params 2))
            w.mgr
            w.history
            out
        → MqttClientMgr.make ext
            (ext.amx_string w.history (param params 1))
            (ext.amx_string w.history (param params 2))
            w.mgr
            w.history
          ≡ out
        → ((mqtt_create ext params w).0 ≡ w.mgr.next_handle)
          × ((mqtt_create ext params w).1.mgr.next_handle ≡ w.mgr.next_handle + 1)
    go (full _ e) q = absurd (ground (arith, e, q))
    go (exhausted _ _ e) q = absurd (ground (arith, e, q))
    go (failed _ _ _ _ e) q = absurd (ground (arith, e, q))
    go (made _ _ p _ e) q = ground (arith, e, q)

-- From a sound state, a handle that mqtt_create returns is above every handle that it returned before in the module's
-- life, those of destroyed clients and of earlier maps included.
pub mqtt_create_unique :
    (ext : External) (params params' : List Cell) (w : World) (ts : List Step)
    → IsSound w
    → 0 < (mqtt_create ext params w).0
    → 0 < (mqtt_create ext params' (run ext ts (mqtt_create ext params w).1)).0
    → (mqtt_create ext params w).0
      < (mqtt_create ext params' (run ext ts (mqtt_create ext params w).1)).0
mqtt_create_unique ext params params' w ts s h h' =
    let w' = (mqtt_create ext params w).1 in
    let first = mqtt_create_next ext params w h in
    let second = mqtt_create_next ext params' (run ext ts w') h' in
    let sound = Effect-IsSound w w' (create-Effect ext params w) s in
    let later =
      run-IsInvariant ext (next_lasting ext w'.mgr.next_handle) ts w' (sound, omega arith) in
    omega (arith, first, second, later.1)
