-- ===== src/System/Interleaving/Simulation.antt =====
-- How a state of Interleaving stands to one of System, in which nothing of a destruction under way has
-- happened yet.
use mathlib.Core.List.{map-append}
use mathlib.Core.Path.{subst, subst₂}
use amxx_mqtt_client.Prelude.{
  ℕ, ◌≡◌, ◌∙◌, ◌⊎◌, inl, inr, refl, sym, ap, false, some, List, [], ◌∷◌, ◌++◌, map, arith, All,
  All-map, ◌==◌, ==_iff, Bool-cases,
}
use amxx_mqtt_client.Prelude.Takes.{Supplies}
use amxx_mqtt_client.IntMap.{IntMap, find, assign, find-assign}
use amxx_mqtt_client.External.{NetworkEvent, External, connected}
use amxx_mqtt_client.MqttClient.{MqttClient, Notice, receive}
use amxx_mqtt_client.MqttClient.Callbacks.{write_flag, copied}
use amxx_mqtt_client.MqttClient.Events.{IsBound, notice_of, receive-notice}
use amxx_mqtt_client.MqttClientMgr
use amxx_mqtt_client.MqttClientMgr.{MqttClientMgr, Handle, Client}
use amxx_mqtt_client.MqttClientMgr.Changes.{find-IsEntry}
use amxx_mqtt_client.CallbackDispatcher.{Dispatcher}
use amxx_mqtt_client.World.{World}
use amxx_mqtt_client.Natives.Args.{param}
use amxx_mqtt_client.Module.{reset_options}
use amxx_mqtt_client.System.{Action, on_network, act, acts}
use amxx_mqtt_client.System.Threads.{IsSound}
use amxx_mqtt_client.System.Interleaving.{
  Cause, one, unloading, detaching, action_of, Stage, Task, idle, resetting, closing, dying, IsGame,
  flagged, on_enter,
}
use amxx_mqtt_client.System.Interleaving.Independence.{with_flight, act_flight}
use amxx_mqtt_client.System.Interleaving.Farewell.{complete}
use amxx_mqtt_client.System.Interleaving.Traces.{without_deliveries}
use amxx_mqtt_client.System.Interleaving.Commuting.{IsReset, on_network-live}

-- The handlers that the callbacks under way may still put in flight.
abbrev pub expected : List (Handle × NetworkEvent) → List (Notice Handle)
expected = map (λ (k, e). notice_of k e)

pub expected-append :
    (xs ys : List (Handle × NetworkEvent)) → expected (xs ++ ys) ≡ expected xs ++ expected ys
expected-append xs ys = map-append _ xs ys

-- A client that is being destroyed: it has its handlers, and System has not destroyed it yet.
abbrev pub IsKnown : IntMap Client → Handle × Client → Type 0
IsKnown m (k, c) = IsBound k c.base × (d : Client) × (find m k ≡ some d)

abbrev pub HasHandle : Handle → Handle × Client → Type 0
HasHandle j (k, c) = k ≡ j

-- While a task is under way.
abbrev pub IsReady : Task → MqttClientMgr → Dispatcher → MqttClientMgr → Type 0
IsReady idle m d m' = Unit
IsReady (resetting u) m d m' = IsReset u × (d.accepting ≡ false) × (m ≡ m')
IsReady (closing (one params _) cs p) m d m' = All (HasHandle (param params 1)) cs
IsReady (closing unloading cs p) m d m' = (d.accepting ≡ false) × (m.clients ≡ [])
IsReady (closing detaching cs p) m d m' = (d.accepting ≡ false) × (m.clients ≡ [])

pub IsReady-closing :
    (u : Cause) (cs ds : IntMap Client) (p q : Stage) (m m' m'' : MqttClientMgr) (d : Dispatcher)
    → ((j : Handle) → All (HasHandle j) cs → All (HasHandle j) ds)
    → IsReady (closing u cs p) m d m'
    → IsReady (closing u ds q) m d m''
IsReady-closing (one params _) cs ds p q m m' m'' d keys r = keys (param params 1) r
IsReady-closing unloading cs ds p q m m' m'' d keys r = r
IsReady-closing detaching cs ds p q m m' m'' d keys r = r

-- The state of System when the task has been done there.
abbrev pub after : External → Task → World → World
after ext idle v = v
after ext (resetting u) v = act ext (action_of u) v
after ext (closing u cs p) v = act ext (action_of u) v

pub record IsSimulated (ext : External) (w : World) (t : Task) (es : List (Handle × NetworkEvent))
    (v : World) : Type 0 where
  pub sound : IsSound v
  pub done : after ext t v ≡ with_flight v.in_flight (complete t w)
  pub supplied : Supplies v.in_flight (w.in_flight ++ expected es)
  pub known : All (IsKnown v.mgr.clients) (dying t)
  pub ready : IsReady t w.mgr w.dispatcher v.mgr

-- Actions of System that come from the one to the other. Those that are no calls of handlers are given.
pub record Matches (ext : External) (w : World) (t : Task) (es : List (Handle × NetworkEvent))
    (v : World) (given : List Action) : Type 0 where
  pub actions : List Action
  pub others : without_deliveries actions ≡ given
  pub simulated : IsSimulated ext w t es (acts ext actions v)

module _ {H : Type 0} where
  -- Both steps of a callback together are what MqttClient does in one.
  pub receive-write_flag : (c : MqttClient H) (e : NetworkEvent) → (receive c e).0 ≡ write_flag e c
  unfolding receive write_flag
  receive-write_flag c (connected msg) = refl
  receive-write_flag c e = refl

  pub write_flag-client : (c : MqttClient H) (e : NetworkEvent) → (write_flag e c).client ≡ c.client
  unfolding write_flag
  write_flag-client c (connected msg) = refl
  write_flag-client c e = refl

  pub write_flag-IsBound :
      (h : H) (c : MqttClient H) (e : NetworkEvent) → IsBound h c → IsBound h (write_flag e c)
  unfolding write_flag
  write_flag-IsBound h c (connected msg) b = ground arith
  write_flag-IsBound h c e b = ground arith

  -- A callback of a client that is bound to a handle copies that one or none.
  pub copied-bound :
      (h : H) (c : MqttClient H) (e : NetworkEvent)
      → IsBound h c
      → (copied e c ≡ []) ⊎ (copied e c ≡ notice_of h e ∷ [])
  unfolding copied
  copied-bound h c (connected msg) b = ground arith
  copied-bound h c e b = ground arith

module _ {V : Type 0} where
  find-assign-some :
      (m : IntMap V) (k j : ℕ) (v u : V)
      → find m j ≡ some u
      → (x : V) × (find (assign m k v) j ≡ some x)
  find-assign-some m k j v u f = elim (Bool-cases (k == j)) [
    | inl same ↦ (v, find-assign m k j v ∙ rw same)
    | inr other ↦ (u, find-assign m k j v ∙ rw other f)
  ]

  pub All-assign :
      (P : ℕ × V → Type 0) (m : IntMap V) (k : ℕ) (v : V)
      → All P m
      → P (k, v)
      → All P (assign m k v)
  unfolding assign
  All-assign P [] k v h p = (p, tt)
  All-assign P ((j, u) ∷ m) k v h p = elim (Bool-cases (j == k)) [
    | inl same ↦ rw same (subst (λ i. P (i, v)) (sym ((==_iff j k).0 same)) p, h.1)
    | inr other ↦ rw other (h.0, All-assign P m k v h.1 p)
  ]

  pub find-All :
      (P : ℕ × V → Type 0) (m : IntMap V) (k : ℕ) (v : V) → All P m → find m k ≡ some v → P (k, v)
  unfolding find
  find-All P [] k v h f = absurd (ground arith)
  find-All P ((j, u) ∷ m) k v h f = elim (Bool-cases (j == k)) [
    | inl same ↦
        let same' : j ≡ k = (==_iff j k).0 same in
        let v' : u ≡ v = ground (arith, f, same) in subst₂ (λ i x. P (i, x)) same' v' h.0
    | inr other ↦ find-All P m k v h.1 (rw other at f)
  ]

  -- Each entry of a map can be found.
  pub All-find : (m : IntMap V) → All (λ (k, _). (v : V) × (find m k ≡ some v)) m
  unfolding find
  All-find [] = tt
  All-find ((j, u) ∷ m) =
      ((u, ground arith), All-map _ _ m (λ (k, _) (v, f). later k v f) (All-find m))
    where
      later : (k : ℕ) (v : V) → find m k ≡ some v → (x : V) × (find ((j, u) ∷ m) k ≡ some x)
      later k v f = elim (Bool-cases (j == k)) [
        | inl same ↦ (u, rw same)
        | inr other ↦ (v, rw other f)
      ]

-- A client of a sound state.
pub record IsLive (k : Handle) (c : Client) (w : World) : Type 0 where
  pub found : find w.mgr.clients k ≡ some c
  pub bound : IsBound k c.base
  pub awake : c.base.stopping ≡ false

pub find-IsLive :
    (k : Handle) (c : Client) (w : World) → IsSound w → find w.mgr.clients k ≡ some c → IsLive k c w
find-IsLive k c w s f =
    let entry = find-IsEntry w.mgr.next_handle w.mgr.clients k c s.mgr.entries f in
    record { found = f; bound = entry.2; awake = entry.3 }

pub in_flight-act :
    (ext : External) (a : Action) (w : World) → IsGame a → (act ext a w).in_flight ≡ w.in_flight
in_flight-act ext a w g = ap (λ v. v.in_flight) (act_flight ext a w.in_flight w g)

-- The handlers in flight are nothing to what is left of a task.
pub complete-flight :
    (t : Task) (ms ns : List (Notice Handle)) (w : World)
    → with_flight ns (complete t (with_flight ms w)) ≡ with_flight ns (complete t w)
unfolding reset_options
complete-flight idle ms ns w = refl
complete-flight (resetting (one _ _)) ms ns w = refl
complete-flight (resetting unloading) ms ns w = refl
complete-flight (resetting detaching) ms ns w = refl
complete-flight (closing (one _ _) cs p) ms ns w = refl
complete-flight (closing unloading cs p) ms ns w = refl
complete-flight (closing detaching cs p) ms ns w = refl

-- An event for a live client of System, and what comes of it.
module _ (k : Handle) (e : NetworkEvent) (c : Client) (v : World) (l : IsLive k c v) where
  pub network-live :
      on_network k e v ≡ with_flight (v.in_flight ++ notice_of k e ∷ []) (on_enter k e c v)
  unfolding on_enter MqttClientMgr.update
  network-live =
      on_network-live k e c v l.found
      ∙ ground (arith, receive-notice k c.base e l.bound, l.awake, receive-write_flag c.base e)

  pub network-flight : (on_network k e v).in_flight ≡ v.in_flight ++ notice_of k e ∷ []
  network-flight = ap (λ x. x.in_flight) network-live

  -- No client gets lost.
  pub IsKnown-network :
      (cs : IntMap Client)
      → All (IsKnown v.mgr.clients) cs
      → All (IsKnown (on_network k e v).mgr.clients) cs
  unfolding on_enter MqttClientMgr.update
  IsKnown-network cs h =
      rw network-live (
        All-map (IsKnown v.mgr.clients) (IsKnown (assign v.mgr.clients k (flagged e c))) cs still h)
    where
      still :
          (x : Handle × Client)
          → IsKnown v.mgr.clients x
          → IsKnown (assign v.mgr.clients k (flagged e c)) x
      still (j, d) (b, d', f) =
          let (x, g) = find-assign-some v.mgr.clients k j (flagged e c) d' f in (b, x, g)
