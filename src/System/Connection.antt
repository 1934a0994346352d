-- ===== src/System/Connection.antt =====
-- What mqtt_is_connect of src/natives.cpp reports of the events that Paho's threads have delivered.
use amxx_mqtt_client.Prelude.{
  ◌≡◌, ◌≤◌, refl, sym, ◌∙◌, ap, Bool, some, List, [], ◌∷◌, arith, ◌==◌, if◌then◌else◌, Bool-cases,
  Option-cases, inl, inr,
}
use amxx_mqtt_client.IntMap.{find, find-assign}
use amxx_mqtt_client.External.{Cell, External, NetworkEvent}
use amxx_mqtt_client.MqttClient.{receive}
use amxx_mqtt_client.MqttClient.Events.{flag_after_all, is_connected-receive}
use amxx_mqtt_client.MqttClientMgr
use amxx_mqtt_client.MqttClientMgr.{Handle, Client, get_client}
use amxx_mqtt_client.World.{World}
use amxx_mqtt_client.Natives.Args.{param, arg_count}
use amxx_mqtt_client.Natives.Clients.{mqtt_is_connect}
use amxx_mqtt_client.System.{
  ThreadAction, network, deliver, on_network, on_deliver, thread_step, thread_steps,
}

-- The events for one client, in their order.
abbrev pub events_for : Handle → List ThreadAction → List NetworkEvent
events_for k [] = []
events_for k (network j e ∷ ts) = let rest = events_for k ts in if j == k then e ∷ rest else rest
events_for k (deliver _ ∷ ts) = events_for k ts

-- The client that stands under a handle after the actions, with its flag.
abbrev Reached : Handle → Client → List ThreadAction → World → Type 0
Reached k c ts w =
    (d : Client) × (get_client w.mgr k ≡ some d)
    × (d.base.is_connected ≡ flag_after_all (events_for k ts) c.base.is_connected)

thread_step-Reached :
    (t : ThreadAction) (w : World) (k : Handle) (c : Client)
    → get_client w.mgr k ≡ some c
    → Reached k c (t ∷ []) (thread_step t w)
unfolding thread_step on_network on_deliver get_client MqttClientMgr.update
thread_step-Reached (deliver n) w k c f = (c, ground arith, refl)
thread_step-Reached (network j e) w k c f = elim (Bool-cases (j == k)) [
  | inl own ↦
      let same : j ≡ k = ground arith in
      (
        record c { base = (receive c.base e).0 },
        ground (arith, find-assign w.mgr.clients k k (record c { base = (receive c.base e).0 })),
        ground (arith, is_connected-receive c.base e),
      )
  | inr other ↦ elim (Option-cases (find w.mgr.clients j)) [
    | inl none' ↦ (c, ground arith, ground arith)
    | inr (b, g) ↦ (
      c,
      ground (arith, find-assign w.mgr.clients j k (record b { base = (receive b.base e).0 })),
      ground arith,
    )
  ]
]

flag_after_all-cons :
    (k : Handle) (t : ThreadAction) (ts : List ThreadAction) (b : Bool)
    → flag_after_all (events_for k (t ∷ ts)) b
      ≡ flag_after_all (events_for k ts) (flag_after_all (events_for k (t ∷ [])) b)
flag_after_all-cons k (deliver n) ts b = refl
flag_after_all-cons k (network j e) ts b = elim (Bool-cases (j == k)) [
  | inl own ↦ rw own refl
  | inr other ↦ rw other refl
]

thread_steps-Reached :
    (ts : List ThreadAction) (w : World) (k : Handle) (c : Client)
    → get_client w.mgr k ≡ some c
    → Reached k c ts (thread_steps ts w)
unfolding thread_steps
thread_steps-Reached [] w k c f = (c, f, refl)
thread_steps-Reached (t ∷ ts) w k c f =
    let (d, g, p) = thread_step-Reached t w k c f in
    let (d', g', p') = thread_steps-Reached ts (thread_step t w) k d g in
    (
      d',
      g',
      p'
          ∙ ap (flag_after_all (events_for k ts)) p
          ∙ sym (flag_after_all-cons k t ts c.base.is_connected),
    )

-- After any events of Paho for any clients, with any handlers called between them, mqtt_is_connect on
-- a live client answers what the events for this client, and no others, make of its flag one after
-- the other. It makes no report and changes nothing.
pub mqtt_is_connect-thread_steps :
    (ext : External) (params : List Cell) (ts : List ThreadAction) (w : World) (c : Client)
    → 1 ≤ arg_count params
    → get_client w.mgr (param params 1) ≡ some c
    → mqtt_is_connect ext params (thread_steps ts w) ≡ (
      if flag_after_all (events_for (param params 1) ts) c.base.is_connected then 1 else 0,
      thread_steps ts w,
    )
unfolding mqtt_is_connect
mqtt_is_connect-thread_steps ext params ts w c enough f =
    let (d, g, p) = thread_steps-Reached ts w (param params 1) c f in ground (arith, g, p)
