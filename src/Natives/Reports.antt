-- ===== src/Natives/Reports.antt =====
-- The error reports of the natives of src/natives.cpp.
use amxx_mqtt_client.Prelude.{
  ℕ, ◌+◌, ◌≤◌, ◌≡◌, refl, Bool, true, false, List, [], ◌∷◌, arith, Option-cases, inl, inr,
}
use amxx_mqtt_client.IntMap.{find}
use amxx_mqtt_client.External.{
  Cell, Call, log_error, register_forward, External, History, NativeName, ParamType,
}
use amxx_mqtt_client.MqttClient
use amxx_mqtt_client.AmxxMqttClient
use amxx_mqtt_client.MqttClientMgr
use amxx_mqtt_client.MqttClientMgr.{Client, Handle, get_client}
use amxx_mqtt_client.World.{World}
use amxx_mqtt_client.Natives
use amxx_mqtt_client.Natives.Clients.{mqtt_destroy, mqtt_connect, mqtt_disconnect}
use amxx_mqtt_client.Natives.Topics.{mqtt_subscribe, mqtt_unsubscribe, mqtt_publish}
use amxx_mqtt_client.Natives.Callbacks.{
  connected_types, message_types, connection_lost_types, disconnected_types, set_callback,
  set_connected, set_message, set_connection_lost, set_disconnected, mqtt_set_connected_callback,
  mqtt_set_message_callback, mqtt_set_connection_lost_callback, mqtt_set_disconnected_callback,
}
use amxx_mqtt_client.Natives.Args.{param}
use amxx_mqtt_client.Natives.Options.{mqtt_set_options}

-- 1 for a report.
abbrev weight : Call → ℕ
weight (log_error _) = 1
weight _ = 0

-- The reports so far.
abbrev pub reports : History → ℕ
reports [] = 0
reports (c ∷ h) = weight c + reports h

-- The natives whose result tells success from failure, 1 or 0.
abbrev pub is_status : NativeName → Bool
is_status NativeName.mqtt_create = false
is_status NativeName.mqtt_is_connect = false
is_status NativeName.mqtt_create_connect_options = false
is_status _ = true

-- One report with the result 0, and none with the result 1.
abbrev IsReported : World → Cell × World → Type 0
IsReported w out = (out.0 ≤ 1) × (out.0 + reports out.1.history ≡ reports w.history + 1)

module _ (ext : External) (params : List Cell) (w : World) where
  subscribe-IsReported : IsReported w (mqtt_subscribe ext params w)
  unfolding mqtt_subscribe MqttClient.subscribe
  subscribe-IsReported = ground arith

  unsubscribe-IsReported : IsReported w (mqtt_unsubscribe ext params w)
  unfolding mqtt_unsubscribe MqttClient.unsubscribe
  unsubscribe-IsReported = ground arith

  publish-IsReported : IsReported w (mqtt_publish ext params w)
  unfolding mqtt_publish MqttClient.publish
  publish-IsReported = ground arith

  connect-IsReported : IsReported w (mqtt_connect ext params w)
  unfolding mqtt_connect MqttClient.connect
  connect-IsReported = ground arith

  disconnect-IsReported : IsReported w (mqtt_disconnect ext params w)
  unfolding mqtt_disconnect MqttClient.disconnect
  disconnect-IsReported = ground arith

  set_options-IsReported : IsReported w (mqtt_set_options ext params w)
  unfolding mqtt_set_options
  set_options-IsReported = ground arith

  set_callback-IsReported :
      (name : NativeName) (types : List ParamType)
      (set : Client → Cell → History → Client × History)
      → ((c : Client) (id : Cell) (h : History) → reports (set c id h).1 ≡ reports h)
      → IsReported w (set_callback name types set ext params w)
  unfolding set_callback
  set_callback-IsReported name types set quiet =
      elim (Option-cases (get_client w.mgr (param params 1))) [
        | inl none' ↦ ground arith
        | inr (c, f) ↦
            let callback = ext.amx_string w.history (param params 2) in
            ground (
              arith,
              quiet c (ext.forward w.history callback types)
                  (register_forward callback types ∷ w.history),
            )
      ]

reports-destruct :
    (ext : External) (c : Client) (h : History)
    → reports (AmxxMqttClient.destruct ext c h).1 ≡ reports h
unfolding AmxxMqttClient.destruct MqttClient.destruct
reports-destruct ext c h = ground arith

reports-destroy :
    (ext : External) (k : Handle) (m : MqttClientMgr.MqttClientMgr) (h : History)
    → reports (MqttClientMgr.destroy ext k m h).2 ≡ reports h
unfolding MqttClientMgr.destroy
reports-destroy ext k m h = elim (Option-cases (find m.clients k)) [
  | inl none' ↦ rw (none', MqttClientMgr.destroy)
  | inr (c, f) ↦ rw (f, MqttClientMgr.destroy) (reports-destruct ext c h)
]

destroy-IsReported :
    (ext : External) (params : List Cell) (w : World) → IsReported w (mqtt_destroy ext params w)
unfolding mqtt_destroy
destroy-IsReported ext params w =
    ground (arith, reports-destroy ext (param params 1) w.mgr w.history)

-- A native that answers success or failure makes exactly one error report with the result 0, and none
-- with any other result, which is then 1.
pub call-IsReported :
    (ext : External) (name : NativeName) (params : List Cell) (w : World)
    → is_status name ≡ true
    → IsReported w (Natives.call ext name params w)
unfolding Natives.call mqtt_set_connected_callback mqtt_set_message_callback
    mqtt_set_connection_lost_callback mqtt_set_disconnected_callback
    AmxxMqttClient.set_on_message_forward_id
call-IsReported ext NativeName.mqtt_create params w h = absurd (ground arith)
call-IsReported ext NativeName.mqtt_destroy params w h = destroy-IsReported ext params w
call-IsReported ext NativeName.mqtt_connect params w h = connect-IsReported ext params w
call-IsReported ext NativeName.mqtt_disconnect params w h = disconnect-IsReported ext params w
call-IsReported ext NativeName.mqtt_is_connect params w h = absurd (ground arith)
call-IsReported ext NativeName.mqtt_subscribe params w h = subscribe-IsReported ext params w
call-IsReported ext NativeName.mqtt_unsubscribe params w h = unsubscribe-IsReported ext params w
call-IsReported ext NativeName.mqtt_publish params w h = publish-IsReported ext params w
call-IsReported ext NativeName.mqtt_set_connected_callback params w h =
    set_callback-IsReported ext params w NativeName.mqtt_set_connected_callback connected_types
      set_connected (λ c id h. refl)
call-IsReported ext NativeName.mqtt_set_message_callback params w h =
    set_callback-IsReported ext params w NativeName.mqtt_set_message_callback message_types
      set_message (λ c id h. ground arith)
call-IsReported ext NativeName.mqtt_set_connection_lost_callback params w h =
    set_callback-IsReported ext params w NativeName.mqtt_set_connection_lost_callback
      connection_lost_types set_connection_lost (λ c id h. refl)
call-IsReported ext NativeName.mqtt_set_disconnected_callback params w h =
    set_callback-IsReported ext params w NativeName.mqtt_set_disconnected_callback
      disconnected_types set_disconnected (λ c id h. refl)
call-IsReported ext NativeName.mqtt_create_connect_options params w h = absurd (ground arith)
call-IsReported ext NativeName.mqtt_set_options params w h = set_options-IsReported ext params w
