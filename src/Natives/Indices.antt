-- ===== src/Natives/Indices.antt =====
-- What the natives of src/natives.cpp do to the handles of connect options.
use amxx_mqtt_client.Prelude.{◌≡◌, ◌∙◌, some, List, arith, Option-cases, Bool-cases, inl, inr, ltb}
use amxx_mqtt_client.External.{Cell, External, NativeName}
use amxx_mqtt_client.MqttClientMgr.{get_client}
use amxx_mqtt_client.ConnectOptionMgr
use amxx_mqtt_client.ConnectOptionMgr.{
  ConnectOption, ConnectOptionMgr, get_options, write, max_index, new_option,
}
use amxx_mqtt_client.ConnectOptionMgr.Indices.{look, look-get_options, IsConsistent}
use amxx_mqtt_client.ConnectOptionMgr.Consistency.{
  make-IsConsistent, get_options-IsConsistent, destroy-IsConsistent, write-IsConsistent,
}
use amxx_mqtt_client.World.{World}
use amxx_mqtt_client.Natives
use amxx_mqtt_client.Natives.Args.{param, arg_count}
use amxx_mqtt_client.Natives.Clients.{
  destroy_client, mqtt_create, mqtt_destroy, mqtt_connect, mqtt_disconnect, mqtt_is_connect,
}
use amxx_mqtt_client.Natives.Topics.{mqtt_subscribe, mqtt_unsubscribe, mqtt_publish}
use amxx_mqtt_client.Natives.Callbacks.{
  set_callback, mqtt_set_connected_callback, mqtt_set_message_callback,
  mqtt_set_connection_lost_callback, mqtt_set_disconnected_callback,
}
use amxx_mqtt_client.Natives.Options.{mqtt_create_connect_options, mqtt_set_options, set_option}

-- The handles after a call: as before, or changed by one of the manager's operations.
pub data OptionChange (m n : ConnectOptionMgr) : Type 0 where
  same : n ≡ m → OptionChange m n
  made : n ≡ (ConnectOptionMgr.make m).1 → OptionChange m n
  looked : (i : Cell) → n ≡ (get_options m i).1 → OptionChange m n
  dropped : (i : Cell) → n ≡ ConnectOptionMgr.destroy (get_options m i).1 i → OptionChange m n
  written :
      (i : Cell) (o p : ConnectOption)
      → look m i ≡ some o
      → n ≡ write (get_options m i).1 i p
      → OptionChange m n

pub OptionChange-IsConsistent :
    {m n : ConnectOptionMgr} → OptionChange m n → IsConsistent m → IsConsistent n
OptionChange-IsConsistent (same e) v = rw e v
OptionChange-IsConsistent {m} (made e) v = rw e (make-IsConsistent m v)
OptionChange-IsConsistent {m} (looked i e) v = rw e (get_options-IsConsistent m i v)
OptionChange-IsConsistent {m} (dropped i e) v =
    rw e (destroy-IsConsistent (get_options m i).1 i (get_options-IsConsistent m i v))
OptionChange-IsConsistent {m} (written i o p f e) v = rw e (
    write-IsConsistent (get_options m i).1 i o p (look-get_options m i i ∙ f)
      (get_options-IsConsistent m i v))

module _ (ext : External) (params : List Cell) (w : World) where
  connect-OptionChange : OptionChange w.options (mqtt_connect ext params w).1.options
  unfolding mqtt_connect
  connect-OptionChange = elim (Bool-cases (ltb (arg_count params) 2)) [
    | inl few ↦ same (ground arith)
    | inr enough ↦ elim (Option-cases (get_client w.mgr (param params 1))) [
      | inl dead ↦ same (ground arith)
      | inr (c, f) ↦ elim (Option-cases (look w.options (param params 2))) [
        | inl unknown ↦ looked (param params 2) (ground arith)
        | inr (o, l) ↦ dropped (param params 2) (ground arith)
      ]
    ]
  ]

  set_options-OptionChange : OptionChange w.options (mqtt_set_options ext params w).1.options
  unfolding mqtt_set_options
  set_options-OptionChange = elim (Bool-cases (ltb (arg_count params) 3)) [
    | inl few ↦ same (ground arith)
    | inr enough ↦ elim (Option-cases (look w.options (param params 1))) [
      | inl unknown ↦ looked (param params 1) (ground arith)
      | inr (o, l) ↦
          let text = ext.amx_string w.history (param params 3) in
          let value = ext.amx_addr w.history (param params 3) in
          elim (Option-cases (set_option (param params 2) text value o)) [
            | inl other ↦ looked (param params 1) (ground arith)
            | inr (p, q) ↦ written (param params 1) o p l (ground arith)
          ]
    ]
  ]

-- A native changes the handles of options by the manager's operations alone.
pub call-OptionChange :
    (ext : External) (name : NativeName) (params : List Cell) (w : World)
    → OptionChange w.options (Natives.call ext name params w).1.options
unfolding Natives.call mqtt_create mqtt_destroy destroy_client mqtt_disconnect mqtt_is_connect
    mqtt_subscribe mqtt_unsubscribe mqtt_publish mqtt_set_connected_callback
    mqtt_set_message_callback mqtt_set_connection_lost_callback mqtt_set_disconnected_callback
    mqtt_create_connect_options set_callback
call-OptionChange ext NativeName.mqtt_connect params w = connect-OptionChange ext params w
call-OptionChange ext NativeName.mqtt_set_options params w = set_options-OptionChange ext params w
call-OptionChange ext NativeName.mqtt_create_connect_options params w = made (ground arith)
call-OptionChange ext NativeName.mqtt_create params w = same (ground arith)
call-OptionChange ext _ params w = same (ground arith)
