-- ===== src/System/Registration/Natives.antt =====
-- That the natives of src/natives.cpp keep the forwards of the module in order.
use amxx_mqtt_client.Prelude.{
  ℕ, ◌≡◌, ◌≢◌, ◌≤◌, ◌⊎◌, refl, ◌∙◌, true, none, some, List, arith, ◌==◌, Bool-cases, Option-cases,
  inl, inr, ltb, length,
}
use amxx_mqtt_client.External.{Cell, minus_one, External, NativeName, ParamType}
use amxx_mqtt_client.MqttClient
use amxx_mqtt_client.AmxxMqttClient
use amxx_mqtt_client.MqttClientMgr
use amxx_mqtt_client.MqttClientMgr.{MqttClientMgr, Handle, Client, get_client, update}
use amxx_mqtt_client.CallbackDispatcher.{
  CallbackType, connected, message, connection_lost, disconnected, forward_of,
}
use amxx_mqtt_client.World.{World}
use amxx_mqtt_client.Natives
use amxx_mqtt_client.Natives.Args.{param, arg_count}
use amxx_mqtt_client.Natives.Clients.{
  mqtt_create, mqtt_destroy, mqtt_connect, mqtt_disconnect, mqtt_is_connect, destroy_client,
}
use amxx_mqtt_client.Natives.Topics.{mqtt_subscribe, mqtt_unsubscribe, mqtt_publish}
use amxx_mqtt_client.Natives.Callbacks.{
  mqtt_set_connected_callback, mqtt_set_message_callback, mqtt_set_connection_lost_callback,
  mqtt_set_disconnected_callback,
}
use amxx_mqtt_client.Natives.Options.{mqtt_create_connect_options, mqtt_set_options}
use amxx_mqtt_client.Natives.Deliveries.{setter, registered_types, setter-mgr}
use amxx_mqtt_client.System.Registration.{registration, all_executable, GivesNewIds}
use amxx_mqtt_client.System.Registration.Owners.{set-IsOwned}
use amxx_mqtt_client.System.Registration.Clients.{
  IsInOrder, IsSilent, silent-IsInOrder, make-IsInOrder, destroy-IsInOrder,
}

-- The state of the module is in order.
abbrev pub IsOrdered : External → ℕ → World → Type 0
IsOrdered ext base w = IsInOrder ext base w.mgr w.history

module _ (ext : External) (base : ℕ) (params : List Cell) (w : World) where
  abbrev Keeps : World → Type 0
  Keeps v = IsOrdered ext base w → IsOrdered ext base v

  silent-Keeps : (v : World) → v.mgr ≡ w.mgr → IsSilent ext base w.history v.history → Keeps v
  silent-Keeps v same quiet = silent-IsInOrder ext base w.mgr v.mgr w.history v.history same quiet

  create-Keeps : Keeps (mqtt_create ext params w).1
  unfolding mqtt_create
  create-Keeps o = elim (Bool-cases (ltb (arg_count params) 2)) [
    | inl few ↦
        silent-Keeps (mqtt_create ext params w).1 (ground (arith, few))
          ((λ i real. ground (arith, few)), ground (arith, few)) o
    | inr enough ↦
        let b = ext.amx_string w.history (param params 1) in
        let i = ext.amx_string w.history (param params 2) in
        let out = MqttClientMgr.make ext b i w.mgr w.history in
        let made = make-IsInOrder ext base b i w.mgr w.history o in
        let mgr : (mqtt_create ext params w).1.mgr ≡ out.1 = ground (arith, enough) in
        rw mgr (
          silent-IsInOrder ext base out.1 out.1 out.2 (mqtt_create ext params w).1.history refl
            ((λ x real. ground (arith, enough)), ground (arith, enough)) made)
  ]

  destroy-Keeps : Keeps (mqtt_destroy ext params w).1
  unfolding mqtt_destroy destroy_client
  destroy-Keeps o = elim (Bool-cases (ltb (arg_count params) 1)) [
    | inl few ↦
        silent-Keeps (mqtt_destroy ext params w).1 (ground (arith, few))
          ((λ i real. ground (arith, few)), ground (arith, few)) o
    | inr enough ↦ rw enough (destroy-IsInOrder ext base (param params 1) w.mgr w.history o)
  ]

  connect-Keeps : Keeps (mqtt_connect ext params w).1
  unfolding mqtt_connect MqttClient.connect
  connect-Keeps =
      silent-Keeps (mqtt_connect ext params w).1 (ground arith)
        ((λ i real. ground arith), ground arith)

  disconnect-Keeps : Keeps (mqtt_disconnect ext params w).1
  unfolding mqtt_disconnect MqttClient.disconnect
  disconnect-Keeps =
      silent-Keeps (mqtt_disconnect ext params w).1 (ground arith)
        ((λ i real. ground arith), ground arith)

  is_connect-Keeps : Keeps (mqtt_is_connect ext params w).1
  unfolding mqtt_is_connect
  is_connect-Keeps =
      silent-Keeps (mqtt_is_connect ext params w).1 (ground arith)
        ((λ i real. ground arith), ground arith)

  subscribe-Keeps : Keeps (mqtt_subscribe ext params w).1
  unfolding mqtt_subscribe MqttClient.subscribe
  subscribe-Keeps =
      silent-Keeps (mqtt_subscribe ext params w).1 (ground arith)
        ((λ i real. ground arith), ground arith)

  unsubscribe-Keeps : Keeps (mqtt_unsubscribe ext params w).1
  unfolding mqtt_unsubscribe MqttClient.unsubscribe
  unsubscribe-Keeps =
      silent-Keeps (mqtt_unsubscribe ext params w).1 (ground arith)
        ((λ i real. ground arith), ground arith)

  publish-Keeps : Keeps (mqtt_publish ext params w).1
  unfolding mqtt_publish MqttClient.publish
  publish-Keeps =
      silent-Keeps (mqtt_publish ext params w).1 (ground arith)
        ((λ i real. ground arith), ground arith)

  set_options-Keeps : Keeps (mqtt_set_options ext params w).1
  unfolding mqtt_set_options
  set_options-Keeps =
      silent-Keeps (mqtt_set_options ext params w).1 (ground arith)
        ((λ i real. ground arith), ground arith)

  create_options-Keeps : Keeps (mqtt_create_connect_options w).1
  unfolding mqtt_create_connect_options
  create_options-Keeps =
      silent-Keeps (mqtt_create_connect_options w).1 (ground arith)
        ((λ i real. ground arith), ground arith)

  -- The id and the calls of a native that sets a callback.
  abbrev answered : CallbackType → Cell
  answered t =
      ext.forward w.history (ext.amx_string w.history (param params 2)) (registered_types t)

  abbrev after_set : CallbackType → World
  after_set t = (Natives.call ext (setter t) params w).1

  refused-Keeps :
      (t : CallbackType)
      → (ltb (arg_count params) 2 ≡ true)
        ⊎ (get_client w.mgr (param params 1) ≡ none)
        ⊎ (answered t ≡ minus_one)
      → Keeps (after_set t)
  unfolding Natives.call mqtt_set_connected_callback mqtt_set_message_callback
      mqtt_set_connection_lost_callback mqtt_set_disconnected_callback
  refused-Keeps connected why =
      silent-Keeps (after_set connected) (ground (arith, why))
        ((λ i real. ground (arith, why)), ground (arith, why))
  refused-Keeps message why =
      silent-Keeps (after_set message) (ground (arith, why))
        ((λ i real. ground (arith, why)), ground (arith, why))
  refused-Keeps connection_lost why =
      silent-Keeps (after_set connection_lost) (ground (arith, why))
        ((λ i real. ground (arith, why)), ground (arith, why))
  refused-Keeps disconnected why =
      silent-Keeps (after_set disconnected) (ground (arith, why))
        ((λ i real. ground (arith, why)), ground (arith, why))

  module _ (c : Client) (enough : 2 ≤ arg_count params)
      (f : get_client w.mgr (param params 1) ≡ some c) where
    set-registration :
        (t : CallbackType)
        → answered t ≢ minus_one
        → registration ext base w.history (answered t) ≡ none
        → base ≤ length w.history
        → registration ext base (after_set t).history (answered t) ≡ some (registered_types t)
    unfolding Natives.call mqtt_set_connected_callback mqtt_set_message_callback
        mqtt_set_connection_lost_callback mqtt_set_disconnected_callback
        AmxxMqttClient.set_on_message_forward_id
    set-registration connected real fresh late = ground (arith, late)
    set-registration message real fresh late = ground (arith, late)
    set-registration connection_lost real fresh late = ground (arith, late)
    set-registration disconnected real fresh late = ground (arith, late)

    set-others :
        (t : CallbackType)
        → answered t ≢ minus_one
        → registration ext base w.history (answered t) ≡ none
        → (i : Cell) (types : List ParamType) → registration ext base w.history i ≡ some types
        → i ≢ forward_of c t
        → registration ext base (after_set t).history i ≡ some types
    unfolding Natives.call mqtt_set_connected_callback mqtt_set_message_callback
        mqtt_set_connection_lost_callback mqtt_set_disconnected_callback
        AmxxMqttClient.set_on_message_forward_id forward_of
    set-others connected real fresh i types old other = ground arith
    set-others message real fresh i types old other = ground arith
    set-others connection_lost real fresh i types old other = ground arith
    set-others disconnected real fresh i types old other = ground arith

    set-executable :
        (t : CallbackType)
        → answered t ≢ minus_one
        → all_executable ext base (after_set t).history ≡ all_executable ext base w.history
    unfolding Natives.call mqtt_set_connected_callback mqtt_set_message_callback
        mqtt_set_connection_lost_callback mqtt_set_disconnected_callback
        AmxxMqttClient.set_on_message_forward_id
    set-executable connected real = ground arith
    set-executable message real = ground arith
    set-executable connection_lost real = ground arith
    set-executable disconnected real = ground arith

    accepted-Keeps :
        (t : CallbackType)
        → GivesNewIds ext base
        → base ≤ length w.history
        → answered t ≢ minus_one
        → Keeps (after_set t)
    unfolding get_client
    accepted-Keeps t new late real o =
        let fresh =
          new w.history (ext.amx_string w.history (param params 2)) (registered_types t) late
            real in
        (
          rw (setter-mgr ext params w c t enough f real) (
              set-IsOwned ext base w.mgr (param params 1) c t (answered t) o.0 f
                (after_set t).history real fresh (set-registration t real fresh late)
                (set-others t real fresh)),
          set-executable t real ∙ o.1,
        )

  set-Keeps :
      (t : CallbackType) → GivesNewIds ext base → base ≤ length w.history → Keeps (after_set t)
  set-Keeps t new late o = elim (Bool-cases (ltb (arg_count params) 2)) [
    | inl few ↦ refused-Keeps t (inl few) o
    | inr enough ↦ elim (Option-cases (get_client w.mgr (param params 1))) [
      | inl none' ↦ refused-Keeps t (inr (inl none')) o
      | inr (c, f) ↦ elim (Bool-cases (answered t == minus_one)) [
        | inl missing ↦ refused-Keeps t (inr (inr (ground (arith, missing)))) o
        | inr real ↦
            accepted-Keeps c (ground (arith, enough)) f t new late (λ e. ground (arith, real, e)) o
      ]
    ]
  ]

-- Every native keeps the forwards in order.
pub call-IsOrdered :
    (ext : External) (base : ℕ) (name : NativeName) (params : List Cell) (w : World)
    → GivesNewIds ext base
    → base ≤ length w.history
    → IsOrdered ext base w
    → IsOrdered ext base (Natives.call ext name params w).1
unfolding Natives.call
call-IsOrdered ext base NativeName.mqtt_create params w new late o =
    create-Keeps ext base params w o
call-IsOrdered ext base NativeName.mqtt_destroy params w new late o =
    destroy-Keeps ext base params w o
call-IsOrdered ext base NativeName.mqtt_connect params w new late o =
    connect-Keeps ext base params w o
call-IsOrdered ext base NativeName.mqtt_disconnect params w new late o =
    disconnect-Keeps ext base params w o
call-IsOrdered ext base NativeName.mqtt_is_connect params w new late o =
    is_connect-Keeps ext base params w o
call-IsOrdered ext base NativeName.mqtt_subscribe params w new late o =
    subscribe-Keeps ext base params w o
call-IsOrdered ext base NativeName.mqtt_unsubscribe params w new late o =
    unsubscribe-Keeps ext base params w o
call-IsOrdered ext base NativeName.mqtt_publish params w new late o =
    publish-Keeps ext base params w o
call-IsOrdered ext base NativeName.mqtt_set_connected_callback params w new late o =
    set-Keeps ext base params w connected new late o
call-IsOrdered ext base NativeName.mqtt_set_message_callback params w new late o =
    set-Keeps ext base params w message new late o
call-IsOrdered ext base NativeName.mqtt_set_connection_lost_callback params w new late o =
    set-Keeps ext base params w connection_lost new late o
call-IsOrdered ext base NativeName.mqtt_set_disconnected_callback params w new late o =
    set-Keeps ext base params w disconnected new late o
call-IsOrdered ext base NativeName.mqtt_create_connect_options params w new late o =
    create_options-Keeps ext base params w o
call-IsOrdered ext base NativeName.mqtt_set_options params w new late o =
    set_options-Keeps ext base params w o
