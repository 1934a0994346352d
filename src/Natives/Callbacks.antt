-- ===== src/Natives/Callbacks.antt =====
-- mqtt_set_connected_callback, mqtt_set_message_callback, mqtt_set_connection_lost_callback and
-- mqtt_set_disconnected_callback of src/natives.cpp.
use amxx_mqtt_client.Prelude.{none, some, List, [], ◌∷◌, ltb, ◌==◌, if◌then◌else◌}
use amxx_mqtt_client.External.{
  Cell, minus_one, too_few_arguments, invalid_client_handle, missing_callback, External, NativeName,
  ParamType, fp_cell, fp_string, register_forward, History,
}
use amxx_mqtt_client.AmxxMqttClient
use amxx_mqtt_client.MqttClientMgr
use amxx_mqtt_client.MqttClientMgr.{Client}
use amxx_mqtt_client.World.{World}
use amxx_mqtt_client.Natives.Args.{param, arg_count, fail}

-- The body that the four natives repeat: the name in a report, the parameters of the forward, and the
-- setter.
unfoldable pub set_callback :
    NativeName
    → List ParamType
    → (Client → Cell → History → Client × History)
    → External
    → List Cell
    → World
    → Cell × World
unfolding arg_count
set_callback name types set ext params w =
    if ltb (arg_count params) 2
    then fail (too_few_arguments name) w
    else let handle = param params 1 in
      elim (MqttClientMgr.get_client w.mgr handle) [
        | none ↦ fail (invalid_client_handle handle) w
        | some client ↦
            let callback = ext.amx_string w.history (param params 2) in
            let id = ext.forward w.history callback types in
            let h = register_forward callback types ∷ w.history in
            if id == minus_one
            then fail (missing_callback callback) (record w { history = h })
            else let (client', h') = set client id h in
              (1, record w { mgr = MqttClientMgr.update w.mgr handle client'; history = h' })
      ]

-- The four setters, with what each does to the calls made.
abbrev pub set_connected : Client → Cell → History → Client × History
set_connected c id h = (AmxxMqttClient.set_on_connected_forward_id c id, h)

abbrev pub set_message : Client → Cell → History → Client × History
set_message c id h = AmxxMqttClient.set_on_message_forward_id c id h

abbrev pub set_connection_lost : Client → Cell → History → Client × History
set_connection_lost c id h = (AmxxMqttClient.set_on_connection_lost_forward_id c id, h)

abbrev pub set_disconnected : Client → Cell → History → Client × History
set_disconnected c id h = (AmxxMqttClient.set_disconnect_forward_id c id, h)

-- What each forward takes.
abbrev pub connected_types : List ParamType
connected_types = fp_cell ∷ []

abbrev pub message_types : List ParamType
message_types = fp_cell ∷ fp_string ∷ fp_string ∷ []

abbrev pub connection_lost_types : List ParamType
connection_lost_types = fp_cell ∷ fp_string ∷ []

abbrev pub disconnected_types : List ParamType
disconnected_types = fp_cell ∷ fp_cell ∷ []

unfoldable pub mqtt_set_connected_callback : External → List Cell → World → Cell × World
unfolding set_callback
mqtt_set_connected_callback =
    set_callback NativeName.mqtt_set_connected_callback connected_types set_connected

unfoldable pub mqtt_set_message_callback : External → List Cell → World → Cell × World
unfolding set_callback
mqtt_set_message_callback =
    set_callback NativeName.mqtt_set_message_callback message_types set_message

unfoldable pub mqtt_set_connection_lost_callback : External → List Cell → World → Cell × World
unfolding set_callback
mqtt_set_connection_lost_callback =
    set_callback NativeName.mqtt_set_connection_lost_callback connection_lost_types
      set_connection_lost

unfoldable pub mqtt_set_disconnected_callback : External → List Cell → World → Cell × World
unfolding set_callback
mqtt_set_disconnected_callback =
    set_callback NativeName.mqtt_set_disconnected_callback disconnected_types set_disconnected
