-- ===== src/Natives/Topics.antt =====
-- mqtt_subscribe, mqtt_unsubscribe and mqtt_publish of src/natives.cpp.
use amxx_mqtt_client.Prelude.{
  ℕ, Bool, true, false, Option, none, some, List, [], ◌∷◌, ltb, ◌==◌, not, ◌||◌, if◌then◌else◌,
}
use amxx_mqtt_client.External.{
  Cell, Text, too_few_arguments, invalid_client_handle, empty_topic, invalid_qos, what, paho,
  External, NativeName, History,
}
use amxx_mqtt_client.MqttClient
use amxx_mqtt_client.MqttClientMgr
use amxx_mqtt_client.MqttClientMgr.{Client}
use amxx_mqtt_client.World.{World}
use amxx_mqtt_client.Natives.Args.{param, arg_count, fail, is_negative, greater}

abbrev pub is_empty : Text → Bool
is_empty [] = true
is_empty (c ∷ cs) = false

-- The argument at `i`, or 0 for a plugin compiled with fewer.
abbrev pub optional_param : List Cell → ℕ → Cell
optional_param params i = if ltb (arg_count params) i then 0 else param params i

-- The end of the three natives: 1, or the exception in the log.
abbrev submitted : World → Option Text × History → Cell × World
submitted w (failed, h) = elim failed [
  | none ↦ (1, record w { history = h })
  | some e ↦ fail (what (paho e)) (record w { history = h })
]

unfoldable pub mqtt_subscribe : External → List Cell → World → Cell × World
unfolding arg_count
mqtt_subscribe ext params w =
    if ltb (arg_count params) 2
    then fail (too_few_arguments NativeName.mqtt_subscribe) w
    else let handle = param params 1 in
      elim (MqttClientMgr.get_client w.mgr handle) [
        | none ↦ fail (invalid_client_handle handle) w
        | some client ↦
            let topic = ext.amx_string w.history (param params 2) in
            let qos = optional_param params 3 in
            if is_empty topic
            then fail empty_topic w
            else if is_negative qos || greater qos 2
            then fail (invalid_qos qos) w
            else submitted w (MqttClient.subscribe ext client.base topic qos w.history)
      ]

unfoldable pub mqtt_unsubscribe : External → List Cell → World → Cell × World
unfolding arg_count
mqtt_unsubscribe ext params w =
    if ltb (arg_count params) 2
    then fail (too_few_arguments NativeName.mqtt_unsubscribe) w
    else let handle = param params 1 in
      elim (MqttClientMgr.get_client w.mgr handle) [
        | none ↦ fail (invalid_client_handle handle) w
        | some client ↦
            let topic = ext.amx_string w.history (param params 2) in
            if is_empty topic
            then fail empty_topic w
            else submitted w (MqttClient.unsubscribe ext client.base topic w.history)
      ]

unfoldable pub mqtt_publish : External → List Cell → World → Cell × World
unfolding arg_count
mqtt_publish ext params w =
    if ltb (arg_count params) 3
    then fail (too_few_arguments NativeName.mqtt_publish) w
    else let handle = param params 1 in
      elim (MqttClientMgr.get_client w.mgr handle) [
        | none ↦ fail (invalid_client_handle handle) w
        | some client ↦
            let topic = ext.amx_string w.history (param params 2) in
            let payload = ext.amx_string w.history (param params 3) in
            let retained = not (optional_param params 4 == 0) in
            let qos = optional_param params 5 in
            if is_empty topic
            then fail empty_topic w
            else if is_negative qos || greater qos 2
            then fail (invalid_qos qos) w
            else submitted w
                (MqttClient.publish ext client.base topic payload qos retained w.history)
      ]
