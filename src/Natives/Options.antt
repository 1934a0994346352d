-- ===== src/Natives/Options.antt =====
-- mqtt_create_connect_options and mqtt_set_options of src/natives.cpp.
use amxx_mqtt_client.Prelude.{Option, none, some, List, [], ◌∷◌, ◌++◌, ltb, ◌==◌, if◌then◌else◌}
use amxx_mqtt_client.External.{
  Cell, Text, returns, throws, too_few_arguments, invalid_options_handle, invalid_option_name, what,
  External, NativeName, set_user_name, set_password, set_clean_start, set_properties, clear,
  add_session_expiry,
}
use amxx_mqtt_client.ConnectOptionMgr
use amxx_mqtt_client.ConnectOptionMgr.{ConnectOption}
use amxx_mqtt_client.World.{World}
use amxx_mqtt_client.Natives.Args.{param, arg_count, fail, greater}

unfoldable pub mqtt_create_connect_options : World → Cell × World
mqtt_create_connect_options w =
    let (r, os) = ConnectOptionMgr.make w.options in
    let w' = record w { options = os } in
    elim r [ returns index ↦ (index, w') | throws e ↦ fail (what e) w' ]

-- MqttConnectOptionNames
abbrev pub options_username : Cell
options_username = 0

abbrev pub options_password : Cell
options_password = 1

abbrev pub options_clean_start : Cell
options_clean_start = 2

abbrev pub options_session_expiry : Cell
options_session_expiry = 3

-- The switch: what it makes of the options, and `none` for its default.
unfoldable pub set_option : Cell → Text → Cell → ConnectOption → Option ConnectOption
set_option name text value o =
    let properties = o.properties ++ clear ∷ add_session_expiry value ∷ [] in
    if name == options_username
    then some (record o { option = o.option ++ set_user_name text ∷ [] })
    else if name == options_password
    then some (record o { option = o.option ++ set_password text ∷ [] })
    else if name == options_clean_start
    then some (record o { option = o.option ++ set_clean_start (greater value 0) ∷ [] })
    else if name == options_session_expiry
    then some
        (record { option = o.option ++ set_properties properties ∷ []; properties = properties })
    else none

unfoldable pub mqtt_set_options : External → List Cell → World → Cell × World
unfolding arg_count set_option
mqtt_set_options ext params w =
    if ltb (arg_count params) 3
    then fail (too_few_arguments NativeName.mqtt_set_options) w
    else let handle = param params 1 in
      let (found, os) = ConnectOptionMgr.get_options w.options handle in
      let w' = record w { options = os } in
      elim found [
        | none ↦ fail (invalid_options_handle handle) w'
        | some o ↦
            let text = ext.amx_string w.history (param params 3) in
            let value = ext.amx_addr w.history (param params 3) in
            elim (set_option (param params 2) text value o) [
              | none ↦ fail invalid_option_name w'
              | some o' ↦ (1, record w { options = ConnectOptionMgr.write os handle o' })
            ]
      ]
