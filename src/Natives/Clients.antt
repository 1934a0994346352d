-- ===== src/Natives/Clients.antt =====
-- mqtt_create, mqtt_destroy, mqtt_connect, mqtt_disconnect and mqtt_is_connect of src/natives.cpp.
use amxx_mqtt_client.Prelude.{none, some, List, ltb, if◌then◌else◌}
use amxx_mqtt_client.External.{
  Cell, returns, throws, too_few_arguments, invalid_client_handle, invalid_options_handle, what,
  paho, External, NativeName,
}
use amxx_mqtt_client.MqttClient
use amxx_mqtt_client.MqttClientMgr
use amxx_mqtt_client.ConnectOptionMgr
use amxx_mqtt_client.CallbackDispatcher.{dispatch_all}
use amxx_mqtt_client.World.{World}
use amxx_mqtt_client.Natives.Args.{param, arg_count, fail}

unfoldable pub mqtt_create : External → List Cell → World → Cell × World
unfolding arg_count
mqtt_create ext params w =
    if ltb (arg_count params) 2
    then fail (too_few_arguments NativeName.mqtt_create) w
    else let blocker = ext.amx_string w.history (param params 1) in
      let client_id = ext.amx_string w.history (param params 2) in
      let (r, m, h) = MqttClientMgr.make ext blocker client_id w.mgr w.history in
      let w' = record w { mgr = m; history = h } in
      elim r [ returns handle ↦ (handle, w') | throws e ↦ fail (what e) w' ]

-- g_mqttClientMgr.destroy(handle)
unfoldable pub destroy_client : External → Cell → World → World
destroy_client ext handle w =
    let (m, ns, h) = MqttClientMgr.destroy ext handle w.mgr w.history in
    record w { mgr = m; dispatcher = dispatch_all ns w.dispatcher; history = h }

unfoldable pub mqtt_destroy : External → List Cell → World → Cell × World
unfolding arg_count destroy_client
mqtt_destroy ext params w =
    if ltb (arg_count params) 1
    then fail (too_few_arguments NativeName.mqtt_destroy) w
    else (1, destroy_client ext (param params 1) w)

unfoldable pub mqtt_connect : External → List Cell → World → Cell × World
unfolding arg_count
mqtt_connect ext params w =
    if ltb (arg_count params) 2
    then fail (too_few_arguments NativeName.mqtt_connect) w
    else let handle = param params 1 in
      let options_handle = param params 2 in
      elim (MqttClientMgr.get_client w.mgr handle) [
        | none ↦ fail (invalid_client_handle handle) w
        | some client ↦
            let (found, os) = ConnectOptionMgr.get_options w.options options_handle in
            elim found [
              | none ↦ fail (invalid_options_handle options_handle) (record w { options = os })
              | some options ↦
                  let (failed, h) = MqttClient.connect ext client.base options.option w.history in
                  let w' = record w {
                    options = ConnectOptionMgr.destroy os options_handle;
                    history = h;
                  } in
                  elim failed [ none ↦ (1, w') | some e ↦ fail (what (paho e)) w' ]
            ]
      ]

unfoldable pub mqtt_disconnect : External → List Cell → World → Cell × World
unfolding arg_count
mqtt_disconnect ext params w =
    if ltb (arg_count params) 1
    then fail (too_few_arguments NativeName.mqtt_disconnect) w
    else let handle = param params 1 in
      elim (MqttClientMgr.get_client w.mgr handle) [
        | none ↦ fail (invalid_client_handle handle) w
        | some client ↦
            let (ns, h) = MqttClient.disconnect ext client.base w.history in
            (1, record w { dispatcher = dispatch_all ns w.dispatcher; history = h })
      ]

unfoldable pub mqtt_is_connect : External → List Cell → World → Cell × World
unfolding arg_count
mqtt_is_connect ext params w =
    if ltb (arg_count params) 1
    then fail (too_few_arguments NativeName.mqtt_is_connect) w
    else let handle = param params 1 in
      elim (MqttClientMgr.get_client w.mgr handle) [
        | none ↦ fail (invalid_client_handle handle) w
        | some client ↦ (if client.base.is_connected then 1 else 0, w)
      ]
