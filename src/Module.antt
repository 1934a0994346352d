-- ===== src/Module.antt =====
-- src/module.cpp: what AMX Mod X calls as the module is loaded, and as maps come and go.
pub mod Unloading
use amxx_mqtt_client.Prelude.{if◌then◌else◌}
use amxx_mqtt_client.External.{
  External, add_natives, log, print_stderr, hook_error, attach_banner, detach_banner,
}
use amxx_mqtt_client.MqttClientMgr
use amxx_mqtt_client.ConnectOptionMgr
use amxx_mqtt_client.CallbackDispatcher
use amxx_mqtt_client.CallbackDispatcher.{dispatch_all}
use amxx_mqtt_client.World.{World, note}
use amxx_mqtt_client.RehldsFrameHook.{
  Engine, check_rehlds_api, register_rehlds_frame_hook, unregister_rehlds_frame_hook,
}

-- AMXX_GAME_OK and AMXX_GAME_BAD
pub data GameStatus : Type 0 where
  game_ok game_bad : GameStatus

unfoldable pub on_amxx_check_game : Engine → World → GameStatus × World
on_amxx_check_game e w =
    let (found, error) = check_rehlds_api e in
    if found then (game_ok, w) else (game_bad, note (print_stderr error) w)

unfoldable pub on_amxx_attach : Engine → World → World
on_amxx_attach e w =
    let (registered, error, w') = register_rehlds_frame_hook e w in
    if registered
    then note (log attach_banner) (note add_natives w')
    else note (log (hook_error error)) w'

-- g_mqttClientMgr.reset()
unfoldable pub reset_clients : External → World → World
reset_clients ext w =
    let (m, ns, h) = MqttClientMgr.reset ext w.mgr w.history in
    record w { mgr = m; dispatcher = dispatch_all ns w.dispatcher; history = h }

-- g_connectOptionMgr.reset()
unfoldable pub reset_options : World → World
reset_options w = record w { options = ConnectOptionMgr.reset w.options }

-- StartCallbackDispatcher and StopCallbackDispatcher
unfoldable pub start_dispatcher : World → World
start_dispatcher w = record w { dispatcher = CallbackDispatcher.start w.dispatcher }

unfoldable pub stop_dispatcher : World → World
stop_dispatcher w = record w { dispatcher = CallbackDispatcher.stop w.dispatcher }

unfoldable pub on_plugins_loaded : World → World
unfolding start_dispatcher
on_plugins_loaded w = start_dispatcher w

unfoldable pub on_plugins_unloading : External → World → World
unfolding stop_dispatcher reset_clients reset_options
on_plugins_unloading ext w = reset_options (reset_clients ext (stop_dispatcher w))

unfoldable pub on_amxx_detach : External → World → World
unfolding stop_dispatcher reset_clients reset_options
on_amxx_detach ext w =
    note (log detach_banner)
      (reset_options (reset_clients ext (unregister_rehlds_frame_hook (stop_dispatcher w))))
