-- ===== src/Module/Unloading.antt =====
-- What src/module.cpp leaves behind when plugins are unloaded and when the module is detached.
use amxx_mqtt_client.Prelude.{◌≡◌, refl, none}
use amxx_mqtt_client.IntMap.{find}
use amxx_mqtt_client.External.{Cell, External}
use amxx_mqtt_client.MqttClientMgr
use amxx_mqtt_client.MqttClientMgr.{Handle, get_client}
use amxx_mqtt_client.MqttClientMgr.Operations.{reset-silent}
use amxx_mqtt_client.ConnectOptionMgr
use amxx_mqtt_client.ConnectOptionMgr.Indices.{look}
use amxx_mqtt_client.CallbackDispatcher
use amxx_mqtt_client.CallbackDispatcher.{dispatch_all}
use amxx_mqtt_client.World.{World}
use amxx_mqtt_client.Module.{on_plugins_unloading}

-- After plugins are unloaded no event waits or is accepted and no handle names a client or options.
-- The next handle is kept, so that no handle of the old map is given out again, and so are the
-- handlers that threads of Paho had copied.
pub on_plugins_unloading_clears :
    (ext : External) (w : World)
    → let v = on_plugins_unloading ext w in
      (v.dispatcher ≡ CallbackDispatcher.idle)
      × ((k : Handle) → get_client v.mgr k ≡ none)
      × ((i : Cell) → look v.options i ≡ none)
      × (v.mgr.next_handle ≡ w.mgr.next_handle)
      × (v.in_flight ≡ w.in_flight)
unfolding on_plugins_unloading MqttClientMgr.reset get_client find ConnectOptionMgr.reset
    ConnectOptionMgr.get_options CallbackDispatcher.stop dispatch_all
on_plugins_unloading_clears ext w =
    (rw (reset-silent ext w.mgr w.history), λ k. refl, λ i. refl, refl, refl)
