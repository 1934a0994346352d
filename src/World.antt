-- ===== src/World.antt =====
-- The state of the module: the globals of src/MqttClientMgr.cpp, src/ConnectOptionMgr.cpp,
-- src/CallbackDispatcher.cpp and src/RehldsFrameHook.cpp, and the calls made of the environment.
use amxx_mqtt_client.Prelude.{ℕ, Option, none, List, [], ◌∷◌}
use amxx_mqtt_client.External.{Call, History}
use amxx_mqtt_client.MqttClient.{Notice}
use amxx_mqtt_client.MqttClientMgr.{MqttClientMgr, Handle}
use amxx_mqtt_client.MqttClientMgr
use amxx_mqtt_client.ConnectOptionMgr.{ConnectOptionMgr}
use amxx_mqtt_client.ConnectOptionMgr
use amxx_mqtt_client.CallbackDispatcher.{Dispatcher}
use amxx_mqtt_client.CallbackDispatcher

-- `in_flight` holds the handlers that Paho's threads have copied and not yet called.
pub record World : Type 0 where
  pub mgr : MqttClientMgr
  pub options : ConnectOptionMgr
  pub dispatcher : Dispatcher
  pub in_flight : List (Notice Handle)
  pub frame_registry : Option ℕ
  pub history : History

abbrev pub initial : World
initial = record {
  mgr = MqttClientMgr.initial;
  options = ConnectOptionMgr.empty;
  dispatcher = CallbackDispatcher.idle;
  in_flight = [];
  frame_registry = none;
  history = [];
}

abbrev pub note : Call → World → World
note c w = record w { history = c ∷ w.history }
