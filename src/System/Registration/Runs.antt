-- ===== src/System/Registration/Runs.antt =====
-- Over the whole life of the module: which forwards src/CallbackDispatcher.cpp executes.
use amxx_mqtt_client.Prelude.{length, ◌≤◌, ℕ}
use amxx_mqtt_client.IntMap.{IntMap}
use amxx_mqtt_client.External.{External}
use amxx_mqtt_client.MqttClient
use amxx_mqtt_client.AmxxMqttClient
use amxx_mqtt_client.MqttClientMgr
use amxx_mqtt_client.MqttClientMgr.{MqttClientMgr}
use amxx_mqtt_client.World.{World}
use amxx_mqtt_client.System.Registration.Natives.{IsOrdered}

-- The forwards are in order, and the calls before the map are made.
abbrev IsLate : External → ℕ → World → Type 0
IsLate ext base w = IsOrdered ext base w × (base ≤ length w.history)
