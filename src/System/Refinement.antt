-- ===== src/System/Refinement.antt =====
-- The module of src/ as an implementation of Service.
use amxx_mqtt_client.Prelude.{Bool, true, false, Option, none, some, List}
use amxx_mqtt_client.IntMap.{find}
use amxx_mqtt_client.External.{External}
use amxx_mqtt_client.MqttClient
use amxx_mqtt_client.MqttClientMgr
use amxx_mqtt_client.MqttClientMgr.{MqttClientMgr, Client}
use amxx_mqtt_client.CallbackDispatcher.{Dispatcher}
use amxx_mqtt_client.World.{World}
use amxx_mqtt_client.Service.{Service, FrameRun}
use amxx_mqtt_client.System.{Script}
use amxx_mqtt_client.System.Threads.{IsSound}

abbrev pub is_some : Option Client → Bool
is_some none = false
is_some (some _) = true

-- What the module's state says of the service.
abbrev pub service : MqttClientMgr → Dispatcher → Service
service m d = record {
  is_live = λ k. is_some (find m.clients k);
  next = m.next_handle;
  accepting = d.accepting;
  queue = d.pending;
}

abbrev pub service_of : World → Service
service_of w = service w.mgr w.dispatcher

module _ (ext : External) (script : Script) (s : Service) where
  -- The state of a frame under way.
  abbrev Under : World → Type 0
  Under w = IsSound w × FrameRun script s (service_of w)
