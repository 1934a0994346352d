-- ===== src/Examples/Forwards.antt =====
-- The theorem on the forwards of a map at two concrete maps: in each a plugin registers a forward for
-- messages, one arrives, and the forward is executed in a frame.
use amxx_mqtt_client.Prelude.{ℕ, suc, List, [], ◌∷◌}
use amxx_mqtt_client.External.{register_forward, External, History, NativeName, message_arrived}
use amxx_mqtt_client.World.{World, initial}
use amxx_mqtt_client.MqttClientMgr.{Handle}
use amxx_mqtt_client.Module.{on_plugins_unloading}
use amxx_mqtt_client.System.{
  Step, action, frame, native, thread, network, deliver, attach, plugins_loaded, run,
}
use amxx_mqtt_client.Examples.{working, engine, script, arrived}

-- The forwards registered so far.
abbrev count : History → ℕ
count [] = 0
count (register_forward _ _ ∷ h) = suc (count h)
count (_ ∷ h) = count h

-- The number of a forward is its id.
abbrev numbering : External
numbering = record working { forward = λ h name types. count h }

-- A map with one client, which is given a message.
abbrev map_of : Handle → List Step
map_of k =
    action plugins_loaded
    ∷ action (native NativeName.mqtt_create (8 ∷ 1 ∷ 2 ∷ []))
    ∷ action (native NativeName.mqtt_set_message_callback (8 ∷ k ∷ 3 ∷ []))
    ∷ action (thread (network k (message_arrived arrived)))
    ∷ action (thread (deliver 0))
    ∷ frame script
    ∷ []

abbrev first_map : World
first_map = run numbering (action (attach (engine 3 14)) ∷ map_of 1) initial

abbrev second_map : World
second_map = on_plugins_unloading numbering first_map
