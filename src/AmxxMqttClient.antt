-- ===== src/AmxxMqttClient.antt =====
-- src/AmxxMqttClient.h and src/AmxxMqttClient.cpp: a client with the four AMXX forwards that its
-- events go to. A forward id of -1 is no forward.
use amxx_mqtt_client.Prelude.{List, ◌∷◌, ◌==◌, if◌then◌else◌, ◌&&◌, not}
use amxx_mqtt_client.External.{
  Cell, Text, Result, returns, throws, Call, History, External, minus_one,
}
use amxx_mqtt_client.MqttClient.{MqttClient, Notice}
use amxx_mqtt_client.MqttClient

pub record AmxxMqttClient (H : Type 0) : Type 0 where
  pub base : MqttClient H
  pub open base use *
  pub on_connected_forward_id : Cell
  pub on_message_forward_id : Cell
  pub on_connection_lost_forward_id : Cell
  pub on_disconnect_forward_id : Cell

unfoldable pub unregister_if_set : Cell → History → History
unregister_if_set id h = if not (id == minus_one) then Call.unregister_forward id ∷ h else h

module _ {H : Type 0} where
  abbrev pub get_on_connected_forward_id : AmxxMqttClient H → Cell
  get_on_connected_forward_id c = c.on_connected_forward_id

  abbrev pub get_on_message_forward_id : AmxxMqttClient H → Cell
  get_on_message_forward_id c = c.on_message_forward_id

  abbrev pub get_on_connection_lost_forward_id : AmxxMqttClient H → Cell
  get_on_connection_lost_forward_id c = c.on_connection_lost_forward_id

  abbrev pub get_disconnect_forward_id : AmxxMqttClient H → Cell
  get_disconnect_forward_id c = c.on_disconnect_forward_id

  unfoldable pub with_no_forwards : MqttClient H → AmxxMqttClient H
  with_no_forwards c = record {
    base = c;
    on_connected_forward_id = minus_one;
    on_message_forward_id = minus_one;
    on_connection_lost_forward_id = minus_one;
    on_disconnect_forward_id = minus_one;
  }

  unfoldable pub construct : External → Text → Text → History → Result (AmxxMqttClient H) × History
  unfolding MqttClient.construct
  construct ext blocker client h =
      let (r, h') = MqttClient.construct ext blocker client h in
      elim r [ throws e ↦ (throws e, h') | returns c ↦ (returns (with_no_forwards c), h') ]

  -- ~AmxxMqttClient, and then ~MqttClient.
  unfoldable pub destruct : External → AmxxMqttClient H → History → List (Notice H) × History
  unfolding unregister_if_set
  destruct ext c h =
      let h₁ = unregister_if_set (get_on_connected_forward_id c) h in
      let h₂ = unregister_if_set (get_on_message_forward_id c) h₁ in
      let h₃ = unregister_if_set (get_on_connection_lost_forward_id c) h₂ in
      let h₄ = unregister_if_set (get_disconnect_forward_id c) h₃ in
      MqttClient.destruct ext c.base h₄

  unfoldable pub set_on_connected_forward_id : AmxxMqttClient H → Cell → AmxxMqttClient H
  set_on_connected_forward_id c id = record c { on_connected_forward_id = id }

  unfoldable pub set_on_message_forward_id :
      AmxxMqttClient H → Cell → History → AmxxMqttClient H × History
  set_on_message_forward_id c id h =
      let old = c.on_message_forward_id in
      (
        record c { on_message_forward_id = id },
        if not (old == minus_one) && not (old == id) then Call.unregister_forward old ∷ h else h,
      )

  unfoldable pub set_on_connection_lost_forward_id : AmxxMqttClient H → Cell → AmxxMqttClient H
  set_on_connection_lost_forward_id c id = record c { on_connection_lost_forward_id = id }

  unfoldable pub set_disconnect_forward_id : AmxxMqttClient H → Cell → AmxxMqttClient H
  set_disconnect_forward_id c id = record c { on_disconnect_forward_id = id }
