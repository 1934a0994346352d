-- ===== src/MqttClient.antt =====
-- src/MqttClient.h and src/MqttClient.cpp: one MQTT connection. A handler is a value of any type `H`,
-- and a call of it a `Notice H`, which the caller of the operation carries out. Each operation holds
-- m_handlerMutex at most once, and is one step here.
pub mod Events
pub mod Callbacks
use amxx_mqtt_client.Prelude.{
  ℕ, Bool, true, false, Option, none, some, List, [], ◌∷◌, ◌++◌, if◌then◌else◌,
}
use amxx_mqtt_client.External.{
  Cell, Text, Message, OptionCall, set_clean_start, set_keep_alive, Result, returns, throws, Call,
  History, NetworkEvent, connected, message_arrived, connection_lost, disconnected, action_success,
  action_failure, External, attempt,
}

pub record MqttClient (H : Type 0) : Type 0 where
  pub is_connected : Bool
  pub stopping : Bool
  pub connected_handler : Option H
  pub message_handler : Option H
  pub connection_lost_handler : Option H
  pub disconnected_handler : Option H
  pub client : ℕ

pub data Notice (H : Type 0) : Type 0 where
  on_connected : H → Text → Notice H
  on_message : H → Message → Notice H
  on_connection_lost : H → Text → Notice H
  on_disconnected : H → ℕ → Notice H

-- mqtt::NORMAL_DISCONNECTION
abbrev pub normal_disconnection : ℕ
normal_disconnection = 0

module _ {H : Type 0} where
  -- The members after construction, with no handler set.
  unfoldable pub fresh : ℕ → MqttClient H
  fresh p = record {
    is_connected = false;
    stopping = false;
    connected_handler = none;
    message_handler = none;
    connection_lost_handler = none;
    disconnected_handler = none;
    client = p;
  }

  unfoldable pub construct : External → Text → Text → History → Result (MqttClient H) × History
  construct ext blocker client_id h = elim (ext.create h blocker client_id) [
    | throws e ↦ (throws e, Call.new_client blocker client_id ∷ h)
    | returns p ↦ (returns (fresh p), Call.new_client blocker client_id ∷ h)
  ]

  unfoldable pub set_connected_handler : MqttClient H → H → MqttClient H
  set_connected_handler c handler = record c { connected_handler = some handler }

  unfoldable pub set_message_handler : MqttClient H → H → MqttClient H
  set_message_handler c handler = record c { message_handler = some handler }

  unfoldable pub set_connection_lost_handler : MqttClient H → H → MqttClient H
  set_connection_lost_handler c handler = record c { connection_lost_handler = some handler }

  unfoldable pub set_disconnect_handler : MqttClient H → H → MqttClient H
  set_disconnect_handler c handler = record c { disconnected_handler = some handler }

  -- The handler as a callback sees it: none once the client is being destroyed.
  copy_handler : MqttClient H → Option H → Option H
  copy_handler c handler = if c.stopping then none else handler

  notify : Option H → (H → Notice H) → List (Notice H)
  notify none call = []
  notify (some handler) call = call handler ∷ []

  notify_disconnect : MqttClient H → List (Notice H)
  unfolding copy_handler notify
  notify_disconnect c =
      notify (copy_handler c c.disconnected_handler) (λ f. on_disconnected f normal_disconnection)

  on_success : MqttClient H → MqttClient H × List (Notice H)
  unfolding notify_disconnect
  on_success c = let c' = record c { is_connected = false } in (c', notify_disconnect c')

  on_failure : MqttClient H → MqttClient H × List (Notice H)
  unfolding notify_disconnect
  on_failure c = (c, notify_disconnect c)

  -- The callbacks that the constructor installs, and the listener.
  unfoldable pub receive : MqttClient H → NetworkEvent → MqttClient H × List (Notice H)
  unfolding copy_handler notify on_success on_failure
  receive c (connected msg) =
      let c' = record c { is_connected = true } in
      (c', notify (copy_handler c' c'.connected_handler) (λ f. on_connected f msg))
  receive c (message_arrived msg) =
      (c, notify (copy_handler c c.message_handler) (λ f. on_message f msg))
  receive c (connection_lost msg) =
      let c' = record c { is_connected = false } in
      (c', notify (copy_handler c' c'.connection_lost_handler) (λ f. on_connection_lost f msg))
  receive c (disconnected rc) =
      let c' = record c { is_connected = false } in
      (c', notify (copy_handler c' c'.disconnected_handler) (λ f. on_disconnected f rc))
  receive c action_success = on_success c
  receive c action_failure = on_failure c

  unfoldable pub receive_all : MqttClient H → List NetworkEvent → MqttClient H × List (Notice H)
  receive_all c [] = (c, [])
  receive_all c (e ∷ es) =
      let (c', ns) = receive c e in let (c'', ms) = receive_all c' es in (c'', ns ++ ms)

  -- ~MqttClient, with what Paho delivers until the reset of m_pClient returns.
  unfoldable pub destruct : External → MqttClient H → History → List (Notice H) × History
  destruct ext c h =
      let c' = record c { stopping = true } in
      ((receive_all c' (ext.cancelled h c.client)).1, Call.delete_client c.client ∷ h)

  -- The second components of the next four are the exception, if Paho threw one.
  unfoldable pub connect :
      External → MqttClient H → List OptionCall → History → Option Text × History
  unfolding attempt
  connect ext c options h = attempt ext (Call.connect c.client options) h

  -- connect() with no options: v5, clean_start(true), keep_alive_interval(20 s).
  unfoldable pub connect_default : External → MqttClient H → History → Option Text × History
  unfolding connect
  connect_default ext c h = connect ext c (set_clean_start true ∷ set_keep_alive 20 ∷ []) h

  unfoldable pub disconnect : External → MqttClient H → History → List (Notice H) × History
  unfolding attempt notify_disconnect
  disconnect ext c h =
      let (failed, h') = attempt ext (Call.disconnect c.client) h in
      elim failed [ none ↦ ([], h') | some _ ↦ (notify_disconnect c, h') ]

  unfoldable pub subscribe : External → MqttClient H → Text → Cell → History → Option Text × History
  unfolding attempt
  subscribe ext c topic qos h = attempt ext (Call.subscribe c.client topic qos) h

  unfoldable pub unsubscribe : External → MqttClient H → Text → History → Option Text × History
  unfolding attempt
  unsubscribe ext c topic h = attempt ext (Call.unsubscribe c.client topic) h

  unfoldable pub publish :
      External → MqttClient H → Text → Text → Cell → Bool → History → Option Text × History
  unfolding attempt
  publish ext c topic payload qos retained h =
      let msg : Message = record { topic = topic; payload = payload } in
      attempt ext (Call.publish c.client msg qos retained) h
