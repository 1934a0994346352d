-- ===== src/MqttClient/Callbacks.antt =====
-- The callbacks of Paho's threads and the destructor of src/MqttClient.cpp, on one connection, with each
-- access of what they share as a step of its own: a callback writes m_bIsConnected, takes m_handlerMutex
-- for copyHandler, copies and gives the lock back, and calls the handler; the destructor takes the lock,
-- sets m_stopping and gives the lock back, and waits in the reset of m_pClient.
pub mod Lock
pub mod Ending
pub mod Stopping
use amxx_mqtt_client.Prelude.{Bool, true, false, ◌≡◌, ◌≢◌, List, [], ◌∷◌, ◌++◌, map}
use amxx_mqtt_client.External.{
  NetworkEvent, connected, message_arrived, connection_lost, disconnected, action_success,
  action_failure,
}
use amxx_mqtt_client.MqttClient.{
  MqttClient, Notice, on_connected, on_message, on_connection_lost, on_disconnected, copy_handler,
  notify, notify_disconnect,
}

-- Where a thread stands in a callback: before copyHandler, with the lock in it, or with the handler that
-- it has copied. One that has copied no handler is through.
pub data Callback (H : Type 0) : Type 0 where
  entered holding : NetworkEvent → Callback H
  calling : Notice H → Callback H

-- Where the thread stands that owns the connection: before the destructor, with the lock in it, in the
-- reset of m_pClient, or behind it.
pub data Phase : Type 0 where
  running locking draining gone : Phase

-- `called` holds the handlers called so far, in their order.
pub record Connection (H : Type 0) : Type 0 where
  pub client : MqttClient H
  pub phase : Phase
  pub locked : Bool
  pub callbacks : List (Callback H)
  pub called : List (Notice H)

module _ {H : Type 0} where
  abbrev pub start : MqttClient H → Connection H
  start c = record { client = c; phase = running; locked = false; callbacks = []; called = [] }

  -- What a callback does before it asks for the handler.
  unfoldable pub write_flag : NetworkEvent → MqttClient H → MqttClient H
  write_flag (connected _) c = record c { is_connected = true }
  write_flag (message_arrived _) c = c
  write_flag (connection_lost _) c = record c { is_connected = false }
  write_flag (disconnected _) c = record c { is_connected = false }
  write_flag action_success c = record c { is_connected = false }
  write_flag action_failure c = c

  -- The handler that copyHandler gives the callback, with the arguments of its call.
  unfoldable pub copied : NetworkEvent → MqttClient H → List (Notice H)
  unfolding copy_handler notify notify_disconnect
  copied (connected msg) c = notify (copy_handler c c.connected_handler) (λ f. on_connected f msg)
  copied (message_arrived msg) c = notify (copy_handler c c.message_handler) (λ f. on_message f msg)
  copied (connection_lost msg) c =
      notify (copy_handler c c.connection_lost_handler) (λ f. on_connection_lost f msg)
  copied (disconnected rc) c =
      notify (copy_handler c c.disconnected_handler) (λ f. on_disconnected f rc)
  copied action_success c = notify_disconnect c
  copied action_failure c = notify_disconnect c

-- A step of a thread or of the destructor. Paho delivers no event once MQTTAsync_destroy has returned,
-- and it returns when no callback is running.
pub data Step {H : Type 0} (s : Connection H) : Connection H → Type 0 where
  enter :
      (e : NetworkEvent)
      → s.phase ≢ gone
      → Step s
          (record s { client = write_flag e s.client; callbacks = s.callbacks ++ entered e ∷ [] })
  lock :
      (e : NetworkEvent) (xs ys : List (Callback H))
      → s.callbacks ≡ xs ++ (entered e ∷ ys)
      → s.locked ≡ false
      → Step s (record s { locked = true; callbacks = xs ++ (holding e ∷ ys) })
  copy :
      (e : NetworkEvent) (xs ys : List (Callback H))
      → s.callbacks ≡ xs ++ (holding e ∷ ys)
      → Step s
          (record s { locked = false; callbacks = xs ++ (map calling (copied e s.client) ++ ys) })
  call :
      (n : Notice H) (xs ys : List (Callback H))
      → s.callbacks ≡ xs ++ (calling n ∷ ys)
      → Step s (record s { callbacks = xs ++ ys; called = s.called ++ n ∷ [] })
  destruct :
      s.phase ≡ running → s.locked ≡ false → Step s (record s { phase = locking; locked = true })
  set_stopping :
      s.phase ≡ locking
      → Step s (record s {
        client = record s.client { stopping = true };
        phase = draining;
        locked = false;
      })
  delete : s.phase ≡ draining → s.callbacks ≡ [] → Step s (record s { phase = gone })

pub data Steps {H : Type 0} (s : Connection H) : Connection H → Type 0 where
  here : Steps s s
  next : {t u : Connection H} → Steps s t → Step t u → Steps s u
