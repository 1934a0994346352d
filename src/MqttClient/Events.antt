-- ===== src/MqttClient/Events.antt =====
-- What a client of src/MqttClient.cpp makes of the events of Paho's threads.
use amxx_mqtt_client.Prelude.{
  ◌⊎◌, ◌≡◌, refl, ap, Bool, true, false, some, map, List, [], ◌∷◌, arith, if◌then◌else◌,
}
use amxx_mqtt_client.External.{
  NetworkEvent, connected, message_arrived, connection_lost, disconnected, action_success,
  action_failure, External, History,
}
use amxx_mqtt_client.MqttClient.{
  MqttClient, Notice, on_connected, on_message, on_connection_lost, on_disconnected, receive,
  receive_all, disconnect, destruct, normal_disconnection,
}

-- The handlers and the Paho client that a client has.
pub record SameParts {H : Type 0} (c d : MqttClient H) : Type 0 where
  pub stopping : d.stopping ≡ c.stopping
  pub connected : d.connected_handler ≡ c.connected_handler
  pub message : d.message_handler ≡ c.message_handler
  pub lost : d.connection_lost_handler ≡ c.connection_lost_handler
  pub disconnected : d.disconnected_handler ≡ c.disconnected_handler
  pub client : d.client ≡ c.client

-- The flag after an event: only these four change it.
abbrev pub flag_after : NetworkEvent → Bool → Bool
flag_after (connected _) b = true
flag_after (message_arrived _) b = b
flag_after (connection_lost _) b = false
flag_after (disconnected _) b = false
flag_after action_success b = false
flag_after action_failure b = b

abbrev pub flag_after_all : List NetworkEvent → Bool → Bool
flag_after_all [] b = b
flag_after_all (e ∷ es) b = flag_after_all es (flag_after e b)

module _ {H : Type 0} where
  pub receive-SameParts : (c : MqttClient H) (e : NetworkEvent) → SameParts c (receive c e).0
  unfolding receive
  receive-SameParts c (connected msg) = ground arith
  receive-SameParts c e = ground arith

  pub is_connected-receive :
      (c : MqttClient H) (e : NetworkEvent)
      → (receive c e).0.is_connected ≡ flag_after e c.is_connected
  unfolding receive
  is_connected-receive c (connected msg) = refl
  is_connected-receive c e = refl

  stopping-receive :
      (c : MqttClient H) (e : NetworkEvent) → c.stopping ≡ true → (receive c e).1 ≡ []
  unfolding receive
  stopping-receive c (connected msg) h = ground arith
  stopping-receive c e h = ground arith

  pub stopping-receive_all :
      (c : MqttClient H) (es : List NetworkEvent) → c.stopping ≡ true → (receive_all c es).1 ≡ []
  unfolding receive_all
  stopping-receive_all c [] h = refl
  stopping-receive_all c (e ∷ es) h = ground (
    arith,
    stopping-receive c e h,
    stopping-receive_all (receive c e).0 es (ground (arith, receive-SameParts c e)),
  )

  pub destruct-silent :
      (ext : External) (c : MqttClient H) (h : History) → (destruct ext c h).0 ≡ []
  unfolding destruct
  destruct-silent ext c h =
      stopping-receive_all (record c { stopping = true }) (ext.cancelled h c.client) refl

-- Every handler that the client has is `h`.
pub record IsBound {H : Type 0} (h : H) (c : MqttClient H) : Type 0 where
  pub connected : c.connected_handler ≡ some h
  pub message : c.message_handler ≡ some h
  pub lost : c.connection_lost_handler ≡ some h
  pub disconnected : c.disconnected_handler ≡ some h

abbrev pub handler_of : {H : Type 0} → Notice H → H
handler_of (on_connected h _) = h
handler_of (on_message h _) = h
handler_of (on_connection_lost h _) = h
handler_of (on_disconnected h _) = h

-- The one notice that an event of Paho gives a client whose handlers are `h`.
abbrev pub notice_of : {H : Type 0} → H → NetworkEvent → Notice H
notice_of h (connected msg) = on_connected h msg
notice_of h (message_arrived msg) = on_message h msg
notice_of h (connection_lost msg) = on_connection_lost h msg
notice_of h (disconnected rc) = on_disconnected h rc
notice_of h action_success = on_disconnected h normal_disconnection
notice_of h action_failure = on_disconnected h normal_disconnection

module _ {H : Type 0} where
  pub SameParts-IsBound : (h : H) (c d : MqttClient H) → SameParts c d → IsBound h c → IsBound h d
  SameParts-IsBound h c d s b = ground arith

  pub receive-notice :
      (h : H) (c : MqttClient H) (e : NetworkEvent)
      → IsBound h c
      → (receive c e).1 ≡ (if c.stopping then [] else notice_of h e ∷ [])
  unfolding receive
  receive-notice h c (connected msg) b = ground arith
  receive-notice h c e b = ground arith

  -- A client being destroyed queues nothing; another queues at most its disconnected notice.
  pub disconnect-notices :
      (k : H) (ext : External) (c : MqttClient H) (h : History)
      → IsBound k c
      → ((disconnect ext c h).0 ≡ [])
        ⊎ ((disconnect ext c h).0 ≡ on_disconnected k normal_disconnection ∷ [])
  unfolding disconnect
  disconnect-notices k ext c h b = ground arith

pub SameParts-of_eq : {H : Type 0} {c d : MqttClient H} → d ≡ c → SameParts c d
SameParts-of_eq e = ground arith

pub notice_of-handler : {H : Type 0} (h : H) (e : NetworkEvent) → handler_of (notice_of h e) ≡ h
notice_of-handler h (connected msg) = refl
notice_of-handler h e = refl

SameParts-trans :
    {H : Type 0} {c d e : MqttClient H} → SameParts c d → SameParts d e → SameParts c e
SameParts-trans p q = ground (arith, p, q)

-- A client bound to a handle takes any events of Paho in their order. The connection flag is what the
-- events make of it one after the other, each gives one notice to that handle, or none at all while
-- the client is being destroyed, and the handlers stay as they were.
pub receive_all_trace :
    {H : Type 0} (h : H) (c : MqttClient H) (es : List NetworkEvent)
    → IsBound h c
    → ((receive_all c es).0.is_connected ≡ flag_after_all es c.is_connected)
      × ((receive_all c es).1 ≡ (if c.stopping then [] else map (notice_of h) es))
      × SameParts c (receive_all c es).0
unfolding receive_all
receive_all_trace h c [] b = (refl, ground arith, SameParts-of_eq refl)
receive_all_trace h c (e ∷ es) b =
    let d = (receive c e).0 in
    let same = receive-SameParts c e in
    let (f, n, p) = receive_all_trace h d es (SameParts-IsBound h c d same b) in
    (
      rw f (ap (flag_after_all es) (is_connected-receive c e)),
      ground (arith, n, receive-notice h c e b, same.stopping),
      SameParts-trans same p,
    )
