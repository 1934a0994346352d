-- ===== src/CallbackDispatcher.antt =====
-- src/CallbackDispatcher.h and the queue of src/CallbackDispatcher.cpp: events wait, in order, for the
-- next server frame. Each function holds callbackMutex once, and is one step here.
pub mod Queue
use amxx_mqtt_client.Prelude.{
  ℕ, Bool, true, false, Option, none, some, List, [], ◌∷◌, ◌++◌, if◌then◌else◌, ◌==◌, not,
}
use amxx_mqtt_client.External.{
  Cell, Text, Message, minus_one, Call, execute_forward, Argument, cell, string,
}
use amxx_mqtt_client.MqttClient.{
  Notice, on_connected, on_message, on_connection_lost, on_disconnected, normal_disconnection,
}
use amxx_mqtt_client.AmxxMqttClient
use amxx_mqtt_client.MqttClientMgr.{Handle, Client}

pub data CallbackType : Type 0 where
  connected message connection_lost disconnected : CallbackType

pub record CallbackEvent : Type 0 where
  pub type : CallbackType
  pub handle : Handle
  pub text : Text
  pub reason_code : ℕ
  pub topic : Text

pub record Dispatcher : Type 0 where
  pub accepting : Bool
  pub pending : List CallbackEvent

abbrev pub idle : Dispatcher
idle = record { accepting = false; pending = [] }

abbrev pub max_callbacks_per_frame : ℕ
max_callbacks_per_frame = 256

unfoldable pub enqueue : CallbackEvent → Dispatcher → Dispatcher
enqueue event d = if d.accepting then record d { pending = d.pending ++ event ∷ [] } else d

unfoldable pub connected_callback : Handle → Dispatcher → Dispatcher
unfolding enqueue
connected_callback handle = enqueue (record {
  type = connected;
  handle = handle;
  text = [];
  reason_code = normal_disconnection;
  topic = [];
})

unfoldable pub message_callback : Handle → Message → Dispatcher → Dispatcher
unfolding enqueue
message_callback handle msg = enqueue (record {
  type = message;
  handle = handle;
  text = msg.payload;
  reason_code = normal_disconnection;
  topic = msg.topic;
})

unfoldable pub connection_lost_callback : Handle → Text → Dispatcher → Dispatcher
unfolding enqueue
connection_lost_callback handle reason = enqueue (record {
  type = connection_lost;
  handle = handle;
  text = reason;
  reason_code = normal_disconnection;
  topic = [];
})

unfoldable pub disconnected_callback : Handle → ℕ → Dispatcher → Dispatcher
unfolding enqueue
disconnected_callback handle reason_code = enqueue (record {
  type = disconnected;
  handle = handle;
  text = [];
  reason_code = reason_code;
  topic = [];
})

-- The call of a handler that MqttClientMgr::make has bound to a handle.
unfoldable pub dispatch : Notice Handle → Dispatcher → Dispatcher
unfolding connected_callback message_callback connection_lost_callback disconnected_callback
dispatch (on_connected handle msg) = connected_callback handle
dispatch (on_message handle msg) = message_callback handle msg
dispatch (on_connection_lost handle reason) = connection_lost_callback handle reason
dispatch (on_disconnected handle code) = disconnected_callback handle code

unfoldable pub dispatch_all : List (Notice Handle) → Dispatcher → Dispatcher
unfolding dispatch
dispatch_all [] d = d
dispatch_all (n ∷ ns) d = dispatch_all ns (dispatch n d)

unfoldable pub start : Dispatcher → Dispatcher
start d = record d { accepting = true }

unfoldable pub stop : Dispatcher → Dispatcher
stop d = record { accepting = false; pending = [] }

unfoldable pub pop_list : Bool → List CallbackEvent → Option (CallbackEvent × Dispatcher)
pop_list accepting [] = none
pop_list accepting (event ∷ rest) =
    if accepting then some (event, record { accepting = accepting; pending = rest }) else none

-- The critical section of a round of the loop: `none` is its return.
unfoldable pub pop : Dispatcher → Option (CallbackEvent × Dispatcher)
unfolding pop_list
pop d = pop_list d.accepting d.pending

-- The forward that an event goes to, and its arguments after the handle.
unfoldable pub forward_of : Client → CallbackType → Cell
forward_of c connected = AmxxMqttClient.get_on_connected_forward_id c
forward_of c message = AmxxMqttClient.get_on_message_forward_id c
forward_of c connection_lost = AmxxMqttClient.get_on_connection_lost_forward_id c
forward_of c disconnected = AmxxMqttClient.get_disconnect_forward_id c

unfoldable pub arguments_of : CallbackType → CallbackEvent → List Argument
arguments_of connected e = []
arguments_of message e = string e.topic ∷ string e.text ∷ []
arguments_of connection_lost e = string e.text ∷ []
arguments_of disconnected e = cell e.reason_code ∷ []

-- The switch of ExecuteCallback.
unfoldable pub forward_call : Client → CallbackEvent → Option Call
unfolding forward_of arguments_of
forward_call c event =
    let id = forward_of c event.type in
    if not (id == minus_one)
    then some (execute_forward id (cell event.handle ∷ arguments_of event.type event))
    else none
