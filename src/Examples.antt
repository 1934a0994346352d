-- ===== src/Examples.antt =====
-- Concrete states, engines and surroundings on which the theorems are applied: a module with one
-- client, one set of connect options, one event that waits and one handler in flight.
pub mod Clients
pub mod Plugins
pub mod Runs
pub mod Silence
pub mod Exports
pub mod Forwards
pub mod Interleavings
use amxx_mqtt_client.Prelude.{
  ℕ, Bool, true, false, Option, none, some, List, [], ◌∷◌, ◌++◌, ◌==◌, if◌then◌else◌,
}
use amxx_mqtt_client.External.{
  Cell, Text, minus_one, Message, Call, History, Result, returns, NetworkEvent, disconnected,
  action_success, External, ParamType, NativeName,
}
use amxx_mqtt_client.MqttClient.{MqttClient, Notice, on_message}
use amxx_mqtt_client.MqttClientMgr.{MqttClientMgr, Handle, Client}
use amxx_mqtt_client.ConnectOptionMgr.{ConnectOptionMgr, new_option}
use amxx_mqtt_client.CallbackDispatcher.{CallbackEvent, CallbackType, Dispatcher}
use amxx_mqtt_client.World.{World}
use amxx_mqtt_client.RehldsFrameHook.{EngineName, dot_engine_i486, linux, Engine}
use amxx_mqtt_client.ServerFrame.{Surroundings}
use amxx_mqtt_client.System.{Script, native, thread, deliver}

-- A string stands at each address but 0; the function at address 9 does not exist.
abbrev pub strings : Cell → Text
strings a = if a == 0 then [] else a ∷ []

abbrev pub forward_ids : Text → Cell
forward_ids [] = minus_one
forward_ids (a ∷ _) = if a == 9 then minus_one else 77

-- Paho throws nothing, and tells a client that it is disconnected while it is torn down.
abbrev pub working : External
working = record {
  create = λ h b i. returns 7;
  failure = λ h c. none;
  cancelled = λ h p. disconnected 4 ∷ action_success ∷ [];
  forward = λ h name types. forward_ids name;
  amx_string = λ h a. strings a;
  amx_addr = λ h a. a;
}

abbrev pub base : MqttClient Handle
base = record {
  is_connected = true;
  stopping = false;
  connected_handler = some 1;
  message_handler = some 1;
  connection_lost_handler = some 1;
  disconnected_handler = some 1;
  client = 7;
}

abbrev pub client : Client
client = record {
  base = base;
  on_connected_forward_id = 40;
  on_message_forward_id = 41;
  on_connection_lost_forward_id = minus_one;
  on_disconnect_forward_id = 42;
}

abbrev pub mgr : MqttClientMgr
mgr = record { clients = (1, client) ∷ []; next_handle = 2 }

abbrev pub options : ConnectOptionMgr
options = record { options = (5, some new_option) ∷ []; index_used = 5 ∷ [] }

abbrev pub arrived : Message
arrived = record { topic = 3 ∷ []; payload = 4 ∷ [] }

abbrev pub message_event : CallbackEvent
message_event = record {
  type = CallbackType.message;
  handle = 1;
  text = 4 ∷ [];
  reason_code = 0;
  topic = 3 ∷ [];
}

abbrev pub world : World
world = record {
  mgr = mgr;
  options = options;
  dispatcher = record { accepting = true; pending = message_event ∷ [] };
  in_flight = on_message 1 arrived ∷ [];
  frame_registry = none;
  history = [];
}

-- An engine whose second name is the one that is loaded, with the API of the given versions.
abbrev pub engine : Cell → Cell → Engine
engine major minor = record {
  platform = linux;
  dlopen = λ name. elim name [ dot_engine_i486 ↦ some 1 | _ ↦ none ];
  dlsym = λ library. some 2;
  api = λ factory. some 3;
  major_version = λ api. major;
  minor_version = λ api. minor;
  hookchains = λ api. some 4;
  sv_frame = λ hooks. some 5;
}

abbrev pub alone : Surroundings
alone = record { engine_frame = λ w. w; pawn = λ c w. w; meanwhile = λ k w. w }

-- A thread of Paho adds an event in each round.
abbrev pub adding : World → World
adding w = record w {
  dispatcher = record {
    accepting = w.dispatcher.accepting;
    pending = w.dispatcher.pending ++ message_event ∷ [];
  };
}

abbrev pub busy : Surroundings
busy = record { engine_frame = λ w. w; pawn = λ c w. w; meanwhile = λ k w. adding w }

-- In a frame a plugin destroys client 1 from its callback, and handlers in flight are called.
abbrev pub script : Script
script = record {
  frame_actions = [];
  pawn_actions = λ h c. native NativeName.mqtt_destroy (4 ∷ 1 ∷ []) ∷ [];
  thread_actions = λ h k. deliver 0 ∷ [];
}

abbrev pub quiet : Script
quiet = record { frame_actions = []; pawn_actions = λ h c. []; thread_actions = λ h k. [] }
