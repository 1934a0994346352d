-- ===== src/External.antt =====
-- The code around the module that is not in this repository: the Paho client library, the AMX Mod X
-- core and the ReHLDS engine. A call that the module makes of it is a value of `Call`, the calls made
-- so far are the `History`, newest first, and what such a call answers is a parameter of the model, a
-- function of the history, so that the environment may answer each call as it likes.
use amxx_mqtt_client.Prelude.{ℕ, Bool, Option, List, ◌∷◌}

-- `cell` and `int` are 32-bit patterns: -1 is 4294967295.
abbrev pub Cell : Type 0
Cell = ℕ

abbrev pub minus_one : Cell
minus_one = 4294967295

-- `std::string` and `const char *`, as bytes.
abbrev pub Text : Type 0
Text = List ℕ

-- g_natives of src/natives.cpp, in its order.
pub data NativeName : Type 0 where
  mqtt_create mqtt_destroy mqtt_connect mqtt_disconnect mqtt_is_connect : NativeName
  mqtt_subscribe mqtt_unsubscribe mqtt_publish : NativeName
  mqtt_set_connected_callback mqtt_set_message_callback : NativeName
  mqtt_set_connection_lost_callback mqtt_set_disconnected_callback : NativeName
  mqtt_create_connect_options mqtt_set_options : NativeName

-- What is thrown as an `mqtt::exception`: by Paho with its text, or by the two managers.
pub data Exception : Type 0 where
  paho : Text → Exception
  too_many_clients handles_exhausted no_index : Exception

pub data Result {ℓ} (A : Type ℓ) : Type ℓ where
  returns : A → Result A
  throws : Exception → Result A

-- The texts of MF_LogError in src/natives.cpp, with their arguments.
pub data LogMessage : Type 0 where
  too_few_arguments : NativeName → LogMessage
  invalid_client_handle invalid_options_handle invalid_qos : Cell → LogMessage
  empty_topic invalid_option_name : LogMessage
  missing_callback : Text → LogMessage
  what : Exception → LogMessage

-- mqtt::message, by the members that src/CallbackDispatcher.cpp reads.
pub record Message : Type 0 where
  pub topic : Text
  pub payload : Text

-- The calls made on an mqtt::properties and on an mqtt::connect_options, which stand for the object.
pub data PropertyCall : Type 0 where
  clear : PropertyCall
  add_session_expiry : Cell → PropertyCall

pub data OptionCall : Type 0 where
  set_user_name set_password : Text → OptionCall
  set_clean_start : Bool → OptionCall
  set_keep_alive : ℕ → OptionCall
  set_properties : List PropertyCall → OptionCall

-- The errors that src/RehldsFrameHook.cpp reports.
pub data HookError : Type 0 where
  no_error no_factory no_api no_registry : HookError
  version_mismatch : Cell → Cell → HookError

-- What src/module.cpp gives to MF_Log.
pub data LogLine : Type 0 where
  hook_error : HookError → LogLine
  attach_banner detach_banner : LogLine

-- ForwardParam of src/sdk/amxxmodule.h, less FP_DONE, which ends the list in the source.
pub data ParamType : Type 0 where
  fp_cell fp_float fp_string fp_string_ex fp_array : ParamType

-- The arguments of MF_ExecuteForward.
pub data Argument : Type 0 where
  cell : Cell → Argument
  string : Text → Argument

-- The first argument of a Paho call is the `async_client` that it is made on.
pub data Call : Type 0 where
  new_client : Text → Text → Call
  connect : ℕ → List OptionCall → Call
  disconnect : ℕ → Call
  subscribe : ℕ → Text → Cell → Call
  unsubscribe : ℕ → Text → Call
  publish : ℕ → Message → Cell → Bool → Call
  delete_client : ℕ → Call
  register_forward : Text → List ParamType → Call
  unregister_forward : Cell → Call
  execute_forward : Cell → List Argument → Call
  log_error : LogMessage → Call
  log : LogLine → Call
  print_stderr : HookError → Call
  add_natives : Call
  register_hook unregister_hook : ℕ → Call
  call_next : Call

abbrev pub History : Type 0
History = List Call

-- What Paho's threads tell a client.
pub data NetworkEvent : Type 0 where
  connected : Text → NetworkEvent
  message_arrived : Message → NetworkEvent
  connection_lost : Text → NetworkEvent
  disconnected : ℕ → NetworkEvent
  action_success action_failure : NetworkEvent

pub record External : Type 0 where
  -- std::make_unique<mqtt::async_client>(blocker, client): a client, or an exception's text.
  pub create : History → Text → Text → Result ℕ
  -- The exception of another Paho call, if it throws one.
  pub failure : History → Call → Option Text
  -- What Paho still delivers to a client until MQTTAsync_destroy returns.
  pub cancelled : History → ℕ → List NetworkEvent
  -- MF_RegisterSPForwardByName.
  pub forward : History → Text → List ParamType → Cell
  -- MF_GetAmxString and MF_GetAmxAddr, by the address in the plugin's memory.
  pub amx_string : History → Cell → Text
  pub amx_addr : History → Cell → Cell

-- A Paho call that may throw.
unfoldable pub attempt : External → Call → History → Option Text × History
attempt ext c h = (ext.failure h c, c ∷ h)
