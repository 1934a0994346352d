-- ===== src/AmxxModule/Logging/Reports.antt =====
-- The texts that src/natives.cpp, src/module.cpp and src/RehldsFrameHook.cpp give to MF_LogError and
-- MF_Log, and what the core is handed.
pub mod Exact
use Prim.Native.String.{String}
use amxx_mqtt_client.Prelude.{ℕ, Option, List, [], ◌∷◌, ◌++◌, codes}
use amxx_mqtt_client.External.{
  Cell, Text, Exception, LogMessage, too_few_arguments, invalid_client_handle,
  invalid_options_handle, invalid_qos, empty_topic, invalid_option_name, missing_callback, what,
  HookError, no_error, no_factory, no_api, no_registry, version_mismatch, LogLine, hook_error,
  attach_banner, detach_banner,
}
use amxx_mqtt_client.Natives.Table.{native_name}
use amxx_mqtt_client.AmxxModule.Errors.{AmxError}
use amxx_mqtt_client.AmxxModule.Logging.{
  FormatArgument, text, number, decimal, Logged, mf_log, mf_log_error,
}

-- The formats that natives give to MF_LogError, each of them the same wherever it stands.
abbrev pub too_few_format : Text
too_few_format = codes "Too few arguments to %s, the inc file incorrect?"

abbrev pub client_handle_format : Text
client_handle_format = codes "Invalid mqtt client handle: %d"

abbrev pub options_handle_format : Text
options_handle_format = codes "Invalid mqtt connect options handle: %d"

abbrev pub topic_format : Text
topic_format = codes "Topic name could not be empty"

abbrev pub qos_format : Text
qos_format = codes "Invalid MQTT QoS: %d (expected 0, 1, or 2)"

abbrev pub callback_format : Text
callback_format = codes "Callback function \"%s\" is not exists"

abbrev pub option_format : Text
option_format = codes "Invalid option name"

-- The text of an exception is itself the format. It is Paho's, and a parameter.
abbrev pub exception_format : (Exception → Text) → Exception → Text
exception_format what_of e = what_of e

-- The format and the other arguments of MF_LogError.
abbrev pub error_format : (Exception → Text) → LogMessage → Text × List FormatArgument
error_format what_of (too_few_arguments n) = (too_few_format, text (codes (native_name n)) ∷ [])
error_format what_of (invalid_client_handle h) = (client_handle_format, number h ∷ [])
error_format what_of (invalid_options_handle h) = (options_handle_format, number h ∷ [])
error_format what_of (invalid_qos q) = (qos_format, number q ∷ [])
error_format what_of empty_topic = (topic_format, [])
error_format what_of invalid_option_name = (option_format, [])
error_format what_of (missing_callback name) = (callback_format, text name ∷ [])
error_format what_of (what e) = (exception_format what_of e, [])

-- MF_LogError(amx, AMX_ERR_NATIVE, ...): the arguments of the core's function after the plugin.
unfoldable pub report : (Exception → Text) → LogMessage → ℕ × Option Logged
unfolding mf_log_error
report what_of m = let (fmt, args) = error_format what_of m in mf_log_error AmxError.native fmt args

-- The error of FindFrameRegistry.
unfoldable pub hook_error_text : HookError → Text
unfolding decimal
hook_error_text no_error = []
hook_error_text no_factory =
    codes "ReHLDS API 3.7+ is required: engine CreateInterface was not found."
hook_error_text no_api =
    codes "ReHLDS API 3.7+ is required: VREHLDS_HLDS_API_VERSION001 is unavailable."
hook_error_text no_registry = codes "ReHLDS API does not provide the SV_Frame hook registry."
hook_error_text (version_mismatch major minor) =
    codes "ReHLDS API version mismatch: need 3.7+, found "
    ++ decimal major
    ++ codes "."
    ++ decimal minor
    ++ codes "."

-- The format and the other arguments of MF_Log.
abbrev pub line_format : LogLine → Text × List FormatArgument
line_format (hook_error e) = (codes "%s", text (hook_error_text e) ∷ [])
line_format attach_banner = (codes "==================OnAmxxAttach==================", [])
line_format detach_banner = (codes "==================OnAmxxDetach==================", [])

unfoldable pub log_line : LogLine → Option Logged
unfolding mf_log
log_line l = let (fmt, args) = line_format l in mf_log fmt args
