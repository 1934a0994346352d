-- ===== src/AmxxModule/Signatures/Validation.antt =====
-- ValidateMacros_DontCallThis_Smiley of src/sdk/amxxmodule.cpp, in builds with _DEBUG: a call of most
-- MF_ macros, for the compiler to look at.
use amxx_mqtt_client.Prelude.{◌≡◌, refl, Bool, true, false, ◌&&◌, List, [], ◌∷◌, if◌then◌else◌}
use amxx_mqtt_client.AmxxModule.Macros.{Macro}
use amxx_mqtt_client.AmxxModule.Signatures.{CType, const, pointer}
use amxx_mqtt_client.AmxxModule.Signatures.Prototypes.{Callee, of, mf_log, mf_log_error, type_of}

-- NULL, 0, another number, a text, true, and the two constants of an enumeration.
pub data Literal : Type 0 where
  null zero_literal other_literal string_literal bool_literal forward_exec lib_class : Literal

pub record Validation : Type 0 where
  pub callee : Callee
  pub literals : List Literal

abbrev validation : Callee → List Literal → Validation
validation f ls = record { callee = f; literals = ls }

-- In their order.
abbrev validate_macros : List Validation
validate_macros =
    validation (of Macro.build_pathname) (string_literal ∷ string_literal ∷ zero_literal ∷ [])
    ∷ validation (of Macro.build_pathname_r)
        (null ∷ zero_literal ∷ string_literal ∷ zero_literal ∷ [])
    ∷ validation (of Macro.format_amx_string) (null ∷ zero_literal ∷ zero_literal ∷ null ∷ [])
    ∷ validation (of Macro.get_amx_addr) (null ∷ zero_literal ∷ [])
    ∷ validation (of Macro.print_srv_console) (string_literal ∷ string_literal ∷ zero_literal ∷ [])
    ∷ validation (of Macro.get_modname) []
    ∷ validation (of Macro.get_script_name) (zero_literal ∷ [])
    ∷ validation (of Macro.get_script_amx) (zero_literal ∷ [])
    ∷ validation (of Macro.find_script_by_amx) (null ∷ [])
    ∷ validation (of Macro.find_script_by_name) (string_literal ∷ [])
    ∷ validation (of Macro.set_amx_string)
        (null ∷ zero_literal ∷ string_literal ∷ zero_literal ∷ [])
    ∷ validation (of Macro.set_amx_string_utf8_char)
        (null ∷ zero_literal ∷ string_literal ∷ zero_literal ∷ zero_literal ∷ [])
    ∷ validation (of Macro.get_amx_string) (null ∷ zero_literal ∷ zero_literal ∷ zero_literal ∷ [])
    ∷ validation (of Macro.get_amx_string_len) (null ∷ [])
    ∷ validation (of Macro.copy_amx_memory) (null ∷ null ∷ zero_literal ∷ [])
    ∷ validation mf_log (string_literal ∷ string_literal ∷ zero_literal ∷ [])
    ∷ validation mf_log_error (null ∷ zero_literal ∷ null ∷ [])
    ∷ validation (of Macro.raise_amx_error) (null ∷ zero_literal ∷ [])
    ∷ validation (of Macro.register_forward)
        (string_literal ∷ forward_exec ∷ zero_literal ∷ zero_literal ∷ zero_literal ∷ [])
    ∷ validation (of Macro.execute_forward) (zero_literal ∷ zero_literal ∷ zero_literal ∷ [])
    ∷ validation (of Macro.prepare_cell_array) (null ∷ zero_literal ∷ [])
    ∷ validation (of Macro.prepare_char_array) (null ∷ zero_literal ∷ [])
    ∷ validation (of Macro.prepare_cell_array_a) (null ∷ zero_literal ∷ bool_literal ∷ [])
    ∷ validation (of Macro.prepare_char_array_a) (null ∷ zero_literal ∷ bool_literal ∷ [])
    ∷ validation (of Macro.is_player_valid) (zero_literal ∷ [])
    ∷ validation (of Macro.get_player_name) (zero_literal ∷ [])
    ∷ validation (of Macro.get_player_ip) (zero_literal ∷ [])
    ∷ validation (of Macro.is_player_ingame) (zero_literal ∷ [])
    ∷ validation (of Macro.is_player_bot) (zero_literal ∷ [])
    ∷ validation (of Macro.is_player_authorized) (zero_literal ∷ [])
    ∷ validation (of Macro.get_player_time) (zero_literal ∷ [])
    ∷ validation (of Macro.get_player_play_time) (zero_literal ∷ [])
    ∷ validation (of Macro.get_player_curweapon) (zero_literal ∷ [])
    ∷ validation (of Macro.get_player_team_id) (zero_literal ∷ [])
    ∷ validation (of Macro.get_player_team) (zero_literal ∷ [])
    ∷ validation (of Macro.get_player_deaths) (zero_literal ∷ [])
    ∷ validation (of Macro.get_player_menu) (zero_literal ∷ [])
    ∷ validation (of Macro.get_player_keys) (zero_literal ∷ [])
    ∷ validation (of Macro.is_player_alive) (zero_literal ∷ [])
    ∷ validation (of Macro.get_player_frags) (zero_literal ∷ [])
    ∷ validation (of Macro.is_player_connecting) (zero_literal ∷ [])
    ∷ validation (of Macro.is_player_hltv) (zero_literal ∷ [])
    ∷ validation (of Macro.get_player_armor) (zero_literal ∷ [])
    ∷ validation (of Macro.get_player_health) (zero_literal ∷ [])
    ∷ validation (of Macro.amx_exec) (zero_literal ∷ zero_literal ∷ zero_literal ∷ [])
    ∷ validation (of Macro.amx_execv)
        (zero_literal ∷ zero_literal ∷ zero_literal ∷ zero_literal ∷ zero_literal ∷ [])
    ∷ validation (of Macro.amx_find_public) (zero_literal ∷ zero_literal ∷ zero_literal ∷ [])
    ∷ validation (of Macro.amx_allot)
        (zero_literal ∷ zero_literal ∷ zero_literal ∷ zero_literal ∷ [])
    ∷ validation (of Macro.load_amx_script)
        (zero_literal ∷ zero_literal ∷ zero_literal ∷ zero_literal ∷ zero_literal ∷ [])
    ∷ validation (of Macro.unload_amx_script) (zero_literal ∷ zero_literal ∷ [])
    ∷ validation (of Macro.register_sp_forward) (
        zero_literal ∷ zero_literal ∷ zero_literal ∷ zero_literal ∷ zero_literal ∷ zero_literal
        ∷ [])
    ∷ validation (of Macro.register_sp_forward_by_name) (
        zero_literal ∷ zero_literal ∷ zero_literal ∷ zero_literal ∷ zero_literal ∷ zero_literal
        ∷ [])
    ∷ validation (of Macro.unregister_sp_forward) (zero_literal ∷ [])
    ∷ validation (of Macro.get_player_frags) (zero_literal ∷ [])
    ∷ validation (of Macro.get_player_edict) (zero_literal ∷ [])
    ∷ validation (of Macro.format) (string_literal ∷ other_literal ∷ string_literal ∷ [])
    ∷ validation (of Macro.register_function) (null ∷ string_literal ∷ [])
    ∷ validation (of Macro.register_function_ex) (null ∷ string_literal ∷ [])
    ∷ validation (of Macro.set_player_team_info) (zero_literal ∷ zero_literal ∷ string_literal ∷ [])
    ∷ validation (of Macro.player_prop_addr) (zero_literal ∷ zero_literal ∷ [])
    ∷ validation (of Macro.reg_auth_func) (null ∷ [])
    ∷ validation (of Macro.unreg_auth_func) (null ∷ [])
    ∷ validation (of Macro.find_library) (null ∷ lib_class ∷ [])
    ∷ validation (of Macro.add_libraries) (null ∷ lib_class ∷ null ∷ [])
    ∷ validation (of Macro.remove_libraries) (null ∷ [])
    ∷ validation (of Macro.override_natives) (null ∷ null ∷ [])
    ∷ validation (of Macro.message_block) (zero_literal ∷ zero_literal ∷ null ∷ [])
    ∷ []

-- Whether C++ converts a literal to a type: NULL and 0 to each pointer, the numbers to each number, but
-- none to an enumeration.
abbrev converts : Literal → CType → Bool
converts null (pointer _) = true
converts null CType.authorize_func = true
converts zero_literal (pointer _) = true
converts zero_literal CType.authorize_func = true
converts zero_literal CType.int = true
converts zero_literal CType.unsigned_int = true
converts zero_literal CType.size = true
converts zero_literal CType.float = true
converts zero_literal CType.real = true
converts zero_literal CType.cell = true
converts other_literal CType.int = true
converts other_literal CType.cell = true
converts string_literal (pointer (const CType.char)) = true
converts bool_literal CType.bool = true
converts forward_exec CType.forward_exec_type = true
converts lib_class CType.lib_type = true
converts _ _ = false

-- What follows the parameters of a variadic function is passed as it is.
abbrev is_accepted : Bool → List CType → List Literal → Bool
is_accepted v [] [] = true
is_accepted v [] (l ∷ ls) = v
is_accepted v (p ∷ ps) [] = false
is_accepted v (p ∷ ps) (l ∷ ls) = converts l p && is_accepted v ps ls

abbrev compiles : Validation → Bool
compiles c = is_accepted (type_of c.callee).is_variadic (type_of c.callee).params c.literals

abbrev rejected : List Validation → List Callee
rejected [] = []
rejected (c ∷ cs) = let rest = rejected cs in if compiles c then rest else c.callee ∷ rest

-- No call is rejected: each gives what it calls as many arguments as its type has parameters, or more if
-- it is variadic, and each argument converts to the type of its parameter.
pub validate_macros_compile : rejected validate_macros ≡ []
validate_macros_compile = refl
