-- ===== src/AmxxModule/Signatures.antt =====
-- src/sdk/amxxmodule.h: the types of the functions of the AMX Mod X core, the typedefs PFN_..., by the
-- variable that src/sdk/amxxmodule.cpp declares with each. edict_t is void: USE_METAMOD is not defined.
pub mod Calls
pub mod Prototypes
pub mod Validation
use amxx_mqtt_client.Prelude.{Bool, true, false, List, [], ◌∷◌}
use amxx_mqtt_client.AmxxModule.Functions.{Function}

pub data CType : Type 0 where
  int unsigned_int size void bool float real cell char amx native_info : CType
  forward_exec_type lib_type authorize_func : CType
  const pointer : CType → CType

pub record Signature : Type 0 where
  pub result : CType
  pub params : List CType
  pub is_variadic : Bool

abbrev pub plain : CType → List CType → Signature
plain r ps = record { result = r; params = ps; is_variadic = false }

abbrev pub variadic : CType → List CType → Signature
variadic r ps = record { result = r; params = ps; is_variadic = true }

abbrev pub signature : Function → Signature
signature Function.add_natives = plain CType.int (pointer (const CType.native_info) ∷ [])
signature Function.add_new_natives = plain CType.int (pointer (const CType.native_info) ∷ [])
signature Function.build_pathname = variadic (pointer CType.char) (pointer (const CType.char) ∷ [])
signature Function.build_pathname_r =
    variadic (pointer CType.char)
      (pointer CType.char ∷ CType.size ∷ pointer (const CType.char) ∷ [])
signature Function.get_amx_addr = plain (pointer CType.cell) (pointer CType.amx ∷ CType.cell ∷ [])
signature Function.print_srv_console = variadic CType.void (pointer (const CType.char) ∷ [])
signature Function.get_modname = plain (pointer (const CType.char)) []
signature Function.get_amx_script_name = plain (pointer (const CType.char)) (CType.int ∷ [])
signature Function.get_amx_script = plain (pointer CType.amx) (CType.int ∷ [])
signature Function.find_amx_script_by_amx = plain CType.int (pointer (const CType.amx) ∷ [])
signature Function.find_amx_script_by_name = plain CType.int (pointer (const CType.char) ∷ [])
signature Function.set_amx_string =
    plain CType.int (pointer CType.amx ∷ CType.cell ∷ pointer (const CType.char) ∷ CType.int ∷ [])
signature Function.set_amx_string_utf8_char =
    plain CType.int
      (pointer CType.amx ∷ CType.cell ∷ pointer (const CType.char) ∷ CType.size ∷ CType.size ∷ [])
signature Function.get_amx_string =
    plain (pointer CType.char) (pointer CType.amx ∷ CType.cell ∷ CType.int ∷ pointer CType.int ∷ [])
signature Function.get_amx_string_len = plain CType.int (pointer (const CType.cell) ∷ [])
signature Function.format_amx_string =
    plain (pointer CType.char)
      (pointer CType.amx ∷ pointer CType.cell ∷ CType.int ∷ pointer CType.int ∷ [])
signature Function.copy_amx_memory =
    plain CType.void (pointer CType.cell ∷ pointer (const CType.cell) ∷ CType.int ∷ [])
signature Function.log = variadic CType.void (pointer (const CType.char) ∷ [])
signature Function.log_error_func =
    variadic CType.void (pointer CType.amx ∷ CType.int ∷ pointer (const CType.char) ∷ [])
signature Function.raise_amx_error = plain CType.int (pointer CType.amx ∷ CType.int ∷ [])
signature Function.register_forward =
    variadic CType.int (pointer (const CType.char) ∷ CType.forward_exec_type ∷ [])
signature Function.execute_forward = variadic CType.int (CType.int ∷ [])
signature Function.prepare_cell_array =
    plain CType.cell (pointer CType.cell ∷ CType.unsigned_int ∷ [])
signature Function.prepare_char_array =
    plain CType.cell (pointer CType.char ∷ CType.unsigned_int ∷ [])
signature Function.prepare_cell_array_a =
    plain CType.cell (pointer CType.cell ∷ CType.unsigned_int ∷ CType.bool ∷ [])
signature Function.prepare_char_array_a =
    plain CType.cell (pointer CType.char ∷ CType.unsigned_int ∷ CType.bool ∷ [])
signature Function.is_player_valid = plain CType.int (CType.int ∷ [])
signature Function.get_player_name = plain (pointer (const CType.char)) (CType.int ∷ [])
signature Function.get_player_ip = plain (pointer (const CType.char)) (CType.int ∷ [])
signature Function.is_player_ingame = plain CType.int (CType.int ∷ [])
signature Function.is_player_bot = plain CType.int (CType.int ∷ [])
signature Function.is_player_authorized = plain CType.int (CType.int ∷ [])
signature Function.get_player_time = plain CType.float (CType.int ∷ [])
signature Function.get_player_play_time = plain CType.float (CType.int ∷ [])
signature Function.get_player_curweapon = plain CType.int (CType.int ∷ [])
signature Function.get_player_team = plain (pointer (const CType.char)) (CType.int ∷ [])
signature Function.get_player_team_id = plain CType.int (CType.int ∷ [])
signature Function.get_player_deaths = plain CType.int (CType.int ∷ [])
signature Function.get_player_menu = plain CType.int (CType.int ∷ [])
signature Function.get_player_keys = plain CType.int (CType.int ∷ [])
signature Function.is_player_alive = plain CType.int (CType.int ∷ [])
signature Function.get_player_frags = plain CType.int (CType.int ∷ [])
signature Function.is_player_connecting = plain CType.int (CType.int ∷ [])
signature Function.is_player_hltv = plain CType.int (CType.int ∷ [])
signature Function.get_player_armor = plain CType.int (CType.int ∷ [])
signature Function.get_player_health = plain CType.int (CType.int ∷ [])
signature Function.amx_exec =
    plain CType.int (pointer CType.amx ∷ pointer CType.cell ∷ CType.int ∷ [])
signature Function.amx_execv =
    plain CType.int
      (pointer CType.amx ∷ pointer CType.cell ∷ CType.int ∷ CType.int ∷ pointer CType.cell ∷ [])
signature Function.amx_allot =
    plain CType.int
      (pointer CType.amx ∷ CType.int ∷ pointer CType.cell ∷ pointer (pointer CType.cell) ∷ [])
signature Function.amx_find_public =
    plain CType.int (pointer CType.amx ∷ pointer (const CType.char) ∷ pointer CType.int ∷ [])
signature Function.load_amx_script = plain CType.int (
    pointer CType.amx
    ∷ pointer (pointer CType.void)
    ∷ pointer (const CType.char)
    ∷ pointer CType.char
    ∷ CType.int
    ∷ [])
signature Function.unload_amx_script =
    plain CType.int (pointer CType.amx ∷ pointer (pointer CType.void) ∷ [])
signature Function.real_to_cell = plain CType.cell (CType.real ∷ [])
signature Function.cell_to_real = plain CType.real (CType.cell ∷ [])
signature Function.register_sp_forward = variadic CType.int (pointer CType.amx ∷ CType.int ∷ [])
signature Function.register_sp_forward_by_name =
    variadic CType.int (pointer CType.amx ∷ pointer (const CType.char) ∷ [])
signature Function.unregister_sp_forward = plain CType.void (CType.int ∷ [])
signature Function.merge_definition_file = plain CType.void (pointer (const CType.char) ∷ [])
signature Function.amx_find_native =
    plain CType.int (pointer CType.amx ∷ pointer (const CType.char) ∷ pointer CType.int ∷ [])
signature Function.get_player_flags = plain CType.int (CType.int ∷ [])
signature Function.get_player_edict = plain (pointer CType.void) (CType.int ∷ [])
signature Function.format = variadic (pointer (const CType.char)) (pointer (const CType.char) ∷ [])
signature Function.register_function =
    plain CType.void (pointer CType.void ∷ pointer (const CType.char) ∷ [])
signature Function.request_function = plain (pointer CType.void) (pointer (const CType.char) ∷ [])
signature Function.amx_push = plain CType.int (pointer CType.amx ∷ CType.cell ∷ [])
signature Function.set_team_info =
    plain CType.int (CType.int ∷ CType.int ∷ pointer (const CType.char) ∷ [])
signature Function.player_prop_addr = plain (pointer CType.void) (CType.int ∷ CType.int ∷ [])
signature Function.reg_auth_func = plain CType.void (CType.authorize_func ∷ [])
signature Function.unreg_auth_func = plain CType.void (CType.authorize_func ∷ [])
signature Function.find_library = plain CType.int (pointer (const CType.char) ∷ CType.lib_type ∷ [])
signature Function.add_libraries =
    plain CType.size (pointer (const CType.char) ∷ CType.lib_type ∷ pointer CType.void ∷ [])
signature Function.remove_libraries = plain CType.size (pointer CType.void ∷ [])
signature Function.override_natives =
    plain CType.void (pointer CType.native_info ∷ pointer (const CType.char) ∷ [])
signature Function.get_local_info =
    plain (pointer (const CType.char))
      (pointer (const CType.char) ∷ pointer (const CType.char) ∷ [])
signature Function.amx_re_register =
    plain CType.int (pointer CType.amx ∷ pointer CType.native_info ∷ CType.int ∷ [])
signature Function.register_function_ex =
    plain (pointer CType.void) (pointer CType.void ∷ pointer (const CType.char) ∷ [])
signature Function.message_block = plain CType.void (CType.int ∷ CType.int ∷ pointer CType.int ∷ [])
