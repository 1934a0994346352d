-- ===== src/AmxxModule/Macros.antt =====
-- src/sdk/amxxmodule.h: the pointers that it declares, and the macros by which code of the module calls
-- through them.
use amxx_mqtt_client.Prelude.{Bool, false, List, [], ◌∷◌, ◌||◌}
use amxx_mqtt_client.AmxxModule.Functions.{Function, is_function}

-- The `extern` declarations, in their order.
abbrev pub externs : List Function
externs =
    Function.add_natives ∷ Function.add_new_natives ∷ Function.build_pathname
    ∷ Function.build_pathname_r ∷ Function.get_amx_addr ∷ Function.print_srv_console
    ∷ Function.get_modname ∷ Function.get_amx_script_name ∷ Function.get_amx_script
    ∷ Function.find_amx_script_by_amx ∷ Function.find_amx_script_by_name ∷ Function.set_amx_string
    ∷ Function.set_amx_string_utf8_char ∷ Function.get_amx_string ∷ Function.get_amx_string_len
    ∷ Function.format_amx_string ∷ Function.copy_amx_memory ∷ Function.log ∷ Function.log_error_func
    ∷ Function.raise_amx_error ∷ Function.register_forward ∷ Function.execute_forward
    ∷ Function.prepare_cell_array ∷ Function.prepare_char_array ∷ Function.prepare_cell_array_a
    ∷ Function.prepare_char_array_a ∷ Function.is_player_valid ∷ Function.get_player_name
    ∷ Function.get_player_ip ∷ Function.is_player_ingame ∷ Function.is_player_bot
    ∷ Function.is_player_authorized ∷ Function.get_player_time ∷ Function.get_player_play_time
    ∷ Function.get_player_curweapon ∷ Function.get_player_team_id ∷ Function.get_player_deaths
    ∷ Function.get_player_menu ∷ Function.get_player_keys ∷ Function.is_player_alive
    ∷ Function.get_player_frags ∷ Function.is_player_connecting ∷ Function.is_player_hltv
    ∷ Function.get_player_armor ∷ Function.get_player_health ∷ Function.amx_exec
    ∷ Function.amx_allot ∷ Function.amx_find_public ∷ Function.load_amx_script
    ∷ Function.unload_amx_script ∷ Function.real_to_cell ∷ Function.cell_to_real
    ∷ Function.register_sp_forward ∷ Function.register_sp_forward_by_name
    ∷ Function.unregister_sp_forward ∷ Function.merge_definition_file ∷ Function.amx_find_native
    ∷ Function.get_player_flags ∷ Function.get_player_edict ∷ Function.format
    ∷ Function.get_player_team ∷ Function.register_function ∷ Function.request_function
    ∷ Function.amx_push ∷ Function.set_team_info ∷ Function.player_prop_addr
    ∷ Function.reg_auth_func ∷ Function.unreg_auth_func ∷ Function.find_library
    ∷ Function.add_libraries ∷ Function.remove_libraries ∷ Function.override_natives
    ∷ Function.get_local_info ∷ Function.amx_re_register ∷ Function.register_function_ex
    ∷ Function.message_block ∷ []

abbrev pub is_declared : Function → List Function → Bool
is_declared f [] = false
is_declared f (g ∷ gs) = is_function f g || is_declared f gs

pub data Macro : Type 0 where
  add_natives add_new_natives build_pathname build_pathname_r format_amx_string : Macro
  get_amx_addr print_srv_console get_modname get_script_name get_script_amx : Macro
  find_script_by_amx find_script_by_name set_amx_string set_amx_string_utf8_char : Macro
  get_amx_string get_amx_string_len copy_amx_memory raise_amx_error : Macro
  register_forward execute_forward prepare_cell_array prepare_char_array : Macro
  prepare_cell_array_a prepare_char_array_a is_player_valid get_player_name : Macro
  get_player_ip is_player_ingame is_player_bot is_player_authorized : Macro
  get_player_time get_player_play_time get_player_curweapon get_player_team : Macro
  get_player_team_id get_player_deaths get_player_menu get_player_keys : Macro
  is_player_alive get_player_frags is_player_connecting is_player_hltv : Macro
  get_player_armor get_player_health amx_exec amx_execv amx_find_public amx_allot : Macro
  amx_find_native load_amx_script unload_amx_script merge_definition_file amx_ctof : Macro
  amx_ftoc register_sp_forward_by_name register_sp_forward unregister_sp_forward : Macro
  get_player_flags get_player_edict format register_function request_function : Macro
  amx_push set_player_team_info player_prop_addr reg_auth_func unreg_auth_func : Macro
  find_library add_libraries remove_libraries override_natives get_local_info : Macro
  amx_re_register register_function_ex message_block : Macro

-- What a macro stands for.
abbrev pub target : Macro → Function
target add_natives = Function.add_natives
target add_new_natives = Function.add_new_natives
target build_pathname = Function.build_pathname
target build_pathname_r = Function.build_pathname_r
target format_amx_string = Function.format_amx_string
target get_amx_addr = Function.get_amx_addr
target print_srv_console = Function.print_srv_console
target get_modname = Function.get_modname
target get_script_name = Function.get_amx_script_name
target get_script_amx = Function.get_amx_script
target find_script_by_amx = Function.find_amx_script_by_amx
target find_script_by_name = Function.find_amx_script_by_name
target set_amx_string = Function.set_amx_string
target set_amx_string_utf8_char = Function.set_amx_string_utf8_char
target get_amx_string = Function.get_amx_string
target get_amx_string_len = Function.get_amx_string_len
target copy_amx_memory = Function.copy_amx_memory
target raise_amx_error = Function.raise_amx_error
target register_forward = Function.register_forward
target execute_forward = Function.execute_forward
target prepare_cell_array = Function.prepare_cell_array
target prepare_char_array = Function.prepare_char_array
target prepare_cell_array_a = Function.prepare_cell_array_a
target prepare_char_array_a = Function.prepare_char_array_a
target is_player_valid = Function.is_player_valid
target get_player_name = Function.get_player_name
target get_player_ip = Function.get_player_ip
target is_player_ingame = Function.is_player_ingame
target is_player_bot = Function.is_player_bot
target is_player_authorized = Function.is_player_authorized
target get_player_time = Function.get_player_time
target get_player_play_time = Function.get_player_play_time
target get_player_curweapon = Function.get_player_curweapon
target get_player_team = Function.get_player_team
target get_player_team_id = Function.get_player_team_id
target get_player_deaths = Function.get_player_deaths
target get_player_menu = Function.get_player_menu
target get_player_keys = Function.get_player_keys
target is_player_alive = Function.is_player_alive
target get_player_frags = Function.get_player_frags
target is_player_connecting = Function.is_player_connecting
target is_player_hltv = Function.is_player_hltv
target get_player_armor = Function.get_player_armor
target get_player_health = Function.get_player_health
target amx_exec = Function.amx_exec
target amx_execv = Function.amx_execv
target amx_find_public = Function.amx_find_public
target amx_allot = Function.amx_allot
target amx_find_native = Function.amx_find_native
target load_amx_script = Function.load_amx_script
target unload_amx_script = Function.unload_amx_script
target merge_definition_file = Function.merge_definition_file
target amx_ctof = Function.cell_to_real
target amx_ftoc = Function.real_to_cell
target register_sp_forward_by_name = Function.register_sp_forward_by_name
target register_sp_forward = Function.register_sp_forward
target unregister_sp_forward = Function.unregister_sp_forward
target get_player_flags = Function.get_player_flags
target get_player_edict = Function.get_player_edict
target format = Function.format
target register_function = Function.register_function
target request_function = Function.request_function
target amx_push = Function.amx_push
target set_player_team_info = Function.set_team_info
target player_prop_addr = Function.player_prop_addr
target reg_auth_func = Function.reg_auth_func
target unreg_auth_func = Function.unreg_auth_func
target find_library = Function.find_library
target add_libraries = Function.add_libraries
target remove_libraries = Function.remove_libraries
target override_natives = Function.override_natives
target get_local_info = Function.get_local_info
target amx_re_register = Function.amx_re_register
target register_function_ex = Function.register_function_ex
target message_block = Function.message_block
