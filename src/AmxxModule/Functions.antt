-- ===== src/AmxxModule/Functions.antt =====
-- src/sdk/amxxmodule.cpp: the functions of the AMX Mod X core that the module asks for, in the order in
-- which their pointers g_fn_... stand there.
use amxx_mqtt_client.Prelude.{ℕ, Bool, Option, none, ◌==◌, if◌then◌else◌}

pub data Function : Type 0 where
  add_natives add_new_natives build_pathname build_pathname_r get_amx_addr : Function
  print_srv_console get_modname get_amx_script_name get_amx_script : Function
  find_amx_script_by_amx find_amx_script_by_name set_amx_string : Function
  set_amx_string_utf8_char get_amx_string get_amx_string_len format_amx_string : Function
  copy_amx_memory log log_error_func raise_amx_error register_forward : Function
  execute_forward prepare_cell_array prepare_char_array prepare_cell_array_a : Function
  prepare_char_array_a is_player_valid get_player_name get_player_ip : Function
  is_player_ingame is_player_bot is_player_authorized get_player_time : Function
  get_player_play_time get_player_curweapon get_player_team get_player_team_id : Function
  get_player_deaths get_player_menu get_player_keys is_player_alive : Function
  get_player_frags is_player_connecting is_player_hltv get_player_armor : Function
  get_player_health amx_exec amx_execv amx_allot amx_find_public load_amx_script : Function
  unload_amx_script real_to_cell cell_to_real register_sp_forward : Function
  register_sp_forward_by_name unregister_sp_forward merge_definition_file : Function
  amx_find_native get_player_flags get_player_edict format register_function : Function
  request_function amx_push set_team_info player_prop_addr reg_auth_func : Function
  unreg_auth_func find_library add_libraries remove_libraries override_natives : Function
  get_local_info amx_re_register register_function_ex message_block : Function

-- Which variable it is.
abbrev pub index_of : Function → ℕ
index_of add_natives = 0
index_of add_new_natives = 1
index_of build_pathname = 2
index_of build_pathname_r = 3
index_of get_amx_addr = 4
index_of print_srv_console = 5
index_of get_modname = 6
index_of get_amx_script_name = 7
index_of get_amx_script = 8
index_of find_amx_script_by_amx = 9
index_of find_amx_script_by_name = 10
index_of set_amx_string = 11
index_of set_amx_string_utf8_char = 12
index_of get_amx_string = 13
index_of get_amx_string_len = 14
index_of format_amx_string = 15
index_of copy_amx_memory = 16
index_of log = 17
index_of log_error_func = 18
index_of raise_amx_error = 19
index_of register_forward = 20
index_of execute_forward = 21
index_of prepare_cell_array = 22
index_of prepare_char_array = 23
index_of prepare_cell_array_a = 24
index_of prepare_char_array_a = 25
index_of is_player_valid = 26
index_of get_player_name = 27
index_of get_player_ip = 28
index_of is_player_ingame = 29
index_of is_player_bot = 30
index_of is_player_authorized = 31
index_of get_player_time = 32
index_of get_player_play_time = 33
index_of get_player_curweapon = 34
index_of get_player_team = 35
index_of get_player_team_id = 36
index_of get_player_deaths = 37
index_of get_player_menu = 38
index_of get_player_keys = 39
index_of is_player_alive = 40
index_of get_player_frags = 41
index_of is_player_connecting = 42
index_of is_player_hltv = 43
index_of get_player_armor = 44
index_of get_player_health = 45
index_of amx_exec = 46
index_of amx_execv = 47
index_of amx_allot = 48
index_of amx_find_public = 49
index_of load_amx_script = 50
index_of unload_amx_script = 51
index_of real_to_cell = 52
index_of cell_to_real = 53
index_of register_sp_forward = 54
index_of register_sp_forward_by_name = 55
index_of unregister_sp_forward = 56
index_of merge_definition_file = 57
index_of amx_find_native = 58
index_of get_player_flags = 59
index_of get_player_edict = 60
index_of format = 61
index_of register_function = 62
index_of request_function = 63
index_of amx_push = 64
index_of set_team_info = 65
index_of player_prop_addr = 66
index_of reg_auth_func = 67
index_of unreg_auth_func = 68
index_of find_library = 69
index_of add_libraries = 70
index_of remove_libraries = 71
index_of override_natives = 72
index_of get_local_info = 73
index_of amx_re_register = 74
index_of register_function_ex = 75
index_of message_block = 76

-- The variables: `none` is a null pointer.
abbrev pub Pointers : Type 0
Pointers = Function → Option ℕ

-- Before AMXX_Attach, as the loader leaves them.
abbrev pub unset : Pointers
unset f = none

abbrev pub is_function : Function → Function → Bool
is_function f g = index_of f == index_of g

-- g_fn_... = v
abbrev pub store : Pointers → Function → Option ℕ → Pointers
store ps f v = λ g. if is_function f g then v else ps g
