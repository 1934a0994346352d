-- ===== src/AmxxModule/Requests.antt =====
-- AMXX_Attach of src/sdk/amxxmodule.cpp: the requests that it makes of the core.
pub mod Linking
use Prim.Native.String.{String}
use amxx_mqtt_client.Prelude.{
  ℕ, Bool, true, false, Option, none, some, List, [], ◌∷◌, ◌&&◌, if◌then◌else◌,
}
use amxx_mqtt_client.AmxxModule.Functions.{Function, Pointers, store}

-- AMXX_OK and the others of src/sdk/amxxmodule.h
pub data Status : Type 0 where
  ok wrong_interface invalid_param func_not_present : Status

-- A REQFUNC or REQFUNC_OPT line.
pub record Request : Type 0 where
  pub name : String
  pub function : Function
  pub is_required : Bool

abbrev pub required : String → Function → Request
required name f = record { name = name; function = f; is_required = true }

abbrev pub optional : String → Function → Request
optional name f = record { name = name; function = f; is_required = false }

abbrev pub requests : List Request
requests =
    required "BuildPathname" Function.build_pathname
    ∷ required "BuildPathnameR" Function.build_pathname_r
    ∷ required "PrintSrvConsole" Function.print_srv_console
    ∷ required "GetModname" Function.get_modname
    ∷ required "Log" Function.log
    ∷ required "LogError" Function.log_error_func
    ∷ required "MergeDefinitionFile" Function.merge_definition_file
    ∷ required "Format" Function.format
    ∷ required "RegisterFunction" Function.register_function
    ∷ required "RegisterFunctionEx" Function.register_function_ex
    ∷ required "GetAmxScript" Function.get_amx_script
    ∷ required "FindAmxScriptByAmx" Function.find_amx_script_by_amx
    ∷ required "FindAmxScriptByName" Function.find_amx_script_by_name
    ∷ required "LoadAmxScript" Function.load_amx_script
    ∷ required "UnloadAmxScript" Function.unload_amx_script
    ∷ required "GetAmxScriptName" Function.get_amx_script_name
    ∷ required "SetAmxString" Function.set_amx_string
    ∷ optional "SetAmxStringUTF8CharSafe" Function.set_amx_string_utf8_char
    ∷ required "GetAmxString" Function.get_amx_string
    ∷ required "GetAmxStringLen" Function.get_amx_string_len
    ∷ required "FormatAmxString" Function.format_amx_string
    ∷ required "CopyAmxMemory" Function.copy_amx_memory
    ∷ required "GetAmxAddr" Function.get_amx_addr
    ∷ required "amx_Exec" Function.amx_exec
    ∷ required "amx_Execv" Function.amx_execv
    ∷ required "amx_FindPublic" Function.amx_find_public
    ∷ required "amx_Allot" Function.amx_allot
    ∷ required "amx_FindNative" Function.amx_find_native
    ∷ required "AddNatives" Function.add_natives
    ∷ required "AddNewNatives" Function.add_new_natives
    ∷ required "RaiseAmxError" Function.raise_amx_error
    ∷ required "RegisterForward" Function.register_forward
    ∷ required "RegisterSPForward" Function.register_sp_forward
    ∷ required "RegisterSPForwardByName" Function.register_sp_forward_by_name
    ∷ required "UnregisterSPForward" Function.unregister_sp_forward
    ∷ required "ExecuteForward" Function.execute_forward
    ∷ required "PrepareCellArray" Function.prepare_cell_array
    ∷ required "PrepareCharArray" Function.prepare_char_array
    ∷ required "PrepareCellArrayA" Function.prepare_cell_array_a
    ∷ required "PrepareCharArrayA" Function.prepare_char_array_a
    ∷ required "IsPlayerValid" Function.is_player_valid
    ∷ required "GetPlayerName" Function.get_player_name
    ∷ required "GetPlayerIP" Function.get_player_ip
    ∷ required "IsPlayerInGame" Function.is_player_ingame
    ∷ required "IsPlayerBot" Function.is_player_bot
    ∷ required "IsPlayerAuthorized" Function.is_player_authorized
    ∷ required "GetPlayerTime" Function.get_player_time
    ∷ required "GetPlayerPlayTime" Function.get_player_play_time
    ∷ required "GetPlayerCurweapon" Function.get_player_curweapon
    ∷ required "GetPlayerTeamID" Function.get_player_team_id
    ∷ required "GetPlayerTeam" Function.get_player_team
    ∷ required "GetPlayerDeaths" Function.get_player_deaths
    ∷ required "GetPlayerMenu" Function.get_player_menu
    ∷ required "GetPlayerKeys" Function.get_player_keys
    ∷ required "IsPlayerAlive" Function.is_player_alive
    ∷ required "GetPlayerFrags" Function.get_player_frags
    ∷ required "IsPlayerConnecting" Function.is_player_connecting
    ∷ required "IsPlayerHLTV" Function.is_player_hltv
    ∷ required "GetPlayerArmor" Function.get_player_armor
    ∷ required "GetPlayerHealth" Function.get_player_health
    ∷ required "GetPlayerFlags" Function.get_player_flags
    ∷ required "GetPlayerEdict" Function.get_player_edict
    ∷ required "amx_Push" Function.amx_push
    ∷ required "SetPlayerTeamInfo" Function.set_team_info
    ∷ required "PlayerPropAddr" Function.player_prop_addr
    ∷ required "RegAuthFunc" Function.reg_auth_func
    ∷ required "UnregAuthFunc" Function.unreg_auth_func
    ∷ required "FindLibrary" Function.find_library
    ∷ required "AddLibraries" Function.add_libraries
    ∷ required "RemoveLibraries" Function.remove_libraries
    ∷ required "OverrideNatives" Function.override_natives
    ∷ required "GetLocalInfo" Function.get_local_info
    ∷ required "AmxReregister" Function.amx_re_register
    ∷ required "MessageBlock" Function.message_block
    ∷ required "CellToReal" Function.cell_to_real
    ∷ required "RealToCell" Function.real_to_cell
    ∷ []

-- What reqFnptrFunc answers to a name.
abbrev pub Core : Type 0
Core = String → Option ℕ

abbrev pub is_null : Option ℕ → Bool
is_null none = true
is_null (some _) = false

-- The lines one after the other, with the return of the macro.
unfoldable pub request_all : Core → List Request → Pointers → Status × Pointers
request_all core [] ps = (ok, ps)
request_all core (r ∷ rs) ps =
    let ps' = store ps r.function (core r.name) in
    let rest = request_all core rs ps' in
    if r.is_required && is_null (core r.name) then (func_not_present, ps') else rest
