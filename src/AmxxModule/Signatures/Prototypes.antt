-- ===== src/AmxxModule/Signatures/Prototypes.antt =====
-- src/sdk/amxxmodule.h: the prototypes of the MF_ macros that it gives to editors, under
-- MAY_NEVER_BE_DEFINED, and the two functions MF_Log and MF_LogError that stand among the macros.
use amxx_mqtt_client.Prelude.{◌≡◌, refl, List, [], ◌∷◌}
use mathlib.Core.Logic.{ite}
use amxx_mqtt_client.AmxxModule.Macros.{Macro, target}
use amxx_mqtt_client.AmxxModule.Signatures.{
  CType, const, pointer, Signature, plain, variadic, signature,
}

-- What code of the module calls by an MF_ name.
pub data Callee : Type 0 where
  of : Macro → Callee
  mf_log mf_log_error : Callee

-- The type that the compiler gives it.
abbrev pub type_of : Callee → Signature
type_of (of m) = signature (target m)
type_of mf_log = variadic CType.void (pointer (const CType.char) ∷ [])
type_of mf_log_error =
    variadic CType.void (pointer CType.amx ∷ CType.int ∷ pointer (const CType.char) ∷ [])

pub record Prototype : Type 0 where
  pub callee : Callee
  pub type : Signature

abbrev prototype : Callee → Signature → Prototype
prototype f s = record { callee = f; type = s }

-- In their order. MF_FindScriptByAmx stands there twice, and MF_FindScriptByName is missing.
abbrev pub prototypes : List Prototype
prototypes =
    prototype (of Macro.add_natives) (plain CType.int (pointer (const CType.native_info) ∷ []))
    ∷ prototype (of Macro.add_new_natives)
        (plain CType.int (pointer (const CType.native_info) ∷ []))
    ∷ prototype (of Macro.build_pathname)
        (variadic (pointer CType.char) (pointer (const CType.char) ∷ []))
    ∷ prototype (of Macro.build_pathname_r) (
        variadic (pointer CType.char)
          (pointer CType.char ∷ CType.size ∷ pointer (const CType.char) ∷ []))
    ∷ prototype (of Macro.get_amx_addr)
        (plain (pointer CType.cell) (pointer CType.amx ∷ CType.cell ∷ []))
    ∷ prototype (of Macro.print_srv_console) (variadic CType.void (pointer CType.char ∷ []))
    ∷ prototype (of Macro.get_modname) (plain (pointer (const CType.char)) [])
    ∷ prototype (of Macro.get_script_name) (plain (pointer (const CType.char)) (CType.int ∷ []))
    ∷ prototype (of Macro.get_script_amx) (plain (pointer CType.amx) (CType.int ∷ []))
    ∷ prototype (of Macro.find_script_by_amx) (plain CType.int (pointer (const CType.amx) ∷ []))
    ∷ prototype (of Macro.find_script_by_amx) (plain CType.int (pointer (const CType.char) ∷ []))
    ∷ prototype (of Macro.set_amx_string) (
        plain CType.int
          (pointer CType.amx ∷ CType.cell ∷ pointer (const CType.char) ∷ CType.int ∷ []))
    ∷ prototype (of Macro.set_amx_string_utf8_char) (
        plain CType.int (
          pointer CType.amx
          ∷ CType.cell
          ∷ pointer (const CType.char)
          ∷ CType.size
          ∷ CType.size
          ∷ []))
    ∷ prototype (of Macro.get_amx_string) (
        plain (pointer CType.char)
          (pointer CType.amx ∷ CType.cell ∷ CType.int ∷ pointer CType.int ∷ []))
    ∷ prototype (of Macro.get_amx_string_len) (plain CType.int (pointer (const CType.cell) ∷ []))
    ∷ prototype (of Macro.format_amx_string) (
        plain (pointer CType.char)
          (pointer CType.amx ∷ pointer CType.cell ∷ CType.int ∷ pointer CType.int ∷ []))
    ∷ prototype (of Macro.copy_amx_memory)
        (plain CType.void (pointer CType.cell ∷ pointer (const CType.cell) ∷ CType.int ∷ []))
    ∷ prototype mf_log (variadic CType.void (pointer (const CType.char) ∷ []))
    ∷ prototype mf_log_error
        (variadic CType.void (pointer CType.amx ∷ CType.int ∷ pointer (const CType.char) ∷ []))
    ∷ prototype (of Macro.raise_amx_error) (plain CType.int (pointer CType.amx ∷ CType.int ∷ []))
    ∷ prototype (of Macro.register_forward)
        (variadic CType.int (pointer (const CType.char) ∷ CType.forward_exec_type ∷ []))
    ∷ prototype (of Macro.execute_forward) (variadic CType.int (CType.int ∷ []))
    ∷ prototype (of Macro.prepare_cell_array)
        (plain CType.cell (pointer CType.cell ∷ CType.unsigned_int ∷ []))
    ∷ prototype (of Macro.prepare_char_array)
        (plain CType.cell (pointer CType.char ∷ CType.unsigned_int ∷ []))
    ∷ prototype (of Macro.prepare_cell_array_a)
        (plain CType.cell (pointer CType.cell ∷ CType.unsigned_int ∷ CType.bool ∷ []))
    ∷ prototype (of Macro.prepare_char_array_a)
        (plain CType.cell (pointer CType.char ∷ CType.unsigned_int ∷ CType.bool ∷ []))
    ∷ prototype (of Macro.is_player_valid) (plain CType.int (CType.int ∷ []))
    ∷ prototype (of Macro.get_player_name) (plain (pointer (const CType.char)) (CType.int ∷ []))
    ∷ prototype (of Macro.get_player_ip) (plain (pointer (const CType.char)) (CType.int ∷ []))
    ∷ prototype (of Macro.is_player_ingame) (plain CType.int (CType.int ∷ []))
    ∷ prototype (of Macro.is_player_bot) (plain CType.int (CType.int ∷ []))
    ∷ prototype (of Macro.is_player_authorized) (plain CType.int (CType.int ∷ []))
    ∷ prototype (of Macro.get_player_time) (plain CType.float (CType.int ∷ []))
    ∷ prototype (of Macro.get_player_play_time) (plain CType.float (CType.int ∷ []))
    ∷ prototype (of Macro.get_player_curweapon) (plain CType.int (CType.int ∷ []))
    ∷ prototype (of Macro.get_player_team) (plain (pointer (const CType.char)) (CType.int ∷ []))
    ∷ prototype (of Macro.get_player_team_id) (plain CType.int (CType.int ∷ []))
    ∷ prototype (of Macro.get_player_deaths) (plain CType.int (CType.int ∷ []))
    ∷ prototype (of Macro.get_player_menu) (plain CType.int (CType.int ∷ []))
    ∷ prototype (of Macro.get_player_keys) (plain CType.int (CType.int ∷ []))
    ∷ prototype (of Macro.is_player_alive) (plain CType.int (CType.int ∷ []))
    ∷ prototype (of Macro.get_player_frags) (plain CType.int (CType.int ∷ []))
    ∷ prototype (of Macro.is_player_connecting) (plain CType.int (CType.int ∷ []))
    ∷ prototype (of Macro.is_player_hltv) (plain CType.int (CType.int ∷ []))
    ∷ prototype (of Macro.get_player_armor) (plain CType.int (CType.int ∷ []))
    ∷ prototype (of Macro.get_player_health) (plain CType.int (CType.int ∷ []))
    ∷ prototype (of Macro.amx_ctof) (plain CType.real (CType.cell ∷ []))
    ∷ prototype (of Macro.amx_ftoc) (plain CType.cell (CType.float ∷ []))
    ∷ prototype (of Macro.register_sp_forward_by_name)
        (variadic CType.int (pointer CType.amx ∷ pointer (const CType.char) ∷ []))
    ∷ prototype (of Macro.register_sp_forward)
        (variadic CType.int (pointer CType.amx ∷ CType.int ∷ []))
    ∷ prototype (of Macro.unregister_sp_forward) (plain CType.void (CType.int ∷ []))
    ∷ prototype (of Macro.get_player_flags) (plain CType.int (CType.int ∷ []))
    ∷ prototype (of Macro.get_player_edict) (plain (pointer CType.void) (CType.int ∷ []))
    ∷ prototype (of Macro.format)
        (variadic (pointer (const CType.char)) (pointer (const CType.char) ∷ []))
    ∷ prototype (of Macro.register_function)
        (plain CType.void (pointer CType.void ∷ pointer (const CType.char) ∷ []))
    ∷ prototype (of Macro.request_function)
        (plain (pointer CType.void) (pointer (const CType.char) ∷ []))
    ∷ prototype (of Macro.amx_push) (plain CType.int (pointer CType.amx ∷ pointer CType.cell ∷ []))
    ∷ prototype (of Macro.amx_exec)
        (plain CType.int (pointer CType.amx ∷ pointer CType.cell ∷ CType.int ∷ []))
    ∷ prototype (of Macro.set_player_team_info)
        (plain CType.int (CType.int ∷ CType.int ∷ pointer (const CType.char) ∷ []))
    ∷ prototype (of Macro.player_prop_addr)
        (plain (pointer CType.void) (CType.int ∷ CType.int ∷ []))
    ∷ prototype (of Macro.reg_auth_func) (plain CType.void (CType.authorize_func ∷ []))
    ∷ prototype (of Macro.unreg_auth_func) (plain CType.void (CType.authorize_func ∷ []))
    ∷ prototype (of Macro.find_library)
        (plain CType.int (pointer (const CType.char) ∷ CType.lib_type ∷ []))
    ∷ prototype (of Macro.add_libraries)
        (plain CType.size (pointer (const CType.char) ∷ CType.lib_type ∷ pointer CType.void ∷ []))
    ∷ prototype (of Macro.remove_libraries) (plain CType.size (pointer CType.void ∷ []))
    ∷ prototype (of Macro.override_natives)
        (plain CType.void (pointer CType.native_info ∷ pointer (const CType.char) ∷ []))
    ∷ prototype (of Macro.get_local_info) (
        plain (pointer (const CType.char))
          (pointer (const CType.char) ∷ pointer (const CType.char) ∷ []))
    ∷ prototype (of Macro.amx_re_register)
        (plain CType.int (pointer CType.amx ∷ pointer CType.native_info ∷ CType.int ∷ []))
    ∷ prototype (of Macro.register_function_ex)
        (plain (pointer CType.void) (pointer CType.void ∷ pointer (const CType.char) ∷ []))
    ∷ prototype (of Macro.message_block)
        (plain (pointer CType.void) (CType.int ∷ CType.int ∷ pointer CType.int ∷ []))
    ∷ []

unfoldable Signature-discrete : Discrete Signature
Signature-discrete = hlevel

unfoldable pub disagreeing : List Prototype → List Callee
unfolding Signature-discrete
disagreeing [] = []
disagreeing (p ∷ ps) =
    let rest = disagreeing ps in
    ite (Signature-discrete p.type (type_of p.callee)) rest (p.callee ∷ rest)

-- The prototypes of these five names, of MF_FindScriptByAmx the second one, do not have the type of what
-- the name stands for. All others do.
pub disagreeing-prototypes :
    disagreeing prototypes
    ≡ of Macro.print_srv_console
      ∷ of Macro.find_script_by_amx
      ∷ of Macro.amx_ftoc
      ∷ of Macro.amx_push
      ∷ of Macro.message_block
      ∷ []
unfolding disagreeing
disagreeing-prototypes = refl
