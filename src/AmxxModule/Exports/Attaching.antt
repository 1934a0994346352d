-- ===== src/AmxxModule/Exports/Attaching.antt =====
-- AMXX_Attach of src/sdk/amxxmodule.cpp: when it succeeds, and what the MF_ macros call then.
use amxx_mqtt_client.Prelude.{
  ℕ, ◌≡◌, ◌⊎◌, inl, inr, refl, Bool, true, false, some, List, [], ◌∷◌, ◌&&◌, arith, All, Bool-cases,
}
use amxx_mqtt_client.World.{World}
use amxx_mqtt_client.RehldsFrameHook.{Engine}
use amxx_mqtt_client.Module.{on_amxx_attach}
use amxx_mqtt_client.AmxxModule.Functions.{Function, Pointers, store}
use amxx_mqtt_client.AmxxModule.Macros.{Macro, target}
use amxx_mqtt_client.AmxxModule.Requests.{
  Status, ok, wrong_interface, invalid_param, func_not_present, Core, Request, requests,
  request_all, is_null,
}
use amxx_mqtt_client.AmxxModule.Requests.Linking.{
  IsMet, requested, request_all-ok, IsMet-of_ok, request_all-answer, is_required_of,
  request_all-null,
}
use amxx_mqtt_client.AmxxModule.Exports.{Loaded, linked, amxx_attach}

-- MF_SetAmxStringUTF8Char, whose function may be missing.
abbrev pub is_optional : Macro → Bool
is_optional Macro.set_amx_string_utf8_char = true
is_optional _ = false

-- Each other macro calls a function that must be there, or the one that AMXX_Attach is given.
macro_request :
    (m : Macro)
    → is_optional m ≡ false
    → (target m ≡ Function.request_function)
      ⊎ (is_required_of (requested (target m) requests) ≡ true)
macro_request Macro.add_natives h = inr refl
macro_request Macro.add_new_natives h = inr refl
macro_request Macro.build_pathname h = inr refl
macro_request Macro.build_pathname_r h = inr refl
macro_request Macro.format_amx_string h = inr refl
macro_request Macro.get_amx_addr h = inr refl
macro_request Macro.print_srv_console h = inr refl
macro_request Macro.get_modname h = inr refl
macro_request Macro.get_script_name h = inr refl
macro_request Macro.get_script_amx h = inr refl
macro_request Macro.find_script_by_amx h = inr refl
macro_request Macro.find_script_by_name h = inr refl
macro_request Macro.set_amx_string h = inr refl
macro_request Macro.set_amx_string_utf8_char h = absurd (ground arith)
macro_request Macro.get_amx_string h = inr refl
macro_request Macro.get_amx_string_len h = inr refl
macro_request Macro.copy_amx_memory h = inr refl
macro_request Macro.raise_amx_error h = inr refl
macro_request Macro.register_forward h = inr refl
macro_request Macro.execute_forward h = inr refl
macro_request Macro.prepare_cell_array h = inr refl
macro_request Macro.prepare_char_array h = inr refl
macro_request Macro.prepare_cell_array_a h = inr refl
macro_request Macro.prepare_char_array_a h = inr refl
macro_request Macro.is_player_valid h = inr refl
macro_request Macro.get_player_name h = inr refl
macro_request Macro.get_player_ip h = inr refl
macro_request Macro.is_player_ingame h = inr refl
macro_request Macro.is_player_bot h = inr refl
macro_request Macro.is_player_authorized h = inr refl
macro_request Macro.get_player_time h = inr refl
macro_request Macro.get_player_play_time h = inr refl
macro_request Macro.get_player_curweapon h = inr refl
macro_request Macro.get_player_team h = inr refl
macro_request Macro.get_player_team_id h = inr refl
macro_request Macro.get_player_deaths h = inr refl
macro_request Macro.get_player_menu h = inr refl
macro_request Macro.get_player_keys h = inr refl
macro_request Macro.is_player_alive h = inr refl
macro_request Macro.get_player_frags h = inr refl
macro_request Macro.is_player_connecting h = inr refl
macro_request Macro.is_player_hltv h = inr refl
macro_request Macro.get_player_armor h = inr refl
macro_request Macro.get_player_health h = inr refl
macro_request Macro.amx_exec h = inr refl
macro_request Macro.amx_execv h = inr refl
macro_request Macro.amx_find_public h = inr refl
macro_request Macro.amx_allot h = inr refl
macro_request Macro.amx_find_native h = inr refl
macro_request Macro.load_amx_script h = inr refl
macro_request Macro.unload_amx_script h = inr refl
macro_request Macro.merge_definition_file h = inr refl
macro_request Macro.amx_ctof h = inr refl
macro_request Macro.amx_ftoc h = inr refl
macro_request Macro.register_sp_forward_by_name h = inr refl
macro_request Macro.register_sp_forward h = inr refl
macro_request Macro.unregister_sp_forward h = inr refl
macro_request Macro.get_player_flags h = inr refl
macro_request Macro.get_player_edict h = inr refl
macro_request Macro.format h = inr refl
macro_request Macro.register_function h = inr refl
macro_request Macro.request_function h = inl refl
macro_request Macro.amx_push h = inr refl
macro_request Macro.set_player_team_info h = inr refl
macro_request Macro.player_prop_addr h = inr refl
macro_request Macro.reg_auth_func h = inr refl
macro_request Macro.unreg_auth_func h = inr refl
macro_request Macro.find_library h = inr refl
macro_request Macro.add_libraries h = inr refl
macro_request Macro.remove_libraries h = inr refl
macro_request Macro.override_natives h = inr refl
macro_request Macro.get_local_info h = inr refl
macro_request Macro.amx_re_register h = inr refl
macro_request Macro.register_function_ex h = inr refl
macro_request Macro.message_block h = inr refl

request_all_status :
    (core : Core) (rs : List Request) (ps : Pointers)
    → ((request_all core rs ps).0 ≡ ok) ⊎ ((request_all core rs ps).0 ≡ func_not_present)
unfolding request_all
request_all_status core [] ps = inl refl
request_all_status core (r ∷ rs) ps =
    let rest = request_all_status core rs (store ps r.function (core r.name)) in
    elim (Bool-cases (r.is_required && is_null (core r.name))) [
      | inl missing ↦ rw (missing, request_all) (inr refl)
      | inr met ↦ rw (met, request_all) rest
    ]

abbrev pub IsOutcome : Engine → World → Core → Status × Loaded → Type 0
IsOutcome e w core out =
    ((out.0 ≡ ok) × All (IsMet core) requests × (out.1.world ≡ on_amxx_attach e w))
    ⊎ ((out.0 ≡ func_not_present) × ¬ All (IsMet core) requests × (out.1.world ≡ w))

linked-IsOutcome :
    (e : Engine) (w : World) (core : Core) (out : Status × Pointers)
    → (out.0 ≡ ok) ⊎ (out.0 ≡ func_not_present)
    → (out.0 ≡ ok → All (IsMet core) requests)
    → (All (IsMet core) requests → out.0 ≡ ok)
    → IsOutcome e w core (linked e w out)
linked-IsOutcome e w core (ok, ps) either met done = inl (refl, met refl, refl)
linked-IsOutcome e w core (func_not_present, ps) either met done =
    inr (refl, (λ all. absurd (cc (done all))), refl)
linked-IsOutcome e w core (wrong_interface, ps) either met done = absurd (ground (arith, either))
linked-IsOutcome e w core (invalid_param, ps) either met done = absurd (ground (arith, either))

-- The pointers when the requests begin.
abbrev first_pointers : ℕ → Pointers → Pointers
first_pointers address ps = store ps Function.request_function (some address)

-- AMXX_Attach with the core's function answers that all is well exactly if the core has every function
-- that must be there, and then it hooks the engine and adds the natives as OnAmxxAttach does. Otherwise
-- it answers that a function is not present, and nothing of the module but its pointers has changed.
pub amxx_attach-IsOutcome :
    (e : Engine) (address : ℕ) (core : Core) (l : Loaded)
    → IsOutcome e l.world core (amxx_attach e (some (address, core)) l)
unfolding amxx_attach
amxx_attach-IsOutcome e address core l =
    linked-IsOutcome e l.world core (request_all core requests (first_pointers address l.pointers))
      (request_all_status core requests (first_pointers address l.pointers))
      (IsMet-of_ok core requests (first_pointers address l.pointers))
      (request_all-ok core requests (first_pointers address l.pointers))

linked-ok :
    (e : Engine) (w : World) (out : Status × Pointers)
    → (linked e w out).0 ≡ ok
    → (out.0 ≡ ok) × ((linked e w out).1.pointers ≡ out.1)
linked-ok e w (ok, ps) h = (refl, refl)
linked-ok e w (wrong_interface, ps) h = absurd (ground arith)
linked-ok e w (invalid_param, ps) h = absurd (ground arith)
linked-ok e w (func_not_present, ps) h = absurd (ground arith)

request_function-null :
    (address : ℕ) (core : Core) (ps : Pointers)
    → All (IsMet core) requests
    → is_null ((request_all core requests (first_pointers address ps)).1 Function.request_function)
      ≡ false
request_function-null address core ps met =
    rw (request_all-answer core requests (first_pointers address ps) Function.request_function met)
      refl

-- So no function that must be there is null when AMXX_Attach has succeeded.
pub amxx_attach_required :
    (e : Engine) (address : ℕ) (core : Core) (l : Loaded) (f : Function)
    → (amxx_attach e (some (address, core)) l).0 ≡ ok
    → is_required_of (requested f requests) ≡ true
    → is_null ((amxx_attach e (some (address, core)) l).1.pointers f) ≡ false
unfolding amxx_attach
amxx_attach_required e address core l f h needed =
    let ps = first_pointers address l.pointers in
    let (done, same) = linked-ok e l.world (request_all core requests ps) h in
    rw same (request_all-null core requests ps f (IsMet-of_ok core requests ps done) needed)

-- When AMXX_Attach with the core's function has answered that all is well, every MF_ macro but
-- MF_SetAmxStringUTF8Char calls through a pointer that is not null.
pub amxx_attach_links :
    (e : Engine) (address : ℕ) (core : Core) (l : Loaded) (m : Macro)
    → (amxx_attach e (some (address, core)) l).0 ≡ ok
    → is_optional m ≡ false
    → is_null ((amxx_attach e (some (address, core)) l).1.pointers (target m)) ≡ false
unfolding amxx_attach
amxx_attach_links e address core l m h used =
    let ps = first_pointers address l.pointers in
    let (done, same) = linked-ok e l.world (request_all core requests ps) h in
    elim (macro_request m used) [
      | inl own ↦
          rw (same, own)
            (request_function-null address core l.pointers (IsMet-of_ok core requests ps done))
      | inr needed ↦ amxx_attach_required e address core l (target m) h needed
    ]
