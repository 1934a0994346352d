-- ===== src/AmxxModule/Life/Linked.antt =====
-- The calls on AMX Mod X of src/ as they are compiled: each goes through one of the pointers g_fn_... of
-- src/sdk/amxxmodule.cpp, by the macros of src/sdk/amxxmodule.h.
use amxx_mqtt_client.Prelude.{
  ◌≡◌, ◌≢◌, refl, true, false, Option, none, some, List, [], ◌∷◌, arith, All, Bool-cases, inl, inr,
}
use amxx_mqtt_client.External.{
  Call, register_forward, unregister_forward, execute_forward, log_error, log, add_natives,
  new_client, connect, disconnect, subscribe, unsubscribe, publish, delete_client, print_stderr,
  register_hook, unregister_hook, call_next, External, History,
}
use amxx_mqtt_client.RehldsFrameHook.{Engine, check_rehlds_api}
use amxx_mqtt_client.Module.{on_amxx_check_game}
use amxx_mqtt_client.System.Frames.{history-thread_step}
use amxx_mqtt_client.AmxxModule.Functions.{Function, Pointers}
use amxx_mqtt_client.AmxxModule.Macros.{Macro, target}
use amxx_mqtt_client.AmxxModule.Requests.{ok, is_null, requests}
use amxx_mqtt_client.AmxxModule.Requests.Linking.{requested, is_required_of}
use amxx_mqtt_client.AmxxModule.Exports.{
  Loaded, Requester, amxx_check_game, amxx_attach, amxx_detach, amxx_plugins_loaded,
  amxx_plugins_unloading, amxx_plugins_unloaded,
}
use amxx_mqtt_client.AmxxModule.Exports.Attaching.{amxx_attach_required, amxx_attach-IsOutcome}
use amxx_mqtt_client.AmxxModule.Life.{
  Phase, waiting, attached, detached, Host, at, HostStep, checked, linked, refused, loaded,
  unloading, unloaded, ran, left, threads, Reached, start, later,
}

-- The pointer by which the code makes a call: that of a macro, or of the functions MF_Log and
-- MF_LogError.
abbrev pub called : Call → Option Function
called (register_forward _ _) = some (target Macro.register_sp_forward_by_name)
called (unregister_forward _) = some (target Macro.unregister_sp_forward)
called (execute_forward _ _) = some (target Macro.execute_forward)
called (log_error _) = some Function.log_error_func
called (log _) = some Function.log
called add_natives = some (target Macro.add_natives)
called _ = none

abbrev pub IsLinked : Pointers → Call → Type 0
IsLinked ps c = elim (called c) [ none ↦ Unit | some f ↦ is_null (ps f) ≡ false ]

-- Every pointer to a function that must be there is set.
abbrev AreSet : Pointers → Type 0
AreSet ps = (f : Function) → is_required_of (requested f requests) ≡ true → is_null (ps f) ≡ false

IsLinked-of_AreSet : (ps : Pointers) (c : Call) → AreSet ps → IsLinked ps c
IsLinked-of_AreSet ps (register_forward _ _) h = h Function.register_sp_forward_by_name refl
IsLinked-of_AreSet ps (unregister_forward _) h = h Function.unregister_sp_forward refl
IsLinked-of_AreSet ps (execute_forward _ _) h = h Function.execute_forward refl
IsLinked-of_AreSet ps (log_error _) h = h Function.log_error_func refl
IsLinked-of_AreSet ps (log _) h = h Function.log refl
IsLinked-of_AreSet ps add_natives h = h Function.add_natives refl
IsLinked-of_AreSet ps (new_client _ _) h = tt
IsLinked-of_AreSet ps (connect _ _) h = tt
IsLinked-of_AreSet ps (disconnect _) h = tt
IsLinked-of_AreSet ps (subscribe _ _ _) h = tt
IsLinked-of_AreSet ps (unsubscribe _ _) h = tt
IsLinked-of_AreSet ps (publish _ _ _ _) h = tt
IsLinked-of_AreSet ps (delete_client _) h = tt
IsLinked-of_AreSet ps (print_stderr _) h = tt
IsLinked-of_AreSet ps (register_hook _) h = tt
IsLinked-of_AreSet ps (unregister_hook _) h = tt
IsLinked-of_AreSet ps call_next h = tt

All-IsLinked : (ps : Pointers) (h : History) → AreSet ps → All (IsLinked ps) h
All-IsLinked ps [] set = tt
All-IsLinked ps (c ∷ h) set = (IsLinked-of_AreSet ps c set, All-IsLinked ps h set)

-- No call on AMX Mod X.
abbrev IsQuiet : Call → Type 0
IsQuiet c = called c ≡ none

IsLinked-of_IsQuiet : (ps : Pointers) (c : Call) → IsQuiet c → IsLinked ps c
IsLinked-of_IsQuiet ps c q = rw (q, IsLinked) tt

All-IsLinked_quiet : (ps : Pointers) (h : History) → All IsQuiet h → All (IsLinked ps) h
All-IsLinked_quiet ps [] q = tt
All-IsLinked_quiet ps (c ∷ h) q = (IsLinked-of_IsQuiet ps c q.0, All-IsLinked_quiet ps h q.1)

-- The invariant of a run.
abbrev IsReady : Host → Type 0
IsReady h = elim h.phase [
  | waiting ↦ All IsQuiet h.module_state.world.history
  | attached ↦ AreSet h.module_state.pointers
  | detached ↦ AreSet h.module_state.pointers
]

check-IsQuiet :
    (e : Engine) (l : Loaded)
    → All IsQuiet l.world.history
    → All IsQuiet (amxx_check_game e l).1.world.history
unfolding amxx_check_game on_amxx_check_game
check-IsQuiet e l q = elim (Bool-cases (check_rehlds_api e).0) [
  | inl found ↦ rw found q
  | inr missing ↦ rw missing (refl, q)
]

refused-IsQuiet :
    (e : Engine) (r : Option Requester) (l : Loaded)
    → (amxx_attach e r l).0 ≢ ok
    → All IsQuiet l.world.history
    → All IsQuiet (amxx_attach e r l).1.world.history
unfolding amxx_attach
refused-IsQuiet e none l bad q = q
refused-IsQuiet e (some (address, core)) l bad q = elim (amxx_attach-IsOutcome e address core l) [
  | inl (done, _, _) ↦ absurd (bad done)
  | inr (_, _, same) ↦ rw same q
]

attached-AreSet :
    (e : Engine) (r : Option Requester) (l : Loaded)
    → (amxx_attach e r l).0 ≡ ok
    → AreSet (amxx_attach e r l).1.pointers
unfolding amxx_attach
attached-AreSet e none l h = absurd (ground arith)
attached-AreSet e (some (address, core)) l h = λ f. amxx_attach_required e address core l f h

HostStep-IsReady : (ext : External) (h g : Host) → HostStep ext h g → IsReady h → IsReady g
unfolding amxx_detach amxx_plugins_loaded amxx_plugins_unloading amxx_plugins_unloaded
HostStep-IsReady ext _ _ (checked e l) r = check-IsQuiet e l r
HostStep-IsReady ext _ _ (linked e q l h) r = attached-AreSet e q l h
HostStep-IsReady ext _ _ (refused e q l h) r = refused-IsQuiet e q l h r
HostStep-IsReady ext _ _ (loaded l) r = r
HostStep-IsReady ext _ _ (unloading l) r = r
HostStep-IsReady ext _ _ (unloaded l) r = r
HostStep-IsReady ext _ _ (ran s l) r = r
HostStep-IsReady ext _ _ (left l) r = r
HostStep-IsReady ext _ _ (threads t waiting l) r = rw (history-thread_step t l.world) r
HostStep-IsReady ext _ _ (threads t attached l) r = r
HostStep-IsReady ext _ _ (threads t detached l) r = r

reached-IsReady : (ext : External) (h : Host) → Reached ext h → IsReady h
reached-IsReady ext _ start = tt
reached-IsReady ext h (later {h = g} before s) =
    HostStep-IsReady ext g h s (reached-IsReady ext g before)

-- The functions of the core that answer a native about its arguments, MF_GetAmxString and
-- MF_GetAmxAddr. They change nothing, and are not on the history.
abbrev pub readers : List Function
readers = target Macro.get_amx_string ∷ target Macro.get_amx_addr ∷ []

-- Those that may be called now: natives run only while the module is attached.
abbrev pub callable : Phase → List Function
callable attached = readers
callable _ = []

-- In every state that the module reaches in a server, whatever AMXX_CheckGame and refused calls of
-- AMXX_Attach came first, the pointer behind each call on the history that it has made of AMX Mod X is
-- not null, and while it is attached neither are those of the two functions by which natives read their
-- arguments.
pub reached-IsLinked :
    (ext : External) (h : Host)
    → Reached ext h
    → All (IsLinked h.module_state.pointers) h.module_state.world.history
      × All (λ f. is_null (h.module_state.pointers f) ≡ false) (callable h.phase)
reached-IsLinked ext h r = go h.phase h.module_state (reached-IsReady ext h r)
  where
    go :
        (p : Phase) (l : Loaded)
        → IsReady (at p l)
        → All (IsLinked l.pointers) l.world.history
          × All (λ f. is_null (l.pointers f) ≡ false) (callable p)
    go waiting l q = (All-IsLinked_quiet l.pointers l.world.history q, tt)
    go attached l set = (
      All-IsLinked l.pointers l.world.history set,
      (set Function.get_amx_string refl, (set Function.get_amx_addr refl, tt)),
    )
    go detached l set = (All-IsLinked l.pointers l.world.history set, tt)
