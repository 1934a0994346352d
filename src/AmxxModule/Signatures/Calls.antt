-- ===== src/AmxxModule/Signatures/Calls.antt =====
-- The calls of AMX Mod X that the module makes, as src/ and MF_Log and MF_LogError of
-- src/sdk/amxxmodule.cpp write them: the types of their arguments.
use amxx_mqtt_client.Prelude.{
  ◌≡◌, refl, ◌⊎◌, inl, inr, Bool, true, false, none, some, List, [], ◌∷◌, ◌++◌, map,
}
use amxx_mqtt_client.External.{
  Call, register_forward, unregister_forward, execute_forward, log_error, log, add_natives,
  Argument, string, ParamType,
}
use amxx_mqtt_client.External
use amxx_mqtt_client.AmxxModule.Life.Linked.{called}
use amxx_mqtt_client.AmxxModule.Signatures.{CType, const, pointer, Signature, signature}

abbrev c_string : CType
c_string = pointer (const CType.char)

-- c_str() of a text, and an int.
abbrev argument_type : Argument → CType
argument_type (External.Argument.cell _) = CType.int
argument_type (string _) = c_string

-- The arguments of a call. FP_DONE ends those of a registration; MF_Log and MF_LogError pass a format
-- of their own, the tag and the buffer.
abbrev pub passed : Call → List CType
passed (register_forward _ types) =
    pointer CType.amx ∷ c_string ∷ (map (λ (t : ParamType). CType.int) types ++ CType.int ∷ [])
passed (unregister_forward _) = CType.int ∷ []
passed (execute_forward _ args) = CType.int ∷ map argument_type args
passed (log_error _) = pointer CType.amx ∷ CType.int ∷ c_string ∷ c_string ∷ pointer CType.char ∷ []
passed (log _) = c_string ∷ c_string ∷ pointer CType.char ∷ []
passed add_natives = pointer CType.native_info ∷ []
passed _ = []

-- What a variadic call may be given: numbers and pointers.
abbrev is_promoted : CType → Bool
is_promoted CType.int = true
is_promoted (pointer _) = true
is_promoted _ = false

-- An argument goes into a parameter of its type, a pointer also into one to a constant.
abbrev Converts : CType → CType → Type 0
Converts (pointer a) (pointer (const b)) = (a ≡ b) ⊎ (a ≡ const b)
Converts a b = a ≡ b

abbrev AllPromoted : List CType → Type 0
AllPromoted [] = Unit
AllPromoted (a ∷ as') = (is_promoted a ≡ true) × AllPromoted as'

-- As many arguments as parameters, or more if the function is variadic.
abbrev pub Accepts : Bool → List CType → List CType → Type 0
Accepts true [] as' = AllPromoted as'
Accepts false [] [] = Unit
Accepts false [] (_ ∷ _) = ⊥
Accepts v (p ∷ ps) [] = ⊥
Accepts v (p ∷ ps) (a ∷ as') = Converts a p × Accepts v ps as'

-- A call, through a function of the given type.
abbrev pub IsAccepted : Signature → List CType → Type 0
IsAccepted f as' = Accepts f.is_variadic f.params as'

types-AllPromoted :
    (types : List ParamType)
    → AllPromoted (map (λ (t : ParamType). CType.int) types ++ CType.int ∷ [])
types-AllPromoted [] = (refl, tt)
types-AllPromoted (t ∷ types) = (refl, types-AllPromoted types)

arguments-AllPromoted : (args : List Argument) → AllPromoted (map argument_type args)
arguments-AllPromoted [] = tt
arguments-AllPromoted (External.Argument.cell _ ∷ args) = (refl, arguments-AllPromoted args)
arguments-AllPromoted (string _ ∷ args) = (refl, arguments-AllPromoted args)

-- A call of AMX Mod X, if it is one.
abbrev pub IsTyped : Call → Type 0
IsTyped c = elim (called c) [ none ↦ Unit | some f ↦ IsAccepted (signature f) (passed c) ]

-- Each call that the module makes of AMX Mod X gives the function behind its pointer the arguments that
-- its type has, and nothing but numbers and pointers after them, and only where it is variadic.
pub called-IsTyped : (c : Call) → IsTyped c
called-IsTyped (register_forward _ types) = (refl, (inr refl, types-AllPromoted types))
called-IsTyped (unregister_forward _) = (refl, tt)
called-IsTyped (execute_forward _ args) = (refl, arguments-AllPromoted args)
called-IsTyped (log_error _) = (refl, (refl, (inr refl, (refl, (refl, tt)))))
called-IsTyped (log _) = (inr refl, (refl, (refl, tt)))
called-IsTyped add_natives = (inl refl, tt)
called-IsTyped (External.Call.new_client _ _) = tt
called-IsTyped (External.Call.connect _ _) = tt
called-IsTyped (External.Call.disconnect _) = tt
called-IsTyped (External.Call.subscribe _ _ _) = tt
called-IsTyped (External.Call.unsubscribe _ _) = tt
called-IsTyped (External.Call.publish _ _ _ _) = tt
called-IsTyped (External.Call.delete_client _) = tt
called-IsTyped (External.Call.print_stderr _) = tt
called-IsTyped (External.Call.register_hook _) = tt
called-IsTyped (External.Call.unregister_hook _) = tt
called-IsTyped External.Call.call_next = tt
