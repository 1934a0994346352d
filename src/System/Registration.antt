-- ===== src/System/Registration.antt =====
-- The forwards of the whole module: src/natives.cpp registers them, src/AmxxMqttClient.cpp unregisters
-- them, and ExecuteCallback of src/CallbackDispatcher.cpp executes them.
pub mod Owners
pub mod Growing
pub mod Clients
pub mod Natives
pub mod Runs
use amxx_mqtt_client.Prelude.{
  ℕ, ◌≡◌, ◌≢◌, ◌≤◌, ltb, leb, length, ◌||◌, Bool, true, false, Option, none, some, List, [], ◌∷◌,
  ◌==◌, ◌&&◌, if◌then◌else◌,
}
use amxx_mqtt_client.External.{
  Cell, Call, register_forward, unregister_forward, execute_forward, Argument, External, History,
  ParamType, minus_one,
}
use amxx_mqtt_client.Natives.Deliveries.{fits}

-- AMX Mod X drops all forwards when it unloads the plugins of a map, and may give their ids out again.
-- `base` is the number of calls that the module made before: what was registered then is gone.

-- The parameters of the forward that an id stands for after the calls made, by the last call that
-- registered it; `none` if that was before, or if it was never registered or unregistered since.
abbrev pub registration : External → ℕ → History → Cell → Option (List ParamType)
registration ext base [] id = none
registration ext base (register_forward name types ∷ h) id =
    if ext.forward h name types == id
    then (if leb base (length h) then some types else none)
    else registration ext base h id
registration ext base (unregister_forward j ∷ h) id =
    if j == id then none else registration ext base h id
registration ext base (_ ∷ h) id = registration ext base h id

-- As many arguments as parameters, each of its parameter's type.
abbrev pub all_fit : List ParamType → List Argument → Bool
all_fit [] [] = true
all_fit (t ∷ ts) (a ∷ as') = fits t a && all_fit ts as'
all_fit _ _ = false

abbrev pub accepts : Option (List ParamType) → List Argument → Bool
accepts none args = false
accepts (some types) args = all_fit types args

-- Every forward that was executed since was registered then, with parameters that the arguments fit.
abbrev pub all_executable : External → ℕ → History → Bool
all_executable ext base [] = true
all_executable ext base (execute_forward id args ∷ h) =
    (ltb (length h) base || accepts (registration ext base h id) args) && all_executable ext base h
all_executable ext base (_ ∷ h) = all_executable ext base h

-- AMX Mod X gives a new forward an id that stands for no other one of the same map, or -1.
abbrev pub GivesNewIds : External → ℕ → Type 0
GivesNewIds ext base =
    (h : History) (name : _) (types : List ParamType)
    → base ≤ length h
    → ext.forward h name types ≢ minus_one
    → registration ext base h (ext.forward h name types) ≡ none
