-- ===== src/AmxxModule/Metamod/Slots.antt =====
-- A table of functions in src/sdk/amxxmodule.cpp: what the preprocessor makes of it.
use Prim.Native.String.{String}
use amxx_mqtt_client.Prelude.{Bool, Option, none, some, List, map, if◌then◌else◌}

-- #ifdef guard
--   entry,
-- #else
--   NULL,
-- #endif
pub record Slot : Type 0 where
  pub guard : String
  pub entry : String

abbrev pub slot : String → String → Slot
slot g e = record { guard = g; entry = e }

-- Most slots test for the name that they hold.
abbrev pub tested : List String → List Slot
tested names = map (λ (g : String). slot g g) names

-- A slot, given which macros are defined. An entry that is a macro stands for the hook it names.
abbrev pub fill : (String → Bool) → Slot → Option String
fill defined s = if defined s.guard then some s.entry else none

abbrev pub preprocess : (String → Bool) → List Slot → List (Option String)
preprocess defined slots = map (fill defined) slots
