-- ===== src/AmxxModule/Metamod/Guards.antt =====
-- The tables of src/sdk/amxxmodule.cpp against each other: which macro of src/sdk/moduleconfig.h puts
-- which function into which slot.
use Prim.Native.String.{String, ◌++◌}
use text.Mathlib.Text.{◌==◌}
use amxx_mqtt_client.Prelude.{◌≡◌, refl, Bool, List, [], ◌∷◌, map, take, drop, if◌then◌else◌}
use amxx_mqtt_client.AmxxModule.Metamod.Slots.{Slot, slot, fill, preprocess}
use amxx_mqtt_client.AmxxModule.Metamod.EntityApi.{entity_api_table, entity_api_post_table}
use amxx_mqtt_client.AmxxModule.Metamod.EngineFuncs.{engine_funcs_table, engine_funcs_post_table}
use amxx_mqtt_client.AmxxModule.Metamod.NewFuncs.{new_funcs_table, new_funcs_post_table}
use amxx_mqtt_client.AmxxModule.Metamod.Offered.{
  Definition, offered_entity_api, offered_entity_api_post, offered_engine_funcs,
  offered_engine_funcs_post, offered_new_funcs, offered_new_funcs_post,
}

abbrev guards : List Slot → List String
guards slots = map (λ (s : Slot). s.guard) slots

-- The guards of the slots that hold another name than they test for.
abbrev misnamed : List Slot → List String
misnamed [] = []
misnamed (s ∷ slots) =
    let rest = misnamed slots in if s.guard == s.entry then rest else s.guard ∷ rest

-- In the tables of the entity and engine functions each slot holds the macro that it tests for.
pub tested_tables :
    (misnamed entity_api_table ≡ [])
    × (misnamed entity_api_post_table ≡ [])
    × (misnamed engine_funcs_table ≡ [])
    × (misnamed engine_funcs_post_table ≡ [])
tested_tables = (refl, refl, refl, refl)

-- In those of the new functions the slots that test for FN_ShouldCollide and FN_ShouldCollide_Post hold
-- something else.
pub untested_tables :
    (misnamed new_funcs_table ≡ "FN_ShouldCollide" ∷ [])
    × (misnamed new_funcs_post_table ≡ "FN_ShouldCollide_Post" ∷ [])
untested_tables = (refl, refl)

abbrev post : String → String
post name = name ++ "_Post"

abbrev post_slot : Slot → Slot
post_slot s = record { guard = post s.guard; entry = post s.entry }

-- The tables for the calls after the game's are those for the calls before, with _Post behind each
-- name, but for the last slot of the entity functions: it tests for the macro of the other table and
-- holds it.
pub post_tables :
    (engine_funcs_post_table ≡ map post_slot engine_funcs_table)
    × (new_funcs_post_table ≡ map post_slot new_funcs_table)
    × (take 49 entity_api_post_table ≡ map post_slot (take 49 entity_api_table))
    × (drop 49 entity_api_post_table ≡ drop 49 entity_api_table)
post_tables = (refl, refl, refl, refl)

-- So whatever else is defined, FN_AllowLagCompensation puts its hook into both tables, and nothing puts
-- another one there.
pub lag_compensation_twice :
    (defined : String → Bool)
    → let hook = fill defined (slot "FN_AllowLagCompensation" "FN_AllowLagCompensation") in
      (drop 49 (preprocess defined entity_api_table) ≡ hook ∷ [])
      × (drop 49 (preprocess defined entity_api_post_table) ≡ hook ∷ [])
lag_compensation_twice defined = (refl, refl)

abbrev macros : List Definition → List String
macros ds = map (λ (d : Definition). d.macro) ds

-- The definitions that the configuration offers are those that the tables test for, table by table and
-- slot by slot, but for the last one of the entity functions after the game's:
-- FN_AllowLagCompensation_Post stands in no table.
pub offered_hooks :
    (macros offered_entity_api ≡ guards entity_api_table)
    × (macros offered_engine_funcs ≡ guards engine_funcs_table)
    × (macros offered_engine_funcs_post ≡ guards engine_funcs_post_table)
    × (macros offered_new_funcs ≡ guards new_funcs_table)
    × (macros offered_new_funcs_post ≡ guards new_funcs_post_table)
    × (take 49 (macros offered_entity_api_post) ≡ take 49 (guards entity_api_post_table))
    × (drop 49 (macros offered_entity_api_post) ≡ "FN_AllowLagCompensation_Post" ∷ [])
offered_hooks = (refl, refl, refl, refl, refl, refl, refl)
