-- ===== src/AmxxModule/Metamod/NewFuncs.antt =====
-- g_NewFuncs_Table and g_NewFuncs_Post_Table of src/sdk/amxxmodule.cpp.
use amxx_mqtt_client.Prelude.{List, [], ◌∷◌}
use amxx_mqtt_client.AmxxModule.Metamod.Slots.{Slot, slot}

abbrev pub new_funcs_table : List Slot
new_funcs_table =
    slot "FN_OnFreeEntPrivateData" "FN_OnFreeEntPrivateData"
    ∷ slot "FN_GameShutdown" "FN_GameShutdown"
    ∷ slot "FN_ShouldCollide" "ShouldCollide"
    ∷ []

abbrev pub new_funcs_post_table : List Slot
new_funcs_post_table =
    slot "FN_OnFreeEntPrivateData_Post" "FN_OnFreeEntPrivateData_Post"
    ∷ slot "FN_GameShutdown_Post" "FN_GameShutdown_Post"
    ∷ slot "FN_ShouldCollide_Post" "ShouldCollide_Post"
    ∷ []
