-- ===== src/AmxxModule/Metamod/EntityApi.antt =====
-- g_EntityAPI_Table and g_EntityAPI_Post_Table of src/sdk/amxxmodule.cpp.
use amxx_mqtt_client.Prelude.{List, [], ◌∷◌}
use amxx_mqtt_client.AmxxModule.Metamod.Slots.{Slot, tested}

abbrev pub entity_api_table : List Slot
entity_api_table = tested (
    "FN_GameDLLInit" ∷ "FN_DispatchSpawn" ∷ "FN_DispatchThink" ∷ "FN_DispatchUse"
    ∷ "FN_DispatchTouch" ∷ "FN_DispatchBlocked" ∷ "FN_DispatchKeyValue" ∷ "FN_DispatchSave"
    ∷ "FN_DispatchRestore" ∷ "FN_DispatchObjectCollsionBox" ∷ "FN_SaveWriteFields"
    ∷ "FN_SaveReadFields" ∷ "FN_SaveGlobalState" ∷ "FN_RestoreGlobalState" ∷ "FN_ResetGlobalState"
    ∷ "FN_ClientConnect" ∷ "FN_ClientDisconnect" ∷ "FN_ClientKill" ∷ "FN_ClientPutInServer"
    ∷ "FN_ClientCommand" ∷ "FN_ClientUserInfoChanged" ∷ "FN_ServerActivate" ∷ "FN_ServerDeactivate"
    ∷ "FN_PlayerPreThink" ∷ "FN_PlayerPostThink" ∷ "FN_StartFrame" ∷ "FN_ParmsNewLevel"
    ∷ "FN_ParmsChangeLevel" ∷ "FN_GetGameDescription" ∷ "FN_PlayerCustomization"
    ∷ "FN_SpectatorConnect" ∷ "FN_SpectatorDisconnect" ∷ "FN_SpectatorThink" ∷ "FN_Sys_Error"
    ∷ "FN_PM_Move" ∷ "FN_PM_Init" ∷ "FN_PM_FindTextureType" ∷ "FN_SetupVisibility"
    ∷ "FN_UpdateClientData" ∷ "FN_AddToFullPack" ∷ "FN_CreateBaseline" ∷ "FN_RegisterEncoders"
    ∷ "FN_GetWeaponData" ∷ "FN_CmdStart" ∷ "FN_CmdEnd" ∷ "FN_ConnectionlessPacket"
    ∷ "FN_GetHullBounds" ∷ "FN_CreateInstancedBaselines" ∷ "FN_InconsistentFile"
    ∷ "FN_AllowLagCompensation" ∷ [])

abbrev pub entity_api_post_table : List Slot
entity_api_post_table = tested (
    "FN_GameDLLInit_Post" ∷ "FN_DispatchSpawn_Post" ∷ "FN_DispatchThink_Post"
    ∷ "FN_DispatchUse_Post" ∷ "FN_DispatchTouch_Post" ∷ "FN_DispatchBlocked_Post"
    ∷ "FN_DispatchKeyValue_Post" ∷ "FN_DispatchSave_Post" ∷ "FN_DispatchRestore_Post"
    ∷ "FN_DispatchObjectCollsionBox_Post" ∷ "FN_SaveWriteFields_Post" ∷ "FN_SaveReadFields_Post"
    ∷ "FN_SaveGlobalState_Post" ∷ "FN_RestoreGlobalState_Post" ∷ "FN_ResetGlobalState_Post"
    ∷ "FN_ClientConnect_Post" ∷ "FN_ClientDisconnect_Post" ∷ "FN_ClientKill_Post"
    ∷ "FN_ClientPutInServer_Post" ∷ "FN_ClientCommand_Post" ∷ "FN_ClientUserInfoChanged_Post"
    ∷ "FN_ServerActivate_Post" ∷ "FN_ServerDeactivate_Post" ∷ "FN_PlayerPreThink_Post"
    ∷ "FN_PlayerPostThink_Post" ∷ "FN_StartFrame_Post" ∷ "FN_ParmsNewLevel_Post"
    ∷ "FN_ParmsChangeLevel_Post" ∷ "FN_GetGameDescription_Post" ∷ "FN_PlayerCustomization_Post"
    ∷ "FN_SpectatorConnect_Post" ∷ "FN_SpectatorDisconnect_Post" ∷ "FN_SpectatorThink_Post"
    ∷ "FN_Sys_Error_Post" ∷ "FN_PM_Move_Post" ∷ "FN_PM_Init_Post" ∷ "FN_PM_FindTextureType_Post"
    ∷ "FN_SetupVisibility_Post" ∷ "FN_UpdateClientData_Post" ∷ "FN_AddToFullPack_Post"
    ∷ "FN_CreateBaseline_Post" ∷ "FN_RegisterEncoders_Post" ∷ "FN_GetWeaponData_Post"
    ∷ "FN_CmdStart_Post" ∷ "FN_CmdEnd_Post" ∷ "FN_ConnectionlessPacket_Post"
    ∷ "FN_GetHullBounds_Post" ∷ "FN_CreateInstancedBaselines_Post" ∷ "FN_InconsistentFile_Post"
    ∷ "FN_AllowLagCompensation" ∷ [])
