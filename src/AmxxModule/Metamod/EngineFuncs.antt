-- ===== src/AmxxModule/Metamod/EngineFuncs.antt =====
-- g_EngineFuncs_Table and g_EngineFuncs_Post_Table of src/sdk/amxxmodule.cpp.
use amxx_mqtt_client.Prelude.{List, [], ◌∷◌}
use amxx_mqtt_client.AmxxModule.Metamod.Slots.{Slot, tested}

abbrev pub engine_funcs_table : List Slot
engine_funcs_table = tested (
    "FN_PrecacheModel" ∷ "FN_PrecacheSound" ∷ "FN_SetModel" ∷ "FN_ModelIndex" ∷ "FN_ModelFrames"
    ∷ "FN_SetSize" ∷ "FN_ChangeLevel" ∷ "FN_GetSpawnParms" ∷ "FN_SaveSpawnParms" ∷ "FN_VecToYaw"
    ∷ "FN_VecToAngles" ∷ "FN_MoveToOrigin" ∷ "FN_ChangeYaw" ∷ "FN_ChangePitch"
    ∷ "FN_FindEntityByString" ∷ "FN_GetEntityIllum" ∷ "FN_FindEntityInSphere" ∷ "FN_FindClientInPVS"
    ∷ "FN_EntitiesInPVS" ∷ "FN_MakeVectors" ∷ "FN_AngleVectors" ∷ "FN_CreateEntity"
    ∷ "FN_RemoveEntity" ∷ "FN_CreateNamedEntity" ∷ "FN_MakeStatic" ∷ "FN_EntIsOnFloor"
    ∷ "FN_DropToFloor" ∷ "FN_WalkMove" ∷ "FN_SetOrigin" ∷ "FN_EmitSound" ∷ "FN_EmitAmbientSound"
    ∷ "FN_TraceLine" ∷ "FN_TraceToss" ∷ "FN_TraceMonsterHull" ∷ "FN_TraceHull" ∷ "FN_TraceModel"
    ∷ "FN_TraceTexture" ∷ "FN_TraceSphere" ∷ "FN_GetAimVector" ∷ "FN_ServerCommand"
    ∷ "FN_ServerExecute" ∷ "FN_engClientCommand" ∷ "FN_ParticleEffect" ∷ "FN_LightStyle"
    ∷ "FN_DecalIndex" ∷ "FN_PointContents" ∷ "FN_MessageBegin" ∷ "FN_MessageEnd" ∷ "FN_WriteByte"
    ∷ "FN_WriteChar" ∷ "FN_WriteShort" ∷ "FN_WriteLong" ∷ "FN_WriteAngle" ∷ "FN_WriteCoord"
    ∷ "FN_WriteString" ∷ "FN_WriteEntity" ∷ "FN_CVarRegister" ∷ "FN_CVarGetFloat"
    ∷ "FN_CVarGetString" ∷ "FN_CVarSetFloat" ∷ "FN_CVarSetString" ∷ "FN_AlertMessage"
    ∷ "FN_EngineFprintf" ∷ "FN_PvAllocEntPrivateData" ∷ "FN_PvEntPrivateData"
    ∷ "FN_FreeEntPrivateData" ∷ "FN_SzFromIndex" ∷ "FN_AllocString" ∷ "FN_GetVarsOfEnt"
    ∷ "FN_PEntityOfEntOffset" ∷ "FN_EntOffsetOfPEntity" ∷ "FN_IndexOfEdict" ∷ "FN_PEntityOfEntIndex"
    ∷ "FN_FindEntityByVars" ∷ "FN_GetModelPtr" ∷ "FN_RegUserMsg" ∷ "FN_AnimationAutomove"
    ∷ "FN_GetBonePosition" ∷ "FN_FunctionFromName" ∷ "FN_NameForFunction" ∷ "FN_ClientPrintf"
    ∷ "FN_ServerPrint" ∷ "FN_Cmd_Args" ∷ "FN_Cmd_Argv" ∷ "FN_Cmd_Argc" ∷ "FN_GetAttachment"
    ∷ "FN_CRC32_Init" ∷ "FN_CRC32_ProcessBuffer" ∷ "FN_CRC32_ProcessByte" ∷ "FN_CRC32_Final"
    ∷ "FN_RandomLong" ∷ "FN_RandomFloat" ∷ "FN_SetView" ∷ "FN_Time" ∷ "FN_CrosshairAngle"
    ∷ "FN_LoadFileForMe" ∷ "FN_FreeFile" ∷ "FN_EndSection" ∷ "FN_CompareFileTime" ∷ "FN_GetGameDir"
    ∷ "FN_Cvar_RegisterVariable" ∷ "FN_FadeClientVolume" ∷ "FN_SetClientMaxspeed"
    ∷ "FN_CreateFakeClient" ∷ "FN_RunPlayerMove" ∷ "FN_NumberOfEntities" ∷ "FN_GetInfoKeyBuffer"
    ∷ "FN_InfoKeyValue" ∷ "FN_SetKeyValue" ∷ "FN_SetClientKeyValue" ∷ "FN_IsMapValid"
    ∷ "FN_StaticDecal" ∷ "FN_PrecacheGeneric" ∷ "FN_GetPlayerUserId" ∷ "FN_BuildSoundMsg"
    ∷ "FN_IsDedicatedServer" ∷ "FN_CVarGetPointer" ∷ "FN_GetPlayerWONId" ∷ "FN_Info_RemoveKey"
    ∷ "FN_GetPhysicsKeyValue" ∷ "FN_SetPhysicsKeyValue" ∷ "FN_GetPhysicsInfoString"
    ∷ "FN_PrecacheEvent" ∷ "FN_PlaybackEvent" ∷ "FN_SetFatPVS" ∷ "FN_SetFatPAS"
    ∷ "FN_CheckVisibility" ∷ "FN_DeltaSetField" ∷ "FN_DeltaUnsetField" ∷ "FN_DeltaAddEncoder"
    ∷ "FN_GetCurrentPlayer" ∷ "FN_CanSkipPlayer" ∷ "FN_DeltaFindField" ∷ "FN_DeltaSetFieldByIndex"
    ∷ "FN_DeltaUnsetFieldByIndex" ∷ "FN_SetGroupMask" ∷ "FN_engCreateInstancedBaseline"
    ∷ "FN_Cvar_DirectSet" ∷ "FN_ForceUnmodified" ∷ "FN_GetPlayerStats" ∷ "FN_AddServerCommand"
    ∷ "FN_Voice_GetClientListening" ∷ "FN_Voice_SetClientListening" ∷ "FN_GetPlayerAuthId" ∷ [])

abbrev pub engine_funcs_post_table : List Slot
engine_funcs_post_table = tested (
    "FN_PrecacheModel_Post" ∷ "FN_PrecacheSound_Post" ∷ "FN_SetModel_Post" ∷ "FN_ModelIndex_Post"
    ∷ "FN_ModelFrames_Post" ∷ "FN_SetSize_Post" ∷ "FN_ChangeLevel_Post" ∷ "FN_GetSpawnParms_Post"
    ∷ "FN_SaveSpawnParms_Post" ∷ "FN_VecToYaw_Post" ∷ "FN_VecToAngles_Post" ∷ "FN_MoveToOrigin_Post"
    ∷ "FN_ChangeYaw_Post" ∷ "FN_ChangePitch_Post" ∷ "FN_FindEntityByString_Post"
    ∷ "FN_GetEntityIllum_Post" ∷ "FN_FindEntityInSphere_Post" ∷ "FN_FindClientInPVS_Post"
    ∷ "FN_EntitiesInPVS_Post" ∷ "FN_MakeVectors_Post" ∷ "FN_AngleVectors_Post"
    ∷ "FN_CreateEntity_Post" ∷ "FN_RemoveEntity_Post" ∷ "FN_CreateNamedEntity_Post"
    ∷ "FN_MakeStatic_Post" ∷ "FN_EntIsOnFloor_Post" ∷ "FN_DropToFloor_Post" ∷ "FN_WalkMove_Post"
    ∷ "FN_SetOrigin_Post" ∷ "FN_EmitSound_Post" ∷ "FN_EmitAmbientSound_Post" ∷ "FN_TraceLine_Post"
    ∷ "FN_TraceToss_Post" ∷ "FN_TraceMonsterHull_Post" ∷ "FN_TraceHull_Post" ∷ "FN_TraceModel_Post"
    ∷ "FN_TraceTexture_Post" ∷ "FN_TraceSphere_Post" ∷ "FN_GetAimVector_Post"
    ∷ "FN_ServerCommand_Post" ∷ "FN_ServerExecute_Post" ∷ "FN_engClientCommand_Post"
    ∷ "FN_ParticleEffect_Post" ∷ "FN_LightStyle_Post" ∷ "FN_DecalIndex_Post"
    ∷ "FN_PointContents_Post" ∷ "FN_MessageBegin_Post" ∷ "FN_MessageEnd_Post" ∷ "FN_WriteByte_Post"
    ∷ "FN_WriteChar_Post" ∷ "FN_WriteShort_Post" ∷ "FN_WriteLong_Post" ∷ "FN_WriteAngle_Post"
    ∷ "FN_WriteCoord_Post" ∷ "FN_WriteString_Post" ∷ "FN_WriteEntity_Post" ∷ "FN_CVarRegister_Post"
    ∷ "FN_CVarGetFloat_Post" ∷ "FN_CVarGetString_Post" ∷ "FN_CVarSetFloat_Post"
    ∷ "FN_CVarSetString_Post" ∷ "FN_AlertMessage_Post" ∷ "FN_EngineFprintf_Post"
    ∷ "FN_PvAllocEntPrivateData_Post" ∷ "FN_PvEntPrivateData_Post" ∷ "FN_FreeEntPrivateData_Post"
    ∷ "FN_SzFromIndex_Post" ∷ "FN_AllocString_Post" ∷ "FN_GetVarsOfEnt_Post"
    ∷ "FN_PEntityOfEntOffset_Post" ∷ "FN_EntOffsetOfPEntity_Post" ∷ "FN_IndexOfEdict_Post"
    ∷ "FN_PEntityOfEntIndex_Post" ∷ "FN_FindEntityByVars_Post" ∷ "FN_GetModelPtr_Post"
    ∷ "FN_RegUserMsg_Post" ∷ "FN_AnimationAutomove_Post" ∷ "FN_GetBonePosition_Post"
    ∷ "FN_FunctionFromName_Post" ∷ "FN_NameForFunction_Post" ∷ "FN_ClientPrintf_Post"
    ∷ "FN_ServerPrint_Post" ∷ "FN_Cmd_Args_Post" ∷ "FN_Cmd_Argv_Post" ∷ "FN_Cmd_Argc_Post"
    ∷ "FN_GetAttachment_Post" ∷ "FN_CRC32_Init_Post" ∷ "FN_CRC32_ProcessBuffer_Post"
    ∷ "FN_CRC32_ProcessByte_Post" ∷ "FN_CRC32_Final_Post" ∷ "FN_RandomLong_Post"
    ∷ "FN_RandomFloat_Post" ∷ "FN_SetView_Post" ∷ "FN_Time_Post" ∷ "FN_CrosshairAngle_Post"
    ∷ "FN_LoadFileForMe_Post" ∷ "FN_FreeFile_Post" ∷ "FN_EndSection_Post"
    ∷ "FN_CompareFileTime_Post" ∷ "FN_GetGameDir_Post" ∷ "FN_Cvar_RegisterVariable_Post"
    ∷ "FN_FadeClientVolume_Post" ∷ "FN_SetClientMaxspeed_Post" ∷ "FN_CreateFakeClient_Post"
    ∷ "FN_RunPlayerMove_Post" ∷ "FN_NumberOfEntities_Post" ∷ "FN_GetInfoKeyBuffer_Post"
    ∷ "FN_InfoKeyValue_Post" ∷ "FN_SetKeyValue_Post" ∷ "FN_SetClientKeyValue_Post"
    ∷ "FN_IsMapValid_Post" ∷ "FN_StaticDecal_Post" ∷ "FN_PrecacheGeneric_Post"
    ∷ "FN_GetPlayerUserId_Post" ∷ "FN_BuildSoundMsg_Post" ∷ "FN_IsDedicatedServer_Post"
    ∷ "FN_CVarGetPointer_Post" ∷ "FN_GetPlayerWONId_Post" ∷ "FN_Info_RemoveKey_Post"
    ∷ "FN_GetPhysicsKeyValue_Post" ∷ "FN_SetPhysicsKeyValue_Post" ∷ "FN_GetPhysicsInfoString_Post"
    ∷ "FN_PrecacheEvent_Post" ∷ "FN_PlaybackEvent_Post" ∷ "FN_SetFatPVS_Post" ∷ "FN_SetFatPAS_Post"
    ∷ "FN_CheckVisibility_Post" ∷ "FN_DeltaSetField_Post" ∷ "FN_DeltaUnsetField_Post"
    ∷ "FN_DeltaAddEncoder_Post" ∷ "FN_GetCurrentPlayer_Post" ∷ "FN_CanSkipPlayer_Post"
    ∷ "FN_DeltaFindField_Post" ∷ "FN_DeltaSetFieldByIndex_Post" ∷ "FN_DeltaUnsetFieldByIndex_Post"
    ∷ "FN_SetGroupMask_Post" ∷ "FN_engCreateInstancedBaseline_Post" ∷ "FN_Cvar_DirectSet_Post"
    ∷ "FN_ForceUnmodified_Post" ∷ "FN_GetPlayerStats_Post" ∷ "FN_AddServerCommand_Post"
    ∷ "FN_Voice_GetClientListening_Post" ∷ "FN_Voice_SetClientListening_Post"
    ∷ "FN_GetPlayerAuthId_Post" ∷ [])
