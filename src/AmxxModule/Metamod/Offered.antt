-- ===== src/AmxxModule/Metamod/Offered.antt =====
-- The hooks that src/sdk/moduleconfig.h offers under USE_METAMOD, each as a definition to be uncommented,
-- in their order.
use Prim.Native.String.{String, ◌++◌}
use amxx_mqtt_client.Prelude.{List, [], ◌∷◌, map}

-- #define macro function
pub record Definition : Type 0 where
  pub macro : String
  pub function : String

-- #define FN_name name
abbrev pub defines : List String → List Definition
defines names = map (λ (n : String). record { macro = "FN_" ++ n; function = n }) names

abbrev pub offered_entity_api : List Definition
offered_entity_api = defines (
    "GameDLLInit" ∷ "DispatchSpawn" ∷ "DispatchThink" ∷ "DispatchUse" ∷ "DispatchTouch"
    ∷ "DispatchBlocked" ∷ "DispatchKeyValue" ∷ "DispatchSave" ∷ "DispatchRestore"
    ∷ "DispatchObjectCollsionBox" ∷ "SaveWriteFields" ∷ "SaveReadFields" ∷ "SaveGlobalState"
    ∷ "RestoreGlobalState" ∷ "ResetGlobalState" ∷ "ClientConnect" ∷ "ClientDisconnect"
    ∷ "ClientKill" ∷ "ClientPutInServer" ∷ "ClientCommand" ∷ "ClientUserInfoChanged"
    ∷ "ServerActivate" ∷ "ServerDeactivate" ∷ "PlayerPreThink" ∷ "PlayerPostThink" ∷ "StartFrame"
    ∷ "ParmsNewLevel" ∷ "ParmsChangeLevel" ∷ "GetGameDescription" ∷ "PlayerCustomization"
    ∷ "SpectatorConnect" ∷ "SpectatorDisconnect" ∷ "SpectatorThink" ∷ "Sys_Error" ∷ "PM_Move"
    ∷ "PM_Init" ∷ "PM_FindTextureType" ∷ "SetupVisibility" ∷ "UpdateClientData" ∷ "AddToFullPack"
    ∷ "CreateBaseline" ∷ "RegisterEncoders" ∷ "GetWeaponData" ∷ "CmdStart" ∷ "CmdEnd"
    ∷ "ConnectionlessPacket" ∷ "GetHullBounds" ∷ "CreateInstancedBaselines" ∷ "InconsistentFile"
    ∷ "AllowLagCompensation" ∷ [])

abbrev pub offered_entity_api_post : List Definition
offered_entity_api_post = defines (
    "GameDLLInit_Post" ∷ "DispatchSpawn_Post" ∷ "DispatchThink_Post" ∷ "DispatchUse_Post"
    ∷ "DispatchTouch_Post" ∷ "DispatchBlocked_Post" ∷ "DispatchKeyValue_Post" ∷ "DispatchSave_Post"
    ∷ "DispatchRestore_Post" ∷ "DispatchObjectCollsionBox_Post" ∷ "SaveWriteFields_Post"
    ∷ "SaveReadFields_Post" ∷ "SaveGlobalState_Post" ∷ "RestoreGlobalState_Post"
    ∷ "ResetGlobalState_Post" ∷ "ClientConnect_Post" ∷ "ClientDisconnect_Post" ∷ "ClientKill_Post"
    ∷ "ClientPutInServer_Post" ∷ "ClientCommand_Post" ∷ "ClientUserInfoChanged_Post"
    ∷ "ServerActivate_Post" ∷ "ServerDeactivate_Post" ∷ "PlayerPreThink_Post"
    ∷ "PlayerPostThink_Post" ∷ "StartFrame_Post" ∷ "ParmsNewLevel_Post" ∷ "ParmsChangeLevel_Post"
    ∷ "GetGameDescription_Post" ∷ "PlayerCustomization_Post" ∷ "SpectatorConnect_Post"
    ∷ "SpectatorDisconnect_Post" ∷ "SpectatorThink_Post" ∷ "Sys_Error_Post" ∷ "PM_Move_Post"
    ∷ "PM_Init_Post" ∷ "PM_FindTextureType_Post" ∷ "SetupVisibility_Post" ∷ "UpdateClientData_Post"
    ∷ "AddToFullPack_Post" ∷ "CreateBaseline_Post" ∷ "RegisterEncoders_Post" ∷ "GetWeaponData_Post"
    ∷ "CmdStart_Post" ∷ "CmdEnd_Post" ∷ "ConnectionlessPacket_Post" ∷ "GetHullBounds_Post"
    ∷ "CreateInstancedBaselines_Post" ∷ "InconsistentFile_Post" ∷ "AllowLagCompensation_Post" ∷ [])

abbrev pub offered_engine_funcs : List Definition
offered_engine_funcs = defines (
    "PrecacheModel" ∷ "PrecacheSound" ∷ "SetModel" ∷ "ModelIndex" ∷ "ModelFrames" ∷ "SetSize"
    ∷ "ChangeLevel" ∷ "GetSpawnParms" ∷ "SaveSpawnParms" ∷ "VecToYaw" ∷ "VecToAngles"
    ∷ "MoveToOrigin" ∷ "ChangeYaw" ∷ "ChangePitch" ∷ "FindEntityByString" ∷ "GetEntityIllum"
    ∷ "FindEntityInSphere" ∷ "FindClientInPVS" ∷ "EntitiesInPVS" ∷ "MakeVectors" ∷ "AngleVectors"
    ∷ "CreateEntity" ∷ "RemoveEntity" ∷ "CreateNamedEntity" ∷ "MakeStatic" ∷ "EntIsOnFloor"
    ∷ "DropToFloor" ∷ "WalkMove" ∷ "SetOrigin" ∷ "EmitSound" ∷ "EmitAmbientSound" ∷ "TraceLine"
    ∷ "TraceToss" ∷ "TraceMonsterHull" ∷ "TraceHull" ∷ "TraceModel" ∷ "TraceTexture" ∷ "TraceSphere"
    ∷ "GetAimVector" ∷ "ServerCommand" ∷ "ServerExecute" ∷ "engClientCommand" ∷ "ParticleEffect"
    ∷ "LightStyle" ∷ "DecalIndex" ∷ "PointContents" ∷ "MessageBegin" ∷ "MessageEnd" ∷ "WriteByte"
    ∷ "WriteChar" ∷ "WriteShort" ∷ "WriteLong" ∷ "WriteAngle" ∷ "WriteCoord" ∷ "WriteString"
    ∷ "WriteEntity" ∷ "CVarRegister" ∷ "CVarGetFloat" ∷ "CVarGetString" ∷ "CVarSetFloat"
    ∷ "CVarSetString" ∷ "AlertMessage" ∷ "EngineFprintf" ∷ "PvAllocEntPrivateData"
    ∷ "PvEntPrivateData" ∷ "FreeEntPrivateData" ∷ "SzFromIndex" ∷ "AllocString" ∷ "GetVarsOfEnt"
    ∷ "PEntityOfEntOffset" ∷ "EntOffsetOfPEntity" ∷ "IndexOfEdict" ∷ "PEntityOfEntIndex"
    ∷ "FindEntityByVars" ∷ "GetModelPtr" ∷ "RegUserMsg" ∷ "AnimationAutomove" ∷ "GetBonePosition"
    ∷ "FunctionFromName" ∷ "NameForFunction" ∷ "ClientPrintf" ∷ "ServerPrint" ∷ "Cmd_Args"
    ∷ "Cmd_Argv" ∷ "Cmd_Argc" ∷ "GetAttachment" ∷ "CRC32_Init" ∷ "CRC32_ProcessBuffer"
    ∷ "CRC32_ProcessByte" ∷ "CRC32_Final" ∷ "RandomLong" ∷ "RandomFloat" ∷ "SetView" ∷ "Time"
    ∷ "CrosshairAngle" ∷ "LoadFileForMe" ∷ "FreeFile" ∷ "EndSection" ∷ "CompareFileTime"
    ∷ "GetGameDir" ∷ "Cvar_RegisterVariable" ∷ "FadeClientVolume" ∷ "SetClientMaxspeed"
    ∷ "CreateFakeClient" ∷ "RunPlayerMove" ∷ "NumberOfEntities" ∷ "GetInfoKeyBuffer"
    ∷ "InfoKeyValue" ∷ "SetKeyValue" ∷ "SetClientKeyValue" ∷ "IsMapValid" ∷ "StaticDecal"
    ∷ "PrecacheGeneric" ∷ "GetPlayerUserId" ∷ "BuildSoundMsg" ∷ "IsDedicatedServer"
    ∷ "CVarGetPointer" ∷ "GetPlayerWONId" ∷ "Info_RemoveKey" ∷ "GetPhysicsKeyValue"
    ∷ "SetPhysicsKeyValue" ∷ "GetPhysicsInfoString" ∷ "PrecacheEvent" ∷ "PlaybackEvent"
    ∷ "SetFatPVS" ∷ "SetFatPAS" ∷ "CheckVisibility" ∷ "DeltaSetField" ∷ "DeltaUnsetField"
    ∷ "DeltaAddEncoder" ∷ "GetCurrentPlayer" ∷ "CanSkipPlayer" ∷ "DeltaFindField"
    ∷ "DeltaSetFieldByIndex" ∷ "DeltaUnsetFieldByIndex" ∷ "SetGroupMask"
    ∷ "engCreateInstancedBaseline" ∷ "Cvar_DirectSet" ∷ "ForceUnmodified" ∷ "GetPlayerStats"
    ∷ "AddServerCommand" ∷ "Voice_GetClientListening" ∷ "Voice_SetClientListening"
    ∷ "GetPlayerAuthId" ∷ [])

abbrev pub offered_engine_funcs_post : List Definition
offered_engine_funcs_post = defines (
    "PrecacheModel_Post" ∷ "PrecacheSound_Post" ∷ "SetModel_Post" ∷ "ModelIndex_Post"
    ∷ "ModelFrames_Post" ∷ "SetSize_Post" ∷ "ChangeLevel_Post" ∷ "GetSpawnParms_Post"
    ∷ "SaveSpawnParms_Post" ∷ "VecToYaw_Post" ∷ "VecToAngles_Post" ∷ "MoveToOrigin_Post"
    ∷ "ChangeYaw_Post" ∷ "ChangePitch_Post" ∷ "FindEntityByString_Post" ∷ "GetEntityIllum_Post"
    ∷ "FindEntityInSphere_Post" ∷ "FindClientInPVS_Post" ∷ "EntitiesInPVS_Post" ∷ "MakeVectors_Post"
    ∷ "AngleVectors_Post" ∷ "CreateEntity_Post" ∷ "RemoveEntity_Post" ∷ "CreateNamedEntity_Post"
    ∷ "MakeStatic_Post" ∷ "EntIsOnFloor_Post" ∷ "DropToFloor_Post" ∷ "WalkMove_Post"
    ∷ "SetOrigin_Post" ∷ "EmitSound_Post" ∷ "EmitAmbientSound_Post" ∷ "TraceLine_Post"
    ∷ "TraceToss_Post" ∷ "TraceMonsterHull_Post" ∷ "TraceHull_Post" ∷ "TraceModel_Post"
    ∷ "TraceTexture_Post" ∷ "TraceSphere_Post" ∷ "GetAimVector_Post" ∷ "ServerCommand_Post"
    ∷ "ServerExecute_Post" ∷ "engClientCommand_Post" ∷ "ParticleEffect_Post" ∷ "LightStyle_Post"
    ∷ "DecalIndex_Post" ∷ "PointContents_Post" ∷ "MessageBegin_Post" ∷ "MessageEnd_Post"
    ∷ "WriteByte_Post" ∷ "WriteChar_Post" ∷ "WriteShort_Post" ∷ "WriteLong_Post" ∷ "WriteAngle_Post"
    ∷ "WriteCoord_Post" ∷ "WriteString_Post" ∷ "WriteEntity_Post" ∷ "CVarRegister_Post"
    ∷ "CVarGetFloat_Post" ∷ "CVarGetString_Post" ∷ "CVarSetFloat_Post" ∷ "CVarSetString_Post"
    ∷ "AlertMessage_Post" ∷ "EngineFprintf_Post" ∷ "PvAllocEntPrivateData_Post"
    ∷ "PvEntPrivateData_Post" ∷ "FreeEntPrivateData_Post" ∷ "SzFromIndex_Post" ∷ "AllocString_Post"
    ∷ "GetVarsOfEnt_Post" ∷ "PEntityOfEntOffset_Post" ∷ "EntOffsetOfPEntity_Post"
    ∷ "IndexOfEdict_Post" ∷ "PEntityOfEntIndex_Post" ∷ "FindEntityByVars_Post" ∷ "GetModelPtr_Post"
    ∷ "RegUserMsg_Post" ∷ "AnimationAutomove_Post" ∷ "GetBonePosition_Post"
    ∷ "FunctionFromName_Post" ∷ "NameForFunction_Post" ∷ "ClientPrintf_Post" ∷ "ServerPrint_Post"
    ∷ "Cmd_Args_Post" ∷ "Cmd_Argv_Post" ∷ "Cmd_Argc_Post" ∷ "GetAttachment_Post" ∷ "CRC32_Init_Post"
    ∷ "CRC32_ProcessBuffer_Post" ∷ "CRC32_ProcessByte_Post" ∷ "CRC32_Final_Post" ∷ "RandomLong_Post"
    ∷ "RandomFloat_Post" ∷ "SetView_Post" ∷ "Time_Post" ∷ "CrosshairAngle_Post"
    ∷ "LoadFileForMe_Post" ∷ "FreeFile_Post" ∷ "EndSection_Post" ∷ "CompareFileTime_Post"
    ∷ "GetGameDir_Post" ∷ "Cvar_RegisterVariable_Post" ∷ "FadeClientVolume_Post"
    ∷ "SetClientMaxspeed_Post" ∷ "CreateFakeClient_Post" ∷ "RunPlayerMove_Post"
    ∷ "NumberOfEntities_Post" ∷ "GetInfoKeyBuffer_Post" ∷ "InfoKeyValue_Post" ∷ "SetKeyValue_Post"
    ∷ "SetClientKeyValue_Post" ∷ "IsMapValid_Post" ∷ "StaticDecal_Post" ∷ "PrecacheGeneric_Post"
    ∷ "GetPlayerUserId_Post" ∷ "BuildSoundMsg_Post" ∷ "IsDedicatedServer_Post"
    ∷ "CVarGetPointer_Post" ∷ "GetPlayerWONId_Post" ∷ "Info_RemoveKey_Post"
    ∷ "GetPhysicsKeyValue_Post" ∷ "SetPhysicsKeyValue_Post" ∷ "GetPhysicsInfoString_Post"
    ∷ "PrecacheEvent_Post" ∷ "PlaybackEvent_Post" ∷ "SetFatPVS_Post" ∷ "SetFatPAS_Post"
    ∷ "CheckVisibility_Post" ∷ "DeltaSetField_Post" ∷ "DeltaUnsetField_Post"
    ∷ "DeltaAddEncoder_Post" ∷ "GetCurrentPlayer_Post" ∷ "CanSkipPlayer_Post"
    ∷ "DeltaFindField_Post" ∷ "DeltaSetFieldByIndex_Post" ∷ "DeltaUnsetFieldByIndex_Post"
    ∷ "SetGroupMask_Post" ∷ "engCreateInstancedBaseline_Post" ∷ "Cvar_DirectSet_Post"
    ∷ "ForceUnmodified_Post" ∷ "GetPlayerStats_Post" ∷ "AddServerCommand_Post"
    ∷ "Voice_GetClientListening_Post" ∷ "Voice_SetClientListening_Post" ∷ "GetPlayerAuthId_Post"
    ∷ [])

abbrev pub offered_new_funcs : List Definition
offered_new_funcs = defines ("OnFreeEntPrivateData" ∷ "GameShutdown" ∷ "ShouldCollide" ∷ [])

abbrev pub offered_new_funcs_post : List Definition
offered_new_funcs_post =
    defines ("OnFreeEntPrivateData_Post" ∷ "GameShutdown_Post" ∷ "ShouldCollide_Post" ∷ [])
