-- ===== src/AmxxModule/Exports.antt =====
-- The exports of src/sdk/amxxmodule.cpp: what AMX Mod X calls, with the functions of src/module.cpp that
-- src/sdk/moduleconfig.h names for FN_AMXX_CHECKGAME and the others.
pub mod Attaching
pub mod Handshake
use amxx_mqtt_client.Prelude.{ℕ, Option, none, some, ◌==◌, if◌then◌else◌}
use amxx_mqtt_client.External.{Cell, External}
use amxx_mqtt_client.World.{World}
use amxx_mqtt_client.RehldsFrameHook.{Engine}
use amxx_mqtt_client.Module.{
  GameStatus, on_amxx_check_game, on_amxx_attach, on_amxx_detach, on_plugins_loaded,
  on_plugins_unloading,
}
use amxx_mqtt_client.AmxxModule.Functions.{Function, Pointers, store, unset}
use amxx_mqtt_client.AmxxModule.Config.{ModuleInfo, module_info, interface_version}
use amxx_mqtt_client.AmxxModule.Requests.{
  Status, ok, wrong_interface, invalid_param, func_not_present, Core, requests, request_all,
}

-- The globals g_fn_..., and those of the other files.
pub record Loaded : Type 0 where
  pub pointers : Pointers
  pub world : World

abbrev pub just_loaded : World → Loaded
just_loaded w = record { pointers = unset; world = w }

-- The two pointers may be null. What they point to is returned.
unfoldable pub amxx_query :
    Option Cell → Option ModuleInfo → Status × Option Cell × Option ModuleInfo
amxx_query none info = (invalid_param, none, info)
amxx_query (some v) none = (invalid_param, some v, none)
amxx_query (some v) (some info) =
    if v == interface_version
    then (ok, some v, some module_info)
    else (wrong_interface, some interface_version, some info)

unfoldable pub amxx_check_game : Engine → Loaded → GameStatus × Loaded
amxx_check_game e l =
    let (status, w) = on_amxx_check_game e l.world in (status, record l { world = w })

-- The core's function for requests, by its address and what it answers.
abbrev pub Requester : Type 0
Requester = ℕ × Core

-- What follows the requests.
abbrev pub linked : Engine → World → Status × Pointers → Status × Loaded
linked e w (ok, ps) = (ok, record { pointers = ps; world = on_amxx_attach e w })
linked e w (s, ps) = (s, record { pointers = ps; world = w })

unfoldable pub amxx_attach : Engine → Option Requester → Loaded → Status × Loaded
unfolding request_all
amxx_attach e none l = (invalid_param, l)
amxx_attach e (some (address, core)) l =
    linked e l.world
      (request_all core requests (store l.pointers Function.request_function (some address)))

unfoldable pub amxx_detach : External → Loaded → Status × Loaded
amxx_detach ext l = (ok, record l { world = on_amxx_detach ext l.world })

unfoldable pub amxx_plugins_loaded : Loaded → Status × Loaded
amxx_plugins_loaded l = (ok, record l { world = on_plugins_loaded l.world })

-- FN_AMXX_PLUGINSUNLOADED is not defined.
unfoldable pub amxx_plugins_unloaded : Loaded → Loaded
amxx_plugins_unloaded l = l

unfoldable pub amxx_plugins_unloading : External → Loaded → Loaded
amxx_plugins_unloading ext l = record l { world = on_plugins_unloading ext l.world }
