-- ===== src/AmxxModule/Config.antt =====
-- src/sdk/moduleconfig.h, and what src/sdk/amxxmodule.cpp makes of it: the description of the module.
use Prim.Native.String.{String}
use amxx_mqtt_client.Prelude.{ℕ}

-- amxx_module_info_s of src/sdk/amxxmodule.h
pub record ModuleInfo : Type 0 where
  pub name : String
  pub author : String
  pub version : String
  pub reload : ℕ
  pub logtag : String
  pub library : String
  pub libclass : String

abbrev pub module_name : String
module_name = "AmxxMqttClient"

abbrev pub module_version : String
module_version = "1.0-beta"

abbrev pub module_author : String
module_author = "h0mev"

abbrev pub module_logtag : String
module_logtag = "MC"

abbrev pub module_library : String
module_library = "mqtt_client"

abbrev pub module_libclass : String
module_libclass = "mqtt_client"

-- g_ModuleInfo. MODULE_RELOAD_ON_MAPCHANGE is not defined.
abbrev pub module_info : ModuleInfo
module_info = record {
  name = module_name;
  author = module_author;
  version = module_version;
  reload = 0;
  logtag = module_logtag;
  library = module_library;
  libclass = module_libclass;
}

-- AMXX_INTERFACE_VERSION
abbrev pub interface_version : ℕ
interface_version = 4
