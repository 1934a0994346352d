-- ===== src/AmxxModule/Exports/Handshake.antt =====
-- AMXX_Query of src/sdk/amxxmodule.cpp: how the core and the module agree on the interface.
use amxx_mqtt_client.Prelude.{◌≡◌, ◌↔◌, some, arith, ◌==◌, Bool-cases, inl, inr}
use amxx_mqtt_client.External.{Cell}
use amxx_mqtt_client.AmxxModule.Config.{ModuleInfo, module_info, interface_version}
use amxx_mqtt_client.AmxxModule.Requests.{ok}
use amxx_mqtt_client.AmxxModule.Exports.{amxx_query}

-- AMXX_Query with two pointers succeeds exactly for the version of its interface. A core that asks
-- again with what the first answer left behind the pointers succeeds, whatever version it first named,
-- and has the description of the module then.
pub amxx_query_agrees :
    (v : Cell) (info : ModuleInfo)
    → let first = amxx_query (some v) (some info) in
      ((first.0 ≡ ok) ↔ (v ≡ interface_version))
      × (amxx_query first.1 first.2 ≡ (ok, some interface_version, some module_info))
unfolding amxx_query
amxx_query_agrees v info = elim (Bool-cases (v == interface_version)) [
  | inl same ↦ ground (arith, same)
  | inr other ↦ ground (arith, other)
]
