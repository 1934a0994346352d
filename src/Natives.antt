-- ===== src/Natives.antt =====
-- g_natives of src/natives.cpp: the natives that AMX Mod X calls by name.
pub mod Args
pub mod Clients
pub mod Topics
pub mod Callbacks
pub mod Options
pub mod Effects
pub mod Requests
pub mod Reports
pub mod Forwards
pub mod Calls
pub mod Settings
pub mod Indices
pub mod Growth
pub mod Table
pub mod Deliveries
pub mod Leaks
use amxx_mqtt_client.Prelude.{List}
use amxx_mqtt_client.External.{Cell, External, NativeName}
use amxx_mqtt_client.World.{World}

unfoldable pub call : External → NativeName → List Cell → World → Cell × World
call ext NativeName.mqtt_create params w = Clients.mqtt_create ext params w
call ext NativeName.mqtt_destroy params w = Clients.mqtt_destroy ext params w
call ext NativeName.mqtt_connect params w = Clients.mqtt_connect ext params w
call ext NativeName.mqtt_disconnect params w = Clients.mqtt_disconnect ext params w
call ext NativeName.mqtt_is_connect params w = Clients.mqtt_is_connect ext params w
call ext NativeName.mqtt_subscribe params w = Topics.mqtt_subscribe ext params w
call ext NativeName.mqtt_unsubscribe params w = Topics.mqtt_unsubscribe ext params w
call ext NativeName.mqtt_publish params w = Topics.mqtt_publish ext params w
call ext NativeName.mqtt_set_connected_callback params w =
    Callbacks.mqtt_set_connected_callback ext params w
call ext NativeName.mqtt_set_message_callback params w =
    Callbacks.mqtt_set_message_callback ext params w
call ext NativeName.mqtt_set_connection_lost_callback params w =
    Callbacks.mqtt_set_connection_lost_callback ext params w
call ext NativeName.mqtt_set_disconnected_callback params w =
    Callbacks.mqtt_set_disconnected_callback ext params w
call ext NativeName.mqtt_create_connect_options params w = Options.mqtt_create_connect_options w
call ext NativeName.mqtt_set_options params w = Options.mqtt_set_options ext params w
