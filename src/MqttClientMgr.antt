-- ===== src/MqttClientMgr.antt =====
-- src/MqttClientMgr.h and src/MqttClientMgr.cpp: the clients by handle. A handler that `make` binds
-- captures the handle alone, and is the handle here. The thread that owns the manager makes all the
-- calls, so that assertGameThread holds by construction.
pub mod Changes
pub mod Operations
use amxx_mqtt_client.Prelude.{
  ℕ, ◌+◌, ◌%◌, ◌^◌, Option, none, some, List, [], ◌∷◌, ◌++◌, if◌then◌else◌, leb, ltb, length,
}
use amxx_mqtt_client.IntMap.{IntMap, find, erase}
use amxx_mqtt_client.IntMap
use amxx_mqtt_client.External.{
  Cell, Text, Result, returns, throws, too_many_clients, handles_exhausted, History, External,
}
use amxx_mqtt_client.MqttClient.{Notice}
use amxx_mqtt_client.MqttClient
use amxx_mqtt_client.AmxxMqttClient.{AmxxMqttClient}
use amxx_mqtt_client.AmxxMqttClient

abbrev pub Handle : Type 0
Handle = Cell

abbrev pub Client : Type 0
Client = AmxxMqttClient Handle

-- m_nextHandle is a uint64_t.
pub record MqttClientMgr : Type 0 where
  pub clients : IntMap Client
  pub next_handle : ℕ

abbrev pub max_clients : ℕ
max_clients = 10000

-- std::numeric_limits<std::int32_t>::max()
abbrev pub max_handle : ℕ
max_handle = 2147483647

abbrev pub initial : MqttClientMgr
initial = record { clients = []; next_handle = 1 }

-- The four handlers that `make` binds, in its order.
unfoldable pub bind_handlers : Handle → Client → Client
unfolding MqttClient.set_connected_handler MqttClient.set_message_handler
    MqttClient.set_connection_lost_handler MqttClient.set_disconnect_handler
bind_handlers handle c =
    let b₁ = MqttClient.set_connected_handler c.base handle in
    let b₂ = MqttClient.set_message_handler b₁ handle in
    let b₃ = MqttClient.set_connection_lost_handler b₂ handle in
    record c { base = MqttClient.set_disconnect_handler b₃ handle }

-- m_clients.emplace(handle, client)
unfoldable pub emplace : IntMap Client → Handle → Client → IntMap Client
emplace m handle c = elim (find m handle) [ some _ ↦ m | none ↦ (handle, c) ∷ m ]

unfoldable pub make :
    External → Text → Text → MqttClientMgr → History → Result Cell × MqttClientMgr × History
unfolding bind_handlers emplace
make ext broker client_id m h =
    if leb max_clients (length m.clients)
    then (throws too_many_clients, m, h)
    else if ltb max_handle m.next_handle
    then (throws handles_exhausted, m, h)
    else let handle = m.next_handle % 2 ^ 32 in
      let (r, h') = AmxxMqttClient.construct ext broker client_id h in
      elim r [
        | throws e ↦ (throws e, m, h')
        | returns c ↦ (
          returns handle,
          record {
            clients = emplace m.clients handle (bind_handlers handle c);
            next_handle = (m.next_handle + 1) % 2 ^ 64;
          },
          h',
        )
      ]

unfoldable pub get_client : MqttClientMgr → Cell → Option Client
get_client m handle = find m.clients handle

-- `it->second`, written through the pointer that getClient returned.
unfoldable pub update : MqttClientMgr → Cell → Client → MqttClientMgr
update m handle c = record m { clients = IntMap.assign m.clients handle c }

unfoldable pub destroy :
    External → Cell → MqttClientMgr → History → MqttClientMgr × List (Notice Handle) × History
destroy ext handle m h = elim (find m.clients handle) [
  | none ↦ (m, [], h)
  | some c ↦
      let (ns, h') = AmxxMqttClient.destruct ext c h in
      (record m { clients = erase m.clients handle }, ns, h')
]

unfoldable pub destruct_all : External → IntMap Client → History → List (Notice Handle) × History
destruct_all ext [] h = ([], h)
destruct_all ext ((_, c) ∷ rest) h =
    let (ns, h') = AmxxMqttClient.destruct ext c h in
    let (ms, h'') = destruct_all ext rest h' in (ns ++ ms, h'')

-- The order in which the swapped map's clients die is that of the list.
unfoldable pub reset :
    External → MqttClientMgr → History → MqttClientMgr × List (Notice Handle) × History
unfolding destruct_all
reset ext m h = let (ns, h') = destruct_all ext m.clients h in (record m { clients = [] }, ns, h')
