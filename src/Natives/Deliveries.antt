-- ===== src/Natives/Deliveries.antt =====
-- From a native of src/natives.cpp that registers a forward to ExecuteCallback of
-- src/CallbackDispatcher.cpp, which executes it: which arguments the plugin's function is given.
use amxx_mqtt_client.Prelude.{
  ◌≡◌, ◌≢◌, ◌≤◌, refl, ap, ◌∙◌, Bool, true, false, some, List, [], ◌∷◌, arith,
}
use amxx_mqtt_client.IntMap.{find-assign}
use amxx_mqtt_client.External.{
  Cell, minus_one, execute_forward, Argument, cell, string, External, NativeName, ParamType,
  fp_cell, fp_string,
}
use amxx_mqtt_client.AmxxMqttClient
use amxx_mqtt_client.MqttClientMgr
use amxx_mqtt_client.MqttClientMgr.{Client, Handle, get_client}
use amxx_mqtt_client.CallbackDispatcher.{
  CallbackEvent, CallbackType, connected, message, connection_lost, disconnected, forward_of,
  arguments_of, forward_call,
}
use amxx_mqtt_client.World.{World}
use amxx_mqtt_client.ServerFrame.{resolve}
use amxx_mqtt_client.Natives
use amxx_mqtt_client.Natives.Args.{param, arg_count}
use amxx_mqtt_client.Natives.Callbacks.{
  connected_types, message_types, connection_lost_types, disconnected_types,
  mqtt_set_connected_callback, mqtt_set_message_callback, mqtt_set_connection_lost_callback,
  mqtt_set_disconnected_callback,
}
use amxx_mqtt_client.Natives.Forwards.{new_id}

-- The native that sets the forward for a kind of event, and the parameters that it registers.
abbrev pub setter : CallbackType → NativeName
setter connected = NativeName.mqtt_set_connected_callback
setter message = NativeName.mqtt_set_message_callback
setter connection_lost = NativeName.mqtt_set_connection_lost_callback
setter disconnected = NativeName.mqtt_set_disconnected_callback

abbrev pub registered_types : CallbackType → List ParamType
registered_types connected = connected_types
registered_types message = message_types
registered_types connection_lost = connection_lost_types
registered_types disconnected = disconnected_types

abbrev pub fits : ParamType → Argument → Bool
fits fp_cell (cell _) = true
fits fp_string (string _) = true
fits _ _ = false

-- As many arguments as parameters, each of its parameter's type.
abbrev pub Fit : List ParamType → List Argument → Type 0
Fit [] [] = Unit
Fit (t ∷ ts) (a ∷ as') = (fits t a ≡ true) × Fit ts as'
Fit _ _ = ⊥

-- The arguments of an event's forward.
abbrev pub given : CallbackEvent → List Argument
given e = cell e.handle ∷ arguments_of e.type e

given-Fit : (t : CallbackType) (e : CallbackEvent) → e.type ≡ t → Fit (registered_types t) (given e)
unfolding arguments_of
given-Fit t e h = rw h (go t (record e { type = t }))
  where
    go :
        (t : CallbackType) (e : CallbackEvent)
        → Fit (registered_types t) (cell e.handle ∷ arguments_of t e)
    go connected e = (refl, tt)
    go message e = (refl, (refl, (refl, tt)))
    go connection_lost e = (refl, (refl, tt))
    go disconnected e = (refl, (refl, tt))

-- The event's forward, once the client under its handle has one.
resolve_set :
    (e : CallbackEvent) (w v : World) (k : Handle) (d : Client) (id : Cell)
    → v.mgr ≡ MqttClientMgr.update w.mgr k d
    → e.handle ≡ k
    → forward_of d e.type ≡ id
    → id ≢ minus_one
    → resolve e v ≡ some (execute_forward id (given e))
unfolding resolve forward_call get_client MqttClientMgr.update
resolve_set e w v k d id same own to set =
    ground (arith, same, own, to, find-assign w.mgr.clients k k d)

-- The client with the forward that a native gives it.
abbrev pub with_forward : CallbackType → Client → Cell → Client
with_forward connected c id = record c { on_connected_forward_id = id }
with_forward message c id = record c { on_message_forward_id = id }
with_forward connection_lost c id = record c { on_connection_lost_forward_id = id }
with_forward disconnected c id = record c { on_disconnect_forward_id = id }

pub forward_of-with_forward :
    (t : CallbackType) (c : Client) (id : Cell) → forward_of (with_forward t c id) t ≡ id
unfolding forward_of
forward_of-with_forward connected c id = refl
forward_of-with_forward message c id = refl
forward_of-with_forward connection_lost c id = refl
forward_of-with_forward disconnected c id = refl

module _ (ext : External) (params : List Cell) (w : World) (c : Client) where
  pub setter-mgr :
      (t : CallbackType)
      → 2 ≤ arg_count params
      → get_client w.mgr (param params 1) ≡ some c
      → new_id ext params w c (registered_types t) ≢ minus_one
      → (Natives.call ext (setter t) params w).1.mgr
        ≡ MqttClientMgr.update w.mgr
            (param params 1)
            (with_forward t c (new_id ext params w c (registered_types t)))
  unfolding Natives.call mqtt_set_connected_callback mqtt_set_message_callback
      mqtt_set_connection_lost_callback mqtt_set_disconnected_callback
      AmxxMqttClient.set_on_connected_forward_id AmxxMqttClient.set_on_message_forward_id
      AmxxMqttClient.set_on_connection_lost_forward_id AmxxMqttClient.set_disconnect_forward_id
  setter-mgr connected enough f n = ground arith
  setter-mgr message enough f n = ground arith
  setter-mgr connection_lost enough f n = ground arith
  setter-mgr disconnected enough f n = ground arith

  -- After a plugin has set the callback for a kind of event, with enough arguments, a live client and
  -- a function that AMX Mod X finds, an event of that kind for that client executes the forward that
  -- was registered then, with the client's handle and what the event carries: as many arguments as
  -- the forward was registered with, each of the type that was registered.
  pub set_callback_delivers :
      (t : CallbackType) (e : CallbackEvent)
      → 2 ≤ arg_count params
      → get_client w.mgr (param params 1) ≡ some c
      → new_id ext params w c (registered_types t) ≢ minus_one
      → e.type ≡ t
      → e.handle ≡ param params 1
      → (resolve e (Natives.call ext (setter t) params w).1
          ≡ some (execute_forward (new_id ext params w c (registered_types t)) (given e)))
        × Fit (registered_types t) (given e)
  set_callback_delivers t e enough f n kind own =
      let id = new_id ext params w c (registered_types t) in
      let to : forward_of (with_forward t c id) e.type ≡ id =
        ap (forward_of (with_forward t c id)) kind ∙ forward_of-with_forward t c id in
      (
        resolve_set e w (Natives.call ext (setter t) params w).1 (param params 1)
            (with_forward t c id) id (setter-mgr t enough f n) own to n,
        given-Fit t e kind,
      )
