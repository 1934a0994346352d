-- ===== src/System/Interleaving/Farewell.antt =====
-- What is left of a destruction, done at once, and that it is all of it at the start.
use amxx_mqtt_client.Prelude.{◌≡◌, ◌∙◌, refl, ap, false, some, List, [], ◌∷◌, arith, ltb}
use amxx_mqtt_client.IntMap.{IntMap, find, erase, assign}
use amxx_mqtt_client.External.{Cell, Call, History, External}
use amxx_mqtt_client.MqttClient
use amxx_mqtt_client.MqttClient.{MqttClient}
use amxx_mqtt_client.AmxxMqttClient
use amxx_mqtt_client.MqttClientMgr
use amxx_mqtt_client.MqttClientMgr.{Handle, Client, destruct_all}
use amxx_mqtt_client.MqttClientMgr.Operations.{reset-silent, destroy-silent}
use amxx_mqtt_client.CallbackDispatcher.{dispatch_all}
use amxx_mqtt_client.World.{World}
use amxx_mqtt_client.Natives
use amxx_mqtt_client.Natives.Args.{param, arg_count}
use amxx_mqtt_client.Natives.Clients.{mqtt_destroy, destroy_client}
use amxx_mqtt_client.RehldsFrameHook.{unregister_rehlds_frame_hook}
use amxx_mqtt_client.Module.{
  on_amxx_detach, on_plugins_unloading, stop_dispatcher, reset_clients, reset_options,
}
use amxx_mqtt_client.System.{act}
use amxx_mqtt_client.System.Interleaving.{
  one, unloading, detaching, action_of, Stage, forwards, stopping, deleting, Task, idle, resetting,
  closing, unregister_forwards, with_clients, last,
}

-- The calls that the destructors have still to make.
abbrev pub farewell : IntMap Client → Stage → History → History
farewell [] p h = h
farewell ((k, c) ∷ cs) forwards h =
    farewell cs forwards (Call.delete_client c.base.client ∷ unregister_forwards c h)
farewell ((k, c) ∷ cs) stopping h = farewell cs forwards (Call.delete_client c.base.client ∷ h)
farewell ((k, c) ∷ cs) deleting h = farewell cs forwards (Call.delete_client c.base.client ∷ h)

abbrev pub with_history : History → World → World
with_history h w = record w { history = h }

abbrev pub complete : Task → World → World
complete idle w = w
complete (resetting u) w =
    last u (with_history (farewell w.mgr.clients forwards w.history) (with_clients [] w))
complete (closing u cs p) w = last u (with_history (farewell cs p w.history) w)

-- What happens to the connection of a client is nothing to its destructor.
pub farewell-assign :
    (cs : IntMap Client) (p : Stage) (k : Handle) (c : Client) (b : MqttClient Handle) (h : History)
    → find cs k ≡ some c
    → b.client ≡ c.base.client
    → farewell (assign cs k (record c { base = b })) p h ≡ farewell cs p h
unfolding find assign unregister_forwards
farewell-assign [] p k c b h f e = absurd (ground arith)
farewell-assign ((j, d) ∷ cs) forwards k c b h f e = ground (
  arith,
  farewell-assign cs forwards k c b (Call.delete_client d.base.client ∷ unregister_forwards d h),
)
farewell-assign ((j, d) ∷ cs) stopping k c b h f e =
    ground (arith, farewell-assign cs forwards k c b (Call.delete_client d.base.client ∷ h))
farewell-assign ((j, d) ∷ cs) deleting k c b h f e =
    ground (arith, farewell-assign cs forwards k c b (Call.delete_client d.base.client ∷ h))

destruct-calls :
    (ext : External) (c : Client) (h : History)
    → (AmxxMqttClient.destruct ext c h).1
      ≡ Call.delete_client c.base.client ∷ unregister_forwards c h
unfolding AmxxMqttClient.destruct MqttClient.destruct unregister_forwards
destruct-calls ext c h = refl

destruct_all-farewell :
    (ext : External) (m : IntMap Client) (h : History)
    → (destruct_all ext m h).1 ≡ farewell m forwards h
unfolding destruct_all
destruct_all-farewell ext [] h = refl
destruct_all-farewell ext ((k, c) ∷ m) h =
    destruct_all-farewell ext m (AmxxMqttClient.destruct ext c h).1
    ∙ ap (farewell m forwards) (destruct-calls ext c h)

reset_clients-farewell :
    (ext : External) (w : World)
    → reset_clients ext w
      ≡ with_history (farewell w.mgr.clients forwards w.history) (with_clients [] w)
unfolding reset_clients MqttClientMgr.reset dispatch_all
reset_clients-farewell ext w =
    ground
      (arith, destruct_all-farewell ext w.mgr.clients w.history, reset-silent ext w.mgr w.history)

-- Each action that destroys clients is its first step, and then what is left.
pub unloading-complete :
    (ext : External) (w : World)
    → act ext (action_of unloading) w ≡ complete (resetting unloading) (stop_dispatcher w)
unfolding act on_plugins_unloading
unloading-complete ext w = ap reset_options (reset_clients-farewell ext (stop_dispatcher w))

pub detaching-complete :
    (ext : External) (w : World)
    → act ext (action_of detaching) w
      ≡ complete (resetting detaching) (unregister_rehlds_frame_hook (stop_dispatcher w))
unfolding act on_amxx_detach
detaching-complete ext w =
    ap (last detaching)
      (reset_clients-farewell ext (unregister_rehlds_frame_hook (stop_dispatcher w)))

pub one-complete :
    (ext : External) (params : List Cell) (enough : ltb (arg_count params) 1 ≡ false) (c : Client)
    (w : World)
    → find w.mgr.clients (param params 1) ≡ some c
    → act ext (action_of (one params enough)) w
      ≡ complete
          (closing (one params enough) ((param params 1, c) ∷ []) forwards)
          (with_clients (erase w.mgr.clients (param params 1)) w)
unfolding act Natives.call mqtt_destroy destroy_client MqttClientMgr.destroy dispatch_all
one-complete ext params enough c w f =
    ground
      (arith, destruct-calls ext c w.history, destroy-silent ext (param params 1) w.mgr w.history)
