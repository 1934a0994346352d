-- ===== src/System/Interleaving/GameSteps.antt =====
-- The steps of the game thread in Interleaving, matched by System: all of a destruction happens there at
-- its end.
use amxx_mqtt_client.Prelude.{◌≡◌, ◌∙◌, refl, sym, ap, false, some, List, [], ◌∷◌, arith, All, ltb}
use amxx_mqtt_client.IntMap.{IntMap, find, erase}
use amxx_mqtt_client.External.{Cell, Call, NetworkEvent, External}
use amxx_mqtt_client.MqttClientMgr.{Handle, Client}
use amxx_mqtt_client.MqttClientMgr.Changes.{IsEntry}
use amxx_mqtt_client.CallbackDispatcher.{stop}
use amxx_mqtt_client.World.{World, note}
use amxx_mqtt_client.Natives.Args.{param, arg_count}
use amxx_mqtt_client.RehldsFrameHook.{unregister_rehlds_frame_hook}
use amxx_mqtt_client.Module.{stop_dispatcher, reset_options}
use amxx_mqtt_client.System.{Action, plugins_unloading, detach, act, acts}
use amxx_mqtt_client.System.Threads.{IsSound}
use amxx_mqtt_client.System.Soundness.{act-IsSound}
use amxx_mqtt_client.System.Interleaving.{
  Cause, one, unloading, detaching, action_of, Stage, forwards, stopping, deleting, Task, idle,
  resetting, closing, IsGame, unregister_forwards, stopped, with_clients, last,
}
use amxx_mqtt_client.System.Interleaving.Independence.{with_flight, act_flight}
use amxx_mqtt_client.System.Interleaving.Farewell.{
  unloading-complete, detaching-complete, one-complete,
}
use amxx_mqtt_client.System.Interleaving.Traces.{without_deliveries-game}
use amxx_mqtt_client.System.Interleaving.Simulation.{
  IsSimulated, IsKnown, IsReady, Matches, in_flight-act, find-IsLive, All-find, IsReady-closing,
}

module _ (ext : External) (w : World) (es : List (Handle × NetworkEvent)) (v : World) where
  -- A step that System does not follow.
  silent : {x : World} {t : Task} → IsSimulated ext x t es v → Matches ext x t es v []
  unfolding acts
  silent r = record { actions = []; others = refl; simulated = r }

  -- An action done in both.
  both :
      (a : Action)
      → IsGame a
      → v ≡ with_flight v.in_flight w
      → act ext a v ≡ with_flight v.in_flight (act ext a w)
  both a g e = ap (act ext a) e ∙ act_flight ext a v.in_flight w g

  pub game-Matches :
      (a : Action)
      → IsGame a
      → IsSimulated ext w idle es v
      → Matches ext (act ext a w) idle es v (a ∷ [])
  unfolding acts
  game-Matches a g r = record {
    actions = a ∷ [];
    others = without_deliveries-game a g;
    simulated = record {
      sound = act-IsSound ext a v r.sound;
      done = rw (in_flight-act ext a v g) (both a g r.done);
      supplied = rw (in_flight-act ext a v g, in_flight-act ext a w g) r.supplied;
      known = tt;
      ready = tt;
    };
  }

  pub begin_destroy-Matches :
      (params : List Cell) (enough : ltb (arg_count params) 1 ≡ false) (c : Client)
      → find w.mgr.clients (param params 1) ≡ some c
      → IsSimulated ext w idle es v
      → Matches ext
          (with_clients (erase w.mgr.clients (param params 1)) w)
          (closing (one params enough) ((param params 1, c) ∷ []) forwards)
          es
          v
          []
  begin_destroy-Matches params enough c f r =
      let same = ap (λ (x : World). x.mgr) r.done in
      let found : find v.mgr.clients (param params 1) ≡ some c = rw same f in
      silent (record {
        sound = r.sound;
        done =
            both (action_of (one params enough)) tt r.done
            ∙ ap (with_flight v.in_flight) (one-complete ext params enough c w f);
        supplied = r.supplied;
        known = (((find-IsLive (param params 1) c v r.sound found).bound, c, found), tt);
        ready = (refl, tt);
      })

  pub begin_unloading-Matches :
      IsSimulated ext w idle es v → Matches ext (stop_dispatcher w) (resetting unloading) es v []
  unfolding stop_dispatcher stop
  begin_unloading-Matches r = silent (record {
    sound = r.sound;
    done =
        both plugins_unloading tt r.done ∙ ap (with_flight v.in_flight) (unloading-complete ext w);
    supplied = r.supplied;
    known = tt;
    ready = (tt, refl, sym (ap (λ (x : World). x.mgr) r.done));
  })

  hook-in_flight : (unregister_rehlds_frame_hook (stop_dispatcher w)).in_flight ≡ w.in_flight
  unfolding stop_dispatcher unregister_rehlds_frame_hook
  hook-in_flight = ground arith

  hook-mgr : (unregister_rehlds_frame_hook (stop_dispatcher w)).mgr ≡ w.mgr
  unfolding stop_dispatcher unregister_rehlds_frame_hook
  hook-mgr = ground arith

  pub begin_detach-Matches :
      IsSimulated ext w idle es v
      → Matches ext (unregister_rehlds_frame_hook (stop_dispatcher w)) (resetting detaching) es v []
  unfolding stop_dispatcher stop unregister_rehlds_frame_hook
  begin_detach-Matches r = silent (record {
    sound = r.sound;
    done = both detach tt r.done ∙ ap (with_flight v.in_flight) (detaching-complete ext w);
    supplied = rw hook-in_flight r.supplied;
    known = tt;
    ready = (tt, ground arith, hook-mgr ∙ sym (ap (λ (x : World). x.mgr) r.done));
  })

  -- The clients of a sound state are all known.
  all-IsKnown : IsSound v → All (IsKnown v.mgr.clients) v.mgr.clients
  all-IsKnown s = join v.mgr.clients s.mgr.entries (All-find v.mgr.clients)
    where
      join :
          (m : IntMap Client)
          → All (IsEntry v.mgr.next_handle) m
          → All (λ (k, _). (d : Client) × (find v.mgr.clients k ≡ some d)) m
          → All (IsKnown v.mgr.clients) m
      join [] a b = tt
      join ((k, c) ∷ m) a b = ((a.0.2, b.0.0, b.0.1), join m a.1 b.1)

  swap-IsReady :
      (u : Cause) (cs : IntMap Client) (p : Stage)
      → IsReady (resetting u) w.mgr w.dispatcher v.mgr
      → IsReady (closing u cs p) (with_clients [] w).mgr w.dispatcher v.mgr
  swap-IsReady (one _ _) cs p r = absurd r.0
  swap-IsReady unloading cs p r = (r.1, refl)
  swap-IsReady detaching cs p r = (r.1, refl)

  pub swap-Matches :
      (u : Cause)
      → IsSimulated ext w (resetting u) es v
      → Matches ext (with_clients [] w) (closing u w.mgr.clients forwards) es v []
  swap-Matches u r = silent (record {
    sound = r.sound;
    done = r.done;
    supplied = r.supplied;
    known = rw r.ready.2 (all-IsKnown r.sound);
    ready = swap-IsReady u w.mgr.clients forwards r.ready;
  })

  pub unregister-Matches :
      (u : Cause) (k : Handle) (c : Client) (cs : IntMap Client)
      → IsSimulated ext w (closing u ((k, c) ∷ cs) forwards) es v
      → Matches ext
          (record w { history = unregister_forwards c w.history })
          (closing u ((k, c) ∷ cs) stopping)
          es
          v
          []
  unregister-Matches u k c cs r = silent (record {
    sound = r.sound;
    done = r.done;
    supplied = r.supplied;
    known = r.known;
    ready = IsReady-closing u _ _ _ _ _ _ _ _ (λ j h. h) r.ready;
  })

  pub stop-Matches :
      (u : Cause) (k : Handle) (c : Client) (cs : IntMap Client)
      → IsSimulated ext w (closing u ((k, c) ∷ cs) stopping) es v
      → Matches ext w (closing u ((k, stopped c) ∷ cs) deleting) es v []
  stop-Matches u k c cs r = silent (record {
    sound = r.sound;
    done = r.done;
    supplied = r.supplied;
    known = (
      (
        record {
          connected = r.known.0.0.connected;
          message = r.known.0.0.message;
          lost = r.known.0.0.lost;
          disconnected = r.known.0.0.disconnected;
        },
        r.known.0.1,
        r.known.0.2,
      ),
      r.known.1,
    );
    ready = IsReady-closing u _ _ _ _ _ _ _ _ (λ j h. h) r.ready;
  })

  pub delete-Matches :
      (u : Cause) (k : Handle) (c : Client) (cs : IntMap Client)
      → IsSimulated ext w (closing u ((k, c) ∷ cs) deleting) es v
      → Matches ext (note (Call.delete_client c.base.client) w) (closing u cs forwards) es v []
  delete-Matches u k c cs r = silent (record {
    sound = r.sound;
    done = r.done;
    supplied = r.supplied;
    known = r.known.1;
    ready = IsReady-closing u _ _ _ _ _ _ _ _ (λ j h. h.1) r.ready;
  })

  action_of-IsGame : (u : Cause) → IsGame (action_of u)
  action_of-IsGame (one _ _) = tt
  action_of-IsGame unloading = tt
  action_of-IsGame detaching = tt

  last-in_flight : (u : Cause) → (last u w).in_flight ≡ w.in_flight
  unfolding reset_options
  last-in_flight (one _ _) = refl
  last-in_flight unloading = refl
  last-in_flight detaching = refl

  pub finish-Matches :
      (u : Cause)
      → IsSimulated ext w (closing u [] forwards) es v
      → Matches ext (last u w) idle es v (action_of u ∷ [])
  unfolding acts
  finish-Matches u r =
      let a = action_of u in
      let kept = in_flight-act ext a v (action_of-IsGame u) in
      record {
        actions = a ∷ [];
        others = without_deliveries-game a (action_of-IsGame u);
        simulated = record {
          sound = act-IsSound ext a v r.sound;
          done = rw kept r.done;
          supplied = rw (kept, last-in_flight u) r.supplied;
          known = tt;
          ready = tt;
        };
      }
