-- ===== src/Examples/Exports.antt =====
-- The theorems on the exports, the natives by name, the log and the service at concrete states.
use amxx_mqtt_client.Prelude.{
  ◌≡◌, ◌≢◌, ◌↔◌, refl, true, false, none, some, List, [], ◌∷◌, All, arith, codes,
}
use Prim.Native.String.{String}
use text.Mathlib.Text.{◌==◌}
use amxx_mqtt_client.External.{
  Text, Exception, paho, too_many_clients, handles_exhausted, no_index, invalid_qos, what,
  NativeName, execute_forward, Cell,
}
use amxx_mqtt_client.World
use amxx_mqtt_client.IntMap.{find}
use amxx_mqtt_client.MqttClientMgr.{get_client}
use amxx_mqtt_client.CallbackDispatcher.{CallbackType}
use amxx_mqtt_client.ServerFrame.{resolve}
use amxx_mqtt_client.ServerFrame.Draining.{frames, frames_drain}
use amxx_mqtt_client.ServerFrame.Order.{with_queue, delivered}
use amxx_mqtt_client.Natives
use amxx_mqtt_client.Natives.Args.{arg_count}
use amxx_mqtt_client.Natives.Table.{find_native, g_natives, native_name, g_natives_names}
use amxx_mqtt_client.Natives.Deliveries.{set_callback_delivers, registered_types, given, Fit}
use amxx_mqtt_client.System.{Step, action, native, step, deliver, thread_step}
use amxx_mqtt_client.AmxxModule.Requests.{Core, ok, is_null}
use amxx_mqtt_client.AmxxModule.Logging.{decimal}
use amxx_mqtt_client.AmxxModule.Logging.Reports.{report}
use amxx_mqtt_client.AmxxModule.Logging.Reports.Exact.{report-meant, exception_percent, handed}
use amxx_mqtt_client.AmxxModule.Exports.{Loaded, just_loaded, amxx_attach, amxx_detach}
use amxx_mqtt_client.AmxxModule.Exports.Attaching.{IsOutcome, amxx_attach-IsOutcome}
use amxx_mqtt_client.AmxxModule.Life.{
  Host, at, attached, detached, Reached, start, later, refused, linked, ran, left, threads,
}
use amxx_mqtt_client.AmxxModule.Life.Linked.{IsLinked, readers, reached-IsLinked}
use amxx_mqtt_client.AmxxModule.Life.Departure.{IsGone, here, on, detached_is_final}
use amxx_mqtt_client.System.Hooks.{hooks_in, hooks_out}
use amxx_mqtt_client.Examples.{working, world, engine, alone, client, message_event}

-- A core with all functions, and one without amx_Push.
abbrev full_core : Core
full_core name = some 1

abbrev poor_core : Core
poor_core name = elim (name == "amx_Push") [ true ↦ none | false ↦ some 1 ]

abbrev first_state : Loaded
first_state = just_loaded World.initial

abbrev poor_state : Loaded
poor_state = (amxx_attach (engine 3 14) (some (5, poor_core)) first_state).1

abbrev attached_state : Loaded
attached_state = (amxx_attach (engine 3 14) (some (5, full_core)) poor_state).1

refused_first : (amxx_attach (engine 3 14) (some (5, poor_core)) first_state).0 ≢ ok
unfolding amxx_attach
refused_first = λ e. absurd (ground (arith, e))

attached_then : (amxx_attach (engine 3 14) (some (5, full_core)) poor_state).0 ≡ ok
unfolding amxx_attach
attached_then = refl

attached_Reached : Reached working (at attached attached_state)
attached_Reached =
    later (later start (refused (engine 3 14) (some (5, poor_core)) first_state refused_first))
      (linked (engine 3 14) (some (5, full_core)) poor_state attached_then)

-- The life of a module that AMXX_Attach refused once: then a native reports an error.
abbrev reporting : Step
reporting = action (native NativeName.mqtt_publish (4 ∷ 1 ∷ []))

abbrev reported : Host
reported =
    at attached (record attached_state { world = step working reporting attached_state.world })

reached-IsLinked_example :
    All (IsLinked reported.module_state.pointers) reported.module_state.world.history
    × All (λ f. is_null (reported.module_state.pointers f) ≡ false) readers
reached-IsLinked_example =
    reached-IsLinked working reported (later attached_Reached (ran reporting attached_state))

-- The module is detached after that, and a thread of Paho still has a handler to call.
abbrev last_state : Loaded
last_state = (amxx_detach working reported.module_state).1

abbrev afterwards : Loaded
afterwards = record last_state { world = thread_step (deliver 0) last_state.world }

detached_is_final_example :
    IsGone afterwards.world
    × (hooks_in afterwards.world.history ≡ hooks_out afterwards.world.history)
    × (afterwards.world.history ≡ last_state.world.history)
detached_is_final_example =
    detached_is_final working (at detached last_state) (at detached afterwards)
      (later (later attached_Reached (ran reporting attached_state)) (left reported.module_state))
      refl (on here (threads (deliver 0) detached last_state))

amxx_attach-IsOutcome_example :
    IsOutcome
      (engine 3 14)
      world
      poor_core
      (amxx_attach (engine 3 14) (some (5, poor_core)) (just_loaded world))
amxx_attach-IsOutcome_example = amxx_attach-IsOutcome (engine 3 14) 5 poor_core (just_loaded world)

abbrev publish_name : String
publish_name = "mqtt_publish"

g_natives_names_example :
    (find_native publish_name g_natives ≡ some NativeName.mqtt_publish)
    ↔ (publish_name ≡ native_name NativeName.mqtt_publish)
g_natives_names_example = g_natives_names publish_name NativeName.mqtt_publish

-- what() of an exception.
abbrev text_of : Exception → Text
text_of (paho t) = t
text_of too_many_clients = codes "too many mqtt clients"
text_of handles_exhausted = codes "mqtt client handles exhausted"
text_of no_index = codes "no index anymore"

report-meant_example :
    report text_of (invalid_qos 7)
    ≡ (10, some (handed (codes "Invalid MQTT QoS: 7 (expected 0, 1, or 2)")))
unfolding decimal
report-meant_example =
    report-meant text_of (invalid_qos 7) (codes "Invalid MQTT QoS: 7 (expected 0, 1, or 2)") refl

exception_percent_example : report text_of (what (paho (codes "50% lost"))) ≡ (10, none)
exception_percent_example =
    exception_percent text_of (paho (codes "50% lost")) (codes "50") 32 (codes "lost") refl
      (refl, (refl, tt)) refl

frames_drain_example :
    frames alone 1 (with_queue world (message_event ∷ []) [])
    ≡ with_queue world [] (delivered world (message_event ∷ []) [])
frames_drain_example =
    frames_drain (record { pawn = λ c w. refl; meanwhile = λ k w. refl }) 1 world
      (message_event ∷ []) [] (omega arith)

abbrev two_cells : List Cell
two_cells = 8 ∷ 1 ∷ 3 ∷ []

set_callback_delivers_example :
    (resolve message_event
        (Natives.call working NativeName.mqtt_set_message_callback two_cells world).1
      ≡ some (execute_forward 77 (given message_event)))
    × Fit (registered_types CallbackType.message) (given message_event)
unfolding get_client find arg_count
set_callback_delivers_example =
    set_callback_delivers working two_cells world client CallbackType.message message_event
      (omega arith) refl (λ e. omega (arith, e)) refl refl
