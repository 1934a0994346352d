-- ===== src/Natives/Table.antt =====
-- g_natives of src/natives.cpp: under which names the natives are registered.
use Prim.Native.String.{String}
use text.Mathlib.Text.{◌==◌}
use text.Mathlib.TextEquality.{eq_iff}
use amxx_mqtt_client.Prelude.{
  ◌≡◌, ◌↔◌, refl, sym, Option, none, some, List, [], ◌∷◌, All, arith, if◌then◌else◌, Bool-cases,
  inl, inr,
}
use amxx_mqtt_client.External.{NativeName}

-- The names of the functions, which __FUNCTION__ gives.
abbrev pub native_name : NativeName → String
native_name NativeName.mqtt_create = "mqtt_create"
native_name NativeName.mqtt_destroy = "mqtt_destroy"
native_name NativeName.mqtt_connect = "mqtt_connect"
native_name NativeName.mqtt_disconnect = "mqtt_disconnect"
native_name NativeName.mqtt_is_connect = "mqtt_is_connect"
native_name NativeName.mqtt_subscribe = "mqtt_subscribe"
native_name NativeName.mqtt_unsubscribe = "mqtt_unsubscribe"
native_name NativeName.mqtt_publish = "mqtt_publish"
native_name NativeName.mqtt_set_connected_callback = "mqtt_set_connected_callback"
native_name NativeName.mqtt_set_message_callback = "mqtt_set_message_callback"
native_name NativeName.mqtt_set_connection_lost_callback = "mqtt_set_connection_lost_callback"
native_name NativeName.mqtt_set_disconnected_callback = "mqtt_set_disconnected_callback"
native_name NativeName.mqtt_create_connect_options = "mqtt_create_connect_options"
native_name NativeName.mqtt_set_options = "mqtt_set_options"

-- An AMX_NATIVE_INFO is its name and function, and `none` is {nullptr, nullptr}.
abbrev pub g_natives : List (Option (String × NativeName))
g_natives =
    some ("mqtt_create", NativeName.mqtt_create)
    ∷ some ("mqtt_destroy", NativeName.mqtt_destroy)
    ∷ some ("mqtt_connect", NativeName.mqtt_connect)
    ∷ some ("mqtt_disconnect", NativeName.mqtt_disconnect)
    ∷ some ("mqtt_is_connect", NativeName.mqtt_is_connect)
    ∷ some ("mqtt_subscribe", NativeName.mqtt_subscribe)
    ∷ some ("mqtt_unsubscribe", NativeName.mqtt_unsubscribe)
    ∷ some ("mqtt_publish", NativeName.mqtt_publish)
    ∷ some ("mqtt_set_connected_callback", NativeName.mqtt_set_connected_callback)
    ∷ some ("mqtt_set_message_callback", NativeName.mqtt_set_message_callback)
    ∷ some ("mqtt_set_connection_lost_callback", NativeName.mqtt_set_connection_lost_callback)
    ∷ some ("mqtt_set_disconnected_callback", NativeName.mqtt_set_disconnected_callback)
    ∷ some ("mqtt_create_connect_options", NativeName.mqtt_create_connect_options)
    ∷ some ("mqtt_set_options", NativeName.mqtt_set_options)
    ∷ none
    ∷ []

-- MF_AddNatives reads a table up to its null entry. The natives that are found by their names.
abbrev pub find_native : String → List (Option (String × NativeName)) → Option NativeName
find_native s [] = none
find_native s (none ∷ table) = none
find_native s (some (t, n) ∷ table) = if t == s then some n else find_native s table

-- An entry has the function's own name.
abbrev HasOwnName : Option (String × NativeName) → Type 0
HasOwnName none = Unit
HasOwnName (some (t, n)) = t ≡ native_name n

find_native-All :
    (s : String) (n : NativeName) (table : List (Option (String × NativeName)))
    → All HasOwnName table
    → find_native s table ≡ some n
    → s ≡ native_name n
find_native-All s n [] h e = absurd (ground arith)
find_native-All s n (none ∷ table) h e = absurd (ground arith)
find_native-All s n (some (t, m) ∷ table) h e = elim (Bool-cases (t == s)) [
  | inl same ↦
      let own : m ≡ n = ground (arith, same) in
      let name : t ≡ s = (eq_iff t s).0 same in rw (sym name, sym own) h.0
  | inr other ↦ find_native-All s n table h.1 (ground (arith, other))
]

find_own : (n : NativeName) → find_native (native_name n) g_natives ≡ some n
find_own NativeName.mqtt_create = refl
find_own NativeName.mqtt_destroy = refl
find_own NativeName.mqtt_connect = refl
find_own NativeName.mqtt_disconnect = refl
find_own NativeName.mqtt_is_connect = refl
find_own NativeName.mqtt_subscribe = refl
find_own NativeName.mqtt_unsubscribe = refl
find_own NativeName.mqtt_publish = refl
find_own NativeName.mqtt_set_connected_callback = refl
find_own NativeName.mqtt_set_message_callback = refl
find_own NativeName.mqtt_set_connection_lost_callback = refl
find_own NativeName.mqtt_set_disconnected_callback = refl
find_own NativeName.mqtt_create_connect_options = refl
find_own NativeName.mqtt_set_options = refl

g_natives-HasOwnName : All HasOwnName g_natives
g_natives-HasOwnName = (
  refl,
  (
    refl,
    (
      refl,
      (
        refl,
        (refl, (refl, (refl, (refl, (refl, (refl, (refl, (refl, (refl, (refl, (tt, tt))))))))))),
      ),
    ),
  ),
)

-- Each native is registered, under the name of its function and under no other name.
pub g_natives_names :
    (s : String) (n : NativeName) → (find_native s g_natives ≡ some n) ↔ (s ≡ native_name n)
g_natives_names s n = (find_native-All s n g_natives g_natives-HasOwnName, λ e. rw e (find_own n))
