-- ===== src/System/Registration/Clients.antt =====
-- That making and destroying clients, in src/MqttClientMgr.cpp, keeps the forwards of the module in order.
use amxx_mqtt_client.Prelude.{
  ℕ, ◌+◌, ◌⊎◌, ap, ◌≡◌, ◌≢◌, refl, ◌∙◌, true, false, some, ◌∷◌, arith, ◌==◌, Bool-cases,
  Option-cases, inl, inr,
}
use amxx_mqtt_client.IntMap.{find, erase, find-erase}
use amxx_mqtt_client.External.{Cell, Text, Call, minus_one, External, History}
use amxx_mqtt_client.MqttClient
use amxx_mqtt_client.AmxxMqttClient
use amxx_mqtt_client.AmxxMqttClient.{unregister_if_set}
use amxx_mqtt_client.MqttClientMgr
use amxx_mqtt_client.MqttClientMgr.{
  MqttClientMgr, Handle, Client, get_client, update, emplace, bind_handlers,
}
use amxx_mqtt_client.MqttClientMgr.Operations.{
  make-Made, Made, full, exhausted, failed, made, new_entry,
}
use amxx_mqtt_client.CallbackDispatcher.{
  CallbackType, connected, message, connection_lost, disconnected, forward_of,
}
use amxx_mqtt_client.System.Registration.{registration, all_executable}
use amxx_mqtt_client.System.Registration.Owners.{IsOwned, kept-IsOwned}

-- The forwards that clients hold are registered, and those that were executed were.
abbrev pub IsInOrder : External → ℕ → MqttClientMgr → History → Type 0
IsInOrder ext base m h = IsOwned ext base m h × (all_executable ext base h ≡ true)

-- Calls that are none on forwards.
abbrev pub IsSilent : External → ℕ → History → History → Type 0
IsSilent ext base h g =
    ((i : Cell) → i ≢ minus_one → registration ext base g i ≡ registration ext base h i)
    × (all_executable ext base g ≡ all_executable ext base h)

pub silent-IsInOrder :
    (ext : External) (base : ℕ) (m n : MqttClientMgr) (h g : History)
    → n ≡ m
    → IsSilent ext base h g
    → IsInOrder ext base m h
    → IsInOrder ext base n g
silent-IsInOrder ext base m n h g same quiet o = rw same (
  kept-IsOwned ext base m m h g (λ k d t f set. (d, f, refl, quiet.0 (forward_of d t) set)) o.0,
  quiet.1 ∙ o.1,
)

-- Unregistering a client's forward leaves the others.
registration-unregister_if_set :
    (ext : External) (base : ℕ) (j i : Cell) (h : History)
    → (j ≢ minus_one → j ≢ i)
    → registration ext base (unregister_if_set j h) i ≡ registration ext base h i
unfolding unregister_if_set
registration-unregister_if_set ext base j i h differs = elim (Bool-cases (j == minus_one)) [
  | inl unset ↦ ground (arith, unset)
  | inr set ↦ ground (arith, set, differs (λ e. ground (arith, set, e)))
]

registration-destruct :
    (ext : External) (base : ℕ) (c : Client) (i : Cell) (h : History)
    → ((t : CallbackType) → forward_of c t ≢ minus_one → forward_of c t ≢ i)
    → registration ext base (AmxxMqttClient.destruct ext c h).1 i ≡ registration ext base h i
unfolding AmxxMqttClient.destruct MqttClient.destruct forward_of
registration-destruct ext base c i h differs =
    registration-unregister_if_set ext base c.on_disconnect_forward_id i _ (differs disconnected)
    ∙ registration-unregister_if_set ext base c.on_connection_lost_forward_id i _
        (differs connection_lost)
    ∙ registration-unregister_if_set ext base c.on_message_forward_id i _ (differs message)
    ∙ registration-unregister_if_set ext base c.on_connected_forward_id i h (differs connected)

pub all_executable-destruct :
    (ext : External) (base : ℕ) (c : Client) (h : History)
    → all_executable ext base (AmxxMqttClient.destruct ext c h).1 ≡ all_executable ext base h
unfolding AmxxMqttClient.destruct MqttClient.destruct
all_executable-destruct ext base c h = ground arith

removed-IsInOrder :
    (ext : External) (base : ℕ) (k : Handle) (c : Client) (m : MqttClientMgr) (h : History)
    → find m.clients k ≡ some c
    → IsInOrder ext base m h
    → IsInOrder ext base
        (record m { clients = erase m.clients k })
        (AmxxMqttClient.destruct ext c h).1
removed-IsInOrder ext base k c m h f o = (
  kept-IsOwned ext base m (record m { clients = erase m.clients k }) h
      (AmxxMqttClient.destruct ext c h).1
      (λ j d u fd set.
        let known = find-erase m.clients k j in
        let other : (k == j) ≡ false = ground (arith, known, fd) in
        let fd' : find m.clients j ≡ some d = ground (arith, known, fd) in
        (
          d,
          fd',
          refl,
          registration-destruct ext base c (forward_of d u) h (λ t real e.
              let met = o.0.apart k j c d t u f fd' real e in ground (arith, other, met.0)),
        ))
      o.0,
  all_executable-destruct ext base c h ∙ o.1,
)

pub destroy-IsInOrder :
    (ext : External) (base : ℕ) (k : Handle) (m : MqttClientMgr) (h : History)
    → IsInOrder ext base m h
    → IsInOrder ext base (MqttClientMgr.destroy ext k m h).0 (MqttClientMgr.destroy ext k m h).2
unfolding MqttClientMgr.destroy
destroy-IsInOrder ext base k m h o = elim (Option-cases (find m.clients k)) [
  | inl none' ↦ rw (none', MqttClientMgr.destroy) o
  | inr (c, f) ↦ rw (f, MqttClientMgr.destroy) (removed-IsInOrder ext base k c m h f o)
]

-- A new client has no forward.
forward_of-new_entry :
    (k : Handle) (p : ℕ) (t : CallbackType) → forward_of (new_entry k p) t ≡ minus_one
unfolding bind_handlers AmxxMqttClient.with_no_forwards forward_of
forward_of-new_entry k p connected = refl
forward_of-new_entry k p message = refl
forward_of-new_entry k p connection_lost = refl
forward_of-new_entry k p disconnected = refl

find-emplace :
    (m : MqttClientMgr) (k j : Handle) (c d : Client)
    → find (emplace m.clients k c) j ≡ some d
    → (find m.clients j ≡ some d) ⊎ (d ≡ c)
unfolding emplace find
find-emplace m k j c d f = elim (Option-cases (find m.clients k)) [
  | inr (e, there) ↦ inl (ground (arith, there))
  | inl free ↦ elim (Bool-cases (k == j)) [
    | inl own ↦ inr (ground (arith, free, own))
    | inr other ↦ inl (ground (arith, free, other))
  ]
]

created-IsInOrder :
    (ext : External) (base : ℕ) (m : MqttClientMgr) (k p next : ℕ) (h : History)
    → IsInOrder ext base m h
    → IsInOrder ext base
        (record { clients = emplace m.clients k (new_entry k p); next_handle = next })
        h
created-IsInOrder ext base m k p next h o = (
  kept-IsOwned ext base m _ h h
      (λ j d t fd real. elim (find-emplace m k j (new_entry k p) d fd) [
        | inl old ↦ (d, old, refl, refl)
        | inr new ↦
            let bare = forward_of-new_entry k p t in
            absurd (real (ap (λ x. forward_of x t) new ∙ bare))
      ])
      o.0,
  o.1,
)

pub make-IsInOrder :
    (ext : External) (base : ℕ) (b i : Text) (m : MqttClientMgr) (h : History)
    → IsInOrder ext base m h
    → IsInOrder ext base (MqttClientMgr.make ext b i m h).1 (MqttClientMgr.make ext b i m h).2
make-IsInOrder ext base b i m h o = go (make-Made ext b i m h)
  where
    go : {out : _} → Made ext b i m h out → IsInOrder ext base out.1 out.2
    go (full _ e) = rw e o
    go (exhausted _ _ e) = rw e o
    go (failed _ _ _ _ e) =
        rw e (
          silent-IsInOrder ext base m m h (Call.new_client b i ∷ h) refl ((λ x real. refl), refl) o)
    go (made _ _ p _ e) = rw e (
        created-IsInOrder ext base m m.next_handle p (m.next_handle + 1) (Call.new_client b i ∷ h) (
          silent-IsInOrder ext base m m h (Call.new_client b i ∷ h) refl ((λ x real. refl), refl)
            o))
