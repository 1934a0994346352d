-- ===== src/MqttClientMgr/Operations.antt =====
-- The operations of src/MqttClientMgr.cpp: each is a change of the manager, and what it returns.
use amxx_mqtt_client.Prelude.{
  ℕ, ◌+◌, ◌%◌, ◌^◌, ◌≤◌, ◌<◌, ◌≡◌, refl, ap, false, [], ◌∷◌, arith, length, ◌⊎◌, inl, inr, leb, ltb,
  Bool-cases, Option-cases,
}
use amxx_mqtt_client.IntMap.{IntMap, find}
use amxx_mqtt_client.External.{
  Text, Call, Exception, Result, returns, throws, too_many_clients, handles_exhausted, History,
  External,
}
use amxx_mqtt_client.MqttClient
use amxx_mqtt_client.MqttClient.Events.{IsBound, destruct-silent}
use amxx_mqtt_client.AmxxMqttClient
use amxx_mqtt_client.MqttClientMgr.{
  MqttClientMgr, Handle, Client, max_clients, max_handle, emplace, make, destroy, destruct_all,
  reset, bind_handlers,
}
use amxx_mqtt_client.MqttClientMgr.Changes.{Change, kept, created, removed, cleared}

bind_handlers-IsBound : (k : Handle) (c : Client) → IsBound k (bind_handlers k c).base
unfolding bind_handlers
bind_handlers-IsBound k c = ground arith

bind_handlers-stopping :
    (k : Handle) (p : ℕ)
    → (bind_handlers k (AmxxMqttClient.with_no_forwards (MqttClient.fresh p))).base.stopping ≡ false
unfolding bind_handlers AmxxMqttClient.with_no_forwards MqttClient.fresh
bind_handlers-stopping k p = refl

pub Result-cases :
    {A : Type 0} (r : Result A) → ((a : A) × (r ≡ returns a)) ⊎ ((e : Exception) × (r ≡ throws e))
Result-cases (returns a) = inl (a, refl)
Result-cases (throws e) = inr (e, refl)

-- A client as `make` leaves it: all four handlers bound to its handle, and no forward.
abbrev pub new_entry : Handle → ℕ → Client
new_entry k p = bind_handlers k (AmxxMqttClient.with_no_forwards (MqttClient.fresh p))

-- What `make` gives back, by what stood in its way.
pub data Made (ext : External) (b i : Text) (m : MqttClientMgr) (h : History)
    (out : Result Handle × MqttClientMgr × History) : Type 0 where
  full :
      max_clients ≤ length m.clients → out ≡ (throws too_many_clients, m, h) → Made ext b i m h out
  exhausted :
      length m.clients < max_clients
      → max_handle < m.next_handle
      → out ≡ (throws handles_exhausted, m, h)
      → Made ext b i m h out
  failed :
      length m.clients < max_clients
      → m.next_handle ≤ max_handle
      → (e : Exception) → ext.create h b i ≡ throws e
      → out ≡ (throws e, m, Call.new_client b i ∷ h)
      → Made ext b i m h out
  made :
      length m.clients < max_clients
      → m.next_handle ≤ max_handle
      → (p : ℕ) → ext.create h b i ≡ returns p
      → out ≡ (
        returns m.next_handle,
        record {
          clients = emplace m.clients m.next_handle (new_entry m.next_handle p);
          next_handle = m.next_handle + 1;
        },
        Call.new_client b i ∷ h,
      )
      → Made ext b i m h out

construct-returns :
    (ext : External) (b i : Text) (h : History) (p : ℕ)
    → ext.create h b i ≡ returns p
    → AmxxMqttClient.construct {H = Handle} ext b i h
      ≡ (returns (AmxxMqttClient.with_no_forwards (MqttClient.fresh p)), Call.new_client b i ∷ h)
unfolding AmxxMqttClient.construct
construct-returns ext b i h p q = ground arith

construct-throws :
    (ext : External) (b i : Text) (h : History) (e : Exception)
    → ext.create h b i ≡ throws e
    → AmxxMqttClient.construct {H = Handle} ext b i h ≡ (throws e, Call.new_client b i ∷ h)
unfolding AmxxMqttClient.construct
construct-throws ext b i h e q = ground arith

-- `make` throws on 10000 clients or more, throws on used-up handles, passes on an exception of the constructor,
-- and otherwise adds a client under the next handle, bound to it, which it returns. The three failures
-- leave the manager as it was, and only the last two cases call Paho. Each case says on which
-- condition it is met; none of the 32- and 64-bit conversions loses anything.
pub make-Made :
    (ext : External) (b i : Text) (m : MqttClientMgr) (h : History)
    → Made ext b i m h (make ext b i m h)
unfolding make
make-Made ext b i m h = elim (Bool-cases (leb max_clients (length m.clients))) [
  | inl is_full ↦ full (ground arith) (rw is_full)
  | inr room ↦ elim (Bool-cases (ltb max_handle m.next_handle)) [
    | inl over ↦ exhausted (ground arith) (ground arith) (rw (room, over))
    | inr low ↦ elim (Result-cases (ext.create h b i)) [
      | inr (e, q) ↦
          failed (ground arith) (ground arith) e q
            (let built = construct-throws ext b i h e q in rw (room, low, built, built))
      | inl (p, q) ↦
          let same : m.next_handle % 2 ^ 32 ≡ m.next_handle = ground arith in
          let next : (m.next_handle + 1) % 2 ^ 64 ≡ m.next_handle + 1 = ground arith in
          made (ground arith) (ground arith) p q (
            let built = construct-returns ext b i h p q in rw (room, low, built, built, same, next))
    ]
  ]
]

pub make-Change :
    (ext : External) (b i : Text) (m : MqttClientMgr) (h : History) → Change m (make ext b i m h).1
make-Change ext b i m h = from-Made (make-Made ext b i m h)
  where
    from-Made :
        {out : Result Handle × MqttClientMgr × History} → Made ext b i m h out → Change m out.1
    from-Made (full _ e) = kept (ap (λ (t : Result Handle × MqttClientMgr × History). t.1) e)
    from-Made (exhausted _ _ e) = kept (ap (λ (t : Result Handle × MqttClientMgr × History). t.1) e)
    from-Made (failed _ _ _ _ e) =
        kept (ap (λ (t : Result Handle × MqttClientMgr × History). t.1) e)
    from-Made (made room low p _ e) =
        created (new_entry m.next_handle p) (bind_handlers-IsBound m.next_handle _)
          (bind_handlers-stopping m.next_handle _) room low
          (ap (λ (t : Result Handle × MqttClientMgr × History). t.1) e)

amxx_destruct-silent :
    (ext : External) (c : Client) (h : History) → (AmxxMqttClient.destruct ext c h).0 ≡ []
unfolding AmxxMqttClient.destruct
amxx_destruct-silent ext c h = destruct-silent ext c.base _

pub destroy-Change :
    (ext : External) (k : Handle) (m : MqttClientMgr) (h : History) → Change m (destroy ext k m h).0
unfolding destroy
destroy-Change ext k m h = elim (Option-cases (find m.clients k)) [
  | inl e ↦ kept (rw (e, destroy))
  | inr (c, e) ↦ removed k (rw (e, destroy))
]

-- Whatever Paho delivers while a client is torn down, no handler is called.
pub destroy-silent :
    (ext : External) (k : Handle) (m : MqttClientMgr) (h : History) → (destroy ext k m h).1 ≡ []
unfolding destroy
destroy-silent ext k m h = elim (Option-cases (find m.clients k)) [
  | inl e ↦ rw (e, destroy)
  | inr (c, e) ↦ rw (e, destroy) (amxx_destruct-silent ext c h)
]

destruct_all-silent :
    (ext : External) (m : IntMap Client) (h : History) → (destruct_all ext m h).0 ≡ []
unfolding destruct_all
destruct_all-silent ext [] h = refl
destruct_all-silent ext ((k, c) ∷ m) h = ground (
  arith,
  amxx_destruct-silent ext c h,
  destruct_all-silent ext m (AmxxMqttClient.destruct ext c h).1,
)

pub reset-silent : (ext : External) (m : MqttClientMgr) (h : History) → (reset ext m h).1 ≡ []
unfolding reset
reset-silent ext m h = destruct_all-silent ext m.clients h

pub reset-Change : (ext : External) (m : MqttClientMgr) (h : History) → Change m (reset ext m h).0
unfolding reset
reset-Change ext m h = cleared refl
