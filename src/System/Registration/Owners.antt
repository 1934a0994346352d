-- ===== src/System/Registration/Owners.antt =====
-- The forwards that the clients hold: each is registered with the parameters of its kind of event, and
-- is held once.
use amxx_mqtt_client.Prelude.{
  ℕ, ◌≡◌, ◌≢◌, ◌⊎◌, inl, inr, refl, sym, ap, ◌∙◌, none, some, List, arith, ◌==◌, Bool-cases,
}
use amxx_mqtt_client.IntMap.{find, find-assign}
use amxx_mqtt_client.External.{Cell, minus_one, External, History, ParamType}
use amxx_mqtt_client.MqttClientMgr.{MqttClientMgr, Handle, Client, update}
use amxx_mqtt_client.CallbackDispatcher.{
  CallbackType, connected, message, connection_lost, disconnected, forward_of,
}
use amxx_mqtt_client.Natives.Deliveries.{registered_types, with_forward}
use amxx_mqtt_client.System.Registration.{registration}

pub record IsOwned (ext : External) (base : ℕ) (m : MqttClientMgr) (h : History) : Type 0 where
  pub typed :
      (k : Handle) (c : Client) (t : CallbackType)
      → find m.clients k ≡ some c
      → forward_of c t ≢ minus_one
      → registration ext base h (forward_of c t) ≡ some (registered_types t)
  pub apart :
      (k j : Handle) (c d : Client) (t u : CallbackType)
      → find m.clients k ≡ some c
      → find m.clients j ≡ some d
      → forward_of c t ≢ minus_one
      → forward_of c t ≡ forward_of d u
      → (k ≡ j) × (t ≡ u)

-- A client's forward is one that a client had under the same handle, and stands for the same.
abbrev pub IsKept : External → ℕ → MqttClientMgr → History → MqttClientMgr → History → Type 0
IsKept ext base m h n g =
    (k : Handle) (d : Client) (t : CallbackType)
    → find n.clients k ≡ some d
    → forward_of d t ≢ minus_one
    → (c : Client) × (find m.clients k ≡ some c)
      × (forward_of d t ≡ forward_of c t)
      × (registration ext base g (forward_of c t) ≡ registration ext base h (forward_of c t))

pub kept-IsOwned :
    (ext : External) (base : ℕ) (m n : MqttClientMgr) (h g : History)
    → IsKept ext base m h n g
    → IsOwned ext base m h
    → IsOwned ext base n g
kept-IsOwned ext base m n h g keep o = record {
  typed = λ k d t f set.
      let (c, old, same, stands) = keep k d t f set in
      rw (same, stands) (o.typed k c t old (λ e. set (same ∙ e)));
  apart = λ k j d b t u fd fb set eq.
      let (c, old, same, stands) = keep k d t fd set in
      let (a, old', same', stands') = keep j b u fb (λ e. set (eq ∙ e)) in
      o.apart k j c a t u old old' (λ e. set (same ∙ e)) (sym same ∙ eq ∙ same');
}

forward_cases :
    (t u : CallbackType) (c : Client) (id : Cell)
    → ((u ≡ t) × (forward_of (with_forward t c id) u ≡ id))
      ⊎ ((u ≢ t) × (forward_of (with_forward t c id) u ≡ forward_of c u))
unfolding forward_of
forward_cases connected connected c id = inl (refl, refl)
forward_cases connected message c id = inr ((λ e. absurd (ground (arith, e))), refl)
forward_cases connected connection_lost c id = inr ((λ e. absurd (ground (arith, e))), refl)
forward_cases connected disconnected c id = inr ((λ e. absurd (ground (arith, e))), refl)
forward_cases message connected c id = inr ((λ e. absurd (ground (arith, e))), refl)
forward_cases message message c id = inl (refl, refl)
forward_cases message connection_lost c id = inr ((λ e. absurd (ground (arith, e))), refl)
forward_cases message disconnected c id = inr ((λ e. absurd (ground (arith, e))), refl)
forward_cases connection_lost connected c id = inr ((λ e. absurd (ground (arith, e))), refl)
forward_cases connection_lost message c id = inr ((λ e. absurd (ground (arith, e))), refl)
forward_cases connection_lost connection_lost c id = inl (refl, refl)
forward_cases connection_lost disconnected c id = inr ((λ e. absurd (ground (arith, e))), refl)
forward_cases disconnected connected c id = inr ((λ e. absurd (ground (arith, e))), refl)
forward_cases disconnected message c id = inr ((λ e. absurd (ground (arith, e))), refl)
forward_cases disconnected connection_lost c id = inr ((λ e. absurd (ground (arith, e))), refl)
forward_cases disconnected disconnected c id = inl (refl, refl)

module _ (ext : External) (base : ℕ) (m : MqttClientMgr) (k₀ : Handle) (c₀ : Client)
    (t₀ : CallbackType) (id : Cell) where
  -- The manager after a client's forward was set.
  abbrev pub changed : MqttClientMgr
  changed = update m k₀ (with_forward t₀ c₀ id)

  -- A forward that was there before, and is not the one that was replaced.
  abbrev IsOld : Handle → Client → CallbackType → Type 0
  IsOld k d t =
      (a : Client) × (find m.clients k ≡ some a)
      × (forward_of d t ≡ forward_of a t)
      × (k ≡ k₀ → t ≢ t₀)

  forward-IsOld :
      find m.clients k₀ ≡ some c₀
      → (k : Handle) (d : Client) (t : CallbackType) → find changed.clients k ≡ some d
      → ((k ≡ k₀) × (t ≡ t₀) × (forward_of d t ≡ id)) ⊎ IsOld k d t
  unfolding update
  forward-IsOld f k d t fd =
      let known = find-assign m.clients k₀ k (with_forward t₀ c₀ id) in
      elim (Bool-cases (k₀ == k)) [
        | inr other ↦
            inr (d, ground (arith, known, fd, other), refl, λ e. absurd (ground (arith, other, e)))
        | inl own ↦
            let here : k ≡ k₀ = ground (arith, own) in
            let set : d ≡ with_forward t₀ c₀ id = ground (arith, known, fd, own) in
            elim (forward_cases t₀ t c₀ id) [
              | inl (same, to) ↦ inl (here, same, ap (λ x. forward_of x t) set ∙ to)
              | inr (differs, to) ↦
                  inr (c₀, rw here f, ap (λ x. forward_of x t) set ∙ to, λ e. differs)
            ]
      ]

  module _ {h : History} (owned : IsOwned ext base m h) (f : find m.clients k₀ ≡ some c₀) where
    -- The replaced forward is none of the others.
    IsOld-differs :
        (k : Handle) (d : Client) (t : CallbackType) (old : IsOld k d t)
        → forward_of d t ≢ minus_one
        → forward_of old.0 t ≢ forward_of c₀ t₀
    IsOld-differs k d t (a, fa, same, other) set e =
        let met = owned.apart k k₀ a c₀ t t₀ fa f (λ q. set (same ∙ q)) e in other met.0 met.1

    old_typed :
        (k : Handle) (d : Client) (t : CallbackType) (old : IsOld k d t)
        → forward_of d t ≢ minus_one
        → registration ext base h (forward_of old.0 t) ≡ some (registered_types t)
    old_typed k d t (a, fa, same, other) set = owned.typed k a t fa (λ q. set (same ∙ q))

    -- An id that stood for nothing is not that of an old forward.
    new_id-differs :
        registration ext base h id ≡ none
        → (k : Handle) (d : Client) (t : CallbackType) → IsOld k d t
        → forward_of d t ≢ minus_one
        → forward_of d t ≢ id
    new_id-differs fresh k d t old set e =
        let typed = old_typed k d t old set in
        let at_id : forward_of old.0 t ≡ id = sym old.2 ∙ e in absurd (cc (typed, at_id, fresh))

    -- A native that registers a forward and gives it to a client, and may unregister the one that
    -- the client had, keeps all others.
    pub set-IsOwned :
        (g : History)
        → id ≢ minus_one
        → registration ext base h id ≡ none
        → registration ext base g id ≡ some (registered_types t₀)
        → ((i : Cell) (types : List ParamType)
            → registration ext base h i ≡ some types
            → i ≢ forward_of c₀ t₀
            → registration ext base g i ≡ some types)
        → IsOwned ext base changed g
    set-IsOwned g real fresh new keeps = record {
      typed = λ k d t fd set. elim (forward-IsOld f k d t fd) [
        | inl (_, kind, to) ↦ rw (to, kind) new
        | inr old ↦ rw (old.2) (
            keeps (forward_of old.0 t) (registered_types t) (old_typed k d t old set)
              (IsOld-differs k d t old set))
      ];
      apart = λ k j d b t u fd fb set eq.
          let set' : forward_of b u ≢ minus_one = λ e. set (eq ∙ e) in
          elim (forward-IsOld f k d t fd) [
            | inl (here, kind, to) ↦ elim (forward-IsOld f j b u fb) [
              | inl (here', kind', to') ↦ (here ∙ sym here', kind ∙ sym kind')
              | inr old' ↦ absurd (new_id-differs fresh j b u old' set' (sym eq ∙ to))
            ]
            | inr old ↦ elim (forward-IsOld f j b u fb) [
              | inl (here', kind', to') ↦ absurd (new_id-differs fresh k d t old set (eq ∙ to'))
              | inr old' ↦
                  owned.apart k j old.0 old'.0 t u old.1 old'.1 (λ q. set (old.2 ∙ q))
                    (sym old.2 ∙ eq ∙ old'.2)
            ]
          ];
    }
