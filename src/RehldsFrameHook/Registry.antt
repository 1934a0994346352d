-- ===== src/RehldsFrameHook/Registry.antt =====
-- When src/RehldsFrameHook.cpp finds the frame registry, and how often it hooks into one.
use amxx_mqtt_client.Prelude.{
  ℕ, ◌≤◌, ◌<◌, ◌≡◌, ◌↔◌, ap, Option, none, some, ◌∷◌, arith, Option-cases, inl, inr,
}
use amxx_mqtt_client.External.{register_hook, HookError, no_error}
use amxx_mqtt_client.World.{World}
use amxx_mqtt_client.RehldsFrameHook.{
  Engine, candidates, find_engine_factory, find_frame_registry, check_rehlds_api,
  register_rehlds_frame_hook,
}
use amxx_mqtt_client.RehldsFrameHook.Lookups.{IsFirst, first_factory_iff}

-- What the module needs of the engine: API 3.7 or a later 3.x, with an SV_Frame registry.
pub record Offers (e : Engine) (registry : ℕ) : Type 0 where
  pub factory : ℕ
  pub api : ℕ
  pub hooks : ℕ
  pub found : IsFirst e factory (candidates e.platform)
  pub answered : e.api factory ≡ some api
  pub major : e.major_version api ≡ 3
  pub minor_low : 7 ≤ e.minor_version api
  pub minor_high : e.minor_version api < 2147483648
  pub hooked : e.hookchains api ≡ some hooks
  pub framed : e.sv_frame hooks ≡ some registry

offered : (e : Engine) (r : ℕ) → (find_frame_registry e).0 ≡ some r → Offers e r
unfolding find_frame_registry find_engine_factory
offered e r h = elim (Option-cases (find_engine_factory e)) [
  | inl none' ↦ absurd (ground arith)
  | inr (f, found) ↦ elim (Option-cases (e.api f)) [
    | inl none' ↦ absurd (ground arith)
    | inr (api, answered) ↦ elim (Option-cases (e.hookchains api)) [
      | inl none' ↦ absurd (ground arith)
      | inr (hooks, hooked) ↦ record {
        factory = f;
        api = api;
        hooks = hooks;
        found = (first_factory_iff e (candidates e.platform) f).0 found;
        answered = answered;
        major = ground arith;
        minor_low = ground arith;
        minor_high = ground arith;
        hooked = hooked;
        framed = ground arith;
      }
    ]
  ]
]

found_of-Offers : (e : Engine) (r : ℕ) → Offers e r → find_frame_registry e ≡ (some r, no_error)
unfolding find_frame_registry find_engine_factory
found_of-Offers e r o = ground (
  arith,
  (first_factory_iff e (candidates e.platform) o.factory).1 o.found,
  o.answered,
  o.major,
  o.minor_low,
  o.minor_high,
  o.hooked,
  o.framed,
)

-- The registry is found, with no error, exactly if a loaded engine library has a factory, the
-- factory of the first such library in the order of the candidates gives the API, its version is 3.7 or a later 3.x, and its hook chains have an SV_Frame
-- registry, which is then the one found.
pub find_frame_registry_iff :
    (e : Engine) (r : ℕ) → (find_frame_registry e ≡ (some r, no_error)) ↔ Offers e r
find_frame_registry_iff e r =
    (λ h. offered e r (ap (λ (t : Option ℕ × HookError). t.0) h), found_of-Offers e r)

-- The check before the module is loaded and the registration at attach agree: on a world with no hook,
-- the one accepts the engine exactly if the other succeeds, which then makes one call, to hook in.
pub register_agrees_check :
    (e : Engine) (w : World)
    → w.frame_registry ≡ none
    → ((register_rehlds_frame_hook e w).0 ≡ (check_rehlds_api e).0)
      × ((register_rehlds_frame_hook e w).2.history ≡ (elim (find_frame_registry e).0 [
        | none ↦ w.history
        | some r ↦ register_hook r ∷ w.history
      ]))
      × ((register_rehlds_frame_hook e w).2.frame_registry ≡ (find_frame_registry e).0)
unfolding register_rehlds_frame_hook check_rehlds_api
register_agrees_check e w h = (ground arith, ground arith, ground arith)
