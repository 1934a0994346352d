-- ===== src/Natives/Growth.antt =====
-- What wrong handles of connect options leave behind: getOptions of src/ConnectOptionMgr.cpp as
-- mqtt_set_options of src/natives.cpp calls it.
use amxx_mqtt_client.Prelude.{
  ℕ, zero, suc, ◌+◌, ◌<◌, ◌≤◌, ◌^◌, ◌≡◌, refl, none, [], ◌∷◌, arith, length,
}
use amxx_mqtt_client.IntMap.{IntMap, find, assign}
use amxx_mqtt_client.External.{Cell, External}
use amxx_mqtt_client.ConnectOptionMgr.{get_options}
use amxx_mqtt_client.World.{World}
use amxx_mqtt_client.Natives.Options.{mqtt_set_options}

module _ {ℓ} {V : Type ℓ} where
  -- Every key is below `k`.
  abbrev pub IsBelow : ℕ → IntMap V → Type 0
  IsBelow k [] = Unit
  IsBelow k (e ∷ m) = (e.0 < k) × IsBelow k m

  find_above : (m : IntMap V) (k : ℕ) → IsBelow k m → find m k ≡ none
  unfolding find
  find_above [] k h = refl
  find_above ((j, v) ∷ m) k h = ground (arith, find_above m k h.1)

  length-assign_above :
      (m : IntMap V) (k : ℕ) (v : V) → IsBelow k m → length (assign m k v) ≡ length m + 1
  unfolding assign
  length-assign_above [] k v h = omega arith
  length-assign_above ((j, w) ∷ m) k v h = ground (arith, length-assign_above m k v h.1)

  assign-IsBelow : (m : IntMap V) (k : ℕ) (v : V) → IsBelow k m → IsBelow (k + 1) (assign m k v)
  unfolding assign
  assign-IsBelow [] k v h = (omega arith, tt)
  assign-IsBelow ((j, w) ∷ m) k v h = ground (arith, assign-IsBelow m k v h.1, IsBelow-mono m h.1)
    where
      IsBelow-mono : (m : IntMap V) → IsBelow k m → IsBelow (k + 1) m
      IsBelow-mono [] h = tt
      IsBelow-mono (e ∷ m) h = (omega (arith, h.0), IsBelow-mono m h.1)

-- A plugin that sets an option under `n` handles one after the other, from `k` on.
abbrev pub probes : External → ℕ → Cell → World → World
probes ext zero k w = w
probes ext (suc n) k w = probes ext n (k + 1) (mqtt_set_options ext (12 ∷ k ∷ 0 ∷ 0 ∷ []) w).1

probe-options :
    (ext : External) (k : Cell) (w : World)
    → find w.options.options k ≡ none
    → (mqtt_set_options ext (12 ∷ k ∷ 0 ∷ 0 ∷ []) w).1.options.options
      ≡ assign w.options.options k none
unfolding mqtt_set_options get_options
probe-options ext k w h =
    let added : get_options w.options k
        ≡ (none, record (w.options) { options = assign w.options.options k none }) =
      rw (h, get_options) in
    rw (h, added)

-- Handles that name no options, above all that were asked for before, make mqtt_set_options add one
-- entry to m_options each, so that the map grows with the calls of a plugin that gets its handle wrong.
pub probes_grow :
    (ext : External) (n : ℕ) (k : Cell) (w : World)
    → IsBelow k w.options.options
    → k + n ≤ 2 ^ 31
    → length (probes ext n k w).options.options ≡ length w.options.options + n
probes_grow ext zero k w h fits = omega arith
probes_grow ext (suc n) k w h fits =
    let m = w.options.options in
    let e = probe-options ext k w (find_above m k h) in
    let w' = (mqtt_set_options ext (12 ∷ k ∷ 0 ∷ 0 ∷ []) w).1 in
    let below : IsBelow (k + 1) w'.options.options = rw e (assign-IsBelow m k none h) in
    let more : length w'.options.options ≡ length m + 1 = rw e (length-assign_above m k none h) in
    omega (arith, more, probes_grow ext n (k + 1) w' below (omega (arith, fits)))
