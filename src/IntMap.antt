-- ===== src/IntMap.antt =====
-- `std::unordered_map<int, V>` and `std::set<int>` as src/MqttClientMgr.cpp and
-- src/ConnectOptionMgr.cpp use them: association lists whose keys are 32-bit patterns.
use amxx_mqtt_client.Prelude.{
  ℕ, ◌+◌, ◌≤◌, ◌≡◌, Option, none, some, List, [], ◌∷◌, arith, ◌==◌, if◌then◌else◌, length,
}

abbrev pub IntMap {ℓ} : Type ℓ → Type ℓ
IntMap V = List (ℕ × V)

module _ {ℓ} {V : Type ℓ} where
  -- m.find(k): `none` is m.end().
  unfoldable pub find : IntMap V → ℕ → Option V
  find [] k = none
  find ((j, v) ∷ m) k = if j == k then some v else find m k

  -- m.erase(k), m.extract(k).
  unfoldable pub erase : IntMap V → ℕ → IntMap V
  erase [] k = []
  erase ((j, v) ∷ m) k = let rest = erase m k in if j == k then rest else (j, v) ∷ rest

  -- m[k] = v.
  unfoldable pub assign : IntMap V → ℕ → V → IntMap V
  assign [] k v = (k, v) ∷ []
  assign ((j, w) ∷ m) k v = let rest = assign m k v in if j == k then (j, v) ∷ m else (j, w) ∷ rest

  pub find-erase :
      (m : IntMap V) (k j : ℕ) → find (erase m k) j ≡ (if k == j then none else find m j)
  unfolding find erase
  find-erase [] k j = ground arith
  find-erase ((i, v) ∷ m) k j = ground (arith, find-erase m k j)

  pub find-assign :
      (m : IntMap V) (k j : ℕ) (v : V)
      → find (assign m k v) j ≡ (if k == j then some v else find m j)
  unfolding find assign
  find-assign [] k j v = ground arith
  find-assign ((i, w) ∷ m) k j v = ground (arith, find-assign m k j v)

  pub length-assign_le : (m : IntMap V) (k : ℕ) (v : V) → length (assign m k v) ≤ length m + 1
  unfolding assign
  length-assign_le [] k v = omega arith
  length-assign_le ((i, w) ∷ m) k v = ground (arith, length-assign_le m k v)

  pub length-erase_le : (m : IntMap V) (k : ℕ) → length (erase m k) ≤ length m
  unfolding erase
  length-erase_le [] k = omega arith
  length-erase_le ((i, w) ∷ m) k = ground (arith, length-erase_le m k)
