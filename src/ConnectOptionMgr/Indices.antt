-- ===== src/ConnectOptionMgr/Indices.antt =====
-- The handles of src/ConnectOptionMgr.cpp: which are free, and which one makeIndex takes.
use amxx_mqtt_client.Prelude.{
  ℕ, zero, suc, ◌+◌, ◌≤◌, ◌<◌, ◌≡◌, Bool, true, false, Option, none, some, List, [], ◌∷◌, arith,
  ◌==◌, if◌then◌else◌, Bool-cases, inl, inr,
}
use amxx_mqtt_client.IntMap.{find, find-assign, find-erase}
use amxx_mqtt_client.External.{Cell}
use amxx_mqtt_client.ConnectOptionMgr.{
  ConnectOption, ConnectOptionMgr, max_index, is_used, unuse, first_unused, get_options, destroy,
  write,
}

pub is_used-unuse :
    (js : List ℕ) (i j : ℕ) → is_used (unuse js i) j ≡ (if i == j then false else is_used js j)
unfolding is_used unuse
is_used-unuse [] i j = ground arith
is_used-unuse (k ∷ js) i j = ground (arith, is_used-unuse js i j)

pub first_unused-some :
    (n i : ℕ) (used : List ℕ) (k : ℕ)
    → first_unused n i used ≡ some k
    → (is_used used k ≡ false) × (i ≤ k) × (k < i + n)
unfolding first_unused
first_unused-some zero i used k e = absurd (ground arith)
first_unused-some (suc n) i used k e = ground (arith, first_unused-some n (i + 1) used k)

pub first_unused-least :
    (n i : ℕ) (used : List ℕ) (k j : ℕ)
    → first_unused n i used ≡ some k
    → i ≤ j
    → j < k
    → is_used used j ≡ true
unfolding first_unused
first_unused-least zero i used k j e h l = absurd (ground arith)
first_unused-least (suc n) i used k j e h l = elim (Bool-cases (i == j)) [
  | inl same ↦ ground arith
  | inr other ↦ ground (arith, first_unused-least n (i + 1) used k j)
]

pub first_unused-none :
    (n i : ℕ) (used : List ℕ) (j : ℕ)
    → first_unused n i used ≡ none
    → i ≤ j
    → j < i + n
    → is_used used j ≡ true
unfolding first_unused
first_unused-none zero i used j e h l = absurd (omega arith)
first_unused-none (suc n) i used j e h l = elim (Bool-cases (i == j)) [
  | inl same ↦ ground arith
  | inr other ↦ ground (arith, first_unused-none n (i + 1) used j)
]

-- What get_options finds, with no regard to the null entries that it adds.
abbrev pub look : ConnectOptionMgr → Cell → Option ConnectOption
look m i = (get_options m i).0

abbrev pub is_some : Option ConnectOption → Bool
is_some none = false
is_some (some o) = true

-- The used indices are exactly those with an object, and lie in 1 … MAX_INDEX.
pub record IsConsistent (m : ConnectOptionMgr) : Type 0 where
  pub agree : (i : Cell) → is_used m.index_used i ≡ is_some (look m i)
  pub in_range : (i : Cell) → is_used m.index_used i ≡ true → (1 ≤ i) × (i ≤ max_index)

abbrev flat : Option (Option ConnectOption) → Option ConnectOption
flat none = none
flat (some p) = p

look-find : (m : ConnectOptionMgr) (i : Cell) → look m i ≡ flat (find m.options i)
unfolding get_options
look-find m i = ground arith

-- Looking changes nothing that a later look can see.
pub look-get_options : (m : ConnectOptionMgr) (i j : Cell) → look (get_options m i).1 j ≡ look m j
unfolding get_options
look-get_options m i j = ground (arith, find-assign m.options i j none)

pub look-write :
    (m : ConnectOptionMgr) (i j : Cell) (o : ConnectOption)
    → look (write m i o) j ≡ (if i == j then some o else look m j)
unfolding get_options write
look-write m i j o = ground (arith, find-assign m.options i j (some o))

pub look-destroy :
    (m : ConnectOptionMgr) (i j : Cell) → look (destroy m i) j ≡ (if i == j then none else look m j)
unfolding get_options destroy
look-destroy m i j = ground (arith, find-erase m.options i j)
