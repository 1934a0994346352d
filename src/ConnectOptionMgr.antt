-- ===== src/ConnectOptionMgr.antt =====
-- src/ConnectOption.h, src/ConnectOption.cpp, src/ConnectOptionMgr.h and src/ConnectOptionMgr.cpp:
-- the connect options that plugins fill in, under handles from 1 to MAX_INDEX that are used again.
pub mod Indices
pub mod Consistency
use amxx_mqtt_client.Prelude.{
  ℕ, zero, suc, ◌+◌, Bool, true, false, Option, none, some, List, [], ◌∷◌, ◌==◌, ◌||◌,
  if◌then◌else◌,
}
use amxx_mqtt_client.IntMap.{IntMap, find, erase, assign}
use amxx_mqtt_client.External.{Cell, OptionCall, PropertyCall, Result, returns, throws, no_index}

-- The two objects that m_pOptions and m_pProperties point to, by the calls made on each, oldest first.
pub record ConnectOption : Type 0 where
  pub option : List OptionCall
  pub properties : List PropertyCall

-- A pointer is `none` if it is null.
pub record ConnectOptionMgr : Type 0 where
  pub options : IntMap (Option ConnectOption)
  pub index_used : List ℕ

abbrev pub max_index : ℕ
max_index = 10000

abbrev pub empty : ConnectOptionMgr
empty = record { options = []; index_used = [] }

abbrev pub new_option : ConnectOption
new_option = record { option = []; properties = [] }

-- m_indexUsed.find(i) != m_indexUsed.end()
unfoldable pub is_used : List ℕ → ℕ → Bool
is_used [] i = false
is_used (j ∷ js) i = j == i || is_used js i

-- m_indexUsed.erase(i)
unfoldable pub unuse : List ℕ → ℕ → List ℕ
unuse [] i = []
unuse (j ∷ js) i = let rest = unuse js i in if j == i then rest else j ∷ rest

-- The loop of makeIndex, with the rounds that are left.
unfoldable pub first_unused : ℕ → ℕ → List ℕ → Option ℕ
first_unused zero i used = none
first_unused (suc rounds) i used =
    let rest = first_unused rounds (i + 1) used in if is_used used i then rest else some i

unfoldable pub make_index : ConnectOptionMgr → Result ℕ × ConnectOptionMgr
make_index m = elim (first_unused max_index 1 m.index_used) [
  | none ↦ (throws no_index, m)
  | some i ↦ (returns i, record m { index_used = i ∷ m.index_used })
]

unfoldable pub make : ConnectOptionMgr → Result Cell × ConnectOptionMgr
unfolding make_index
make m =
    let (r, m') = make_index m in
    elim r [
      | throws e ↦ (throws e, m')
      | returns index ↦
          if index == 0
          then (returns 0, m')
          else (returns index, record m' { options = assign m'.options index (some new_option) })
    ]

-- `m_options[index]` adds a null pointer where there is no entry.
unfoldable pub get_options : ConnectOptionMgr → Cell → Option ConnectOption × ConnectOptionMgr
get_options m index = elim (find m.options index) [
  | some p ↦ (p, m)
  | none ↦ (none, record m { options = assign m.options index none })
]

unfoldable pub destroy : ConnectOptionMgr → Cell → ConnectOptionMgr
destroy m index = elim (find m.options index) [
  | none ↦ m
  | some _ ↦ record m { options = erase m.options index; index_used = unuse m.index_used index }
]

-- Also what the destructor leaves.
unfoldable pub reset : ConnectOptionMgr → ConnectOptionMgr
reset m = record { options = []; index_used = [] }

-- A write through the pointer that get_options returned.
unfoldable pub write : ConnectOptionMgr → Cell → ConnectOption → ConnectOptionMgr
write m index o = record m { options = assign m.options index (some o) }
