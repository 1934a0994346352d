-- ===== src/ConnectOptionMgr/Consistency.antt =====
-- What `make` of src/ConnectOptionMgr.cpp returns, and the invariant that its operations keep.
use amxx_mqtt_client.Prelude.{
  ℕ, ◌≤◌, ◌<◌, ◌≡◌, refl, ap, ◌∙◌, true, false, none, some, List, ◌∷◌, arith, ◌==◌, if◌then◌else◌,
  Option-cases, inl, inr,
}
use amxx_mqtt_client.IntMap.{find}
use amxx_mqtt_client.External.{Cell, Result, returns, throws, no_index}
use amxx_mqtt_client.ConnectOptionMgr.{
  ConnectOption, ConnectOptionMgr, max_index, new_option, is_used, first_unused, make, get_options,
  destroy, reset, write,
}
use amxx_mqtt_client.ConnectOptionMgr.Indices.{
  IsConsistent, look, is_some, is_used-unuse, first_unused-some, first_unused-least,
  first_unused-none, look-get_options, look-write, look-destroy,
}

-- The two outcomes: the least free handle with new options, or no handle left and nothing changed.
pub data Indexed (m : ConnectOptionMgr) (out : Result Cell × ConnectOptionMgr) : Type 0 where
  exhausted :
      ((i : Cell) → 1 ≤ i → i ≤ max_index → is_used m.index_used i ≡ true)
      → out ≡ (throws no_index, m)
      → Indexed m out
  made :
      (k : Cell)
      → 1 ≤ k
      → k ≤ max_index
      → is_used m.index_used k ≡ false
      → ((i : Cell) → 1 ≤ i → i < k → is_used m.index_used i ≡ true)
      → out.0 ≡ returns k
      → out.1.index_used ≡ k ∷ m.index_used
      → ((i : Cell) → look out.1 i ≡ (if k == i then some new_option else look m i))
      → Indexed m out

make-first :
    (m : ConnectOptionMgr) (k : ℕ)
    → 1 ≤ k
    → first_unused max_index 1 m.index_used ≡ some k
    → make m ≡ (returns k, write (record m { index_used = k ∷ m.index_used }) k new_option)
unfolding make write
make-first m k h e = ground (arith, e)

make-none :
    (m : ConnectOptionMgr)
    → first_unused max_index 1 m.index_used ≡ none
    → make m ≡ (throws no_index, m)
unfolding make
make-none m e = ground (arith, e)

look-index_used :
    (m : ConnectOptionMgr) (js : List ℕ) (i : Cell)
    → look (record m { index_used = js }) i ≡ look m i
unfolding get_options
look-index_used m js i = ground arith

-- `make` gives out the least free handle from 1 to MAX_INDEX, with new options and nothing else
-- changed; it throws, and changes nothing, exactly if none is free.
pub make-Indexed : (m : ConnectOptionMgr) → Indexed m (make m)
make-Indexed m = elim (Option-cases (first_unused max_index 1 m.index_used)) [
  | inl e ↦
      exhausted (λ i h l. first_unused-none max_index 1 m.index_used i e h (omega arith))
        (make-none m e)
  | inr (k, e) ↦
      let found = first_unused-some max_index 1 m.index_used k e in
      rw (make-first m k found.1 e) (
        made k found.1 (omega (arith, found)) found.0
          (λ i h l. first_unused-least max_index 1 m.index_used k i e h l) refl
          (unfold write in refl) (λ i. rw look-write (rw look-index_used refl)))
]

used-cons : (js : List ℕ) (k i : ℕ) → is_used (k ∷ js) i ≡ (if k == i then true else is_used js i)
unfolding is_used
used-cons js k i = ground arith

-- The handles in use are those with options behind them, and lie between 1 and MAX_INDEX. `make`
-- keeps this.
pub make-IsConsistent : (m : ConnectOptionMgr) → IsConsistent m → IsConsistent (make m).1
make-IsConsistent m v = go (make-Indexed m)
  where
    agree-cons :
        (i k : ℕ)
        → (if k == i then true else is_used m.index_used i)
          ≡ is_some (if k == i then some new_option else look m i)
    agree-cons i k = ground (arith, v.agree i)

    go : {out : Result Cell × ConnectOptionMgr} → Indexed m out → IsConsistent out.1
    go (exhausted all e) = rw e v
    go {out} (made k low high free least r u l) = record {
      agree =
          λ i. ap (λ js. is_used js i) u ∙ used-cons m.index_used k i ∙ rw (l i) (agree-cons i k);
      in_range =
          λ i h. let used = rw (u, used-cons m.index_used k i) at h in ground (arith, v.in_range i);
    }

used-get_options : (m : ConnectOptionMgr) (i : Cell) → (get_options m i).1.index_used ≡ m.index_used
unfolding get_options
used-get_options m i = ground arith

pub get_options-IsConsistent :
    (m : ConnectOptionMgr) (i : Cell) → IsConsistent m → IsConsistent (get_options m i).1
get_options-IsConsistent m i v = record {
  agree = λ j. rw (used-get_options, look-get_options) (v.agree j);
  in_range = λ j h. v.in_range j (rw used-get_options at h);
}

used-destroy :
    (m : ConnectOptionMgr) (i j : Cell)
    → IsConsistent m
    → is_used (destroy m i).index_used j ≡ (if i == j then false else is_used m.index_used j)
unfolding destroy get_options
used-destroy m i j v = ground (arith, v.agree i, is_used-unuse m.index_used i j)

-- `destroy` of any handle, known or not, keeps the handles in use those with options behind them.
pub destroy-IsConsistent :
    (m : ConnectOptionMgr) (i : Cell) → IsConsistent m → IsConsistent (destroy m i)
destroy-IsConsistent m i v = record {
  agree = λ j. rw (used-destroy m i j v, look-destroy) (ground (arith, v.agree j));
  in_range = λ j h. let used = rw (used-destroy m i j v) at h in ground (arith, v.in_range j);
}

-- A write through a pointer that is not null.
pub write-IsConsistent :
    (m : ConnectOptionMgr) (i : Cell) (o o' : ConnectOption)
    → look m i ≡ some o
    → IsConsistent m
    → IsConsistent (write m i o')
unfolding write
write-IsConsistent m i o o' e v = record {
  agree = λ j. rw look-write (ground (arith, v.agree i, v.agree j, used-write m i o'));
  in_range = λ j h. v.in_range j (rw used-write at h);
}
  where
    used-write :
        (m : ConnectOptionMgr) (i : Cell) (o' : ConnectOption)
        → (write m i o').index_used ≡ m.index_used
    used-write m i o' = refl

pub reset-IsConsistent : (m : ConnectOptionMgr) → IsConsistent (reset m)
unfolding reset is_used get_options find
reset-IsConsistent m = record { agree = λ j. refl; in_range = λ j h. absurd (ground arith) }
