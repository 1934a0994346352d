-- ===== src/MqttClientMgr/Changes.antt =====
-- The ways in which the operations of src/MqttClientMgr.cpp, and writes to a client, change the
-- manager, and what all of them keep.
use amxx_mqtt_client.Prelude.{
  ℕ, ◌+◌, ◌≤◌, ◌<◌, ◌≡◌, ◌∙◌, refl, false, none, some, [], ◌∷◌, arith, length, All, All-map,
}
use amxx_mqtt_client.IntMap.{IntMap, find, erase, assign, find-erase, find-assign, length-erase_le}
use amxx_mqtt_client.MqttClient.Events.{SameParts, IsBound, SameParts-IsBound}
use amxx_mqtt_client.MqttClientMgr.{
  MqttClientMgr, Handle, Client, max_clients, max_handle, emplace, update,
}

pub data Change (m n : MqttClientMgr) : Type 0 where
  kept : n ≡ m → Change m n
  created :
      (c : Client)
      → IsBound m.next_handle c.base
      → c.base.stopping ≡ false
      → length m.clients < max_clients
      → m.next_handle ≤ max_handle
      → n ≡ record { clients = emplace m.clients m.next_handle c; next_handle = m.next_handle + 1 }
      → Change m n
  removed : (k : Handle) → n ≡ record m { clients = erase m.clients k } → Change m n
  cleared : n ≡ record m { clients = [] } → Change m n
  updated :
      (k : Handle) (c d : Client)
      → find m.clients k ≡ some c
      → SameParts c.base d.base
      → n ≡ update m k d
      → Change m n

-- An entry under a handle that has been given out, its handlers bound to that handle, and its client
-- not being destroyed.
abbrev pub IsEntry : ℕ → Handle × Client → Type 0
IsEntry next (k, c) = (1 ≤ k) × (k < next) × IsBound k c.base × (c.base.stopping ≡ false)

pub record Inv (m : MqttClientMgr) : Type 0 where
  pub positive : 1 ≤ m.next_handle
  pub bounded : m.next_handle ≤ max_handle + 1
  pub entries : All (IsEntry m.next_handle) m.clients
  pub size : length m.clients ≤ max_clients

IsEntry-mono : (n : ℕ) (e : Handle × Client) → IsEntry n e → IsEntry (n + 1) e
IsEntry-mono n (k, c) h = (h.0, omega (arith, h.1), h.2, h.3)

All-erase :
    (n : ℕ) (m : IntMap Client) (k : Handle) → All (IsEntry n) m → All (IsEntry n) (erase m k)
unfolding erase
All-erase n [] k h = tt
All-erase n ((j, c) ∷ m) k h = ground (arith, All-erase n m k h.1)

All-assign :
    (n : ℕ) (m : IntMap Client) (k : Handle) (c : Client)
    → All (IsEntry n) m
    → IsEntry n (k, c)
    → All (IsEntry n) (assign m k c)
unfolding assign
All-assign n [] k c h e = (e, tt)
All-assign n ((j, d) ∷ m) k c h e = ground (arith, All-assign n m k c h.1 e)

pub find-IsEntry :
    (n : ℕ) (m : IntMap Client) (k : Handle) (c : Client)
    → All (IsEntry n) m
    → find m k ≡ some c
    → IsEntry n (k, c)
unfolding find
find-IsEntry n [] k c h e = absurd (ground arith)
find-IsEntry n ((j, d) ∷ m) k c h e = ground (arith, find-IsEntry n m k c h.1)

length-assign_hit :
    (m : IntMap Client) (k : Handle) (c d : Client)
    → find m k ≡ some c
    → length (assign m k d) ≡ length m
unfolding find assign
length-assign_hit [] k c d e = absurd (ground arith)
length-assign_hit ((j, b) ∷ m) k c d e = ground (arith, length-assign_hit m k c d)

-- No entry stands at or above the next handle.
pub find_fresh :
    (n : ℕ) (m : IntMap Client) (k : Handle) → All (IsEntry n) m → n ≤ k → find m k ≡ none
unfolding find
find_fresh n [] k h le = refl
find_fresh n ((j, c) ∷ m) k h le = ground (arith, find_fresh n m k h.1 le)

created-IsEntry :
    (n : ℕ) (m : IntMap Client) (c : Client)
    → 1 ≤ n
    → All (IsEntry n) m
    → IsBound n c.base
    → c.base.stopping ≡ false
    → All (IsEntry (n + 1)) (emplace m n c)
unfolding emplace
created-IsEntry n m c p h b live =
    rw (find_fresh n m n h (omega arith), emplace)
      ((p, omega arith, b, live), All-map (IsEntry n) (IsEntry (n + 1)) m (IsEntry-mono n) h)

length-emplace_le :
    (m : IntMap Client) (k : Handle) (c : Client) → length (emplace m k c) ≤ length m + 1
unfolding emplace
length-emplace_le m k c = ground arith

-- Every change keeps the invariant.
pub Change-Inv : {m n : MqttClientMgr} → Change m n → Inv m → Inv n
unfolding update
Change-Inv (kept e) v = rw e v
Change-Inv {m} (created c b live room low e) v = rw e (record {
  positive = omega arith;
  bounded = omega arith;
  entries = created-IsEntry m.next_handle m.clients c v.positive v.entries b live;
  size = omega (arith, length-emplace_le m.clients m.next_handle c);
})
Change-Inv {m} (removed k e) v = rw e (record {
  positive = v.positive;
  bounded = v.bounded;
  entries = All-erase m.next_handle m.clients k v.entries;
  size = omega (arith, length-erase_le m.clients k, v.size);
})
Change-Inv (cleared e) v =
    rw e (record { positive = v.positive; bounded = v.bounded; entries = tt; size = omega arith })
Change-Inv {m} (updated k c d f s e) v = rw e (record {
  positive = v.positive;
  bounded = v.bounded;
  entries =
      let old = find-IsEntry m.next_handle m.clients k c v.entries f in
      All-assign m.next_handle m.clients k d v.entries
        (old.0, old.1, SameParts-IsBound k c.base d.base s old.2, s.stopping ∙ old.3);
  size = rw (length-assign_hit m.clients k c d f) v.size;
})

-- The next handle never falls.
pub Change-next : {m n : MqttClientMgr} → Change m n → m.next_handle ≤ n.next_handle
unfolding update
Change-next (kept e) = ground arith
Change-next (created c b live room low e) = ground arith
Change-next (removed k e) = ground arith
Change-next (cleared e) = ground arith
Change-next (updated k c d f s e) = ground arith

-- A handle that has been given out and has no client will never have one.
pub record IsDead (k : Handle) (m : MqttClientMgr) : Type 0 where
  pub given : k < m.next_handle
  pub absent : find m.clients k ≡ none

find-emplace_ne :
    (m : IntMap Client) (k j : Handle) (c : Client)
    → j < k
    → find m j ≡ none
    → find (emplace m k c) j ≡ none
unfolding emplace find
find-emplace_ne m k j c h e = ground arith

pub Change-IsDead : {m n : MqttClientMgr} (k : Handle) → Change m n → IsDead k m → IsDead k n
unfolding update
Change-IsDead k (kept e) d = rw e d
Change-IsDead {m} k (created c b live room low e) d = rw e (record {
  given = omega (arith, d.given);
  absent = find-emplace_ne m.clients m.next_handle k c d.given d.absent;
})
Change-IsDead {m} k (removed j e) d =
    rw e (record { given = d.given; absent = ground (arith, find-erase m.clients j k, d.absent) })
Change-IsDead k (cleared e) d = rw e (record { given = d.given; absent = unfold find in refl })
Change-IsDead {m} k (updated j c b f s e) d =
    rw e
      (record { given = d.given; absent = ground (arith, find-assign m.clients j k b, d.absent) })
