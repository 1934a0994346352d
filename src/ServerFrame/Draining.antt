-- ===== src/ServerFrame/Draining.antt =====
-- How many server frames of src/CallbackDispatcher.cpp empty the queue.
use amxx_mqtt_client.Prelude.{
  ℕ, zero, suc, ◌+◌, ◌*◌, ◌≤◌, ◌≡◌, refl, sym, ap, ◌∙◌, List, [], ◌∷◌, ◌++◌, arith, length, take,
  drop,
}
use amxx_mqtt_client.External.{History}
use amxx_mqtt_client.CallbackDispatcher.{CallbackEvent}
use amxx_mqtt_client.World.{World}
use amxx_mqtt_client.ServerFrame.{Surroundings, process_pending_callbacks}
use amxx_mqtt_client.ServerFrame.Order.{
  IsIdle, with_queue, delivered, process_pending_callbacks_idle,
}

-- ProcessPendingCallbacks of a number of frames, one after the other.
unfoldable pub frames : Surroundings → ℕ → World → World
frames s zero w = w
frames s (suc n) w = frames s n (process_pending_callbacks s w)

module _ {ℓ} {A : Type ℓ} where
  take-drop : (n : ℕ) (xs : List A) → take n xs ++ drop n xs ≡ xs
  take-drop zero xs = refl
  take-drop (suc n) [] = refl
  take-drop (suc n) (x ∷ xs) = ap (λ ys. x ∷ ys) (take-drop n xs)

  length-drop_le : (n m : ℕ) (xs : List A) → length xs ≤ n + m → length (drop n xs) ≤ m
  length-drop_le zero m xs h = omega arith
  length-drop_le (suc n) m [] h = omega arith
  length-drop_le (suc n) m (x ∷ xs) h = length-drop_le n m xs (omega arith)

  empty : (xs : List A) → length xs ≤ 0 → xs ≡ []
  empty [] h = refl
  empty (x ∷ xs) h = absurd (omega arith)

delivered-append :
    (w : World) (es fs : List CallbackEvent) (h : History)
    → delivered w (es ++ fs) h ≡ delivered w fs (delivered w es h)
delivered-append w [] fs h = refl
delivered-append w (e ∷ es) fs h = delivered-append w es fs _

-- With nothing beside the loop and the queue accepting events, ProcessPendingCallbacks of n frames
-- empties a queue of at most 256 * n events, and has executed then the forwards of all its events, in
-- the order in which they were queued and each once, skipping those with no client or no forward.
pub frames_drain :
    {s : Surroundings}
    → IsIdle s
    → (n : ℕ) (w : World) (es : List CallbackEvent) (h : History) → length es ≤ 256 * n
    → frames s n (with_queue w es h) ≡ with_queue w [] (delivered w es h)
unfolding frames
frames_drain idle zero w es h few = rw (empty es (omega arith)) refl
frames_drain {s} idle (suc n) w es h few =
    ap (frames s n) (process_pending_callbacks_idle idle w es h)
    ∙ frames_drain idle n w (drop 256 es) (delivered w (take 256 es) h)
        (length-drop_le 256 (256 * n) es (omega arith))
    ∙ ap (with_queue w []) (
        sym (delivered-append w (take 256 es) (drop 256 es) h)
        ∙ ap (λ l. delivered w l h) (take-drop 256 es))
