-- ===== src/CallbackDispatcher/Queue.antt =====
-- The queue of src/CallbackDispatcher.cpp: what its steps keep.
use amxx_mqtt_client.Prelude.{
  ℕ, ◌<◌, ◌≤◌, ◌≡◌, refl, Bool, true, false, some, List, [], ◌∷◌, arith, All, All-append, All-map,
  Bool-cases, inl, inr,
}
use amxx_mqtt_client.MqttClient.{
  Notice, on_connected, on_message, on_connection_lost, on_disconnected, normal_disconnection,
}
use amxx_mqtt_client.MqttClient.Events.{handler_of}
use amxx_mqtt_client.MqttClientMgr.{Handle}
use amxx_mqtt_client.CallbackDispatcher.{
  CallbackEvent, CallbackType, Dispatcher, enqueue, dispatch, start, stop, pop, pop_list,
}

-- The event that a notice becomes.
abbrev pub event_of : Notice Handle → CallbackEvent
event_of (on_connected k msg) = record {
  type = CallbackType.connected;
  handle = k;
  text = [];
  reason_code = normal_disconnection;
  topic = [];
}
event_of (on_message k msg) = record {
  type = CallbackType.message;
  handle = k;
  text = msg.payload;
  reason_code = normal_disconnection;
  topic = msg.topic;
}
event_of (on_connection_lost k reason) = record {
  type = CallbackType.connection_lost;
  handle = k;
  text = reason;
  reason_code = normal_disconnection;
  topic = [];
}
event_of (on_disconnected k code) = record {
  type = CallbackType.disconnected;
  handle = k;
  text = [];
  reason_code = code;
  topic = [];
}

pub dispatch-enqueue : (n : Notice Handle) (d : Dispatcher) → dispatch n d ≡ enqueue (event_of n) d
unfolding dispatch
dispatch-enqueue (on_connected k msg) d = refl
dispatch-enqueue n d = refl

pub event_of-handle : (n : Notice Handle) → (event_of n).handle ≡ handler_of n
event_of-handle (on_connected k msg) = refl
event_of-handle n = refl

-- Every event waits under a handle that has been given out, and none waits while none are accepted.
pub record IsQueue (next : ℕ) (d : Dispatcher) : Type 0 where
  pub given : All (λ (e : CallbackEvent). e.handle < next) d.pending
  pub quiet : d.accepting ≡ false → d.pending ≡ []

enqueue-IsQueue :
    (next : ℕ) (e : CallbackEvent) (d : Dispatcher)
    → e.handle < next
    → IsQueue next d
    → IsQueue next (enqueue e d)
unfolding enqueue
enqueue-IsQueue next e d h q = record {
  given = elim (Bool-cases d.accepting) [
    | inl open' ↦ rw (open', enqueue) (All-append _ d.pending (e ∷ []) q.given (h, tt))
    | inr shut ↦ rw (shut, enqueue) q.given
  ];
  quiet = λ p. ground arith;
}

pub dispatch-IsQueue :
    (next : ℕ) (n : Notice Handle) (d : Dispatcher)
    → handler_of n < next
    → IsQueue next d
    → IsQueue next (dispatch n d)
dispatch-IsQueue next n d h q =
    rw dispatch-enqueue (enqueue-IsQueue next (event_of n) d (ground (arith, event_of-handle n)) q)

pub IsQueue-mono : (m n : ℕ) (d : Dispatcher) → m ≤ n → IsQueue m d → IsQueue n d
IsQueue-mono m n d le q = record {
  given = All-map _ _ d.pending (λ e h. omega arith) q.given;
  quiet = q.quiet;
}

pub start-IsQueue : (next : ℕ) (d : Dispatcher) → IsQueue next d → IsQueue next (start d)
unfolding start
start-IsQueue next d q = record { given = q.given; quiet = λ p. cc }

pub stop-IsQueue : (next : ℕ) (d : Dispatcher) → IsQueue next (stop d)
unfolding stop
stop-IsQueue next d = record { given = tt; quiet = λ p. refl }

pop_list-some :
    (b : Bool) (es : List CallbackEvent) (e : CallbackEvent) (d : Dispatcher)
    → pop_list b es ≡ some (e, d)
    → (b ≡ true) × (es ≡ e ∷ d.pending) × (d.accepting ≡ true)
unfolding pop_list
pop_list-some b [] e d h = absurd (ground arith)
pop_list-some b (x ∷ es) e d h = ground arith

-- A round takes the first event, and leaves the rest in order.
pub pop-some :
    (d : Dispatcher) (e : CallbackEvent) (d' : Dispatcher)
    → pop d ≡ some (e, d')
    → (d.accepting ≡ true) × (d.pending ≡ e ∷ d'.pending) × (d'.accepting ≡ true)
unfolding pop
pop-some d e d' h = pop_list-some d.accepting d.pending e d' h

pub pop-IsQueue :
    (next : ℕ) (d : Dispatcher) (e : CallbackEvent) (d' : Dispatcher)
    → pop d ≡ some (e, d')
    → IsQueue next d
    → IsQueue next d'
pop-IsQueue next d e d' h q =
    let taken = pop-some d e d' h in
    let given = rw taken.1 at q.given in record { given = given.1; quiet = λ p. ground arith }
