-- ===== src/Service.antt =====
-- What the module promises, without its data structures: a set of live clients, the next handle, and a
-- queue of events. src/MqttClientMgr.cpp and src/CallbackDispatcher.cpp implement it.
use mathlib.Core.List.{Mem}
use amxx_mqtt_client.Prelude.{
  ℕ, ◌+◌, ◌<◌, ◌≡◌, Bool, true, false, List, [], ◌∷◌, ◌++◌, ◌==◌, ◌||◌, ◌&&◌, not, if◌then◌else◌,
}
use amxx_mqtt_client.MqttClientMgr.{Handle}
use amxx_mqtt_client.External.{Call, History}
use amxx_mqtt_client.CallbackDispatcher.{CallbackEvent}
use amxx_mqtt_client.System.{
  ThreadAction, network, deliver, Action, native, thread, attach, plugins_loaded, plugins_unloading,
  detach, Script, Step, action, frame,
}

pub record Service : Type 0 where
  pub is_live : Handle → Bool
  pub next : ℕ
  pub accepting : Bool
  pub queue : List CallbackEvent

abbrev pub SameClients : Service → Service → Type 0
SameClients s t = ((k : Handle) → t.is_live k ≡ s.is_live k) × (t.next ≡ s.next)

abbrev pub SameQueue : Service → Service → Type 0
SameQueue s t = (t.accepting ≡ s.accepting) × (t.queue ≡ s.queue)

-- A client is opened under the next handle, one or all are closed, or the clients stay.
pub data Manages (s t : Service) : Type 0 where
  opened :
      s.is_live s.next ≡ false
      → ((k : Handle) → t.is_live k ≡ (s.next == k) || s.is_live k)
      → t.next ≡ s.next + 1
      → SameQueue s t
      → Manages s t
  closed :
      (k : Handle)
      → ((j : Handle) → t.is_live j ≡ not (k == j) && s.is_live j)
      → t.next ≡ s.next
      → SameQueue s t
      → Manages s t
  closed_all : ((k : Handle) → t.is_live k ≡ false) → t.next ≡ s.next → SameQueue s t → Manages s t
  kept : SameClients s t → SameQueue s t → Manages s t

-- An event of a handle that was given out is put at the end, if events are accepted.
pub record IsPosted (e : CallbackEvent) (s t : Service) : Type 0 where
  pub given : e.handle < s.next
  pub accepting : t.accepting ≡ s.accepting
  pub queue : t.queue ≡ (if s.accepting then s.queue ++ e ∷ [] else s.queue)
  pub clients : SameClients s t

-- At most one event is posted.
pub data Posts (s t : Service) : Type 0 where
  posted : (e : CallbackEvent) → IsPosted e s t → Posts s t
  silent : SameClients s t → SameQueue s t → Posts s t

-- The first event is taken.
pub record IsTaken (e : CallbackEvent) (s t : Service) : Type 0 where
  pub open' : s.accepting ≡ true
  pub still : t.accepting ≡ true
  pub first : s.queue ≡ e ∷ t.queue
  pub clients : SameClients s t

-- Events are accepted from now on.
abbrev pub IsStarted : Service → Service → Type 0
IsStarted s t = (t.accepting ≡ true) × (t.queue ≡ s.queue) × SameClients s t

-- No events are accepted and none wait, and all clients are closed.
abbrev pub IsShut : Service → Service → Type 0
IsShut s t =
    (t.accepting ≡ false)
    × (t.queue ≡ [])
    × ((k : Handle) → t.is_live k ≡ false)
    × (t.next ≡ s.next)

abbrev pub IsSame : Service → Service → Type 0
IsSame s t = SameClients s t × SameQueue s t

-- What each event of the module does to the service.
abbrev pub Does : Action → Service → Service → Type 0
Does (native _ _) s t = (m : Service) × Posts s m × Manages m t
Does (thread (network _ _)) s t = IsSame s t
Does (thread (deliver _)) s t = Posts s t
Does (attach _) s t = IsSame s t
Does plugins_loaded s t = IsStarted s t
Does plugins_unloading s t = IsShut s t
Does detach s t = IsShut s t

-- What runs in a server frame: the script's actions in the frame itself, those of plugins under a
-- callback, and the threads of Paho.
pub data IsOf (script : Script) : Action → Type 0 where
  of_frame : (a : Action) → Mem a script.frame_actions → IsOf script a
  of_pawn : (h : History) (c : Call) (a : Action) → Mem a (script.pawn_actions h c) → IsOf script a
  of_thread :
      (h : History) (k : ℕ) (t : ThreadAction)
      → Mem t (script.thread_actions h k)
      → IsOf script (thread t)

-- In a frame these are done, and events are taken from the front of the queue, and nothing else.
pub data FrameRun (script : Script) (s : Service) : Service → Type 0 where
  begin : FrameRun script s s
  did :
      {t u : Service} (a : Action)
      → FrameRun script s t
      → IsOf script a
      → Does a t u
      → FrameRun script s u
  took :
      {t u : Service} (e : CallbackEvent)
      → FrameRun script s t
      → IsTaken e t u
      → FrameRun script s u

abbrev pub StepRun : Step → Service → Service → Type 0
StepRun (action a) s t = Does a s t
StepRun (frame script) s t = FrameRun script s t

-- The service does what each of the steps does, in their order.
abbrev pub ServiceRun : List Step → Service → Service → Type 0
ServiceRun [] s u = IsSame s u
ServiceRun (t ∷ ts) s u = (m : Service) × StepRun t s m × ServiceRun ts m u
