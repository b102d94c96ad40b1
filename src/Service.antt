-- ===== src/Service.antt =====
-- The event loop of a service, and the threads that send to it: service_stop, doPendingFunctors and
-- the answer of service_eventCallback of src/service/source/service_t.c, with service_enqueue of
-- src/service/include/internal/service-inl.h.
--
-- Every access to a field that threads share is a step of its own: the atomic operations, the
-- insertion under the spin lock, and service_notify, which reads pEventWatcher and exchanges the
-- status of the watcher, of src/core/source/eventIO/posix/eventWatcher_t.c. Any thread may move
-- between two steps. The thread of the service enters doPendingFunctors only where the status says
-- that the watcher has been notified. What the callback of the service does with an event is left out, also fnStop and the
-- removal from the service centre; `handled` lists the events that it got.
pub mod Invariant
pub mod Fits
pub mod Order
pub mod Races
pub mod Wakes
pub mod Woken
pub mod Waiting
pub mod Leave
pub mod Drain
pub mod Batch
pub mod Callback
mod Tests
use frog_game_framework.Base.{
  ℕ, ◌+◌, ◌-◌, ◌*◌, ◌/◌, ◌%◌, ◌^◌, ◌≡◌, Bool, true, false, ◌&&◌, not, List, [], ◌∷◌, ◌++◌, All,
  Option, none, some, ltb, ◌==◌, if◌then◌else◌, bit_and,
}
use frog_game_framework.Streams.{Event, EventQueue}

-- Where the thread of the service stands in doPendingFunctors: outside, before `QUEUE_MOVE`, in the
-- loop over the events that it has moved, before eventWatcher_reset where nothing was there or where
-- a thread waits, before the load of uiQueueSize that follows, or before service_notify.
pub data Point : Type 0 where
  outside : Point
  taking : Point
  handling : Point
  found_none : Point
  found_waiting : Point
  rechecking : Point
  notifying : Point

-- `service_s`, with the local variables queuePending and bRunning of doPendingFunctors.
pub record Service : Type 0 where
  pub service_id : ℕ
  pub queue : EventQueue
  pub has_watcher : Bool
  -- `iStatus` of the watcher: 0 is closed, 1 waits, 2 is notified, 3 has been called.
  pub watcher_status : ℕ
  pub point : Point
  pub batch : List Event
  pub goes_on : Bool
  pub handled : List Event
  -- All events in the order in which they were put in the queue.
  pub arrived : List Event

-- A thread in service_enqueue or service_stop: before it adds to uiQueueSize, before it puts the
-- event in the queue, before it notifies, or in neither function.
pub data Caller : Type 0 where
  idle : Caller
  checked : Event → Caller
  counted : Event → Caller
  inserted : Caller

-- `atomic_load` of bRunning in service_enqueue.
unfoldable pub check_enqueue : Service → Event → Caller
check_enqueue s e = if s.queue.is_running then Caller.checked e else Caller.idle

-- The event of service_stop; its type is 0.
abbrev pub stop_event : ℕ → Event
stop_event id = record { source_id = id; token = 0; length_and_type = 0; storage = [] }

-- `atomic_compare_exchange_strong` in service_stop.
unfoldable pub exchange_stop : Service → Service × Caller
exchange_stop s =
    if s.queue.is_running
    then (
      record s { queue = record s.queue { is_running = false } },
      Caller.checked (stop_event s.service_id),
    )
    else (s, Caller.idle)

-- `atomic_fetch_add` on uiQueueSize.
unfoldable pub count_event : Service → Service
count_event s = record s {
  queue = record s.queue { queue_size = (s.queue.queue_size + 1) % 2 ^ 32 };
}

-- `QUEUE_INSERT_TAIL` under the lock.
unfoldable pub insert_tail : Service → Event → Service
insert_tail s e = record s {
  queue = record s.queue { pending = s.queue.pending ++ (e ∷ []) };
  arrived = s.arrived ++ (e ∷ []);
}

-- The status after `atomic_compare_exchange_strong` of it, from `old` to `new`.
abbrev pub exchange_status : ℕ → ℕ → ℕ → ℕ
exchange_status old new status = if status == old then new else status

-- `service_notify`: a fault where pEventWatcher is NULL, else eventWatcher_notify.
unfoldable pub notify : Service → Option Service
notify s =
    if s.has_watcher
    then some (record s { watcher_status = exchange_status 1 2 s.watcher_status })
    else none

-- `eventWatcher_reset`, where pEventWatcher is not NULL.
unfoldable pub reset_watcher : Service → Service
reset_watcher s = record s {
  watcher_status = if s.has_watcher then exchange_status 3 1 s.watcher_status else s.watcher_status;
}

-- inLoop_eventWatcher_notify with the status 2: the watcher calls doPendingFunctors.
unfoldable pub enter : Service → Service
enter s = record s { watcher_status = 3; point = Point.taking; goes_on = true }

-- All events of the queue in the batch.
abbrev pub move_queue : Service → List Event → Service
move_queue s es = record s {
  queue = record s.queue { pending = [] };
  batch = es;
  point = Point.handling;
}

-- `QUEUE_MOVE` under the lock.
unfoldable pub take_pending : Service → Service
take_pending s = elim s.queue.pending [
  | [] ↦ record s { point = Point.found_none }
  | e ∷ es ↦ move_queue s (e ∷ es)
]

-- `atomic_load` of uiQueueSize where nothing was there.
unfoldable pub recheck : Service → Service
recheck s = record s { point = if ltb 0 s.queue.queue_size then Point.notifying else Point.outside }

-- The answer of service_eventCallback: false for DEF_EVENT_SERVICE_STOP.
abbrev pub event_answer : Event → Bool
event_answer e = not (bit_and (e.length_and_type / 2 ^ 24) 0x0f == 0)

-- The service with its event `e` handled, of which `es` are left in the batch. The event that stops
-- the service sets uiServiceID to 0, closes the watcher and sets pEventWatcher to NULL.
abbrev pub handled_one : Service → Event → List Event → Service
handled_one s e es = record s {
  service_id = if event_answer e then s.service_id else 0;
  queue = record s.queue { queue_size = (s.queue.queue_size + (2 ^ 32 - 1)) % 2 ^ 32 };
  batch = es;
  goes_on = event_answer e;
  has_watcher = s.has_watcher && event_answer e;
  watcher_status = if event_answer e then s.watcher_status else 0;
  handled = s.handled ++ (e ∷ []);
}

-- One round of the inner loop: `assert(bRunning)` is a fault where it fails.
unfoldable pub handle : Service → Option Service
handle s = elim s.batch [
  | [] ↦ none
  | e ∷ es ↦ if s.goes_on then some (handled_one s e es) else none
]

-- The end of a batch; `waiting` is what service_waitForCount gives.
unfoldable pub end_batch : ℕ → Service → Service
end_batch waiting s = record s {
  point =
      if s.goes_on
      then if ltb 0 s.queue.queue_size && ltb 0 waiting then Point.found_waiting else Point.taking
      else Point.outside;
}

-- The steps of a thread that calls; events of other types than 0 are sent.
pub data Call : Service → Caller → Service × Caller → Type 0 where
  send :
      (s : Service) (e : Event) → event_answer e ≡ true → Call s Caller.idle (s, check_enqueue s e)
  stop : (s : Service) → Call s Caller.idle (exchange_stop s)
  count : (s : Service) (e : Event) → Call s (Caller.checked e) (count_event s, Caller.counted e)
  insert : (s : Service) (e : Event) → Call s (Caller.counted e) (insert_tail s e, Caller.inserted)
  awake : (s t : Service) → notify s ≡ some t → Call s Caller.inserted (t, Caller.idle)

-- The steps of the thread of the service.
pub data Turn : Service → Service → Type 0 where
  begin : (s : Service) → s.point ≡ Point.outside → s.watcher_status ≡ 2 → Turn s (enter s)
  take : (s : Service) → s.point ≡ Point.taking → Turn s (take_pending s)
  next : (s t : Service) → s.point ≡ Point.handling → handle s ≡ some t → Turn s t
  end :
      (s : Service) (waiting : ℕ)
      → s.point ≡ Point.handling
      → s.batch ≡ []
      → Turn s (end_batch waiting s)
  reset_none :
      (s : Service)
      → s.point ≡ Point.found_none
      → Turn s (record (reset_watcher s) { point = Point.rechecking })
  load_size : (s : Service) → s.point ≡ Point.rechecking → Turn s (recheck s)
  reset_waiting :
      (s : Service)
      → s.point ≡ Point.found_waiting
      → Turn s (record (reset_watcher s) { point = Point.notifying })
  notify_itself :
      (s t : Service)
      → s.point ≡ Point.notifying
      → notify s ≡ some t
      → Turn s (record t { point = Point.outside })

pub record System : Type 0 where
  pub service : Service
  pub callers : List Caller

pub data Step : System → System → Type 0 where
  calls :
      (front back : List Caller) (s : Service) (t : Caller) (r : Service × Caller)
      → Call s t r
      → Step
          (record { service = s; callers = front ++ (t ∷ back) })
          (record { service = r.0; callers = front ++ (r.1 ∷ back) })
  turns :
      (callers : List Caller) (s t : Service)
      → Turn s t
      → Step (record { service = s; callers = callers }) (record { service = t; callers = callers })

abbrev pub IsIdle : Caller → Type 0
IsIdle t = t ≡ Caller.idle

-- A service after service_start, which has notified the watcher, with nothing in its queue.
abbrev pub started : ℕ → Service
started id = record {
  service_id = id;
  queue = record { is_running = true; queue_size = 0; pending = [] };
  has_watcher = true;
  watcher_status = 2;
  point = Point.outside;
  batch = [];
  goes_on = true;
  handled = [];
  arrived = [];
}

pub data Reachable : System → Type 0 where
  start :
      (id : ℕ) (callers : List Caller)
      → All IsIdle callers
      → Reachable (record { service = started id; callers = callers })
  later : {a b : System} → Reachable a → Step a b → Reachable b
