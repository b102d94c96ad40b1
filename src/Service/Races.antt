-- ===== src/Service/Races.antt =====
-- Two orders of the steps that the code does not expect, and service_enqueue where no other thread
-- runs in between.
use frog_game_framework.Base.{
  ℕ, ◌≡◌, ◌⊎◌, inl, inr, Bool-cases, if◌then◌else◌, ap, refl, true, false, List, [], ◌∷◌, none,
}
use frog_game_framework.Streams.{Event, enqueue}
use frog_game_framework.Service.{
  Point, Service, Caller, check_enqueue, exchange_stop, stop_event, count_event, insert_tail,
  notify, enter, take_pending, event_answer, handle, Call, Turn, System, calls, turns, Reachable,
  started, start, later,
}

-- A caller of service_stop that has put its event in the queue, which the service has handled before
-- the caller notifies it.
unfoldable pub stopped_early : ℕ → System
stopped_early id = record {
  service = record (started id) {
    service_id = 0;
    queue = record { is_running = false; queue_size = 0; pending = [] };
    has_watcher = false;
    watcher_status = 0;
    point = Point.handling;
    goes_on = false;
    handled = stop_event id ∷ [];
    arrived = stop_event id ∷ [];
  };
  callers = Caller.inserted ∷ [];
}

stopped_early-Reachable : (id : ℕ) → Reachable (stopped_early id)
unfolding stopped_early exchange_stop count_event insert_tail enter take_pending handle
stopped_early-Reachable id =
    let s1 : Service = enter (started id) in
    let s2 : Service = (exchange_stop s1).0 in
    let s3 : Service = count_event s2 in
    let s4 : Service = insert_tail s3 (stop_event id) in
    let s5 : Service = take_pending s4 in
    let r0 = start id (Caller.idle ∷ []) (refl, tt) in
    let r1 =
      later r0 (turns (Caller.idle ∷ []) (started id) s1 (Turn.begin (started id) refl refl)) in
    let r2 = later r1 (calls [] [] s1 Caller.idle (exchange_stop s1) (Call.stop s1)) in
    let r3 =
      later r2
        (calls [] [] s2 _ (s3, Caller.counted (stop_event id)) (Call.count s2 (stop_event id))) in
    let r4 = later r3 (calls [] [] s3 _ (s4, Caller.inserted) (Call.insert s3 (stop_event id))) in
    let r5 = later r4 (turns (Caller.inserted ∷ []) s4 s5 (Turn.take s4 refl)) in
    later r5 (turns (Caller.inserted ∷ []) s5 _ (Turn.next s5 _ refl refl))

-- A state can be reached in which a caller of service_stop is about to notify the service, while
-- the service has handled the event and has no watcher any more: the notification is a fault.
pub stopped_early_fault :
    (id : ℕ)
    → Reachable (stopped_early id)
      × (((stopped_early id).callers ≡ Caller.inserted ∷ [])
          × (notify (stopped_early id).service ≡ none))
unfolding stopped_early notify
stopped_early_fault id = (stopped_early-Reachable id, (refl, refl))

-- The service after it has handled the event of service_stop, with an event behind it that a caller
-- of service_enqueue had already decided to put in the queue.
unfoldable pub overtaken : ℕ → Event → System
overtaken id e = record {
  service = record (started id) {
    service_id = 0;
    queue = record { is_running = false; queue_size = 1; pending = [] };
    has_watcher = false;
    watcher_status = 0;
    point = Point.handling;
    batch = e ∷ [];
    goes_on = false;
    handled = stop_event id ∷ [];
    arrived = stop_event id ∷ e ∷ [];
  };
  callers = Caller.inserted ∷ Caller.idle ∷ [];
}

overtaken-Reachable : (id : ℕ) (e : Event) → event_answer e ≡ true → Reachable (overtaken id e)
unfolding overtaken check_enqueue exchange_stop count_event insert_tail notify enter take_pending
    handle
overtaken-Reachable id e user =
    let halt = stop_event id in
    let first : List Caller = Caller.checked e ∷ [] in
    let s1 : Service = (exchange_stop (started id)).0 in
    let s2 : Service = count_event s1 in
    let s3 : Service = insert_tail s2 halt in
    let s4 : Service = count_event s3 in
    let s5 : Service = insert_tail s4 e in
    let s6 : Service = enter s5 in
    let s7 : Service = take_pending s6 in
    let last : List Caller = Caller.inserted ∷ Caller.idle ∷ [] in
    let r0 = start id (Caller.idle ∷ Caller.idle ∷ []) (refl, (refl, tt)) in
    let r1 = later r0 (
      calls [] (Caller.idle ∷ []) (started id) Caller.idle (started id, Caller.checked e)
        (Call.send (started id) e user)) in
    let r2 = later r1 (
      calls first [] (started id) Caller.idle (exchange_stop (started id))
        (Call.stop (started id))) in
    let r3 = later r2 (calls first [] s1 _ (s2, Caller.counted halt) (Call.count s1 halt)) in
    let r4 = later r3 (calls first [] s2 _ (s3, Caller.inserted) (Call.insert s2 halt)) in
    let r5 = later r4 (calls first [] s3 _ (s3, Caller.idle) (Call.awake s3 s3 refl)) in
    let r6 = later r5 (calls [] (Caller.idle ∷ []) s3 _ (s4, Caller.counted e) (Call.count s3 e)) in
    let r7 = later r6 (calls [] (Caller.idle ∷ []) s4 _ (s5, Caller.inserted) (Call.insert s4 e)) in
    let r8 = later r7 (turns last s5 s6 (Turn.begin s5 refl refl)) in
    let r9 = later r8 (turns last s6 s7 (Turn.take s6 refl)) in
    later r9 (turns last s7 _ (Turn.next s7 _ refl refl))

-- For each event of another type than 0, a state can be reached in which that event stands in the
-- batch behind the one that has stopped the service: `assert(bRunning)` fails.
pub overtaken_fault :
    (id : ℕ) (e : Event)
    → event_answer e ≡ true
    → Reachable (overtaken id e)
      × (((overtaken id e).service.batch ≡ e ∷ []) × (handle (overtaken id e).service ≡ none))
unfolding overtaken handle
overtaken_fault id e user = (overtaken-Reachable id e user, (refl, refl))

-- Where no other thread moves in between, the steps of service_enqueue are the function that the
-- streams call: the event is refused, or it is counted and put in the queue.
pub enqueue_alone :
    (s : Service) (e : Event)
    → ((check_enqueue s e ≡ Caller.idle) × (enqueue s.queue e ≡ (false, s.queue)))
      ⊎ ((check_enqueue s e ≡ Caller.checked e)
          × (enqueue s.queue e ≡ (true, (insert_tail (count_event s) e).queue)))
unfolding check_enqueue enqueue insert_tail count_event
enqueue_alone s e =
    let sent = insert_tail (count_event s) e in
    elim (Bool-cases s.queue.is_running) [
      | inl on ↦ inr (
        ap (λ b. if b then Caller.checked e else Caller.idle) on,
        ap (λ b. if b then (true, sent.queue) else (false, s.queue)) on,
      )
      | inr off ↦ inl (
        ap (λ b. if b then Caller.checked e else Caller.idle) off,
        ap (λ b. if b then (true, sent.queue) else (false, s.queue)) off,
      )
    ]
