-- ===== src/Service/Tests.antt =====
-- A service with one caller.
use frog_game_framework.Base.{arith, ◌≡◌, ◌≤◌, refl, true, false, [], ◌∷◌, ◌++◌, none, total}
use frog_game_framework.Streams.{Event}
use frog_game_framework.Service.{
  Service, Caller, Call, System, calls, Reachable, started, start, later, check_enqueue,
  exchange_stop, count_event, insert_tail, notify, handle, stop_event,
}
use frog_game_framework.Service.Fits.{is_stop}
use frog_game_framework.Service.Order.{Reachable-ordered, Reachable-stops_once}
use frog_game_framework.Service.Races.{
  stopped_early, stopped_early_fault, overtaken, overtaken_fault,
}
use frog_game_framework.Service.Drain.{Tail, Drains, Reachable-Drains}

-- The bytes 65, 66 from the source 7.
abbrev text : Event
text = record { source_id = 7; token = 0; length_and_type = 0x01000002; storage = 65 ∷ 66 ∷ [] }

-- The caller has sent the text and stopped the service, which has not run yet.
abbrev stopped_service : Service
stopped_service = record (started 5) {
  queue = record { is_running = false; queue_size = 2; pending = text ∷ stop_event 5 ∷ [] };
  arrived = text ∷ stop_event 5 ∷ [];
}

abbrev stopped : System
stopped = record { service = stopped_service; callers = Caller.inserted ∷ [] }

stopped-Reachable : Reachable stopped
unfolding check_enqueue exchange_stop count_event insert_tail notify
stopped-Reachable =
    let s0 : Service = started 5 in
    let s1 : Service = count_event s0 in
    let s2 : Service = insert_tail s1 text in
    let s3 : Service = (exchange_stop s2).0 in
    let s4 : Service = count_event s3 in
    let halt = stop_event 5 in
    let r0 = start 5 (Caller.idle ∷ []) (refl, tt) in
    let r1 = later r0 (calls [] [] s0 _ (s0, Caller.checked text) (Call.send s0 text refl)) in
    let r2 = later r1 (calls [] [] s0 _ (s1, Caller.counted text) (Call.count s0 text)) in
    let r3 = later r2 (calls [] [] s1 _ (s2, Caller.inserted) (Call.insert s1 text)) in
    let r4 = later r3 (calls [] [] s2 _ (s2, Caller.idle) (Call.awake s2 s2 refl)) in
    let r5 = later r4 (calls [] [] s2 Caller.idle (exchange_stop s2) (Call.stop s2)) in
    let r6 = later r5 (calls [] [] s3 _ (s4, Caller.counted halt) (Call.count s3 halt)) in
    later r6 (calls [] [] s4 _ (insert_tail s4 halt, Caller.inserted) (Call.insert s4 halt))

Reachable-ordered_example :
    stopped.service.handled ++ (stopped.service.batch ++ stopped.service.queue.pending)
    ≡ stopped.service.arrived
Reachable-ordered_example = Reachable-ordered stopped-Reachable

Reachable-stops_once_example :
    (total is_stop stopped.service.arrived ≤ 1)
    × (stopped.service.queue.is_running ≡ true → total is_stop stopped.service.arrived ≡ 0)
Reachable-stops_once_example = Reachable-stops_once stopped-Reachable

-- The same after the caller has notified the service.
abbrev notified : System
notified = record { service = stopped_service; callers = Caller.idle ∷ [] }

notified-Reachable : Reachable notified
unfolding notify
notified-Reachable = later stopped-Reachable (
    calls [] [] stopped_service _ (stopped_service, Caller.idle)
      (Call.awake stopped_service stopped_service refl))

Reachable-Drains_example :
    (d : Drains notified.service ((text ∷ []) ++ (stop_event 5 ∷ [])) false) × (d.after.handled
      ≡ notified.service.arrived)
unfolding total
Reachable-Drains_example =
    Reachable-Drains notified-Reachable (omega arith) refl refl refl (text ∷ []) (stop_event 5 ∷ [])
      false (refl, tt) (Tail.stop_last (stop_event 5) refl) refl

stopped_early_fault_example :
    Reachable (stopped_early 5)
    × (((stopped_early 5).callers ≡ Caller.inserted ∷ [])
        × (notify (stopped_early 5).service ≡ none))
stopped_early_fault_example = stopped_early_fault 5

overtaken_fault_example :
    Reachable (overtaken 5 text)
    × (((overtaken 5 text).service.batch ≡ text ∷ []) × (handle (overtaken 5 text).service ≡ none))
overtaken_fault_example = overtaken_fault 5 text refl
