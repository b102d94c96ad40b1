-- ===== src/Service/Waiting.antt =====
-- In every state that can be reached, no notification is missing.
use mathlib.Core.Bool.{true≢false}
use frog_game_framework.Base.{
  ℕ, ◌+◌, ◌^◌, ◌≡◌, ◌<◌, ◌≤◌, inl, refl, sym, ap, Bool, true, false, List, [], ◌∷◌, All, none, some,
  some-injective, if◌then◌else◌, subst, length, length-append, total, total-append, arith,
}
use frog_game_framework.Streams.{Event}
use frog_game_framework.Service.{
  Point, Service, Caller, exchange_stop, stop_event, count_event, insert_tail, notify,
  reset_watcher, enter, take_pending, recheck, handled_one, move_queue, handle, end_batch, Call,
  Turn, System, Step, calls, turns, IsIdle, Reachable, start, later,
}
use frog_game_framework.Service.Fits.{on_the_way}
use frog_game_framework.Service.Order.{Reachable-Consistent}
use frog_game_framework.Service.Woken.{will_notify, notify_lem, Woken, Woken-Call, Woken-Turn}

-- The events that have arrived, and those whose callers have added to the size.
abbrev pub counted_events : System → ℕ
counted_events a = total on_the_way a.callers + length a.service.arrived

abbrev AddsNone : Service → Service × Caller → Type 0
AddsNone s r = (on_the_way r.1 ≡ 0) × (r.0.arrived ≡ s.arrived)

exchange-AddsNone : (s : Service) → AddsNone s (exchange_stop s)
unfolding exchange_stop
exchange-AddsNone s = by_running s.queue.is_running
  where
    by_running :
        (b : Bool)
        → AddsNone s (
            if b
            then (
              record s { queue = record s.queue { is_running = false } },
              Caller.checked (stop_event s.service_id),
            )
            else (s, Caller.idle))
    by_running true = (refl, refl)
    by_running false = (refl, refl)

abbrev SameArrived : Service → Service → Type 0
SameArrived s t = t.arrived ≡ s.arrived

arrived_take : (s : Service) → (take_pending s).arrived ≡ s.arrived
unfolding take_pending
arrived_take s = by_pending s.queue.pending
  where
    by_pending :
        (es : List Event)
        → SameArrived s (elim es [
          | [] ↦ record s { point = Point.found_none }
          | e ∷ es ↦ move_queue s (e ∷ es)
        ])
    by_pending [] = refl
    by_pending (x ∷ es) = refl

arrived_handle : (s t : Service) → handle s ≡ some t → t.arrived ≡ s.arrived
unfolding handle
arrived_handle s t e = by_batch s.batch s.goes_on e
  where
    by_batch :
        (es : List Event) (b : Bool)
        → elim es [ [] ↦ none | x ∷ xs ↦ if b then some (handled_one s x xs) else none ] ≡ some t
        → t.arrived ≡ s.arrived
    by_batch [] b h = absurd (ground (arith, h))
    by_batch (x ∷ xs) true h = ap (λ v. v.arrived) (sym (some-injective _ _ h))
    by_batch (x ∷ xs) false h = absurd (ground (arith, h))

arrived_notify : (s t : Service) → notify s ≡ some t → t.arrived ≡ s.arrived
arrived_notify s t e = ap (λ v. v.arrived) (sym (notify_lem s t e).1)

counted-Call :
    {s : Service} {t : Caller} {r : Service × Caller}
    → Call s t r
    → on_the_way t + length s.arrived ≤ on_the_way r.1 + length r.0.arrived
unfolding count_event insert_tail notify
counted-Call (Call.send s e user) = omega arith
counted-Call (Call.stop s) =
    omega (arith, (exchange-AddsNone s).0, ap length (exchange-AddsNone s).1)
counted-Call (Call.count s e) = omega arith
counted-Call (Call.insert s e) = omega (arith, length-append s.arrived (e ∷ []))
counted-Call (Call.awake s t e) = omega (arith, ap length (arrived_notify s t e))

counted-Turn : {s t : Service} → Turn s t → t.arrived ≡ s.arrived
unfolding enter reset_watcher recheck end_batch
counted-Turn (Turn.begin s at on) = refl
counted-Turn (Turn.take s at) = arrived_take s
counted-Turn (Turn.next s t at e) = arrived_handle s t e
counted-Turn (Turn.end s waiting at e) = refl
counted-Turn (Turn.reset_none s at) = refl
counted-Turn (Turn.load_size s at) = refl
counted-Turn (Turn.reset_waiting s at) = refl
counted-Turn (Turn.notify_itself s t at e) = arrived_notify s t e

total-idle : (ts : List Caller) → All IsIdle ts → total will_notify ts ≡ 0
unfolding total
total-idle [] h = refl
total-idle (t ∷ ts) h = omega (arith, ap will_notify h.0, total-idle ts h.1)

Step-Woken :
    {a b : System}
    → Reachable a
    → Step a b
    → counted_events b < 2 ^ 32
    → (counted_events a < 2 ^ 32 → Woken a.service (total will_notify a.callers))
    → Woken b.service (total will_notify b.callers)
Step-Woken reached (calls front back s t r move) bound w =
    rw (total-append will_notify front r.1 back) (
      Woken-Call (total will_notify front + total will_notify back) s t r move (
        subst (λ n. Woken s n) (total-append will_notify front t back)
          (w (
            omega (
              arith,
              bound,
              counted-Call move,
              total-append on_the_way front t back,
              total-append on_the_way front r.1 back,
            )))))
Step-Woken reached (turns callers s t turn) bound w =
    let before : counted_events (record { service = s; callers = callers }) < 2 ^ 32 =
      omega (arith, bound, ap length (counted-Turn turn)) in
    Woken-Turn _ s t turn (Reachable-Consistent reached) before (w before)

-- Fewer than 2^32 events having been counted, so that no size has wrapped around: outside of
-- doPendingFunctors the watcher is notified, or the queue is empty, or a caller that has put its
-- event in it will notify.
pub Reachable-Woken :
    {a : System}
    → Reachable a
    → counted_events a < 2 ^ 32
    → Woken a.service (total will_notify a.callers)
Reachable-Woken (start id callers h) bound = record {
  stays = λ no. absurd (true≢false no);
  wakes = λ on. record {
    is_open = omega arith;
    is_known = omega arith;
    is_reset = λ b. omega arith;
    is_called = λ b. inl refl;
  };
}
Reachable-Woken (later reached step) bound =
    Step-Woken reached step bound (λ before. Reachable-Woken reached before)
