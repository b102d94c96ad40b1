-- ===== src/Service/Order.antt =====
-- What holds in every state that a service and its callers can reach: the order of the events, the
-- size of the queue, and that it stops once.
use frog_game_framework.Base.{
  ℕ, ◌+◌, ◌%◌, ◌^◌, ◌≡◌, ◌≤◌, refl, sym, ap, true, List, [], ◌∷◌, ◌++◌, All, length, total,
  total-append, arith,
}
use frog_game_framework.Service.{
  Caller, System, Step, calls, turns, IsIdle, Reachable, start, later,
}
use frog_game_framework.Service.Invariant.{after-Call, after-Turn}
use frog_game_framework.Service.Fits.{bit, is_stop, on_the_way, brings_stop, Fits}

-- The invariant.
abbrev pub Consistent : System → Type 0
Consistent a = Fits a.service (total on_the_way a.callers) (total brings_stop a.callers)

Step-Consistent : {a b : System} → Step a b → Consistent a → Consistent b
Step-Consistent (calls front back s t r move) f =
    rw (total-append on_the_way front r.1 back, total-append brings_stop front r.1 back)
      (after-Call (total on_the_way front + total on_the_way back)
        (total brings_stop front + total brings_stop back) s t r move
        (rw
          (sym (total-append on_the_way front t back), sym (total-append brings_stop front t back))
          f))
Step-Consistent (turns callers s t turn) f = after-Turn _ _ s t turn f

total-idle :
    (f : Caller → ℕ) (ts : List Caller) → f Caller.idle ≡ 0 → All IsIdle ts → total f ts ≡ 0
unfolding total
total-idle f [] z h = refl
total-idle f (t ∷ ts) z h = omega (arith, ap f h.0, total-idle f ts z h.1)

pub Reachable-Consistent : {a : System} → Reachable a → Consistent a
unfolding total
Reachable-Consistent (start id callers h) = record {
  drained = refl;
  ordered = refl;
  sized = omega (arith, total-idle on_the_way callers refl h);
  one_stop = omega (arith, total-idle brings_stop callers refl h);
}
Reachable-Consistent (later reached step) = Step-Consistent step (Reachable-Consistent reached)

-- Whatever the callers and the service do in whatever order, the service handles the events in the
-- order in which they were put in the queue, each of them once: what it has handled, then its
-- batch, then the queue are all events that have arrived.
pub Reachable-ordered :
    {a : System}
    → Reachable a
    → a.service.handled ++ (a.service.batch ++ a.service.queue.pending) ≡ a.service.arrived
Reachable-ordered reached = (Reachable-Consistent reached).ordered

-- In a state that can be reached, the size of the queue is the number of the events in it and in
-- the batch, and of those that callers are about to put in it, modulo 2^32.
pub Reachable-sized :
    {a : System}
    → Reachable a
    → a.service.queue.queue_size
      ≡ (total on_the_way a.callers + (length a.service.batch + length a.service.queue.pending))
        % 2 ^ 32
Reachable-sized reached = (Reachable-Consistent reached).sized

-- In a state that can be reached, at most one event that stops the service has arrived, and none
-- where the service still runs: however many threads call service_stop, the service stops once.
pub Reachable-stops_once :
    {a : System}
    → Reachable a
    → (total is_stop a.service.arrived ≤ 1)
      × (a.service.queue.is_running ≡ true → total is_stop a.service.arrived ≡ 0)
Reachable-stops_once reached =
    let f = Reachable-Consistent reached in
    (omega (arith, f.one_stop), λ on. omega (arith, f.one_stop, ap bit on))
