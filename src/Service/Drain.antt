-- ===== src/Service/Drain.antt =====
-- What the thread of the service does where no other thread moves: it handles all that is there.
use frog_game_framework.Base.{
  ◌≡◌, refl, sym, ap, ap₂, ◌∙◌, subst, Bool, true, false, ◌&&◌, List, [], ◌∷◌, ◌++◌, append_assoc,
  append-nil, All, ◌<◌, ◌^◌, inl, inr, arith, total, length,
}
use frog_game_framework.Streams.{Event}
use frog_game_framework.Service.{
  Point, Service, enter, move_queue, event_answer, handled_one, Turn, System, Reachable,
}
use frog_game_framework.Service.Waiting.{counted_events, Reachable-Woken}
use frog_game_framework.Service.Wakes.{stage}
use frog_game_framework.Service.Woken.{will_notify}
use frog_game_framework.Service.Fits.{IsDrained}
use frog_game_framework.Service.Order.{Reachable-Consistent}
use frog_game_framework.Service.Batch.{
  Turns, done, more, Turns-append, IsUser, handle_next, Handled, handle-All,
}
use frog_game_framework.Service.Leave.{
  to_none, to_batch, end_stopped, Turn_to, get_out, Turns-empty,
}

-- What the queue ends with: an event that stops the service, or none such.
pub data Tail : List Event → Bool → Type 0 where
  no_stop : Tail [] true
  stop_last : (x : Event) → event_answer x ≡ false → Tail (x ∷ []) false

-- The thread of the service gets from `s` to a state in which it has handled `bs` and waits
-- outside; `watched` tells whether it will be called again.
pub record Drains (s : Service) (bs : List Event) (watched : Bool) : Type 0 where
  pub after : Service
  pub turns : Turns s after
  pub handled : after.handled ≡ s.handled ++ bs
  pub pending : after.queue.pending ≡ []
  pub outside : after.point ≡ Point.outside
  pub watcher : after.has_watcher ≡ watched

after_batch :
    (s t : Service) (es last : List Event) (watched : Bool)
    → Tail last watched
    → Handled s t es last
    → s.queue.pending ≡ []
    → Drains s (es ++ last) watched
after_batch s t es _ _ Tail.no_stop h p =
    let out = get_out (record t { point = Point.found_none }) refl h.watched in
    record {
      after = out.after;
      turns =
          Turns-append h.turns
            (Turns-append (Turns-empty t h.goes_on h.at h.batch (h.pending ∙ p)) out.turns);
      handled = out.handled ∙ (h.handled ∙ ap (λ v. s.handled ++ v) (sym (append-nil es)));
      pending = out.pending ∙ (h.pending ∙ p);
      outside = out.outside;
      watcher = out.watcher ∙ h.watched;
    }
after_batch s t es _ _ (Tail.stop_last x stop) h p =
    let t1 : Service = handled_one t x [] in
    record {
      after = record t1 { point = Point.outside };
      turns = Turns-append h.turns (
          more (Turn.next t t1 h.at (handle_next t x [] h.batch h.goes_on))
            (more (Turn_to (Turn.end t1 0 h.at refl) (end_stopped t1 stop)) (done _)));
      handled = ap (λ v. v ++ (x ∷ [])) h.handled ∙ append_assoc s.handled es (x ∷ []);
      pending = h.pending ∙ p;
      outside = refl;
      watcher = ap₂ (λ c d. c && d) h.watched stop;
    }

-- From the outside, with the first event `x` in the queue.
from_first :
    (s : Service) (es last : List Event) (watched : Bool) (x : Event) (xs : List Event)
    → s.point ≡ Point.outside
    → s.has_watcher ≡ true
    → s.watcher_status ≡ 2
    → All IsUser es
    → Tail last watched
    → s.queue.pending ≡ x ∷ xs
    → x ∷ xs ≡ es ++ last
    → Drains s (es ++ last) watched
unfolding enter
from_first s es last watched x xs at w on users tail p e =
    let s1 : Service = move_queue (enter s) (x ∷ xs) in
    let (t, h) = handle-All es last s1 users e refl refl w in
    let d = after_batch s1 t es last watched tail h refl in
    record {
      after = d.after;
      turns =
          more (Turn.begin s at on)
            (more (Turn_to (Turn.take (enter s) refl) (to_batch (enter s) x xs p)) d.turns);
      handled = d.handled;
      pending = d.pending;
      outside = d.outside;
      watcher = d.watcher;
    }

from_outside :
    (s : Service) (es last : List Event) (watched : Bool)
    → s.point ≡ Point.outside
    → s.has_watcher ≡ true
    → s.watcher_status ≡ 2
    → All IsUser es
    → Tail last watched
    → s.queue.pending ≡ es ++ last
    → Drains s (es ++ last) watched
unfolding enter
from_outside s [] _ _ at w on users Tail.no_stop p =
    let out = get_out (record (enter s) { point = Point.found_none }) refl w in
    record {
      after = out.after;
      turns =
          more (Turn.begin s at on)
            (more (Turn_to (Turn.take (enter s) refl) (to_none (enter s) p)) out.turns);
      handled = out.handled ∙ sym (append-nil s.handled);
      pending = out.pending ∙ p;
      outside = out.outside;
      watcher = out.watcher ∙ w;
    }
from_outside s [] last watched at w on users (Tail.stop_last x stop) p =
    from_first s [] last watched x [] at w on users (Tail.stop_last x stop) p refl
from_outside s (x ∷ xs) last watched at w on users tail p =
    from_first s (x ∷ xs) last watched x (xs ++ last) at w on users tail p refl

-- A thread that waits outside, with nothing in the queue, has nothing to do.
at_rest :
    (s : Service) (es last : List Event) (watched : Bool)
    → s.point ≡ Point.outside
    → s.has_watcher ≡ true
    → Tail last watched
    → s.queue.pending ≡ es ++ last
    → s.queue.pending ≡ []
    → Drains s (es ++ last) watched
at_rest s [] _ _ at w Tail.no_stop p none_left = record {
  after = s;
  turns = done s;
  handled = sym (append-nil s.handled);
  pending = none_left;
  outside = at;
  watcher = w;
}
at_rest s [] _ _ at w (Tail.stop_last x stop) p none_left =
    absurd (omega (arith, ap length p, ap length none_left))
at_rest s (x ∷ xs) last _ at w tail p none_left =
    absurd (omega (arith, ap length p, ap length none_left))

-- In a state that can be reached, with the thread of the service outside of its loop and with its
-- watcher, where no caller is between the insertion and its notification, fewer than 2^32 events
-- have been counted, and no event stands behind one that stops the service: steps of that thread
-- alone lead to a state in which it has handled all events that have arrived, in their order, and
-- has returned with an empty queue. It has no watcher then exactly where the last one stops the
-- service. The thread moves only where its watcher has been notified: no notification is lost.
pub Reachable-Drains :
    {a : System}
    → Reachable a
    → counted_events a < 2 ^ 32
    → total will_notify a.callers ≡ 0
    → a.service.point ≡ Point.outside
    → a.service.has_watcher ≡ true
    → (es last : List Event) (watched : Bool) → All IsUser es
    → Tail last watched
    → a.service.queue.pending ≡ es ++ last
    → (d : Drains a.service (es ++ last) watched) × (d.after.handled ≡ a.service.arrived)
Reachable-Drains {a} reached bound quiet at w es last watched users tail p =
    let s = a.service in
    let f = Reachable-Consistent reached in
    let empty : s.batch ≡ [] = subst (λ q. IsDrained q s.batch) at f.drained in
    let wakes = (Reachable-Woken reached bound).wakes w in
    let d : Drains s (es ++ last) watched = elim (wakes.is_called (ap stage at)) [
      | inl on ↦ from_outside s es last watched at w on users tail p
      | inr (inl some_caller) ↦ absurd (omega (arith, some_caller, quiet))
      | inr (inr none_left) ↦ at_rest s es last watched at w tail p none_left
    ] in
    (
      d,
      d.handled
          ∙ (ap (λ v. s.handled ++ v) (sym p ∙ ap (λ b. b ++ s.queue.pending) (sym empty))
              ∙ f.ordered),
    )
