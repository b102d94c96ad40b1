-- ===== src/Service/Leave.antt =====
-- How the thread of a service leaves doPendingFunctors where no other thread moves.
use frog_game_framework.Base.{
  ◌≡◌, refl, ap, ◌∙◌, subst, Bool, true, false, ◌&&◌, List, [], ◌∷◌, ltb, if◌then◌else◌, ℕ, zero,
  suc, some, none, lt→ltb, arith,
}
use frog_game_framework.Streams.{Event}
use frog_game_framework.Service.{
  Point, Service, exchange_status, notify, reset_watcher, take_pending, move_queue, recheck,
  end_batch, Turn,
}
use frog_game_framework.Service.Batch.{Turns, done, more}

pub to_none :
    (s : Service) → s.queue.pending ≡ [] → take_pending s ≡ record s { point = Point.found_none }
unfolding take_pending
to_none s e =
    ap (λ p. elim p [ [] ↦ record s { point = Point.found_none } | e ∷ es ↦ move_queue s (e ∷ es) ])
      e

pub to_batch :
    (s : Service) (x : Event) (xs : List Event)
    → s.queue.pending ≡ x ∷ xs
    → take_pending s ≡ move_queue s (x ∷ xs)
unfolding take_pending
to_batch s x xs e =
    ap (λ p. elim p [ [] ↦ record s { point = Point.found_none } | e ∷ es ↦ move_queue s (e ∷ es) ])
      e

end_goes_on : (s : Service) → s.goes_on ≡ true → end_batch 0 s ≡ record s { point = Point.taking }
unfolding end_batch
end_goes_on s g = by_size (ltb 0 s.queue.queue_size)
  where
    by_size :
        (b : Bool)
        → record s {
          point =
              if s.goes_on
              then if b && ltb 0 0 then Point.found_waiting else Point.taking
              else Point.outside;
        }
          ≡ record s { point = Point.taking }
    by_size true = ap (λ g. record s { point = if g then Point.taking else Point.outside }) g
    by_size false = ap (λ g. record s { point = if g then Point.taking else Point.outside }) g

pub end_stopped :
    (s : Service) → s.goes_on ≡ false → end_batch 0 s ≡ record s { point = Point.outside }
unfolding end_batch
end_stopped s g =
    ap
      (λ b. record s {
        point =
            if b
            then if ltb 0 s.queue.queue_size && ltb 0 0 then Point.found_waiting else Point.taking
            else Point.outside;
      })
      g

pub Turn_to : {s t u : Service} → Turn s t → t ≡ u → Turn s u
Turn_to {s} turn e = subst (λ v. Turn s v) e turn

-- What the thread does after it has found nothing: it gets outside, whatever the size of the queue.
pub record GetsOut (s : Service) : Type 0 where
  pub after : Service
  pub turns : Turns s after
  pub handled : after.handled ≡ s.handled
  pub pending : after.queue.pending ≡ s.queue.pending
  pub outside : after.point ≡ Point.outside
  pub watcher : after.has_watcher ≡ s.has_watcher

pub get_out : (s : Service) → s.point ≡ Point.found_none → s.has_watcher ≡ true → GetsOut s
unfolding reset_watcher recheck notify
get_out s at on = by_size s.queue.queue_size refl
  where
    s1 : Service
    s1 = record (reset_watcher s) { point = Point.rechecking }

    s2 : Service
    s2 = record s1 { point = Point.notifying }

    s3 : Service
    s3 = record s2 { watcher_status = exchange_status 1 2 s2.watcher_status }

    to :
        (n : ℕ)
        → s.queue.queue_size ≡ n
        → recheck s1 ≡ record s1 { point = if ltb 0 n then Point.notifying else Point.outside }
    to n e = ap (λ m. record s1 { point = if ltb 0 m then Point.notifying else Point.outside }) e

    woken : notify s2 ≡ some s3
    woken = ap (λ b. if b then some s3 else none) on

    by_size : (n : ℕ) → s.queue.queue_size ≡ n → GetsOut s
    by_size zero e = record {
      after = record s1 { point = Point.outside };
      turns =
          more (Turn.reset_none s at) (more (Turn_to (Turn.load_size s1 refl) (to 0 e)) (done _));
      handled = refl;
      pending = refl;
      outside = refl;
      watcher = refl;
    }
    by_size (suc n) e = record {
      after = record s3 { point = Point.outside };
      turns = more (Turn.reset_none s at) (
          more
            (Turn_to (Turn.load_size s1 refl)
              (to (suc n) e ∙ rw (lt→ltb 0 (suc n) (omega arith)) refl))
            (more (Turn.notify_itself s2 s3 refl woken) (done _)));
      handled = refl;
      pending = refl;
      outside = refl;
      watcher = refl;
    }

-- The end of the batch, and the look at the queue that finds it empty.
pub Turns-empty :
    (s : Service)
    → s.goes_on ≡ true
    → s.point ≡ Point.handling
    → s.batch ≡ []
    → s.queue.pending ≡ []
    → Turns s (record s { point = Point.found_none })
Turns-empty s g at b p =
    let s1 : Service = record s { point = Point.taking } in
    more (Turn_to (Turn.end s 0 at b) (end_goes_on s g))
      (more (Turn_to (Turn.take s1 refl) (to_none s1 p)) (done _))
