-- ===== src/Service/Invariant.antt =====
-- What holds of a service and its callers after every step.
use frog_game_framework.Base.{
  ℕ, ◌≡◌, refl, sym, ap, ◌∙◌, Bool, true, false, List, [], ◌∷◌, ◌++◌, append-nil, none, some,
  some-injective, if◌then◌else◌, subst, length, length-append, total, total_joined, arith,
}
use frog_game_framework.Streams.{Event}
use frog_game_framework.Service.{
  Point, Service, Caller, check_enqueue, exchange_stop, stop_event, count_event, insert_tail,
  notify, reset_watcher, enter, take_pending, recheck, event_answer, handled_one, move_queue,
  handle, end_batch, Call, Turn, exchange_status,
}
use frog_game_framework.Service.Fits.{
  bit, is_stop, IsDrained, Fits, FitsWith, append_last, move_first, check_enqueue-counts,
}

module _ (c m : ℕ) where
  after_check :
      (s : Service) (e : Event)
      → event_answer e ≡ true
      → FitsWith c m (s, Caller.idle)
      → FitsWith c m (s, check_enqueue s e)
  after_check s e user f =
      let counts = check_enqueue-counts s e user in
      record {
        drained = f.drained;
        ordered = f.ordered;
        sized = omega (arith, f.sized, counts.0);
        one_stop = omega (arith, f.one_stop, counts.1);
      }

  after_exchange : (s : Service) → FitsWith c m (s, Caller.idle) → FitsWith c m (exchange_stop s)
  unfolding exchange_stop
  after_exchange s f = by_running s.queue.is_running refl
    where
      by_running :
          (b : Bool)
          → s.queue.is_running ≡ b
          → FitsWith c m (
              if b
              then (
                record s { queue = record s.queue { is_running = false } },
                Caller.checked (stop_event s.service_id),
              )
              else (s, Caller.idle))
      by_running true e = record {
        drained = f.drained;
        ordered = f.ordered;
        sized = omega (arith, f.sized);
        one_stop = omega (arith, f.one_stop, ap bit e);
      }
      by_running false e = record {
        drained = f.drained;
        ordered = f.ordered;
        sized = omega (arith, f.sized);
        one_stop = omega (arith, f.one_stop);
      }

  after_count :
      (s : Service) (e : Event)
      → FitsWith c m (s, Caller.checked e)
      → FitsWith c m (count_event s, Caller.counted e)
  unfolding count_event
  after_count s e f = record {
    drained = f.drained;
    ordered = f.ordered;
    sized = omega (arith, f.sized);
    one_stop = f.one_stop;
  }

  after_insert :
      (s : Service) (e : Event)
      → FitsWith c m (s, Caller.counted e)
      → FitsWith c m (insert_tail s e, Caller.inserted)
  unfolding insert_tail total
  after_insert s e f = record {
    drained = f.drained;
    ordered = append_last s.handled s.batch s.queue.pending s.arrived e f.ordered;
    sized = omega (arith, f.sized, length-append s.queue.pending (e ∷ []));
    one_stop = omega (arith, f.one_stop, total_joined is_stop s.arrived (e ∷ []));
  }

  after_notify :
      (s t : Service)
      → notify s ≡ some t
      → FitsWith c m (s, Caller.inserted)
      → FitsWith c m (t, Caller.idle)
  unfolding notify
  after_notify s t e f = by_watcher s.has_watcher e
    where
      woken : Service
      woken = record s { watcher_status = exchange_status 1 2 s.watcher_status }

      by_watcher :
          (b : Bool) → (if b then some woken else none) ≡ some t → FitsWith c m (t, Caller.idle)
      by_watcher true same =
          subst (λ x. FitsWith c m (x, Caller.idle)) (some-injective _ _ same)
            (record {
              drained = f.drained;
              ordered = f.ordered;
              sized = f.sized;
              one_stop = f.one_stop;
            })
      by_watcher false same = absurd (ground (arith, same))

  pub after-Call :
      (s : Service) (t : Caller) (r : Service × Caller)
      → Call s t r
      → FitsWith c m (s, t)
      → FitsWith c m r
  after-Call _ _ _ (Call.send s e user) f = after_check s e user f
  after-Call _ _ _ (Call.stop s) f = after_exchange s f
  after-Call _ _ _ (Call.count s e) f = after_count s e f
  after-Call _ _ _ (Call.insert s e) f = after_insert s e f
  after-Call _ _ _ (Call.awake s u e) f = after_notify s u e f

  after_take : (s : Service) → s.point ≡ Point.taking → Fits s c m → Fits (take_pending s) c m
  unfolding take_pending
  after_take s at f = by_pending s.queue.pending refl
    where
      empty : s.batch ≡ []
      empty = subst (λ p. IsDrained p s.batch) at f.drained

      by_pending :
          (es : List Event)
          → s.queue.pending ≡ es
          → Fits
              (elim es [
                | [] ↦ record s { point = Point.found_none }
                | e ∷ es ↦ move_queue s (e ∷ es)
              ])
              c
              m
      by_pending [] e = record {
        drained = empty;
        ordered = f.ordered;
        sized = f.sized;
        one_stop = f.one_stop;
      }
      by_pending (x ∷ es) e = record {
        drained = refl;
        ordered =
            ap (λ v. s.handled ++ v)
              (append-nil (x ∷ es) ∙ (sym e ∙ ap (λ b. b ++ s.queue.pending) (sym empty)))
            ∙ f.ordered;
        sized = omega (arith, f.sized, ap length empty, ap length e);
        one_stop = f.one_stop;
      }

  after_handle :
      (s t : Service) → handle s ≡ some t → s.point ≡ Point.handling → Fits s c m → Fits t c m
  unfolding handle
  after_handle s t e at f = by_batch s.batch s.goes_on refl e
    where
      fits_next : (x : Event) (es : List Event) → s.batch ≡ x ∷ es → Fits (handled_one s x es) c m
      fits_next x es b = record {
        drained = subst (λ p. IsDrained p es) (sym at) refl;
        ordered =
            move_first s.handled es s.queue.pending x
            ∙ (ap (λ v. s.handled ++ (v ++ s.queue.pending)) (sym b) ∙ f.ordered);
        sized = omega (arith, f.sized, ap length b);
        one_stop = f.one_stop;
      }

      by_batch :
          (es : List Event) (b : Bool)
          → s.batch ≡ es
          → elim es [ [] ↦ none | x ∷ xs ↦ if b then some (handled_one s x xs) else none ] ≡ some t
          → Fits t c m
      by_batch [] b same h = absurd (ground (arith, h))
      by_batch (x ∷ xs) true same h =
          subst (λ v. Fits v c m) (some-injective _ _ h) (fits_next x xs same)
      by_batch (x ∷ xs) false same h = absurd (ground (arith, h))

  -- The thread goes to another point, and its watcher to another status.
  to_point :
      (s : Service) (p : Point) (status : ℕ)
      → s.batch ≡ []
      → Fits s c m
      → Fits (record s { watcher_status = status; point = p }) c m
  to_point s p status empty f = record {
    drained = drained_at p;
    ordered = f.ordered;
    sized = f.sized;
    one_stop = f.one_stop;
  }
    where
      drained_at : (q : Point) → IsDrained q s.batch
      drained_at Point.outside = empty
      drained_at Point.taking = empty
      drained_at Point.handling = refl
      drained_at Point.found_none = empty
      drained_at Point.found_waiting = empty
      drained_at Point.rechecking = empty
      drained_at Point.notifying = empty

  after_own_notify :
      (s t : Service)
      → notify s ≡ some t
      → s.batch ≡ []
      → Fits s c m
      → Fits (record t { point = Point.outside }) c m
  unfolding notify
  after_own_notify s t e empty f = by_watcher s.has_watcher e
    where
      woken : ℕ
      woken = exchange_status 1 2 s.watcher_status

      by_watcher :
          (b : Bool)
          → (if b then some (record s { watcher_status = woken }) else none) ≡ some t
          → Fits (record t { point = Point.outside }) c m
      by_watcher true same =
          subst (λ x. Fits (record x { point = Point.outside }) c m) (some-injective _ _ same)
            (to_point s Point.outside woken empty f)
      by_watcher false same = absurd (ground (arith, same))

  pub after-Turn : (s t : Service) → Turn s t → Fits s c m → Fits t c m
  unfolding enter reset_watcher recheck end_batch
  after-Turn _ _ (Turn.begin s at on) f = record {
    drained = subst (λ p. IsDrained p s.batch) at f.drained;
    ordered = f.ordered;
    sized = f.sized;
    one_stop = f.one_stop;
  }
  after-Turn _ _ (Turn.take s at) f = after_take s at f
  after-Turn _ _ (Turn.next s t at e) f = after_handle s t e at f
  after-Turn _ _ (Turn.end s waiting at e) f = to_point s _ s.watcher_status e f
  after-Turn _ _ (Turn.reset_none s at) f =
      to_point s _ _ (subst (λ p. IsDrained p s.batch) at f.drained) f
  after-Turn _ _ (Turn.load_size s at) f =
      to_point s _ s.watcher_status (subst (λ p. IsDrained p s.batch) at f.drained) f
  after-Turn _ _ (Turn.reset_waiting s at) f =
      to_point s _ _ (subst (λ p. IsDrained p s.batch) at f.drained) f
  after-Turn _ _ (Turn.notify_itself s t at e) f =
      after_own_notify s t e (subst (λ p. IsDrained p s.batch) at f.drained) f
