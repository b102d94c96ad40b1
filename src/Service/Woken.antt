-- ===== src/Service/Woken.antt =====
-- The notifications of a service: while its thread is outside of doPendingFunctors, an event in the
-- queue has notified the watcher, or the caller that put it there is about to do so. This is what
-- the order of the steps in service_enqueue and at the end of doPendingFunctors is for.
use mathlib.Core.Bool.{true≢false}
use frog_game_framework.Base.{
  ℕ, zero, suc, lt→ltb, ◌+◌, ◌^◌, ◌≡◌, ◌<◌, inr, refl, sym, ap, ◌∙◌, Bool, true, false, ◌&&◌, List,
  [], ◌∷◌, ◌++◌, none, some, some-injective, if◌then◌else◌, subst, length, ltb, length-append,
  arith,
}
use frog_game_framework.Streams.{Event}
use frog_game_framework.Service.{
  Point, Service, Caller, check_enqueue, exchange_stop, stop_event, count_event, insert_tail,
  exchange_status, notify, reset_watcher, enter, take_pending, recheck, event_answer, handled_one,
  move_queue, handle, end_batch, Call, Turn,
}
use frog_game_framework.Service.Fits.{Fits}
use frog_game_framework.Service.Wakes.{
  stage, Wakes, Wakes-notified, Wakes-reset, Wakes-inside, Wakes-inserted,
}

-- 1 for a caller that has put its event in the queue and has not notified yet.
abbrev pub will_notify : Caller → ℕ
will_notify Caller.inserted = 1
will_notify _ = 0

pub record Woken (s : Service) (k : ℕ) : Type 0 where
  pub stays : s.goes_on ≡ false → s.has_watcher ≡ false
  pub wakes : s.has_watcher ≡ true → Wakes k (stage s.point) s.watcher_status s.queue.pending

abbrev pub WokenWith : ℕ → Service × Caller → Type 0
WokenWith k r = Woken r.0 (will_notify r.1 + k)

abbrev notified : Service → Service
notified s = record s { watcher_status = exchange_status 1 2 s.watcher_status }

pub notify_lem : (s t : Service) → notify s ≡ some t → (s.has_watcher ≡ true) × (notified s ≡ t)
unfolding notify
notify_lem s t e = by_watcher s.has_watcher refl e
  where
    by_watcher :
        (b : Bool)
        → s.has_watcher ≡ b
        → (if b then some (notified s) else none) ≡ some t
        → (s.has_watcher ≡ true) × (notified s ≡ t)
    by_watcher true on same = (on, some-injective _ _ same)
    by_watcher false on same = absurd (ground (arith, same))

pub Woken-Call :
    (k : ℕ) (s : Service) (t : Caller) (r : Service × Caller)
    → Call s t r
    → WokenWith k (s, t)
    → WokenWith k r
unfolding check_enqueue exchange_stop count_event insert_tail notify
Woken-Call k _ _ _ (Call.send s e user) w = by_running s.queue.is_running
  where
    by_running : (b : Bool) → WokenWith k (s, if b then Caller.checked e else Caller.idle)
    by_running true = w
    by_running false = w
Woken-Call k _ _ _ (Call.stop s) w = by_running s.queue.is_running
  where
    by_running :
        (b : Bool)
        → WokenWith k (
            if b
            then (
              record s { queue = record s.queue { is_running = false } },
              Caller.checked (stop_event s.service_id),
            )
            else (s, Caller.idle))
    by_running true = record { stays = w.stays; wakes = w.wakes }
    by_running false = w
Woken-Call k _ _ _ (Call.count s e) w = record { stays = w.stays; wakes = w.wakes }
Woken-Call k _ _ _ (Call.insert s e) w = record {
  stays = w.stays;
  wakes = λ on. Wakes-inserted (omega arith) (w.wakes on);
}
Woken-Call k _ _ _ (Call.awake s u e) w =
    let n = notify_lem s u e in
    subst (λ v. WokenWith k (v, Caller.idle)) n.1
      (record {
        stays = w.stays;
        wakes = λ on.
            Wakes-notified (will_notify Caller.idle + k) (stage s.point) (λ b. b) (w.wakes on);
      })

Woken-take : (k : ℕ) (s : Service) → s.point ≡ Point.taking → Woken s k → Woken (take_pending s) k
unfolding take_pending
Woken-take k s at w = by_pending s.queue.pending
  where
    by_pending :
        (es : List Event)
        → Woken
            (elim es [
              | [] ↦ record s { point = Point.found_none }
              | e ∷ es ↦ move_queue s (e ∷ es)
            ])
            k
    by_pending [] = record {
      stays = w.stays;
      wakes = λ on. Wakes-inside 2 (omega arith) (w.wakes on);
    }
    by_pending (x ∷ es) = record {
      stays = w.stays;
      wakes = λ on. Wakes-inside 2 (omega arith) (w.wakes on);
    }

Woken-handled :
    (k : ℕ) (s : Service) (e : Event) (es : List Event)
    → s.point ≡ Point.handling
    → Woken s k
    → Woken (handled_one s e es) k
Woken-handled k s e es at w = record {
  stays = stays (event_answer e);
  wakes = wakes (event_answer e);
}
  where
    stays : (b : Bool) → b ≡ false → (s.has_watcher && b) ≡ false
    stays b off = ground (arith, off)

    wakes :
        (b : Bool)
        → (s.has_watcher && b) ≡ true
        → Wakes k (stage s.point) (if b then s.watcher_status else 0) s.queue.pending
    wakes true on = w.wakes (ground (arith, on))
    wakes false on = absurd (ground (arith, on))

Woken-handle :
    (k : ℕ) (s t : Service) → s.point ≡ Point.handling → handle s ≡ some t → Woken s k → Woken t k
unfolding handle
Woken-handle k s t at e w = by_batch s.batch s.goes_on e
  where
    by_batch :
        (es : List Event) (b : Bool)
        → elim es [ [] ↦ none | x ∷ xs ↦ if b then some (handled_one s x xs) else none ] ≡ some t
        → Woken t k
    by_batch [] b h = absurd (ground (arith, h))
    by_batch (x ∷ xs) true h =
        subst (λ v. Woken v k) (some-injective _ _ h) (Woken-handled k s x xs at w)
    by_batch (x ∷ xs) false h = absurd (ground (arith, h))

Woken-end :
    (k waiting : ℕ) (s : Service)
    → s.point ≡ Point.handling
    → Woken s k
    → Woken (end_batch waiting s) k
unfolding end_batch
Woken-end k waiting s at w = record {
  stays = w.stays;
  wakes = λ on. by_test s.goes_on refl (ltb 0 s.queue.queue_size && ltb 0 waiting) on;
}
  where
    by_test :
        (g : Bool)
        → s.goes_on ≡ g
        → (b : Bool) → s.has_watcher ≡ true
        → Wakes k
            (stage (if g then if b then Point.found_waiting else Point.taking else Point.outside))
            s.watcher_status
            s.queue.pending
    by_test true e true on = Wakes-inside 2 (omega arith) (w.wakes on)
    by_test true e false on = Wakes-inside 2 (omega arith) (w.wakes on)
    by_test false e b on = absurd (true≢false (sym on ∙ w.stays e))

Woken-reset :
    (k : ℕ) (s : Service) (p : Point)
    → stage p ≡ 1
    → Woken s k
    → Woken (record (reset_watcher s) { point = p }) k
unfolding reset_watcher
Woken-reset k s p one w = record {
  stays = w.stays;
  wakes = λ on.
      subst
        (λ b.
          Wakes k (stage p) (if b then exchange_status 3 1 s.watcher_status else s.watcher_status)
            s.queue.pending)
        (sym on) (Wakes-reset (stage p) (omega (arith, one)) (w.wakes on));
}

-- Where no size has wrapped around, a size of 0 means that the queue is empty.
no_size :
    {c m : ℕ} (s : Service)
    → Fits s c m
    → c + length s.arrived < 2 ^ 32
    → s.queue.queue_size ≡ 0
    → s.queue.pending ≡ []
no_size s f bound z = nothing s.queue.pending (
    omega (
      arith,
      f.sized,
      z,
      bound,
      ap length f.ordered,
      length-append s.handled (s.batch ++ s.queue.pending),
      length-append s.batch s.queue.pending,
    ))
  where
    nothing : (es : List Event) → length es ≡ 0 → es ≡ []
    nothing [] e = refl
    nothing (x ∷ xs) e = absurd (omega (arith, e))

Woken-recheck :
    (k : ℕ) {c m : ℕ} (s : Service)
    → s.point ≡ Point.rechecking
    → Fits s c m
    → c + length s.arrived < 2 ^ 32
    → Woken s k
    → Woken (recheck s) k
unfolding recheck
Woken-recheck k s at f bound w = record {
  stays = w.stays;
  wakes = λ on. by_size s.queue.queue_size refl (w.wakes on);
}
  where
    here : stage s.point ≡ 1
    here = ap stage at

    by_size :
        (n : ℕ)
        → s.queue.queue_size ≡ n
        → Wakes k (stage s.point) s.watcher_status s.queue.pending
        → Wakes k
            (stage (if ltb 0 n then Point.notifying else Point.outside))
            s.watcher_status
            s.queue.pending
    by_size zero e v = record {
      is_open = v.is_open;
      is_known = v.is_known;
      is_reset = λ b. v.is_reset (omega (arith, here));
      is_called = λ b. inr (inr (no_size s f bound e));
    }
    by_size (suc n) e v =
        rw (lt→ltb 0 (suc n) (omega arith))
          (subst (λ q. Wakes k q s.watcher_status s.queue.pending) here v)

pub Woken-Turn :
    (k : ℕ) {c m : ℕ} (s t : Service)
    → Turn s t
    → Fits s c m
    → c + length s.arrived < 2 ^ 32
    → Woken s k
    → Woken t k
unfolding enter
Woken-Turn k _ _ (Turn.begin s at on) f bound w = record {
  stays = λ no. absurd (true≢false no);
  wakes = λ w2. record {
    is_open = omega arith;
    is_known = omega arith;
    is_reset = λ b. absurd (omega (arith, b));
    is_called = λ b. absurd (omega (arith, b));
  };
}
Woken-Turn k _ _ (Turn.take s at) f bound w = Woken-take k s at w
Woken-Turn k _ _ (Turn.next s t at e) f bound w = Woken-handle k s t at e w
Woken-Turn k _ _ (Turn.end s waiting at e) f bound w = Woken-end k waiting s at w
Woken-Turn k _ _ (Turn.reset_none s at) f bound w = Woken-reset k s Point.rechecking refl w
Woken-Turn k _ _ (Turn.load_size s at) f bound w = Woken-recheck k s at f bound w
Woken-Turn k _ _ (Turn.reset_waiting s at) f bound w = Woken-reset k s Point.notifying refl w
Woken-Turn k _ _ (Turn.notify_itself s t at e) f bound w =
    let n = notify_lem s t e in
    subst (λ v. Woken (record v { point = Point.outside }) k) n.1
      (record {
        stays = w.stays;
        wakes = λ on. Wakes-notified k 0 (λ b. omega (arith, ap stage at)) (w.wakes on);
      })
