-- ===== src/Streams/Loop.antt =====
-- The loop of the receive callbacks, for any codec.
use frog_game_framework.Base.{
  ℕ, zero, suc, ◌≡◌, ◌<◌, refl, sym, ap, subst, Bool-cases, ◌∙◌, Bool, true, false, List, [], ◌∷◌,
  Option, some, lt→ltb, le→ltb, lt_cases, inl, inr, if◌then◌else◌, length, All, IsByte, arith,
  Gives, Gives_bind, Gives_map,
}
use frog_game_framework.ByteQueue.{ByteQueue}
use frog_game_framework.ByteQueue.Space.{get_bytes_readable-holds}
use frog_game_framework.ByteQueue.View.{Holds}
use frog_game_framework.Streams.{Event, EventQueue, Round, enqueue, hand_over, receive_loop}

-- What the bytes start with: too few of them, what the codec refuses, or an event and the bytes
-- behind it.
pub data Next : Type 0 where
  wait : Next
  broken : Next
  deliver : Event → List ℕ → Next

-- What a round does.
abbrev pub Does : Next → EventQueue → ByteQueue → Round → Type 0
Does Next.wait s q r = r ≡ Round.returns true s q
Does Next.broken s q r = r ≡ Round.returns false s q
Does (Next.deliver e rest) s q r =
    (after : ByteQueue) × Holds after rest
    × (r ≡ (
        if s.is_running then Round.goes_on (enqueue s e).1 after else Round.returns false s after))

-- An event leaves fewer bytes.
abbrev pub Shrinks : List ℕ → Next → Type 0
Shrinks xs Next.wait = Unit {0}
Shrinks xs Next.broken = Unit {0}
Shrinks xs (Next.deliver e rest) = All IsByte rest × (length rest < length xs)

pub hand_over-Does :
    (s : EventQueue) (q : ByteQueue) (e : Event) (after : ByteQueue) (rest : List ℕ)
    → Holds after rest
    → Does (Next.deliver e rest) s q (hand_over s e after)
unfolding hand_over enqueue
hand_over-Does s q e after rest k = (
  after,
  k,
  elim (Bool-cases s.is_running) [ inl run ↦ rw run refl | inr stopped ↦ rw stopped refl ],
)

-- A service that takes events goes on taking them.
pub enqueue_running :
    (s : EventQueue) (e : Event) → s.is_running ≡ true → (enqueue s e).1.is_running ≡ true
unfolding enqueue
enqueue_running s e r = rw r refl

-- The events of `es` in the queue.
abbrev pub enqueue_all : EventQueue → List Event → EventQueue
enqueue_all s [] = s
enqueue_all s (e ∷ es) = enqueue_all (enqueue s e).1 es

module _ (next : List ℕ → Next) where
  -- How a service that runs, or one that does not, receives the bytes `xs`: the events in their
  -- order, the result, and the bytes that stay.
  pub data Stream (running : Bool) : List ℕ → List Event → Bool → List ℕ → Type 0 where
    ends : {xs : List ℕ} → next xs ≡ Next.wait → Stream running xs [] true xs
    breaks : {xs : List ℕ} → next xs ≡ Next.broken → Stream running xs [] false xs
    refused :
        {xs rest : List ℕ} (e : Event)
        → running ≡ false
        → next xs ≡ Next.deliver e rest
        → Stream running xs [] false rest
    more :
        {xs rest left : List ℕ} {es : List Event} {ok : Bool} (e : Event)
        → running ≡ true
        → next xs ≡ Next.deliver e rest
        → Stream running rest es ok left
        → Stream running xs (e ∷ es) ok left

  -- What `receive` promises.
  pub record Receives (s : EventQueue) (xs : List ℕ) (r : Bool × EventQueue × ByteQueue)
      : Type 0 where
    pub events : List Event
    pub left : List ℕ
    pub streamed : Stream s.is_running xs events r.0 left
    pub delivered : r.1 ≡ enqueue_all s events
    pub queue : Holds r.2 left

  module _ (round : EventQueue → ByteQueue → Option Round)
      (fits : (s : EventQueue) (q : ByteQueue) (xs : List ℕ)
        → Holds q xs
        → All IsByte xs
        → Gives (round s q) (Does (next xs) s q))
      (shrinks : (xs : List ℕ) → All IsByte xs → Shrinks xs (next xs))
      (short : (xs : List ℕ) → length xs < 2 → next xs ≡ Next.wait) where
    abbrev go_on : ℕ → Round → Option (Bool × EventQueue × ByteQueue)
    go_on n r = elim r [
      | Round.returns ok t q1 ↦ some (ok, t, q1)
      | Round.goes_on t q1 ↦ receive_loop round n t q1
    ]

    abbrev Terminates : ℕ → Type 0
    Terminates n =
        (s : EventQueue) (q : ByteQueue) (xs : List ℕ)
        → length xs < n
        → Holds q xs
        → All IsByte xs
        → Gives (receive_loop round n s q) (Receives s xs)

    -- A service that runs gets the event, and the loop goes on with the bytes behind it.
    after_event :
        (n : ℕ) (s : EventQueue) (xs rest : List ℕ) (e : Event) (after : ByteQueue)
        → Terminates n
        → s.is_running ≡ true
        → next xs ≡ Next.deliver e rest
        → length rest < n
        → Holds after rest
        → All IsByte rest
        → Gives (receive_loop round n (enqueue s e).1 after) (Receives s xs)
    after_event n s xs rest e after ih run found less k w =
        Gives_map (receive_loop round n (enqueue s e).1 after)
          (ih (enqueue s e).1 after rest less k w)
          (λ out r. record {
            events = e ∷ r.events;
            left = r.left;
            streamed = more e run found (
                subst (λ b. Stream b rest r.events out.0 r.left) (enqueue_running s e run ∙ sym run)
                  r.streamed);
            delivered = r.delivered;
            queue = r.queue;
          })

    after_round :
        (n : ℕ) (s : EventQueue) (q : ByteQueue) (xs : List ℕ)
        → Terminates n
        → length xs < suc n
        → Holds q xs
        → All IsByte xs
        → (m : Next) → next xs ≡ m
        → (r : Round) → Does m s q r
        → Gives (go_on n r) (Receives s xs)
    after_round n s q xs ih less h w Next.wait e r d =
        rw d (record { events = []; left = xs; streamed = ends e; delivered = refl; queue = h })
    after_round n s q xs ih less h w Next.broken e r d =
        rw d (record { events = []; left = xs; streamed = breaks e; delivered = refl; queue = h })
    after_round n s q xs ih less h w (Next.deliver event rest) e r (after, k, er) =
        elim (Bool-cases s.is_running) [
          | inl run ↦
              let (w1, fewer) = subst (Shrinks xs) e (shrinks xs w) in
              subst (λ v. Gives (go_on n v) (Receives s xs))
                (sym (
                  er
                  ∙ ap
                      (λ b.
                        if b
                        then Round.goes_on (enqueue s event).1 after
                        else Round.returns false s after)
                      run))
                (after_event n s xs rest event after ih run e (omega arith) k w1)
          | inr stopped ↦
              subst (λ v. Gives (go_on n v) (Receives s xs))
                (sym (
                  er
                  ∙ ap
                      (λ b.
                        if b
                        then Round.goes_on (enqueue s event).1 after
                        else Round.returns false s after)
                      stopped))
                (record {
                  events = [];
                  left = rest;
                  streamed = refused event stopped e;
                  delivered = refl;
                  queue = k;
                })
        ]

    -- With more rounds than readable bytes the loop returns, and has received what the bytes say.
    pub receive_loop-Receives : (n : ℕ) → Terminates n
    unfolding receive_loop
    receive_loop-Receives zero s q xs less h w = absurd (omega arith)
    receive_loop-Receives (suc n) s q xs less h w = elim (lt_cases (length xs) 2) [
      | inl p ↦
          rw (receive_loop, get_bytes_readable-holds h, lt→ltb (length xs) 2 p)
            (record {
              events = [];
              left = xs;
              streamed = ends (short xs p);
              delivered = refl;
              queue = h;
            })
      | inr p ↦
          rw (receive_loop, get_bytes_readable-holds h, le→ltb (length xs) 2 p)
            (Gives_bind (round s q) (go_on n) (Receives s xs) (fits s q xs h w)
              (after_round n s q xs (receive_loop-Receives n) less h w (next xs) refl))
    ]
