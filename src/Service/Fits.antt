-- ===== src/Service/Fits.antt =====
-- How the queue, the callers and the events that have arrived go together.
use frog_game_framework.Base.{
  ℕ, ◌+◌, ◌%◌, ◌^◌, ◌≡◌, ◌≤◌, refl, sym, ap, Bool, true, false, not, List, [], ◌∷◌, ◌++◌,
  append_assoc, if◌then◌else◌, length, total,
}
use frog_game_framework.Streams.{Event}
use frog_game_framework.Service.{Point, Service, Caller, check_enqueue, event_answer}

abbrev pub bit : Bool → ℕ
bit true = 1
bit false = 0

-- 1 for the event that stops the service.
abbrev pub is_stop : Event → ℕ
is_stop e = bit (not (event_answer e))

-- The callers that have added to the size but not yet put their event in the queue.
abbrev pub on_the_way : Caller → ℕ
on_the_way (Caller.counted e) = 1
on_the_way _ = 0

-- The callers that will put the stopping event in the queue.
abbrev pub brings_stop : Caller → ℕ
brings_stop (Caller.checked e) = is_stop e
brings_stop (Caller.counted e) = is_stop e
brings_stop _ = 0

-- Outside the inner loop the batch is empty.
abbrev pub IsDrained : Point → List Event → Type 0
IsDrained Point.outside es = es ≡ []
IsDrained Point.taking es = es ≡ []
IsDrained Point.handling es = es ≡ es
IsDrained Point.found_none es = es ≡ []
IsDrained Point.found_waiting es = es ≡ []
IsDrained Point.rechecking es = es ≡ []
IsDrained Point.notifying es = es ≡ []

-- `c` callers are on the way, and `m` bring the stopping event.
pub record Fits (s : Service) (c m : ℕ) : Type 0 where
  pub drained : IsDrained s.point s.batch
  pub ordered : s.handled ++ (s.batch ++ s.queue.pending) ≡ s.arrived
  pub sized : s.queue.queue_size ≡ (c + (length s.batch + length s.queue.pending)) % 2 ^ 32
  pub one_stop : total is_stop s.arrived + (m + bit s.queue.is_running) ≤ 1

abbrev pub FitsWith : ℕ → ℕ → Service × Caller → Type 0
FitsWith c m r = Fits r.0 (on_the_way r.1 + c) (brings_stop r.1 + m)

-- Events at the end of the queue arrive last; one that is handled is the next that arrived.
pub append_last :
    (xs ys zs ws : List Event) (e : Event)
    → xs ++ (ys ++ zs) ≡ ws
    → xs ++ (ys ++ (zs ++ (e ∷ []))) ≡ ws ++ (e ∷ [])
append_last xs ys zs ws e h =
    rw (sym h, append_assoc xs (ys ++ zs) (e ∷ []), append_assoc ys zs (e ∷ [])) refl

pub move_first :
    (xs ys zs : List Event) (e : Event) → (xs ++ (e ∷ [])) ++ (ys ++ zs) ≡ xs ++ ((e ∷ ys) ++ zs)
move_first xs ys zs e = append_assoc xs (e ∷ []) (ys ++ zs)

pub check_enqueue-counts :
    (s : Service) (e : Event)
    → event_answer e ≡ true
    → (on_the_way (check_enqueue s e) ≡ 0) × (brings_stop (check_enqueue s e) ≡ 0)
unfolding check_enqueue
check_enqueue-counts s e user = by_running s.queue.is_running
  where
    by_running :
        (b : Bool)
        → (on_the_way (if b then Caller.checked e else Caller.idle) ≡ 0)
          × (brings_stop (if b then Caller.checked e else Caller.idle) ≡ 0)
    by_running true = (refl, ap (λ a. bit (not a)) user)
    by_running false = (refl, refl)
