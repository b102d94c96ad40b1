-- ===== src/Service/Batch.antt =====
-- Any number of steps of the thread of the service, and those that handle a batch.
use frog_game_framework.Base.{
  ◌≡◌, refl, sym, ap₂, ◌∙◌, true, ◌&&◌, List, [], ◌∷◌, ◌++◌, append_assoc, append-nil, All, none,
  some, if◌then◌else◌,
}
use frog_game_framework.Streams.{Event}
use frog_game_framework.Service.{Point, Service, event_answer, handled_one, handle, Turn}

-- Any number of steps of the thread of the service.
pub data Turns : Service → Service → Type 0 where
  done : (s : Service) → Turns s s
  more : {s t u : Service} → Turn s t → Turns t u → Turns s u

pub Turns-append : {s t u : Service} → Turns s t → Turns t u → Turns s u
Turns-append (done _) us = us
Turns-append (more turn ts) us = more turn (Turns-append ts us)

abbrev pub IsUser : Event → Type 0
IsUser e = event_answer e ≡ true

pub handle_next :
    (s : Service) (e : Event) (es : List Event)
    → s.batch ≡ e ∷ es
    → s.goes_on ≡ true
    → handle s ≡ some (handled_one s e es)
unfolding handle
handle_next s e es b g =
    ap₂ (λ bs on. elim bs [ [] ↦ none | x ∷ xs ↦ if on then some (handled_one s x xs) else none ]) b
      g

-- `t` is `s` after it has handled `es`, with `rest` left in the batch.
pub record Handled (s t : Service) (es rest : List Event) : Type 0 where
  pub turns : Turns s t
  pub batch : t.batch ≡ rest
  pub handled : t.handled ≡ s.handled ++ es
  pub goes_on : t.goes_on ≡ true
  pub at : t.point ≡ Point.handling
  pub pending : t.queue.pending ≡ s.queue.pending
  pub watched : t.has_watcher ≡ true

pub handle-All :
    (es rest : List Event) (s : Service)
    → All IsUser es
    → s.batch ≡ es ++ rest
    → s.goes_on ≡ true
    → s.point ≡ Point.handling
    → s.has_watcher ≡ true
    → (t : Service) × Handled s t es rest
handle-All [] rest s users b g at w = (
  s,
  record {
    turns = done s;
    batch = b;
    handled = sym (append-nil s.handled);
    goes_on = g;
    at = at;
    pending = refl;
    watched = w;
  },
)
handle-All (x ∷ xs) rest s users b g at w =
    let s1 = handled_one s x (xs ++ rest) in
    let (t, h) = handle-All xs rest s1 users.1 refl users.0 at (ap₂ (λ c d. c && d) w users.0) in
    (
      t,
      record {
        turns = more (Turn.next s s1 at (handle_next s x (xs ++ rest) b g)) h.turns;
        batch = h.batch;
        handled = h.handled ∙ append_assoc s.handled (x ∷ []) xs;
        goes_on = h.goes_on;
        at = h.at;
        pending = h.pending;
        watched = h.watched;
      },
    )
