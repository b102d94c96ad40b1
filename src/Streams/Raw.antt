-- ===== src/Streams/Raw.antt =====
-- A frame that is passed on as it is.
use frog_game_framework.Base.{
  ℕ, ◌+◌, ◌^◌, ◌≡◌, ◌≤◌, ◌<◌, refl, ◌∙◌, ap, List, length, take, drop, Gives, Gives_bind,
}
use frog_game_framework.ByteQueue.{ByteQueue}
use frog_game_framework.ByteQueue.View.{Holds}
use frog_game_framework.Streams.EventType.{event_word}
use frog_game_framework.Streams.{Event, raw_event, take_raw}
use frog_game_framework.Tpack.Body.{take_payload_lem}
use frog_game_framework.Tpack.{take_payload}

-- The event of the first `n` bytes.
abbrev pub raw_of : ℕ → ℕ → List ℕ → Event
raw_of source n xs = record {
  source_id = source;
  token = 0;
  length_and_type = n + 2 ^ 24;
  storage = take n xs;
}

pub take_raw_lem :
    (source n : ℕ) {q : ByteQueue} {xs : List ℕ}
    → Holds q xs
    → n ≤ length xs
    → n < 2 ^ 24
    → Gives (take_raw source q n) (λ r. (r.0 ≡ raw_of source n xs) × Holds r.1 (drop n xs))
unfolding take_raw
take_raw_lem source n {q} {xs} h room small =
    Gives_bind (take_payload q n) _ _ (take_payload_lem h n room)
      (λ r t. (ap (raw_event source n) t.0 ∙ rw (event_word n 1 small) refl, t.1))
