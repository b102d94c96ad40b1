-- ===== src/Streams.antt =====
-- The receive callbacks of the codec streams: src/service/source/stream/tpackStream_t.c and
-- src/service/source/stream/webSocketStream_t.c, over the event queue of a service
-- (src/service/include/internal/service-inl.h, src/service/include/serviceEvent_t.h). A channel
-- enters with its identifier and the event queue of its service.
mod Tests
pub mod EventType
mod Raw
pub mod Loop
pub mod WebSocketStream
pub mod TpackStream
use frog_game_framework.Base.{
  ℕ, zero, suc, ◌+◌, ◌*◌, ◌%◌, ◌^◌, Bool, true, false, List, [], ◌∷◌, ◌++◌, Option, none, some,
  ◌>>=◌, ltb, leb, ◌==◌, length, take, if◌then◌else◌, bit_or,
}
use frog_game_framework.ByteQueue.{ByteQueue, get_bytes_readable}
use frog_game_framework.Tpack.{take_payload}

-- `serviceEvent_tt`: the field uiLength has the length in its low 24 bits and the type above.
pub record Event : Type 0 where
  pub source_id : ℕ
  pub token : ℕ
  pub length_and_type : ℕ
  pub storage : List ℕ

abbrev pub event_binary : ℕ
event_binary = 1

abbrev pub event_msg : ℕ
event_msg = 10

-- The part of `service_s` that `service_enqueue` uses.
pub record EventQueue : Type 0 where
  pub is_running : Bool
  pub queue_size : ℕ
  pub pending : List Event

-- `service_enqueue`: an event for a service that does not run is dropped. The call that wakes the
-- service's thread is left out.
unfoldable pub enqueue : EventQueue → Event → Bool × EventQueue
enqueue s e =
    if s.is_running
    then (
      true,
      record s { queue_size = (s.queue_size + 1) % 2 ^ 32; pending = s.pending ++ (e ∷ []) },
    )
    else (false, s)

-- The rest of a round, after its event was made: the loop goes on, or the function returns.
pub data Round : Type 0 where
  returns : Bool → EventQueue → ByteQueue → Round
  goes_on : EventQueue → ByteQueue → Round

unfoldable pub hand_over : EventQueue → Event → ByteQueue → Round
unfolding enqueue
hand_over s e q =
    let (sent, after) = enqueue s e in
    if sent then Round.goes_on after q else Round.returns false after q

-- The event of a frame that is not a whole message: the bytes of the frame as they are.
abbrev pub raw_event : ℕ → ℕ → List ℕ → Event
raw_event source n bytes = record {
  source_id = source;
  token = 0;
  length_and_type = bit_or n (event_binary * 2 ^ 24);
  storage = bytes;
}

-- The branch of both functions for such a frame, whose head and payload have `n` bytes.
unfoldable pub take_raw : ℕ → ByteQueue → ℕ → Option (Event × ByteQueue)
take_raw source q n = do (bytes, q1) ← take_payload q n; some (raw_event source n bytes, q1)

-- The `while` of both functions, with a bound on the rounds; `none` also where the bound is too
-- small.
unfoldable pub receive_loop :
    (EventQueue → ByteQueue → Option Round)
    → ℕ
    → EventQueue
    → ByteQueue
    → Option (Bool × EventQueue × ByteQueue)
receive_loop round zero s q = none
receive_loop round (suc n) s q =
    let rest = receive_loop round n in
    if ltb (get_bytes_readable q) 2
    then some (true, s, q)
    else round s q >>= λ r. elim r [
      | Round.returns ok t q1 ↦ some (ok, t, q1)
      | Round.goes_on t q1 ↦ rest t q1
    ]

-- `createEventBuf_move`: the first `n` of the blocks, which leave the array.
unfoldable pub event_buf_move : List (List ℕ) → ℕ → Option (List (List ℕ))
event_buf_move blocks n =
    if n == 0 then none else if leb n (length blocks) then some (take n blocks) else none
