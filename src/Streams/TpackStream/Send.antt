-- ===== src/Streams/TpackStream/Send.antt =====
-- What the tpack stream sends, and what comes of it on the other side.
use frog_game_framework.Base.{
  ℕ, ◌+◌, ◌*◌, ◌%◌, ◌^◌, ◌≡◌, ◌≤◌, ◌<◌, refl, sym, ap, subst, ◌∙◌, Bool, true, false, List, [], ◌∷◌,
  ◌++◌, append-nil, flatten, none, some, ltb, if◌then◌else◌, ne→==, lt→leb, lt→ltb, length, All,
  IsByte, arith, Gives, Gives_map,
}
use mathlib.Core.Bool.{true≢false}
use frog_game_framework.ByteQueue.{ByteQueue}
use frog_game_framework.ByteQueue.View.{Holds, IsValid, contents}
use frog_game_framework.Fragments.{encode_buf_count}
use frog_game_framework.Memory.{Memory}
use frog_game_framework.Streams.EventType.{message_type}
use frog_game_framework.Streams.Loop.{Next, Stream, ends, breaks, refused, more, enqueue_all}
use frog_game_framework.Streams.TpackStream.Receive.{next, next_of, receive-Receives}
use frog_game_framework.Streams.TpackStream.{receive, write, write_move}
use frog_game_framework.Streams.{Event, EventQueue, event_buf_move}
use frog_game_framework.Tpack.Encode.Frame.{frame_bytes, parse-frame_bytes}
use frog_game_framework.Tpack.Encode.RoundTrip.{encode_one_block, token_byte_of_lem}
use frog_game_framework.Tpack.Encode.{token_byte_of}
use frog_game_framework.Tpack.EncodeVec.Joined.{encode_vec-encode}
use frog_game_framework.Tpack.Wire.{parse}

-- Below 0xffff bytes `write` sends one final frame.
pub write_one_block :
    (memory : Memory) (payload : List ℕ) (kind token : ℕ)
    → kind < 8
    → length payload < 0xffff
    → write memory payload (kind * 16) token
      ≡ some (frame_bytes (kind + 1 * 128) (token_byte_of (kind * 16)) token payload ∷ [])
unfolding write event_buf_move
write_one_block memory payload kind token hk small =
    let byte : kind * 16 % 256 ≡ kind * 16 = omega arith in
    let one : encode_buf_count (length payload) ≡ 1 = omega arith in
    rw (byte, encode_one_block memory payload kind token hk small, one) refl

-- `write_move` of two or more source buffers that hold less than 0xffff bytes together reads behind
-- the end of the array with its one block.
pub write_move_fault :
    (memory : Memory) (sources : List (List ℕ)) (flag token : ℕ)
    → 2 ≤ length sources
    → length (flatten sources) < 0xffff
    → write_move memory sources flag token ≡ none
unfolding write_move event_buf_move
write_move_fault memory sources flag token two small =
    rw
      (
        (encode_vec-encode memory sources (flag % 256) token small).1,
        ne→== (length sources) 0 (omega arith),
        lt→leb (length sources) 1 (omega arith),
      )
      refl

message_type_of_kind : (kind : ℕ) → kind < 8 → message_type (kind * 16 + 1 * 128) ≡ kind * 16 + 10
unfolding message_type
message_type_of_kind kind h = omega arith

-- The event of a message of this kind.
abbrev pub message_of : ℕ → ℕ → ℕ → List ℕ → Event
message_of source kind token payload = record {
  source_id = source;
  token = if ltb 2 kind then token else 0;
  length_and_type = length payload + (kind * 16 + 10) * 2 ^ 24;
  storage = payload;
}

-- The first event of a stream that starts with one.
pub record StartsWith (next : List ℕ → Next) (e : Event) (rest : List ℕ) (events : List Event)
    (ok : Bool) (left : List ℕ) : Type 0 where
  pub later : List Event
  pub split : events ≡ e ∷ later
  pub streamed : Stream next true rest later ok left

abbrev event_in : Next → Event → Event
event_in (Next.deliver e rest) d = e
event_in _ d = d

abbrev rest_in : Next → List ℕ
rest_in (Next.deliver e rest) = rest
rest_in _ = []

abbrev is_deliver : Next → Bool
is_deliver (Next.deliver e rest) = true
is_deliver _ = false

starts_with :
    (next : List ℕ → Next) {running : Bool} {xs left : List ℕ} {events : List Event} {ok : Bool}
    (e : Event) (rest : List ℕ)
    → Stream next running xs events ok left
    → running ≡ true
    → next xs ≡ Next.deliver e rest
    → StartsWith next e rest events ok left
starts_with next e rest (ends w) run d = absurd (true≢false (ap is_deliver (sym d ∙ w)))
starts_with next e rest (breaks w) run d = absurd (true≢false (ap is_deliver (sym d ∙ w)))
starts_with next e rest (refused f stopped w) run d = absurd (true≢false (sym run ∙ stopped))
starts_with next e rest (more {rest = behind} {left = left} {es = es} {ok = ok} f r w tail) run d =
    record {
      later = es;
      split = ap (λ n. event_in n f ∷ es) (sym w ∙ d);
      streamed =
          subst (λ t. Stream next true t es ok left) (ap rest_in (sym w ∙ d))
            (subst (λ b. Stream next b behind es ok left) r tail);
    }

module _ (memory : Memory) (payload rest : List ℕ) (kind token : ℕ) (pos : 0 < kind) (hk : kind < 8)
    (hw : token < 2 ^ 32) (small : length payload < 0xffff) where
  next_message :
      (source : ℕ) (blocks : List (List ℕ)) (xs : List ℕ)
      → write memory payload (kind * 16) token ≡ some blocks
      → xs ≡ flatten blocks ++ rest
      → next source xs ≡ Next.deliver (message_of source kind token payload) rest
  unfolding flatten
  next_message source blocks xs sent e =
      ap (next_of source xs) (
        ap parse (e ∙ ap (λ bs. flatten bs ++ rest) one ∙ ap (λ t. t ++ rest) (append-nil frame))
        ∙ parse-frame_bytes kind 1 token payload rest hk (omega arith) hw
            (token_byte_of (kind * 16)) (token_byte_of_lem kind hk) (omega arith))
      ∙ rw (lt→ltb 128 (kind * 16 + 1 * 128) (omega arith), message_type_of_kind kind hk) refl
    where
      frame : List ℕ
      frame = frame_bytes (kind + 1 * 128) (token_byte_of (kind * 16)) token payload

      one : blocks ≡ frame_bytes (kind + 1 * 128) (token_byte_of (kind * 16)) token payload ∷ []
      one = cc (sent, write_one_block memory payload kind token hk small)

  -- What a service that runs has after the bytes of one `write` and what follows them.
  pub record Delivered (source : ℕ) (s : EventQueue) (r : Bool × EventQueue × ByteQueue)
      : Type 0 where
    pub later : List Event
    pub left : List ℕ
    pub delivered : r.1 ≡ enqueue_all s (message_of source kind token payload ∷ later)
    pub streamed : Stream (next source) true rest later r.0 left
    pub queue : Holds r.2 left

  -- From a valid queue that starts with what `write` sent, a service that runs gets the payload,
  -- the kind and the token as its first event, and then what the bytes behind it say. This is for
  -- kinds from 1 on, tokens of 32 bits and payloads below 0xffff bytes.
  pub receive-write :
      (source : ℕ) (s : EventQueue) (q : ByteQueue) (blocks : List (List ℕ))
      → write memory payload (kind * 16) token ≡ some blocks
      → s.is_running ≡ true
      → IsValid q
      → All IsByte (contents q)
      → contents q ≡ flatten blocks ++ rest
      → Gives (receive source s q) (Delivered source s)
  receive-write source s q blocks sent run v w e =
      Gives_map (receive source s q) (receive-Receives source s q v w) (λ r a.
        let first =
          starts_with (next source) (message_of source kind token payload) rest a.streamed run
            (next_message source blocks (contents q) sent e) in
        record {
          later = first.later;
          left = a.left;
          delivered = a.delivered ∙ ap (enqueue_all s) first.split;
          streamed = first.streamed;
          queue = a.queue;
        })
