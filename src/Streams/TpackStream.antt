-- ===== src/Streams/TpackStream.antt =====
-- tpackStream_receive, tpackStream_write and tpackStream_writeMove of src/service/source/stream/tpackStream_t.c.
pub mod Receive
pub mod Send
use frog_game_framework.Base.{
  ℕ, ◌+◌, ◌*◌, ◌^◌, ◌%◌, length, Bool, true, false, ◌&&◌, not, List, Option, none, some, ◌>>=◌,
  ◌==◌, if◌then◌else◌, bit_and, bit_or,
}
use frog_game_framework.ByteQueue.{ByteQueue, get_bytes_readable}
use frog_game_framework.Fragments.{encode_buf_count}
use frog_game_framework.Memory.{Memory}
use frog_game_framework.Tpack.Encode.{encode}
use frog_game_framework.Tpack.EncodeVec.{encode_vec}
use frog_game_framework.Streams.{
  Event, event_msg, EventQueue, Round, hand_over, take_raw, receive_loop, event_buf_move,
}
use frog_game_framework.Tpack.{Head, HeadResult, frame_final, decode_head, take_token, take_payload}

abbrev pub code_mask : ℕ
code_mask = 0x70

-- A message is one frame: it is final and has a kind.
abbrev pub is_message : ℕ → Bool
is_message flag = not (bit_and flag frame_final == 0) && not (flag == frame_final)

abbrev pub message_event : ℕ → Head → ℕ → List ℕ → Event
message_event source head token payload = record {
  source_id = source;
  token = token;
  length_and_type =
      bit_or head.payload_len (bit_or (bit_and head.flag code_mask) event_msg * 2 ^ 24);
  storage = payload;
}

-- The event of a message, behind its head.
unfoldable pub take_message : ℕ → ByteQueue → Head → Option (Event × ByteQueue)
take_message source q head = do
  (token, q1) ← take_token q head.offset
  (payload, q2) ← take_payload q1 head.payload_len
  some (message_event source head token payload, q2)

unfoldable pub receive_round : ℕ → EventQueue → ByteQueue → Option Round
receive_round source s q = do
  r ← decode_head q
  elim r [
    | HeadResult.incomplete ↦ some (Round.returns true s q)
    | HeadResult.invalid ↦ some (Round.returns false s q)
    | HeadResult.decoded head ↦ (do
      (event, q1) ←
          (if is_message head.flag
            then take_message source q head
            else take_raw source q (head.offset + head.payload_len))
      some (hand_over s event q1))
  ]

-- `tpackStream_receive`: the bound on the rounds is the number of readable bytes.
unfoldable pub receive : ℕ → EventQueue → ByteQueue → Option (Bool × EventQueue × ByteQueue)
receive source s q = receive_loop (receive_round source) (get_bytes_readable q + 1) s q

-- `tpackStream_write`: the blocks that go to the connection.
unfoldable pub write : Memory → List ℕ → ℕ → ℕ → Option (List (List ℕ))
write memory payload flag token = do
  blocks ← encode memory payload (flag % 256) token
  event_buf_move blocks (encode_buf_count (length payload))

-- `tpackStream_writeMove`, which passes the number of the source buffers on.
unfoldable pub write_move : Memory → List (List ℕ) → ℕ → ℕ → Option (List (List ℕ))
write_move memory sources flag token = do
  blocks ← encode_vec memory sources (flag % 256) token
  event_buf_move blocks (length sources)
