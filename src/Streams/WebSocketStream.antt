-- ===== src/Streams/WebSocketStream.antt =====
-- webSocketStream_receive, webSocketStream_write and webSocketStream_writeMove of
-- src/service/source/stream/webSocketStream_t.c.
pub mod ReceiveFrames
use frog_game_framework.Base.{
  ℕ, ◌+◌, ◌*◌, ◌^◌, ◌%◌, length, Bool, true, false, ◌&&◌, not, List, Option, none, some, ◌>>=◌,
  ◌==◌, if◌then◌else◌, bit_and, bit_or,
}
use frog_game_framework.ByteQueue.{ByteQueue, get_bytes_readable}
use frog_game_framework.Fragments.{encode_buf_count}
use frog_game_framework.Memory.{Memory}
use frog_game_framework.WebSocket.Encode.{encode, encode_vec}
use frog_game_framework.Streams.{
  Event, event_msg, EventQueue, Round, hand_over, take_raw, receive_loop, event_buf_move,
}
use frog_game_framework.WebSocket.{
  Head, HeadResult, frame_final, decode_head, take_mask, take_payload,
}

abbrev pub code_mask : ℕ
code_mask = 0x70

-- A message is one frame: it is final and has a kind.
abbrev pub is_message : ℕ → Bool
is_message flag = not (bit_and flag frame_final == 0) && not (flag == frame_final)

abbrev pub message_event : ℕ → Head → List ℕ → Event
message_event source head payload = record {
  source_id = source;
  token = 0;
  length_and_type =
      bit_or head.payload_len (bit_or (bit_and head.flag code_mask) event_msg * 2 ^ 24);
  storage = payload;
}

-- The event of a message, behind its head and without the mask.
unfoldable pub take_message : ℕ → ByteQueue → Head → Option (Event × ByteQueue)
take_message source q head = do
  (mask, q1) ← take_mask q head.offset
  (payload, q2) ← take_payload q1 head.payload_len head.offset mask
  some (message_event source head payload, q2)

unfoldable pub receive_round : ℕ → EventQueue → ByteQueue → Option Round
receive_round source s q = do
  r ← decode_head q
  elim r [
    | HeadResult.incomplete ↦ some (Round.returns true s q)
    | HeadResult.invalid ↦ some (Round.returns false s q)
    | HeadResult.decoded head ↦ (do
      (event, q1) ←
          (if is_message head.flag
            then take_message source q head
            else take_raw source q (head.offset + head.payload_len))
      some (hand_over s event q1))
  ]

-- `webSocketStream_receive`: the bound on the rounds is the number of readable bytes.
unfoldable pub receive : ℕ → EventQueue → ByteQueue → Option (Bool × EventQueue × ByteQueue)
receive source s q = receive_loop (receive_round source) (get_bytes_readable q + 1) s q

-- `webSocketStream_write`: the blocks that go to the connection.
unfoldable pub write : Memory → List ℕ → ℕ → Option (List (List ℕ))
write memory payload flag = do
  blocks ← encode memory payload (flag % 256)
  event_buf_move blocks (encode_buf_count (length payload))

-- `webSocketStream_writeMove`, which passes the number of the source buffers on.
unfoldable pub write_move : Memory → List (List ℕ) → ℕ → Option (List (List ℕ))
write_move memory sources flag = do
  blocks ← encode_vec memory sources (flag % 256)
  event_buf_move blocks (length sources)
