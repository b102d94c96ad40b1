-- ===== src/Streams/Tests.antt =====
-- A queue with a call of the tpack codec and one byte more, and one with a web socket frame.
use frog_game_framework.Base.{◌≡◌, refl, true, [], ◌∷◌, none, arith, Gives, All, IsByte, flatten}
use frog_game_framework.ByteQueue.View.{IsValid, contents}
use frog_game_framework.ByteQueue.{ByteQueue}
use frog_game_framework.Memory.Zeroed.{zeroed}
use frog_game_framework.Streams.Loop.{Receives}
use frog_game_framework.Streams.TpackStream.Receive.{next, receive-Receives}
use frog_game_framework.Streams.TpackStream.Send.{write_move_fault}
use frog_game_framework.Streams.TpackStream.{receive, write_move}
use frog_game_framework.Streams.WebSocketStream
use frog_game_framework.Streams.WebSocketStream.ReceiveFrames
use frog_game_framework.Streams.WebSocketStream.ReceiveFrames.{receive_frames-Receives}
use frog_game_framework.Streams.{EventQueue}

abbrev service : EventQueue
service = record { is_running = true; queue_size = 0; pending = [] }

-- A final call with the token 9 and the payload 65, 66, then one byte of the next packet.
abbrev call_queue : ByteQueue
call_queue = record {
  buffer = 0x86 ∷ 2 ∷ 0 ∷ 0 ∷ 0 ∷ 9 ∷ 65 ∷ 66 ∷ 1 ∷ 0 ∷ [];
  capacity = 10;
  read_index = 0;
  write_index = 9;
}

call_queue-IsValid : IsValid call_queue
call_queue-IsValid = omega arith

contents-call_queue : contents call_queue ≡ 0x86 ∷ 2 ∷ 0 ∷ 0 ∷ 0 ∷ 9 ∷ 65 ∷ 66 ∷ 1 ∷ []
unfolding contents
contents-call_queue = refl

call_queue-IsByte : All IsByte (contents call_queue)
call_queue-IsByte = rw contents-call_queue (omega arith)

receive-Receives_example :
    Gives (receive 7 service call_queue) (Receives (next 7) service (contents call_queue))
receive-Receives_example =
    receive-Receives 7 service call_queue call_queue-IsValid call_queue-IsByte

write_move_fault_example : write_move zeroed ((65 ∷ []) ∷ (66 ∷ []) ∷ []) 0x10 0 ≡ none
unfolding flatten
write_move_fault_example =
    write_move_fault zeroed ((65 ∷ []) ∷ (66 ∷ []) ∷ []) 0x10 0 (omega arith) (omega arith)

-- A final text frame with the mask 1, 2, 3, 4 and two bytes.
abbrev text_queue : ByteQueue
text_queue = record {
  buffer = 0x81 ∷ 0x82 ∷ 1 ∷ 2 ∷ 3 ∷ 4 ∷ 64 ∷ 64 ∷ [];
  capacity = 8;
  read_index = 0;
  write_index = 8;
}

text_queue-IsValid : IsValid text_queue
text_queue-IsValid = omega arith

contents-text_queue : contents text_queue ≡ 0x81 ∷ 0x82 ∷ 1 ∷ 2 ∷ 3 ∷ 4 ∷ 64 ∷ 64 ∷ []
unfolding contents
contents-text_queue = refl

text_queue-IsByte : All IsByte (contents text_queue)
text_queue-IsByte = rw contents-text_queue (omega arith)

receive_frames-Receives_example :
    Gives
      (WebSocketStream.receive 7 service text_queue)
      (Receives (ReceiveFrames.next 7) service (contents text_queue))
receive_frames-Receives_example =
    receive_frames-Receives 7 service text_queue text_queue-IsValid text_queue-IsByte
