-- ===== src/Service/Callback/Tests.antt =====
-- A service with its queue, and the memory with one buffer.
use frog_game_framework.Base.{
  ◌+◌, ◌*◌, ◌≡◌, refl, true, false, [], ◌∷◌, none, some, ◌==◌, if◌then◌else◌, arith, Gives, All,
  IsByte, inl, flatten,
}
use frog_game_framework.ByteQueue.{ByteQueue}
use frog_game_framework.ByteQueue.View.{contents}
use frog_game_framework.Memory.Zeroed.{zeroed}
use frog_game_framework.Service.{event_answer}
use frog_game_framework.Service.Callback.{
  Environment, StopFields, Action, event_callback, send_move, bare, other_actions, callback_parts,
  finish_connect, offer_channel, stop_actions,
}
use frog_game_framework.Service.Callback.Delivered.{Moves, Queued, send_move-Moves, send_move_leak}
use frog_game_framework.Service.Callback.Kinds.{DataKind, flag_of}
use frog_game_framework.Service.Callback.Once.{IsOnce, event_callback-IsOnce}
use frog_game_framework.Service.Callback.Received.{MessageKind, Arrived, write-Arrived}
use frog_game_framework.Streams.{Event, EventQueue}
use frog_game_framework.Streams.TpackStream.{receive}
use frog_game_framework.Streams.TpackStream.Send.{write_one_block}
use frog_game_framework.Tpack.Encode.{token_byte_of}
use frog_game_framework.Tpack.Encode.Frame.{frame_bytes}

-- The buffer 65, 66 at 40; the timer at 41 runs; the callback refuses everything.
abbrev environment : Environment
environment = record {
  buffers = λ p. if p == 40 then some (65 ∷ 66 ∷ []) else none;
  timer_is_running = λ p. p == 41;
  is_connecting = λ p. true;
  new_id = 0x80100001;
  answers = λ d. false;
}

abbrev fields : StopFields
fields = record { has_user_data = true; has_stop = true; service_id = 0x300001; has_watcher = true }

abbrev queue : EventQueue
queue = record { is_running = true; queue_size = 0; pending = [] }

-- The event of a connection at 42 that was made.
abbrev connected : Event
connected = record { source_id = 0; token = 9; length_and_type = 0x05000000; storage = 42 ∷ [] }

connected_runs :
    event_callback environment fields connected
    ≡ some (
      true,
      Action.creates_channel 42
          ∷ Action.delivers
              (record { kind = 5; source_id = 0x80100001; token = 9; buffer = none; size = 0 })
          ∷ Action.closes_channel
          ∷ Action.releases_channel
          ∷ [],
    )
unfolding event_callback callback_parts other_actions finish_connect offer_channel
connected_runs = refl

stop_runs :
    event_callback environment fields
      (record { source_id = 0; token = 0; length_and_type = 0; storage = [] })
    ≡ some (false, Action.calls_stop ∷ Action.deregisters 0x300001 ∷ Action.closes_watcher ∷ [])
unfolding event_callback callback_parts stop_actions
stop_runs = refl

event_callback-IsOnce_example :
    Gives
      (event_callback environment fields connected)
      (λ r. (r.0 ≡ event_answer connected) × IsOnce r.1)
event_callback-IsOnce_example = event_callback-IsOnce environment connected 42 [] refl fields

send_move-Moves_example :
    Gives
      (send_move queue 7 40 2 (flag_of DataKind.text) 9)
      (Moves environment fields queue 7 9 DataKind.text 40 2)
send_move-Moves_example =
    send_move-Moves environment fields queue 7 9 DataKind.text 40 2 (omega arith)

send_move_leak_example :
    Gives
      (send_move queue 7 40 2 0x5a 9)
      (λ r. (r.2 ≡ []) × Queued queue r.1 environment fields (bare 0x5a 7 9 ∷ []))
send_move_leak_example =
    send_move_leak environment fields queue 7 9 0x5a 40 2 (inl refl) (omega arith) refl

-- A final call with the token 9 and the payload 65, 66, then one byte of the next packet.
abbrev received : ByteQueue
received = record {
  buffer = 0x86 ∷ 2 ∷ 0 ∷ 0 ∷ 0 ∷ 9 ∷ 65 ∷ 66 ∷ 1 ∷ 0 ∷ [];
  capacity = 10;
  read_index = 0;
  write_index = 9;
}

contents-received : contents received ≡ 0x86 ∷ 2 ∷ 0 ∷ 0 ∷ 0 ∷ 9 ∷ 65 ∷ 66 ∷ 1 ∷ []
unfolding contents
contents-received = refl

received-IsByte : All IsByte (contents received)
received-IsByte = rw contents-received (omega arith)

write-Arrived_example :
    Gives
      (receive 7 queue received)
      (Arrived environment fields 7 9 (65 ∷ 66 ∷ []) MessageKind.call queue)
unfolding flatten frame_bytes token_byte_of
write-Arrived_example =
    write-Arrived environment fields 7 9 (65 ∷ 66 ∷ []) zeroed MessageKind.call (1 ∷ [])
      (omega arith) (omega arith) queue received
      (frame_bytes (6 + 1 * 128) (token_byte_of (6 * 16)) 9 (65 ∷ 66 ∷ []) ∷ [])
      (write_one_block zeroed (65 ∷ 66 ∷ []) 6 9 (omega arith) (omega arith)) refl (omega arith)
      received-IsByte contents-received
