-- ===== src/ByteQueue/Tests.antt =====
-- Small queues that the functions of byteQueue_t run on.
use frog_game_framework.Base.{◌≡◌, refl, [], ◌∷◌, some, arith, Gives, false}
use frog_game_framework.Memory.{load, store}
use frog_game_framework.Memory.Zeroed.{zeroed}
use frog_game_framework.ByteQueue.{
  ByteQueue, write, read_bytes, fill, get_bytes_readable, get_bytes_writable,
  peek_contiguous_bytes_write, peek_contiguous_bytes_read, make_room, first_block, put, advance,
  copy_out, read_offset,
}
use frog_game_framework.ByteQueue.View.{IsValid, contents}
use frog_game_framework.ByteQueue.Write.{Appends, write-append}
use frog_game_framework.ByteQueue.Read.{Reads, read_bytes-Reads}

-- 7, 8, then 9 round the end of the buffer; one byte is free.
abbrev wrapped : ByteQueue
wrapped = record { buffer = 9 ∷ 0 ∷ 7 ∷ 8 ∷ []; capacity = 4; read_index = 2; write_index = 1 }

-- 5, 6 in the middle of the buffer.
abbrev middle : ByteQueue
middle = record { buffer = 0 ∷ 5 ∷ 6 ∷ 0 ∷ []; capacity = 4; read_index = 1; write_index = 3 }

wrapped-IsValid : IsValid wrapped
wrapped-IsValid = omega arith

contents-wrapped : contents wrapped ≡ 7 ∷ 8 ∷ 9 ∷ []
unfolding contents
contents-wrapped = refl

-- The free byte at the end, then the front of the buffer.
write_around :
    write zeroed middle (1 ∷ 2 ∷ [])
    ≡ some (record { buffer = 2 ∷ 5 ∷ 6 ∷ 1 ∷ []; capacity = 4; read_index = 1; write_index = 1 })
unfolding write make_room put fill advance store get_bytes_writable peek_contiguous_bytes_write
    first_block
write_around = refl

read_around :
    read_bytes wrapped 3 false
    ≡ some (
      some (7 ∷ 8 ∷ 9 ∷ []),
      record { buffer = 9 ∷ 0 ∷ 7 ∷ 8 ∷ []; capacity = 4; read_index = 4; write_index = 0 },
    )
unfolding read_bytes copy_out read_offset load get_bytes_readable peek_contiguous_bytes_read
read_around = refl

write-append_example :
    Gives (write zeroed wrapped (1 ∷ 2 ∷ 3 ∷ [])) (Appends (contents wrapped) (1 ∷ 2 ∷ 3 ∷ []))
write-append_example =
    write-append zeroed (1 ∷ 2 ∷ 3 ∷ []) wrapped-IsValid (omega arith) (omega arith)

read_bytes-Reads_example : Gives (read_bytes wrapped 2 false) (Reads (contents wrapped) 2 false)
read_bytes-Reads_example = read_bytes-Reads wrapped-IsValid 2 false

fill-middle : fill middle (1 ∷ 2 ∷ []) ≡ some (2 ∷ 5 ∷ 6 ∷ 1 ∷ [])
unfolding fill store peek_contiguous_bytes_write
fill-middle = refl
