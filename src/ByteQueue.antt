-- ===== src/ByteQueue.antt =====
-- The ring buffer of src/core/include/byteQueue_t.h and src/core/source/detail/byteQueue_t.c.
-- `read_index` equal to `capacity` marks the empty queue. A function that changes `*pByteQueue`
-- returns the new queue; `none` is a fault: an access outside the buffer, a division by zero or a
-- failed `assert`.

pub mod View
pub mod Space
pub mod Fill
pub mod Copy
pub mod Write
pub mod WriteChar
pub mod Offset
pub mod Read
pub mod Reserve
pub mod Loaded
mod Tests
use frog_game_framework.Base.{
  ℕ, ◌*◌, ◌%◌, ◌^◌, Bool, not, List, [], ◌∷◌, Option, none, some, ltb, leb, ◌==◌, if◌then◌else◌,
  length, take, drop, ◌++◌, ◌>>=◌, ◌>>◌, assert,
}
use frog_game_framework.Memory.{Memory, add_size, sub_size, mod_size, align_size, load, store}

pub record ByteQueue : Type 0 where
  pub buffer : List ℕ
  pub capacity : ℕ
  pub read_index : ℕ
  pub write_index : ℕ

pub empty : ByteQueue → Bool
empty q = q.read_index == q.capacity

pub get_bytes_readable : ByteQueue → ℕ
get_bytes_readable q =
    if ltb q.read_index q.write_index
    then sub_size q.write_index q.read_index
    else add_size q.write_index (sub_size q.capacity q.read_index)

pub get_bytes_writable : ByteQueue → ℕ
get_bytes_writable q =
    if leb q.write_index q.read_index
    then sub_size q.read_index q.write_index
    else add_size q.read_index (sub_size q.capacity q.write_index)

-- The offset in the buffer of the returned pointer, and `*pReadBytes`.
pub peek_contiguous_bytes_read : ByteQueue → ℕ × ℕ
peek_contiguous_bytes_read q = (
  q.read_index,
  if ltb q.read_index q.write_index
      then sub_size q.write_index q.read_index
      else sub_size q.capacity q.read_index,
)

pub peek_contiguous_bytes_write : ByteQueue → ℕ × ℕ
peek_contiguous_bytes_write q = (
  q.write_index,
  if leb q.write_index q.read_index
      then sub_size q.read_index q.write_index
      else sub_size q.capacity q.write_index,
)

pub read_offset : ByteQueue → ℕ → Option ByteQueue
read_offset q n = do
  assert (leb n (get_bytes_readable q))
  if get_bytes_readable q == n
      then some (record q { read_index = q.capacity; write_index = 0 })
      else (do
        i ← mod_size (add_size q.read_index n) q.capacity
        some (record q { read_index = i }))

-- The write index moves on, and the first byte written ends the empty state.
pub advance : ByteQueue → ℕ → Option ByteQueue
advance q n = do
  i ← mod_size (add_size q.write_index n) q.capacity
  some (record q {
    write_index = i;
    read_index = if q.read_index == q.capacity then 0 else q.read_index;
  })

pub write_offset : ByteQueue → ℕ → Option ByteQueue
write_offset q n = do assert (not (n == 0)); assert (leb n (get_bytes_writable q)); advance q n

pub clear : ByteQueue → ByteQueue
clear q = record { buffer = []; capacity = 0; read_index = 0; write_index = 0 }

pub reset : ByteQueue → ByteQueue
reset q = record q { read_index = q.capacity; write_index = 0 }

pub swap_to_reset : ByteQueue → ByteQueue → ByteQueue × ByteQueue
swap_to_reset q rhs = (
  rhs,
  record {
    buffer = q.buffer;
    capacity = q.capacity;
    read_index = q.capacity;
    write_index = q.capacity;
  },
)

-- The new queue, and what `*ppBuffer` and `*pCapacity` hold after the call.
pub swap_buffer : ByteQueue → List ℕ → ℕ → ByteQueue × List ℕ × ℕ
swap_buffer q block n =
    (record { buffer = block; capacity = n; read_index = n; write_index = n }, q.buffer, q.capacity)

-- The two copies that bring the readable bytes to the front of a new block.
pub copy_readable : ByteQueue → List ℕ → Option (List ℕ)
copy_readable q block = do
  let written = get_bytes_readable q
  let (offset, read_bytes) = peek_contiguous_bytes_read q
  first ← load q.buffer offset read_bytes
  copied ← store block 0 first
  if read_bytes == written
      then some copied
      else (do rest ← load q.buffer 0 (sub_size written read_bytes); store copied read_bytes rest)

-- The copy of the bytes into the free space, in one part or two.
pub fill : ByteQueue → List ℕ → Option (List ℕ)
fill q bytes =
    let (offset, write_bytes) = peek_contiguous_bytes_write q in
    if leb (length bytes) write_bytes then store q.buffer offset bytes else (do
      block ← store q.buffer offset (take write_bytes bytes)
      store block 0 (drop write_bytes bytes))

pub put : ByteQueue → List ℕ → Option ByteQueue
put q bytes = do block ← fill q bytes; advance (record q { buffer = block }) (length bytes)

module _ (memory : Memory) where
  open memory use {malloc, realloc}

  pub init : ℕ → ByteQueue
  init n = record {
    buffer = if n == 0 then [] else malloc n;
    capacity = n;
    read_index = n;
    write_index = 0;
  }

  -- The move to a new block of `n` bytes, which frees the old one.
  pub relocate : ByteQueue → ℕ → Option ByteQueue
  relocate q n =
      if q.read_index == q.capacity
      then some (record { buffer = malloc n; capacity = n; read_index = n; write_index = 0 })
      else (do
        block ← copy_readable q (malloc n)
        some (record {
          buffer = block;
          capacity = n;
          read_index = 0;
          write_index = get_bytes_readable q;
        }))

  -- A first block of `n` bytes. The write index keeps its value.
  pub first_block : ByteQueue → ℕ → ByteQueue
  first_block q n = record q { buffer = malloc n; capacity = n; read_index = n }

  pub write_char : ByteQueue → ℕ → Option ByteQueue
  write_char q c = do
    q' ←
        (if q.capacity == 0
          then some (first_block q 256)
          else (if ltb (get_bytes_writable q) 1
              then relocate q (align_size (add_size (q.capacity * 2 % 2 ^ 64) 1))
              else some q))
    block ← store q'.buffer q'.write_index (c ∷ [])
    advance (record q' { buffer = block }) 1

  -- What `write` does before it copies.
  pub make_room : ByteQueue → ℕ → Option ByteQueue
  make_room q n =
      if q.capacity == 0
      then some (first_block q (align_size n))
      else (if ltb (get_bytes_writable q) n
          then relocate q
              (align_size (add_size (q.capacity * 2 % 2 ^ 64) (sub_size n (get_bytes_writable q))))
          else some q)

  pub write : ByteQueue → List ℕ → Option ByteQueue
  write q bytes = do assert (not (length bytes == 0)); q' ← make_room q (length bytes); put q' bytes

  -- What `write_bytes` does before it copies: it grows to the exact size.
  pub make_exact_room : ByteQueue → ℕ → Option ByteQueue
  make_exact_room q n =
      if q.capacity == 0
      then some (first_block q n)
      else (if ltb (get_bytes_writable q) n
          then relocate q (add_size q.capacity (sub_size n (get_bytes_writable q)))
          else some q)

  pub write_bytes : ByteQueue → List ℕ → Option ByteQueue
  write_bytes q bytes = do
    assert (not (length bytes == 0))
    q' ← make_exact_room q (length bytes)
    put q' bytes

  pub reserve : ByteQueue → ℕ → Option ByteQueue
  reserve q n =
      if ltb n (get_bytes_readable q)
      then some q
      else (if q.read_index == q.capacity
          then some (record {
            buffer = realloc q.buffer n;
            capacity = n;
            read_index = n;
            write_index = 0;
          })
          else relocate q n)

-- The bytes copied out, and the queue. `none` inside is the result `false`: nothing to read.
pub copy_out : ByteQueue → ℕ → Option (List ℕ)
copy_out q n =
    let (offset, read_bytes) = peek_contiguous_bytes_read q in
    if leb n read_bytes then load q.buffer offset n else (do
      first ← load q.buffer offset read_bytes
      rest ← load q.buffer 0 (sub_size n read_bytes)
      some (first ++ rest))

pub read_bytes : ByteQueue → ℕ → Bool → Option (Option (List ℕ) × ByteQueue)
read_bytes q max_length peek =
    let readable = get_bytes_readable q in
    let n = if ltb readable max_length then readable else max_length in
    if n == 0 then some (none, q) else (do
      out ← copy_out q n
      q' ← (if peek then some q else read_offset q n)
      some (some out, q'))
