-- ===== src/Fragments.antt =====
-- What the encoders of both codecs share: the place of a fragment in the payload, and the loop that
-- gathers a fragment from several source buffers (`tpack_encodeVec` and `webSocket_encodeVec`, of
-- src/core/source/codec/tpack_t.c and src/core/source/codec/webSocket_t.c).
pub mod Gather
pub mod GatherAll
use frog_game_framework.Base.{
  ℕ, zero, suc, ◌+◌, ◌-◌, ◌*◌, ◌/◌, ◌%◌, ◌^◌, ◌≡◌, ◌<◌, refl, Bool, ◌&&◌, lt→ltb, arith, true,
  false, List, [], ◌∷◌, Option, none, some, ltb, ◌==◌, if◌then◌else◌, length, ◌>>=◌,
}
use frog_game_framework.Memory.{sub_size, load, store}

-- The number of blocks, `nLength / 0xffff + 1` as an int32_t: its 32 bits, so that a count from
-- 2^31 on is negative.
abbrev pub encode_buf_count : ℕ → ℕ
encode_buf_count n = (n / 0xffff + 1) % 2 ^ 32

-- Whether a loop up to the count is entered at all.
abbrev pub has_blocks : ℕ → Bool
has_blocks count = ltb 0 count && ltb count (2 ^ 31)

pub has_blocks_lem : (n : ℕ) → n < 2 ^ 31 → has_blocks (encode_buf_count n) ≡ true
has_blocks_lem n h =
    rw
      (
        lt→ltb 0 ((n / 0xffff + 1) % 2 ^ 32) (omega arith),
        lt→ltb ((n / 0xffff + 1) % 2 ^ 32) (2 ^ 31) (omega arith),
      )
      refl

pub count-below : (n : ℕ) → n < 2 ^ 31 → encode_buf_count n - 1 ≡ n / 0xffff
count-below n h = omega arith

-- The byte offset of fragment `j`, `j * 0xffff` on `int`: from 2^31 on it overflows.
unfoldable pub fragment_offset : ℕ → Option ℕ
fragment_offset j = if ltb (j * 0xffff) (2 ^ 31) then some (j * 0xffff) else none

-- The sum of the `iLength` of the source buffers.
abbrev pub vec_length : List (List ℕ) → ℕ
vec_length [] = 0
vec_length (src ∷ srcs) = length src + vec_length srcs

-- The copies of one block: every source buffer in turn, `offset` bytes into the block.
pub copy_all : List (List ℕ) → List ℕ → ℕ → Option (List ℕ)
copy_all [] block offset = some block
copy_all (src ∷ srcs) block offset = do
  b ← store block offset src
  copy_all srcs b (offset + length src)

-- Where the loop stands: the source buffers from `iSrcBufIndex` on, and `nSrcBufOffset`.
pub record Cursor : Type 0 where
  pub sources : List (List ℕ)
  pub offset : ℕ

-- The loop that fills a block from `offset` on. Behind the last source buffer it reads
-- `pInBufVec[iCount]`, which is a fault.
pub gather : List (List ℕ) → ℕ → List ℕ → ℕ → Option (List ℕ × Cursor)
gather [] src_offset block offset = none
gather (src ∷ srcs) src_offset block offset =
    let ahead = sub_size (length src) src_offset in
    let room = sub_size (length block) offset in
    elim (ltb room ahead) [
      | true ↦ (do
        chunk ← load src src_offset room
        b ← store block offset chunk
        some (b, record { sources = src ∷ srcs; offset = src_offset + room }))
      | false ↦ (do
        chunk ← load src src_offset ahead
        b ← store block offset chunk
        elim (offset + ahead == length b) [
          | true ↦ some (b, record { sources = srcs; offset = 0 })
          | false ↦ gather srcs 0 b (offset + ahead)
        ])
    ]
