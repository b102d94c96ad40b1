-- ===== src/WebSocket/Encode/Frame.antt =====
-- The header that starts a block, byte by byte, and the room that it leaves for the payload.
use frog_game_framework.Base.{
  ℕ, ◌+◌, ◌/◌, ◌%◌, ◌^◌, ◌≡◌, refl, List, [], ◌∷◌, ◌++◌, ltb, ◌==◌, arith, if◌then◌else◌, length,
  lt_cases, inl, inr, lt→ltb, le→ltb, Gives,
}
use frog_game_framework.Memory.{Memory, store_at}
use frog_game_framework.WebSocket.Encode.{
  short_header, long_header, final_block, middle_block, header_size,
}

-- The first byte, and the length in its short or long form, the high byte first.
abbrev pub header_bytes : ℕ → ℕ → ℕ → List ℕ
header_bytes first mark n =
    if ltb n 126 then first ∷ (n % 256) ∷ [] else first ∷ mark ∷ (n / 2 ^ 8 % 256) ∷ (n % 256) ∷ []

pub length-header_bytes : (first mark n : ℕ) → length (header_bytes first mark n) ≡ header_size n
length-header_bytes first mark n = ground arith

-- A frame: a header and its payload.
abbrev pub frame_bytes : ℕ → ℕ → List ℕ → List ℕ
frame_bytes first mark payload = header_bytes first mark (length payload) ++ payload

-- The block starts with `front`, and `n` bytes are left behind it.
pub record Starts (front : List ℕ) (n : ℕ) (block : List ℕ) : Type 0 where
  pub back : List ℕ
  pub split : block ≡ front ++ back
  pub size : length back ≡ n

short_start :
    (block : List ℕ) (first n : ℕ)
    → length block ≡ 2 + n
    → Gives (short_header block first n) (Starts (first ∷ (n % 256) ∷ []) n)
unfolding short_header
short_start [] first n e = absurd (omega arith)
short_start (a ∷ []) first n e = absurd (omega arith)
short_start (a ∷ b ∷ rest) first n e =
    rw
      (
        store_at (a ∷ []) (b ∷ []) rest ((n % 256) ∷ []) {i = 1} refl refl refl,
        store_at [] (a ∷ []) ((n % 256) ∷ rest) (first ∷ []) {i = 0} refl refl refl,
      )
      (record { back = rest; split = refl; size = omega arith })

long_start :
    (block : List ℕ) (first mark n : ℕ)
    → length block ≡ 4 + n
    → Gives
        (long_header block first mark n)
        (Starts (first ∷ mark ∷ (n / 2 ^ 8 % 256) ∷ (n % 256) ∷ []) n)
unfolding long_header
long_start (a ∷ b ∷ c ∷ d ∷ rest) first mark n e =
    let size_bytes = mark ∷ (n / 2 ^ 8 % 256) ∷ (n % 256) ∷ [] in
    rw
      (
        store_at (a ∷ []) (b ∷ c ∷ d ∷ []) rest size_bytes {i = 1} refl refl refl,
        store_at [] (a ∷ []) (size_bytes ++ rest) (first ∷ []) {i = 0} refl refl refl,
      )
      (record { back = rest; split = refl; size = omega arith })
long_start [] first mark n e = absurd (omega arith)
long_start (a ∷ []) first mark n e = absurd (omega arith)
long_start (a ∷ b ∷ []) first mark n e = absurd (omega arith)
long_start (a ∷ b ∷ c ∷ []) first mark n e = absurd (omega arith)

pub final_block_lem :
    (memory : Memory) (first n : ℕ)
    → Gives (final_block memory first n) (Starts (header_bytes first 126 n) n)
unfolding final_block
final_block_lem memory first n = elim (lt_cases n 126) [
  | inl p ↦ rw (lt→ltb _ _ p) (short_start _ first n (memory.length-malloc (2 + n)))
  | inr p ↦ rw (le→ltb _ _ p) (long_start _ first 126 n (memory.length-malloc (4 + n)))
]

pub middle_block_lem :
    (memory : Memory) (mark j opcode : ℕ)
    → Gives
        (middle_block memory mark j opcode)
        (Starts (header_bytes (if j == 0 then opcode else 0) mark 0xffff) 0xffff)
unfolding middle_block
middle_block_lem memory mark j opcode =
    long_start _ (if j == 0 then opcode else 0) mark 0xffff (memory.length-malloc (4 + 0xffff))
