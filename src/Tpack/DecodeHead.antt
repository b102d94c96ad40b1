-- ===== src/Tpack/DecodeHead.antt =====
-- `decode_head` reads the head that the first bytes of a queue spell, and moves nothing.
use frog_game_framework.Base.{
  ℕ, ◌+◌, ◌*◌, ◌/◌, ◌%◌, ◌≤◌, ◌<◌, ◌≡◌, refl, bit_and, bit_or, true, List, [], ◌∷◌, none, some, ltb,
  ◌==◌, if◌then◌else◌, length, arith, All, IsByte, bit_and-low_nibble, bit_and-top, bit_or_join,
  all_below, all_below_at, ==_iff, lt_cases, lt→ltb, le→ltb, inl, inr,
}
use frog_game_framework.ByteQueue.{ByteQueue}
use frog_game_framework.ByteQueue.View.{Holds}
use frog_game_framework.ByteQueue.Space.{get_bytes_readable-holds}
use frog_game_framework.ByteQueue.Read.{read_bytes_peek}
use frog_game_framework.Tpack.{HeadResult, opcode_flag, has_token, sized_head, decode_head}

opcode_flag_known : (k : ℕ) → k < 8 → opcode_flag k ≡ some (k * 16)
unfolding opcode_flag
opcode_flag_known k h = ground arith

opcode_flag_unknown : (k : ℕ) → 7 < k → opcode_flag k ≡ none
unfolding opcode_flag
opcode_flag_unknown k h = ground arith

pub has_token_lem : (k : ℕ) → k < 8 → has_token (k * 16) ≡ ltb 2 k
unfolding has_token
has_token_lem k h = ground arith

final_table : all_below 8 (λ k. bit_or (k * 16) 0x80 == k * 16 + 128) ≡ true
unfolding all_below
final_table = refl

-- The flag with the final mark of the first byte.
pub marked_flag :
    (b0 k : ℕ)
    → b0 < 256
    → k < 8
    → (if bit_and b0 0x80 == 0x80 then bit_or (k * 16) 0x80 else k * 16) ≡ k * 16 + b0 / 128 * 128
marked_flag b0 k hb hk =
    ground (arith, bit_and-top b0 hb, (==_iff _ _).0 (all_below_at 8 _ k final_table hk))

-- The head that the bytes spell.
abbrev pub head_long : ℕ → ℕ → List ℕ → HeadResult
head_long written b0 (b2 ∷ b3 ∷ body) = sized_head written b0 (b0 % 16 * 16) (b2 * 256 + b3) 4
head_long written b0 _ = HeadResult.incomplete

abbrev pub head_of : List ℕ → HeadResult
head_of (b0 ∷ b1 ∷ body) =
    let written = length (b0 ∷ b1 ∷ body) in
    if ltb 7 (b0 % 16)
    then HeadResult.invalid
    else if ltb b1 255
    then sized_head written b0 (b0 % 16 * 16) b1 2
    else head_long written b0 body
head_of _ = HeadResult.incomplete

short_of_two :
    {q : ByteQueue} (xs : List ℕ)
    → Holds q xs
    → length xs < 2
    → decode_head q ≡ some HeadResult.incomplete
unfolding decode_head
short_of_two xs h p = rw (get_bytes_readable-holds h, lt→ltb _ _ p)

module _ {q : ByteQueue} (b0 b1 : ℕ) (body : List ℕ) (h : Holds q (b0 ∷ b1 ∷ body))
    (w0 : b0 < 256) where
  decode_head_bad : 7 < b0 % 16 → decode_head q ≡ some HeadResult.invalid
  unfolding decode_head
  decode_head_bad p = rw (
    get_bytes_readable-holds h,
    le→ltb (length (b0 ∷ b1 ∷ body)) 2 (omega arith),
    read_bytes_peek h 2 (omega arith) (omega arith),
    bit_and-low_nibble b0 w0,
    opcode_flag_unknown (b0 % 16) p,
  )

  decode_head_short :
      b0 % 16 ≤ 7
      → b1 < 255
      → decode_head q ≡ some (sized_head (length (b0 ∷ b1 ∷ body)) b0 (b0 % 16 * 16) b1 2)
  unfolding decode_head
  decode_head_short p s = rw (
    get_bytes_readable-holds h,
    le→ltb (length (b0 ∷ b1 ∷ body)) 2 (omega arith),
    read_bytes_peek h 2 (omega arith) (omega arith),
    bit_and-low_nibble b0 w0,
    opcode_flag_known (b0 % 16) (omega arith),
    get_bytes_readable-holds h,
    lt→ltb b1 255 s,
  )

  decode_head_cut :
      b0 % 16 ≤ 7 → 255 ≤ b1 → length body < 2 → decode_head q ≡ some HeadResult.incomplete
  unfolding decode_head
  decode_head_cut p s c = rw (
    get_bytes_readable-holds h,
    le→ltb (length (b0 ∷ b1 ∷ body)) 2 (omega arith),
    read_bytes_peek h 2 (omega arith) (omega arith),
    bit_and-low_nibble b0 w0,
    opcode_flag_known (b0 % 16) (omega arith),
    get_bytes_readable-holds h,
    le→ltb b1 255 s,
    lt→ltb (length (b0 ∷ b1 ∷ body)) 4 (omega arith),
  )

module _ {q : ByteQueue} (b0 b1 b2 b3 : ℕ) (body : List ℕ) (h : Holds q (b0 ∷ b1 ∷ b2 ∷ b3 ∷ body))
    (w0 : b0 < 256) (w3 : b3 < 256) where
  decode_head_long :
      b0 % 16 ≤ 7
      → 255 ≤ b1
      → decode_head q
        ≡ some (sized_head (length (b0 ∷ b1 ∷ b2 ∷ b3 ∷ body)) b0 (b0 % 16 * 16) (b2 * 256 + b3) 4)
  unfolding decode_head
  decode_head_long p s = rw (
    get_bytes_readable-holds h,
    le→ltb (length (b0 ∷ b1 ∷ b2 ∷ b3 ∷ body)) 2 (omega arith),
    read_bytes_peek h 2 (omega arith) (omega arith),
    bit_and-low_nibble b0 w0,
    opcode_flag_known (b0 % 16) (omega arith),
    get_bytes_readable-holds h,
    le→ltb b1 255 s,
    le→ltb (length (b0 ∷ b1 ∷ b2 ∷ b3 ∷ body)) 4 (omega arith),
    read_bytes_peek h 4 (omega arith) (omega arith),
    bit_or_join 8 b2 b3 w3,
  )

-- `decode_head` never faults, and answers what the bytes spell.
pub decode_head_lem :
    {q : ByteQueue} (xs : List ℕ) → Holds q xs → All IsByte xs → decode_head q ≡ some (head_of xs)
decode_head_lem [] h w = short_of_two [] h (omega arith)
decode_head_lem (b0 ∷ []) h w = short_of_two (b0 ∷ []) h (omega arith)
decode_head_lem (b0 ∷ b1 ∷ []) h w = elim (lt_cases 7 (b0 % 16)) [
  | inl p ↦ rw (lt→ltb _ _ p) (decode_head_bad b0 b1 [] h w.0 p)
  | inr p ↦ rw (le→ltb _ _ p) (elim (lt_cases b1 255) [
    | inl s ↦ rw (lt→ltb _ _ s) (decode_head_short b0 b1 [] h w.0 p s)
    | inr s ↦ rw (le→ltb _ _ s) (decode_head_cut b0 b1 [] h w.0 p s (omega arith))
  ])
]
decode_head_lem (b0 ∷ b1 ∷ b2 ∷ []) h w = elim (lt_cases 7 (b0 % 16)) [
  | inl p ↦ rw (lt→ltb _ _ p) (decode_head_bad b0 b1 (b2 ∷ []) h w.0 p)
  | inr p ↦ rw (le→ltb _ _ p) (elim (lt_cases b1 255) [
    | inl s ↦ rw (lt→ltb _ _ s) (decode_head_short b0 b1 (b2 ∷ []) h w.0 p s)
    | inr s ↦ rw (le→ltb _ _ s) (decode_head_cut b0 b1 (b2 ∷ []) h w.0 p s (omega arith))
  ])
]
decode_head_lem (b0 ∷ b1 ∷ b2 ∷ b3 ∷ body) h w = elim (lt_cases 7 (b0 % 16)) [
  | inl p ↦ rw (lt→ltb _ _ p) (decode_head_bad b0 b1 (b2 ∷ b3 ∷ body) h w.0 p)
  | inr p ↦ rw (le→ltb _ _ p) (elim (lt_cases b1 255) [
    | inl s ↦ rw (lt→ltb _ _ s) (decode_head_short b0 b1 (b2 ∷ b3 ∷ body) h w.0 p s)
    | inr s ↦ rw (le→ltb _ _ s) (decode_head_long b0 b1 b2 b3 body h w.0 w.1.1.1.0 p s)
  ])
]
