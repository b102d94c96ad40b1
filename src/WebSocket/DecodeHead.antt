-- ===== src/WebSocket/DecodeHead.antt =====
-- `decode_head` reads the head that the first bytes of a queue spell, and moves nothing.
use frog_game_framework.Base.{
  ap, ◌∙◌, ◌^◌, bit_or_comm, ne→==, ℕ, ◌+◌, ◌*◌, ◌/◌, ◌%◌, ◌<◌, ◌≡◌, refl, bit_and, bit_or, true,
  List, [], ◌∷◌, none, some, ltb, ◌==◌, if◌then◌else◌, length, arith, All, IsByte,
  bit_and-low_nibble, bit_and-low_seven, bit_and-top, bit_or_join, all_below, all_below_at, ==_iff,
  lt_cases, lt→ltb, le→ltb, inl, inr, Option,
}
use frog_game_framework.ByteQueue.{ByteQueue}
use frog_game_framework.ByteQueue.View.{Holds}
use frog_game_framework.ByteQueue.Space.{get_bytes_readable-holds}
use frog_game_framework.ByteQueue.Read.{read_bytes_peek}
use frog_game_framework.WebSocket.{HeadResult, opcode_flag, sized_head, decode_head}

-- A kind is a multiple of 16 below 128.
pub opcode_flag_small : (k f : ℕ) → opcode_flag k ≡ some f → (f % 16 ≡ 0) × (f < 128)
unfolding opcode_flag
opcode_flag_small k f e = ground arith

final_table : all_below 8 (λ k. bit_or (k * 16) 0x80 == k * 16 + 128) ≡ true
unfolding all_below
final_table = refl

bit_or-final : (f : ℕ) → f % 16 ≡ 0 → f < 128 → bit_or f 0x80 ≡ f + 128
bit_or-final f e h =
    ap (λ x. bit_or x 0x80) {x = f} {y = f / 16 * 16} (omega arith)
    ∙ (==_iff _ _).0 (all_below_at 8 _ (f / 16) final_table (omega arith))
    ∙ omega arith

-- The flag with the final mark of the first byte.
marked_flag :
    (b0 kind : ℕ)
    → b0 < 256
    → opcode_flag (b0 % 16) ≡ some kind
    → (if bit_and b0 0x80 == 0x80 then bit_or kind 0x80 else kind) ≡ kind + b0 / 128 * 128
marked_flag b0 kind hb e =
    let small = opcode_flag_small (b0 % 16) kind e in
    ground (arith, bit_and-top b0 hb, bit_or-final kind small.0 small.1)

-- The head that the bytes spell.
abbrev pub head_long : ℕ → ℕ → ℕ → List ℕ → HeadResult
head_long written flag b1 (b2 ∷ b3 ∷ body) = sized_head written flag b1 (b2 + b3 * 256) 4
head_long written flag b1 _ = HeadResult.incomplete

abbrev pub head_kind : ℕ → ℕ → ℕ → List ℕ → HeadResult
head_kind written flag b1 body =
    if ltb (b1 % 128) 126
    then sized_head written flag b1 (b1 % 128) 2
    else if ltb 126 (b1 % 128)
    then HeadResult.invalid
    else head_long written flag b1 body

abbrev pub head_opcode : Option ℕ → ℕ → ℕ → ℕ → List ℕ → HeadResult
head_opcode none written b0 b1 body = HeadResult.invalid
head_opcode (some kind) written b0 b1 body = head_kind written (kind + b0 / 128 * 128) b1 body

abbrev pub head_of : List ℕ → HeadResult
head_of (b0 ∷ b1 ∷ body) = head_opcode (opcode_flag (b0 % 16)) (length (b0 ∷ b1 ∷ body)) b0 b1 body
head_of _ = HeadResult.incomplete

short_of_two :
    {q : ByteQueue} (xs : List ℕ)
    → Holds q xs
    → length xs < 2
    → decode_head q ≡ some HeadResult.incomplete
unfolding decode_head
short_of_two xs h p = rw (get_bytes_readable-holds h, lt→ltb _ _ p)

bit_or_swap : (b2 b3 : ℕ) → b2 < 256 → bit_or b2 (b3 * 2 ^ 8) ≡ b2 + b3 * 256
bit_or_swap b2 b3 h = bit_or_comm b2 (b3 * 2 ^ 8) ∙ bit_or_join 8 b3 b2 h ∙ omega arith

module _ {q : ByteQueue} (b0 b1 : ℕ) (body : List ℕ) (h : Holds q (b0 ∷ b1 ∷ body)) (w0 : b0 < 256)
    (w1 : b1 < 256) where
  decode_head_bad : opcode_flag (b0 % 16) ≡ none → decode_head q ≡ some HeadResult.invalid
  unfolding decode_head
  decode_head_bad e = rw (
    get_bytes_readable-holds h,
    le→ltb (length (b0 ∷ b1 ∷ body)) 2 (omega arith),
    read_bytes_peek h 2 (omega arith) (omega arith),
    bit_and-low_nibble b0 w0,
    e,
  )

  module _ (kind : ℕ) (known : opcode_flag (b0 % 16) ≡ some kind) where
    decode_head_short :
        b1 % 128 < 126
        → decode_head q
          ≡ some (sized_head (length (b0 ∷ b1 ∷ body)) (kind + b0 / 128 * 128) b1 (b1 % 128) 2)
    unfolding decode_head
    decode_head_short s = rw (
      get_bytes_readable-holds h,
      le→ltb (length (b0 ∷ b1 ∷ body)) 2 (omega arith),
      read_bytes_peek h 2 (omega arith) (omega arith),
      bit_and-low_nibble b0 w0,
      known,
      marked_flag b0 kind w0 known,
      bit_and-low_seven b1 w1,
      get_bytes_readable-holds h,
      lt→ltb (b1 % 128) 126 s,
    )

    decode_head_far : 126 < b1 % 128 → decode_head q ≡ some HeadResult.invalid
    unfolding decode_head
    decode_head_far s = rw (
      get_bytes_readable-holds h,
      le→ltb (length (b0 ∷ b1 ∷ body)) 2 (omega arith),
      read_bytes_peek h 2 (omega arith) (omega arith),
      bit_and-low_nibble b0 w0,
      known,
      bit_and-low_seven b1 w1,
      le→ltb (b1 % 128) 126 (omega arith),
      ne→== (b1 % 128) 126 (omega arith),
    )

    decode_head_cut : b1 % 128 ≡ 126 → length body < 2 → decode_head q ≡ some HeadResult.incomplete
    unfolding decode_head
    decode_head_cut s c = rw (
      get_bytes_readable-holds h,
      le→ltb (length (b0 ∷ b1 ∷ body)) 2 (omega arith),
      read_bytes_peek h 2 (omega arith) (omega arith),
      bit_and-low_nibble b0 w0,
      known,
      bit_and-low_seven b1 w1,
      s,
      get_bytes_readable-holds h,
      lt→ltb (length (b0 ∷ b1 ∷ body)) 4 (omega arith),
    )

module _ {q : ByteQueue} (b0 b1 b2 b3 : ℕ) (body : List ℕ) (h : Holds q (b0 ∷ b1 ∷ b2 ∷ b3 ∷ body))
    (w0 : b0 < 256) (w1 : b1 < 256) (w2 : b2 < 256) (kind : ℕ)
    (known : opcode_flag (b0 % 16) ≡ some kind) where
  decode_head_long :
      b1 % 128 ≡ 126
      → decode_head q
        ≡ some (
            sized_head
              (length (b0 ∷ b1 ∷ b2 ∷ b3 ∷ body))
              (kind + b0 / 128 * 128)
              b1
              (b2 + b3 * 256)
              4)
  unfolding decode_head
  decode_head_long s = rw (
    get_bytes_readable-holds h,
    le→ltb (length (b0 ∷ b1 ∷ b2 ∷ b3 ∷ body)) 2 (omega arith),
    read_bytes_peek h 2 (omega arith) (omega arith),
    bit_and-low_nibble b0 w0,
    known,
    marked_flag b0 kind w0 known,
    bit_and-low_seven b1 w1,
    s,
    get_bytes_readable-holds h,
    le→ltb (length (b0 ∷ b1 ∷ b2 ∷ b3 ∷ body)) 4 (omega arith),
    read_bytes_peek h 4 (omega arith) (omega arith),
    bit_or_swap b2 b3 w2,
  )

-- The two length bytes, where the second byte asks for them.
long_lem :
    {q : ByteQueue} (b0 b1 : ℕ) (body : List ℕ)
    → Holds q (b0 ∷ b1 ∷ body)
    → All IsByte (b0 ∷ b1 ∷ body)
    → (kind : ℕ) → opcode_flag (b0 % 16) ≡ some kind
    → b1 % 128 ≡ 126
    → decode_head q ≡ some (head_long (length (b0 ∷ b1 ∷ body)) (kind + b0 / 128 * 128) b1 body)
long_lem b0 b1 [] h w kind known s = decode_head_cut b0 b1 [] h w.0 w.1.0 kind known s (omega arith)
long_lem b0 b1 (b2 ∷ []) h w kind known s =
    decode_head_cut b0 b1 (b2 ∷ []) h w.0 w.1.0 kind known s (omega arith)
long_lem b0 b1 (b2 ∷ b3 ∷ body) h w kind known s =
    decode_head_long b0 b1 b2 b3 body h w.0 w.1.0 w.1.1.0 kind known s

kind_lem :
    {q : ByteQueue} (b0 b1 : ℕ) (body : List ℕ)
    → Holds q (b0 ∷ b1 ∷ body)
    → All IsByte (b0 ∷ b1 ∷ body)
    → (kind : ℕ) → opcode_flag (b0 % 16) ≡ some kind
    → decode_head q ≡ some (head_kind (length (b0 ∷ b1 ∷ body)) (kind + b0 / 128 * 128) b1 body)
kind_lem b0 b1 body h w kind known = elim (lt_cases (b1 % 128) 126) [
  | inl s ↦ rw (lt→ltb _ _ s) (decode_head_short b0 b1 body h w.0 w.1.0 kind known s)
  | inr s ↦ rw (le→ltb _ _ s) (elim (lt_cases 126 (b1 % 128)) [
    | inl far ↦ rw (lt→ltb _ _ far) (decode_head_far b0 b1 body h w.0 w.1.0 kind known far)
    | inr near ↦ rw (le→ltb _ _ near) (long_lem b0 b1 body h w kind known (omega arith))
  ])
]

-- `decode_head` never faults, and answers what the bytes spell.
pub decode_head_lem :
    {q : ByteQueue} (xs : List ℕ) → Holds q xs → All IsByte xs → decode_head q ≡ some (head_of xs)
decode_head_lem [] h w = short_of_two [] h (omega arith)
decode_head_lem (b0 ∷ []) h w = short_of_two (b0 ∷ []) h (omega arith)
decode_head_lem {q} (b0 ∷ b1 ∷ body) h w = by_opcode (opcode_flag (b0 % 16)) refl
  where
    by_opcode :
        (o : Option ℕ)
        → opcode_flag (b0 % 16) ≡ o
        → decode_head q ≡ some (head_opcode o (length (b0 ∷ b1 ∷ body)) b0 b1 body)
    by_opcode none e = decode_head_bad b0 b1 body h w.0 w.1.0 e
    by_opcode (some kind) e = kind_lem b0 b1 body h w kind e
