-- ===== src/Msgpack/RoundTrip.antt =====
-- What the writers store, the readers give back.
use frog_game_framework.Base.{
  ℕ, ◌⊎◌, false, ◌+◌, ◌-◌, ◌*◌, ◌/◌, ◌%◌, ◌^◌, ◌≤◌, ◌<◌, ◌≡◌, refl, ap, ◌∙◌, bit_and, List, [], ◌∷◌,
  ◌++◌, Option, none, some, arith, length, ltb, ◌==◌, if◌then◌else◌, lt_cases, inl, inr, lt→ltb,
  le→ltb, le→leb, lt→leb, ne→==, eq→==, bit_and-top, bit_and-low_seven,
}
use frog_game_framework.Memory.{add_size}
use frog_game_framework.Msgpack.{Decoder, word2_at, word4_at, word8_at, sign_extend, advance}
use frog_game_framework.Msgpack.Decode.{sized, integer_at, answer, read_integer}
use frog_game_framework.Msgpack.Encode.{bytes2, bytes4, bytes8, integer_bytes}
use frog_game_framework.Msgpack.Words.{join2_lem, join4_lem, join8_lem, bit_and-high_three}
use frog_game_framework.Msgpack.Ahead.{Ahead, length-ahead, byte_at_lem, started}

module _ {d : Decoder} (v flag : ℕ) (rest : List ℕ) where
  pub word2_lem : Ahead d (flag ∷ (bytes2 v ++ rest)) → word2_at d ≡ some (v % 2 ^ 16)
  unfolding word2_at
  word2_lem a = rw (byte_at_lem a 1, byte_at_lem a 2) (ap some (join2_lem v))

  pub word4_lem : Ahead d (flag ∷ (bytes4 v ++ rest)) → word4_at d ≡ some (v % 2 ^ 32)
  unfolding word4_at
  word4_lem a =
      rw (byte_at_lem a 1, byte_at_lem a 2, byte_at_lem a 3, byte_at_lem a 4)
        (ap some (join4_lem v))

  word8_lem : v < 2 ^ 64 → Ahead d (flag ∷ (bytes8 v ++ rest)) → word8_at d ≡ some v
  unfolding word8_at
  word8_lem h a =
      rw
        (
          byte_at_lem a 1,
          byte_at_lem a 2,
          byte_at_lem a 3,
          byte_at_lem a 4,
          byte_at_lem a 5,
          byte_at_lem a 6,
          byte_at_lem a 7,
          byte_at_lem a 8,
        )
        (ap some (join8_lem v h))

module _ {d : Decoder} {xs : List ℕ} (a : Ahead d xs) where
  pub room : (n : ℕ) → n ≤ length xs → ltb d.length (add_size d.offset n) ≡ false
  room n h = let total = length-ahead a in let small = a.small in le→ltb _ _ (omega arith)

  sized_lem :
      (n : ℕ) {value : Option ℕ} {v : ℕ}
      → n ≤ length xs
      → value ≡ some v
      → sized d n value ≡ some (some (v, n))
  sized_lem n h e = rw (room n h, e) refl

-- The reader of integers, from what the switch finds.
read_of :
    {d : Decoder} {flag : ℕ} {xs : List ℕ} (found : Option (ℕ × ℕ))
    → Ahead d (flag ∷ xs)
    → integer_at d flag ≡ some found
    → read_integer d ≡ some (answer d found)
unfolding read_integer
read_of found a e = rw (started a (omega arith), byte_at_lem a 0, e) refl

-- A flag that is no byte of its own in the switch.
plain_flag :
    (d : Decoder) (flag : ℕ)
    → flag < 0x80 ⊎ (0xe0 ≤ flag) × (flag < 256)
    → integer_at d flag ≡ (
        if bit_and flag 0x80 == 0
        then some (some (flag, 1))
        else if bit_and flag 0xe0 == 0xe0
        then some (some (sign_extend 8 flag, 1))
        else some none)
unfolding integer_at
plain_flag d flag h = rw (
  ne→== flag 0xcc (λ e. omega arith),
  ne→== flag 0xd0 (λ e. omega arith),
  ne→== flag 0xcd (λ e. omega arith),
  ne→== flag 0xd1 (λ e. omega arith),
  ne→== flag 0xce (λ e. omega arith),
  ne→== flag 0xd2 (λ e. omega arith),
  ne→== flag 0xcf (λ e. omega arith),
  ne→== flag 0xd3 (λ e. omega arith),
)

module _ (d : Decoder) (v : ℕ) (rest : List ℕ) (bound : v < 2 ^ 64) where
  -- The bytes spell `v` to the reader.
  abbrev Spells : List ℕ → Type 0
  Spells bytes = Ahead d (bytes ++ rest) → read_integer d ≡ some (some v, advance d (length bytes))

  small-Spells : v ≤ 127 → Spells (v ∷ [])
  small-Spells h a = read_of (some (v, 1)) a (
      plain_flag d v (inl (omega arith))
      ∙ rw (bit_and-top v (omega arith), eq→== (v / 128 * 128) 0 (omega arith)) refl)

  byte-Spells : v ≤ 0xff → Spells (0xcc ∷ (v % 256) ∷ [])
  unfolding integer_at
  byte-Spells h a =
      read_of (some (v, 2)) a (
        sized_lem a 2 (omega arith) (byte_at_lem a 1 ∙ ap some {x = v % 256} {y = v} (omega arith)))

  two_spell : v ≤ 0xffff → Spells (0xcd ∷ bytes2 v)
  unfolding integer_at
  two_spell h a = read_of (some (v, 3)) a (
      sized_lem a 3 (omega arith)
        (word2_lem v 0xcd rest a ∙ ap some {x = v % 2 ^ 16} {y = v} (omega arith)))

  four_spell : v ≤ 0xffffffff → Spells (0xce ∷ bytes4 v)
  unfolding integer_at
  four_spell h a = read_of (some (v, 5)) a (
      sized_lem a 5 (omega arith)
        (word4_lem v 0xce rest a ∙ ap some {x = v % 2 ^ 32} {y = v} (omega arith)))

  eight_spell : Spells (0xcf ∷ bytes8 v)
  unfolding integer_at
  eight_spell a =
      read_of (some (v, 9)) a (sized_lem a 9 (omega arith) (word8_lem v 0xcf rest bound a))

  small_negative : 2 ^ 64 - 32 ≤ v → Spells ((v % 256) ∷ [])
  unfolding sign_extend
  small_negative h a = read_of (some (v, 1)) a (
      plain_flag d (v % 256) (inr (omega arith, omega arith))
      ∙ rw
          (
            bit_and-top (v % 256) (omega arith),
            ne→== (v % 256 / 128 * 128) 0 (λ e. omega arith),
            bit_and-high_three (v % 256) (omega arith),
            eq→== (v % 256 / 32 * 32) 0xe0 (omega arith),
            le→ltb (v % 256) 128 (omega arith),
          )
          (ap (λ n. some (some (n, 1))) {x = v % 256 + (2 ^ 64 - 2 ^ 8)} {y = v} (omega arith)))

  byte_negative : 2 ^ 64 - 128 ≤ v → Spells (0xd0 ∷ (v % 256) ∷ [])
  unfolding integer_at sign_extend
  byte_negative h a = read_of (some (v, 2)) a (
      sized_lem a 2 (omega arith) (
        rw (byte_at_lem a 1, le→ltb (v % 256) 128 (omega arith))
          (ap some {x = v % 256 + (2 ^ 64 - 2 ^ 8)} {y = v} (omega arith))))

  two_negative : 2 ^ 64 - 32768 ≤ v → Spells (0xd1 ∷ bytes2 v)
  unfolding integer_at sign_extend
  two_negative h a = read_of (some (v, 3)) a (
      sized_lem a 3 (omega arith) (
        rw (word2_lem v 0xd1 rest a, le→ltb (v % 2 ^ 16) (2 ^ 15) (omega arith))
          (ap some {x = v % 2 ^ 16 + (2 ^ 64 - 2 ^ 16)} {y = v} (omega arith))))

  four_negative : 2 ^ 64 - 2147483648 ≤ v → Spells (0xd2 ∷ bytes4 v)
  unfolding integer_at sign_extend
  four_negative h a = read_of (some (v, 5)) a (
      sized_lem a 5 (omega arith) (
        rw (word4_lem v 0xd2 rest a, le→ltb (v % 2 ^ 32) (2 ^ 31) (omega arith))
          (ap some {x = v % 2 ^ 32 + (2 ^ 64 - 2 ^ 32)} {y = v} (omega arith))))

  eight_negative : Spells (0xd3 ∷ bytes8 v)
  unfolding integer_at
  eight_negative a =
      read_of (some (v, 9)) a (sized_lem a 9 (omega arith) (word8_lem v 0xd3 rest bound a))

  small_byte : v ≤ 127 → bit_and v 0x7f ≡ v
  small_byte h = bit_and-low_seven v (omega arith) ∙ omega arith

  positive-Spells : v < 2 ^ 63 → Spells (integer_bytes v)
  unfolding integer_bytes
  positive-Spells p = rw (lt→ltb _ _ p) (elim (lt_cases 127 v) [
    | inr h ↦ rw (le→leb _ _ h, small_byte h) (small-Spells h)
    | inl h1 ↦ rw (lt→leb _ _ h1) (elim (lt_cases 0xff v) [
      | inr h ↦ rw (le→leb _ _ h) (byte-Spells h)
      | inl h2 ↦ rw (lt→leb _ _ h2) (elim (lt_cases 0xffff v) [
        | inr h ↦ rw (le→leb _ _ h) (two_spell h)
        | inl h3 ↦ rw (lt→leb _ _ h3) (elim (lt_cases 0xffffffff v) [
          | inr h ↦ rw (le→leb _ _ h) (four_spell h)
          | inl h4 ↦ rw (lt→leb _ _ h4) eight_spell
        ])
      ])
    ])
  ])

  negative-Spells : 2 ^ 63 ≤ v → Spells (integer_bytes v)
  unfolding integer_bytes
  negative-Spells p = rw (le→ltb _ _ p) (elim (lt_cases v (2 ^ 64 - 32)) [
    | inr h ↦ rw (le→leb _ _ h) (small_negative h)
    | inl h1 ↦ rw (lt→leb _ _ h1) (elim (lt_cases v (2 ^ 64 - 128)) [
      | inr h ↦ rw (le→leb _ _ h) (byte_negative h)
      | inl h2 ↦ rw (lt→leb _ _ h2) (elim (lt_cases v (2 ^ 64 - 32768)) [
        | inr h ↦ rw (le→leb _ _ h) (two_negative h)
        | inl h3 ↦ rw (lt→leb _ _ h3) (elim (lt_cases v (2 ^ 64 - 2147483648)) [
          | inr h ↦ rw (le→leb _ _ h) (four_negative h)
          | inl h4 ↦ rw (lt→leb _ _ h4) eight_negative
        ])
      ])
    ])
  ])

  -- What `write_integer` stores for a word of 64 bits, `read_integer` gives back, and it moves the
  -- offset behind it.
  pub read_integer-integer_bytes :
      Ahead d (integer_bytes v ++ rest)
      → read_integer d ≡ some (some v, advance d (length (integer_bytes v)))
  read_integer-integer_bytes = elim (lt_cases v (2 ^ 63)) [
    | inl p ↦ positive-Spells p
    | inr p ↦ negative-Spells p
  ]
