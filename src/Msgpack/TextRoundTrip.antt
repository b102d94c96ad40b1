-- ===== src/Msgpack/TextRoundTrip.antt =====
-- The head and the bytes of a string, as `write_string` stores them, are read back.
use frog_game_framework.Base.{
  ℕ, ◌+◌, ◌*◌, ◌/◌, ◌%◌, ◌^◌, ◌≤◌, ◌<◌, ◌≡◌, refl, ap, ◌∙◌, bit_and, bit_or, List, [], ◌∷◌, ◌++◌,
  Option, some, arith, length, take, lt_cases, inl, inr, lt→ltb, le→ltb, le→leb, lt→leb, ne→==,
  eq→==, length-append, take-append_left, drop-append_left,
}
use frog_game_framework.Memory.{add_size}
use frog_game_framework.Msgpack.{Decoder, advance}
use frog_game_framework.Msgpack.Decode.{text, long_text, string_at, read_string}
use frog_game_framework.Msgpack.Encode.{bytes2, bytes4, string_head}
use frog_game_framework.Msgpack.Words.{
  bit_and-high_three, bit_and-low_five, bit_and-all_bits, string_flag,
}
use frog_game_framework.Msgpack.Ahead.{Ahead, length-ahead, byte_at_lem, load_lem, started}
use frog_game_framework.Msgpack.RoundTrip.{word2_lem, word4_lem, room}

-- A text that is there behind its head.
text_lem :
    {d : Decoder} (head s rest : List ℕ) (base n : ℕ)
    → Ahead d (head ++ (s ++ rest))
    → base ≡ length head
    → n ≡ length s
    → text d base n ≡ some (some s, advance d (base + n))
text_lem {d} head s rest base n a eb en =
    let total = length-ahead a in
    let fits = a.small in
    let sizes = length-append head (s ++ rest) in
    let more = length-append s rest in
    rw
      (
        le→ltb d.length (add_size (add_size d.offset base) n) (omega arith),
        load_lem a base n (omega arith),
      )
      (ap (λ t. some (some t, advance d (base + n)))
        (ap (take n) (drop-append_left base head (s ++ rest) eb) ∙ take-append_left n s rest en))

long_text_lem :
    {d : Decoder} (head s rest : List ℕ) (base : ℕ) {count : Option ℕ}
    → Ahead d (head ++ (s ++ rest))
    → base ≡ length head
    → count ≡ some (length s)
    → long_text d base count ≡ some (some s, advance d (base + length s))
long_text_lem {d} head s rest base a eb ec =
    rw (room a base (omega (arith, length-append head (s ++ rest))), ec)
      (text_lem head s rest base (length s) a eb refl)

-- The reader of strings, from what its switch finds.
read_of :
    {d : Decoder} {flag : ℕ} {xs : List ℕ} {r : Option (Option (List ℕ) × Decoder)}
    → Ahead d (flag ∷ xs)
    → string_at d flag ≡ r
    → read_string d ≡ r
unfolding read_string
read_of a e = rw (started a (omega arith), byte_at_lem a 0) e

module _ (d : Decoder) (s rest : List ℕ) where
  abbrev Spells : List ℕ → Type 0
  Spells head =
      Ahead d (head ++ (s ++ rest))
      → read_string d ≡ some (some s, advance d (length head + length s))

  short_string : length s < 32 → Spells ((0xa0 + length s) ∷ [])
  unfolding string_at
  short_string h a =
      let n = length s in
      let flag = 0xa0 + n in
      let n_of_flag : flag % 32 ≡ n = omega arith in
      read_of a (
        rw
          (
            ne→== flag 0xd9 (λ e. omega arith),
            ne→== flag 0xda (λ e. omega arith),
            ne→== flag 0xdb (λ e. omega arith),
            bit_and-high_three flag (omega arith),
            eq→== (flag / 32 * 32) 0xa0 (omega arith),
            bit_and-low_five flag (omega arith),
            n_of_flag,
          )
          (text_lem (flag ∷ []) s rest 1 n a refl refl))

  byte_string : length s ≤ 0xff → Spells (0xd9 ∷ (length s % 256) ∷ [])
  unfolding string_at
  byte_string h a = read_of a (
      long_text_lem (0xd9 ∷ (length s % 256) ∷ []) s rest 2 a refl
        (byte_at_lem a 1 ∙ ap some {x = length s % 256} {y = length s} (omega arith)))

  two_string : length s ≤ 0xffff → Spells (0xda ∷ bytes2 (length s))
  unfolding string_at
  two_string h a = read_of a (
      long_text_lem (0xda ∷ bytes2 (length s)) s rest 3 a refl (
        word2_lem (length s) 0xda (s ++ rest) a
        ∙ ap some {x = length s % 2 ^ 16} {y = length s} (omega arith)))

  four_string : length s < 2 ^ 32 → Spells (0xdb ∷ bytes4 (length s))
  unfolding string_at
  four_string h a = read_of a (
      long_text_lem (0xdb ∷ bytes4 (length s)) s rest 5 a refl (
        word4_lem (length s) 0xdb (s ++ rest) a
        ∙ ap some {x = length s % 2 ^ 32} {y = length s} (omega arith)))

  short_flag : length s < 32 → bit_or 0xa0 (bit_and (length s) 0xff) ≡ 0xa0 + length s
  short_flag h =
      ap (bit_or 0xa0) (bit_and-all_bits (length s) (omega arith)) ∙ string_flag (length s) h

  -- A string below 2^32 bytes behind the head that `write_string` stores is read back, and the
  -- offset moves behind it.
  pub read_string-string_head : length s < 2 ^ 32 → Spells (string_head (length s))
  unfolding string_head
  read_string-string_head bound = elim (lt_cases (length s) 32) [
    | inl h ↦ rw (lt→ltb _ _ h, short_flag h) (short_string h)
    | inr h1 ↦ rw (le→ltb _ _ h1) (elim (lt_cases 0xff (length s)) [
      | inr h ↦ rw (le→leb _ _ h) (byte_string h)
      | inl h2 ↦ rw (lt→leb _ _ h2) (elim (lt_cases 0xffff (length s)) [
        | inr h ↦ rw (le→leb _ _ h) (two_string h)
        | inl h3 ↦ rw (lt→leb _ _ h3) (four_string bound)
      ])
    ])
  ]
