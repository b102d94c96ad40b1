-- ===== src/Msgpack/ReadBack.antt =====
-- A value is written into an encoder and read back from the bytes written.
use frog_game_framework.Base.{
  ℕ, ◌+◌, ◌^◌, ◌≤◌, ◌<◌, ◌≡◌, refl, ap, sym, ◌∙◌, subst, List, [], ◌++◌, some, arith, length, drop,
  lt_cases, inl, inr, lt→ltb, le→ltb, Gives, Gives_bind, Gives_map, length-take, length-append,
  drop-append_left, append-nil, append_assoc, eq-nil_of_length,
}
use frog_game_framework.Memory.{add_size}
use frog_game_framework.Msgpack.{Decoder, advance}
use frog_game_framework.Msgpack.Decode.{init, read_integer, read_string}
use frog_game_framework.Msgpack.Encode.{
  Expander, Encoder, emit, write_integer, integer_bytes, write_string, string_head,
}
use frog_game_framework.Msgpack.Encode.Written.{IsValid, Writes, written, emit-Writes}
use frog_game_framework.Msgpack.Ahead.{Ahead}
use frog_game_framework.Msgpack.RoundTrip.{read_integer-integer_bytes}
use frog_game_framework.Msgpack.TextRoundTrip.{read_string-string_head}

-- A decoder for the bytes written, from an offset on.
abbrev pub decoder_of : Encoder → ℕ → Decoder
decoder_of e offset = init (written e) e.offset offset

length-written : (e : Encoder) → IsValid e → length (written e) ≡ e.offset
length-written e v = omega (arith, length-take e.offset e.buffer, v.sized, v.inside)

written-Ahead :
    {e r : Encoder} {bytes : List ℕ}
    → IsValid e
    → Writes e bytes r
    → e.offset + length bytes < 2 ^ 63
    → Ahead (decoder_of r e.offset) bytes
unfolding init
written-Ahead {e} {r} {bytes} v w bound = record {
  sized = length-written r w.valid;
  small = omega (arith, w.moved);
  inside = omega (arith, w.moved);
  ahead =
      ap (drop e.offset) w.appended
      ∙ drop-append_left e.offset (written e) bytes (sym (length-written e v));
}

-- The offset of the decoder moves to the end of what is written.
advance_to :
    {e r : Encoder} {bytes : List ℕ} (n : ℕ)
    → Writes e bytes r
    → n ≡ length bytes
    → e.offset + length bytes < 2 ^ 63
    → advance (decoder_of r e.offset) n ≡ decoder_of r r.offset
unfolding init
advance_to {e} {r} {bytes} n w size bound =
    ap (λ k. init (written r) r.offset k) {x = add_size e.offset n} {y = r.offset}
      (omega (arith, w.moved))

length-integer_bytes : (v : ℕ) → length (integer_bytes v) ≤ 9
unfolding integer_bytes
length-integer_bytes v = ground arith

length-string_head : (n : ℕ) → length (string_head n) ≤ 5
unfolding string_head
length-string_head n = ground arith

-- Two writes in a row.
Writes-append :
    {e r1 r2 : Encoder} (xs ys : List ℕ) → Writes e xs r1 → Writes r1 ys r2 → Writes e (xs ++ ys) r2
Writes-append {e} xs ys w1 w2 = record {
  appended = w2.appended ∙ ap (λ t. t ++ ys) w1.appended ∙ append_assoc (written e) xs ys;
  moved = omega (arith, w1.moved, w2.moved, length-append xs ys);
  valid = w2.valid;
}

module _ (expander : Expander) {e : Encoder} (v : IsValid e) where
  -- `write_string` appends the head and the string.
  write_string-Writes :
      (s : List ℕ)
      → e.offset + 5 + length s ≤ 2 ^ 63
      → Gives (write_string expander e s) (Writes e (string_head (length s) ++ s))
  unfolding write_string
  write_string-Writes s bound =
      let head = string_head (length s) in
      let small = length-string_head (length s) in
      Gives_bind (emit expander e head) _ (Writes e (head ++ s))
        (emit-Writes expander head v (omega (arith, small)))
        (λ r w. elim (lt_cases 0 (length s)) [
          | inl p ↦ rw (lt→ltb _ _ p) (
              Gives_map (emit expander r s) {Q = Writes e (head ++ s)}
                (emit-Writes expander s w.valid (omega (arith, small, w.moved)))
                (λ r2 w2. Writes-append head s w w2))
          | inr p ↦ rw (le→ltb _ _ p) (
              subst (λ t. Writes e t r)
                (sym (ap (λ t. head ++ t) (eq-nil_of_length s (omega arith)) ∙ append-nil head)) w)
        ])

  -- `write_integer` of a word of 64 bits on an encoder in order never faults, and from the bytes
  -- that are then written `read_integer` gives the word back, where the encoder's offset was, and
  -- stops at the end. This is for offsets that leave 9 bytes below 2^63.
  pub read_integer-write_integer :
      (n : ℕ)
      → n < 2 ^ 64
      → e.offset + 9 < 2 ^ 63
      → Gives (write_integer expander e n) (λ r.
        (read_integer (decoder_of r e.offset) ≡ some (some n, decoder_of r r.offset)) × IsValid r)
  unfolding write_integer
  read_integer-write_integer n word bound =
      let bytes = integer_bytes n in
      let small = length-integer_bytes n in
      Gives_map (write_integer expander e n) (emit-Writes expander bytes v (omega (arith, small)))
        (λ r w. (
          read_integer-integer_bytes (decoder_of r e.offset) n [] word (
                subst (Ahead (decoder_of r e.offset)) (sym (append-nil bytes))
                  (written-Ahead v w (omega (arith, small))))
              ∙ ap (λ d. some (some n, d))
                  (advance_to (length bytes) w refl (omega (arith, small))),
          w.valid,
        ))

  -- `write_string` of less than 2^32 bytes on an encoder in order never faults, and from the bytes
  -- that are then written `read_string` gives the string back, where the encoder's offset was, and
  -- stops at the end. This is for offsets that leave the string and 5 bytes below 2^63.
  pub read_string-write_string :
      (s : List ℕ)
      → length s < 2 ^ 32
      → e.offset + 5 + length s < 2 ^ 63
      → Gives (write_string expander e s) (λ r.
        (read_string (decoder_of r e.offset) ≡ some (some s, decoder_of r r.offset)) × IsValid r)
  read_string-write_string s size bound =
      let head = string_head (length s) in
      let small = length-string_head (length s) in
      let total = length-append head s in
      Gives_map (write_string expander e s) (write_string-Writes s (omega arith)) (λ r w. (
        read_string-string_head (decoder_of r e.offset) s [] size (
              subst (λ t. Ahead (decoder_of r e.offset) (head ++ t)) (sym (append-nil s))
                (written-Ahead v w (omega (arith, small, total))))
            ∙ ap (λ d. some (some s, d))
                (advance_to (length head + length s) w (sym total) (omega (arith, small, total))),
        w.valid,
      ))
