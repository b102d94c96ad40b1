-- ===== src/Tpack/Decode.antt =====
-- `decode` on a valid queue implements the wire format: it never faults, answers what `parse` finds
-- at the front of the readable bytes, and consumes exactly a complete packet.
use frog_game_framework.Base.{
  ℕ, ◌+◌, ◌-◌, ◌*◌, ◌/◌, ◌%◌, ◌≤◌, ◌<◌, ◌≡◌, refl, ap, sym, ◌∙◌, subst, bit_and, bit_or, List, [],
  ◌∷◌, Option, some, ltb, ◌==◌, if◌then◌else◌, length, take, drop, arith, All, IsByte, lt_cases,
  lt→ltb, le→ltb, inl, inr, Gives, Gives_map, drop-drop,
}
use frog_game_framework.ByteQueue.{ByteQueue}
use frog_game_framework.ByteQueue.View.{
  Holds, IsValid, contents, IsValid-holds, holds-IsValid, contents_of_holds,
}
use frog_game_framework.Tpack.{Head, HeadResult, DecodeResult, sized_head, take_packet, decode}
use frog_game_framework.Tpack.Wire.{Parsed, word_of, parse_body, parse_long, parse, outcome}
use frog_game_framework.Tpack.DecodeHead.{
  head_of, head_long, decode_head_lem, has_token_lem, marked_flag,
}
use frog_game_framework.Tpack.Body.{take_packet_lem}

-- What `decode` promises for a parse of the bytes `xs`.
abbrev pub Answers : Parsed → List ℕ → DecodeResult × ByteQueue → Type 0
Answers p xs r = (r.0 ≡ (outcome p xs).0) × Holds r.1 (outcome p xs).1

-- What `decode` does with the result of `decode_head`.
abbrev pub continue : ByteQueue → HeadResult → Option (DecodeResult × ByteQueue)
continue q r = elim r [
  | HeadResult.incomplete ↦ some (DecodeResult.incomplete, q)
  | HeadResult.invalid ↦ some (DecodeResult.invalid, q)
  | HeadResult.decoded head ↦ take_packet q head
]

-- The body begins `base` bytes into the readable bytes.
module _ {q : ByteQueue} {xs : List ℕ} (h : Holds q xs) (w : All IsByte xs) (base : ℕ)
    (body : List ℕ) (pos : 0 < base) (small : base ≤ 4) (split : drop base xs ≡ body)
    (total : length xs ≡ base + length body) (b0 n : ℕ) (w0 : b0 < 256) (known : b0 % 16 < 8) where
  head_at : ℕ → Head
  head_at offset = record {
    payload_len = n;
    flag = if bit_and b0 0x80 == 0x80 then bit_or (b0 % 16 * 16) 0x80 else b0 % 16 * 16;
    offset = offset;
  }

  flag_at : (head_at base).flag ≡ b0 % 16 * 16 + b0 / 128 * 128
  unfolding head_at
  flag_at = marked_flag b0 (b0 % 16) w0 known

  behind_token : drop (base + 4) xs ≡ drop 4 body
  behind_token = sym (drop-drop base 4 (base + 4) xs refl) ∙ ap (drop 4) split

  token_at : (if ltb 4 (base + 4) then word_of (drop (base + 4 - 4) xs) else 0) ≡ word_of body
  token_at =
      rw (lt→ltb 4 (base + 4) (omega arith)) (
        ap (λ k. word_of (drop k xs)) {x = base + 4 - 4} {y = base} (omega arith)
        ∙ ap word_of split)

  with_token :
      2 < b0 % 16
      → n + 4 ≤ length body
      → Gives (take_packet q (head_at (base + 4))) (Answers (parse_body b0 n body) xs)
  unfolding head_at
  with_token p room =
      rw (lt→ltb _ _ p, le→ltb _ _ room)
        (Gives_map (take_packet q (head_at (base + 4)))
          (take_packet_lem h w (head_at (base + 4)) (omega (arith, total)))
          (λ r a. (
            a.0 ∙ (λ i. DecodeResult.packet (record {
              payload = take n (behind_token i);
              flag = flag_at i;
              token = token_at i;
            })),
            subst (λ t. Holds r.1 (drop n t)) behind_token a.1,
          )))

  without_token :
      b0 % 16 ≤ 2
      → n ≤ length body
      → Gives (take_packet q (head_at base)) (Answers (parse_body b0 n body) xs)
  unfolding head_at
  without_token p room =
      rw (le→ltb _ _ p, le→ltb _ _ room)
        (Gives_map (take_packet q (head_at base))
          (take_packet_lem h w (head_at base) (omega (arith, total)))
          (λ r a. (
            a.0 ∙ (λ i.
                DecodeResult.packet
                  (record { payload = take n (split i); flag = flag_at i; token = no_token i })),
            subst (λ t. Holds r.1 (drop n t)) split a.1,
          )))
    where
      no_token : (if ltb 4 base then word_of (drop (base - 4) xs) else 0) ≡ 0
      no_token = rw (le→ltb 4 base small)

  pub body_lem :
      Gives
        (continue q (sized_head (length xs) b0 (b0 % 16 * 16) n base))
        (Answers (parse_body b0 n body) xs)
  unfolding sized_head head_at
  body_lem = elim (lt_cases 2 (b0 % 16)) [
    | inl p ↦
        rw (has_token_lem (b0 % 16) known, lt→ltb _ _ p)
          (elim (lt_cases (length body) (n + 4)) [
            | inl less ↦
                rw (lt→ltb _ _ less, lt→ltb (length xs) (n + (base + 4)) (omega (arith, total)))
                  (refl, h)
            | inr room ↦
                rw (le→ltb (length xs) (n + (base + 4)) (omega (arith, total)))
                  (rw (lt→ltb _ _ p) at (with_token p room))
          ])
    | inr p ↦
        rw (has_token_lem (b0 % 16) known, le→ltb _ _ p)
          (elim (lt_cases (length body) n) [
            | inl less ↦
                rw (lt→ltb _ _ less, lt→ltb (length xs) (n + base) (omega (arith, total))) (refl, h)
            | inr room ↦
                rw (le→ltb (length xs) (n + base) (omega (arith, total)))
                  (rw (le→ltb _ _ p) at (without_token p room))
          ])
  ]

pub holds_answer :
    {q : ByteQueue} (xs : List ℕ) (h : Holds q xs)
    → All IsByte xs
    → Gives (continue q (head_of xs)) (Answers (parse xs) xs)
holds_answer [] h w = (refl, h)
holds_answer (b0 ∷ []) h w = (refl, h)
holds_answer {q} (b0 ∷ b1 ∷ body) h w = elim (lt_cases 7 (b0 % 16)) [
  | inl p ↦ rw (lt→ltb _ _ p) (refl, h)
  | inr p ↦ rw (le→ltb _ _ p) (elim (lt_cases b1 255) [
    | inl s ↦
        rw (lt→ltb _ _ s) (
          body_lem h w 2 body (omega arith) (omega arith) refl (omega arith) b0 b1 w.0
            (omega arith))
    | inr s ↦ rw (le→ltb _ _ s) (long body h w (omega arith))
  ])
]
  where
    long :
        (t : List ℕ)
        → Holds q (b0 ∷ b1 ∷ t)
        → All IsByte (b0 ∷ b1 ∷ t)
        → b0 % 16 < 8
        → Gives
            (continue q (head_long (length (b0 ∷ b1 ∷ t)) b0 t))
            (Answers (parse_long b0 t) (b0 ∷ b1 ∷ t))
    long [] k v p = (refl, k)
    long (b2 ∷ []) k v p = (refl, k)
    long (b2 ∷ b3 ∷ t) k v p =
        body_lem k v 4 t (omega arith) (omega arith) refl (omega arith) b0 (b2 * 256 + b3) v.0 p

-- What `decode` promises: the answer and the bytes that stay are those of the wire format.
pub record Decodes (xs : List ℕ) (r : DecodeResult × ByteQueue) : Type 0 where
  pub answer : r.0 ≡ (outcome (parse xs) xs).0
  pub rest : contents r.1 ≡ (outcome (parse xs) xs).1
  pub valid : IsValid r.1

-- `decode` on a valid queue of bytes never faults and does what the wire format says.
pub decode-Decodes :
    {q : ByteQueue} → IsValid q → All IsByte (contents q) → Gives (decode q) (Decodes (contents q))
unfolding decode
decode-Decodes {q} v w = rw (decode_head_lem (contents q) (IsValid-holds v) w) (
    Gives_map (continue q (head_of (contents q))) (holds_answer (contents q) (IsValid-holds v) w)
      (λ r a. record { answer = a.0; rest = contents_of_holds a.1; valid = holds-IsValid a.1 }))
