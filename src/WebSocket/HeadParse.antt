-- ===== src/WebSocket/HeadParse.antt =====
-- The head that the first bytes spell, and the frame that the parser finds there.
use frog_game_framework.Base.{
  ℕ, suc, ◌+◌, ◌*◌, ◌/◌, ◌%◌, ◌^◌, ◌≤◌, ◌<◌, ◌≡◌, refl, ap, sym, ◌∙◌, List, [], ◌∷◌, Option, none,
  some, length, take, drop, arith, All, IsByte, lt_cases, eq→==, ne→==, lt→ltb, le→ltb, inl, inr,
  length-take, drop-drop, bit_and-top,
}
use frog_game_framework.WebSocket.{Head, HeadResult, Frame, sized_head, opcode_flag}
use frog_game_framework.WebSocket.DecodeHead.{
  opcode_flag_small, head_of, head_opcode, head_kind, head_long,
}
use frog_game_framework.WebSocket.Wire.{
  Parsed, masked_by, unmasked, parse_body, parse_long, parse_kind, parse_opcode, parse,
}

-- The head of the frame `p`, with the bytes `rest` behind the frame.
pub record FrameHead (xs : List ℕ) (head : Head) (p : Frame) (rest : List ℕ) : Type 0 where
  pub flag : head.flag ≡ p.flag
  pub size : head.payload_len ≡ length p.payload
  pub byte : p.flag < 256
  pub small : length p.payload < 2 ^ 16
  pub started : 2 ≤ head.offset
  pub head_small : head.offset ≤ 8
  pub room : head.offset + head.payload_len ≤ length xs
  pub behind : rest ≡ drop (head.offset + head.payload_len) xs

pub data Agree (xs : List ℕ) : HeadResult → Parsed → Type 0 where
  short : Agree xs HeadResult.incomplete Parsed.incomplete
  bad : Agree xs HeadResult.invalid Parsed.invalid
  both :
      {head : Head} {p : Frame} {rest : List ℕ}
      → FrameHead xs head p rest
      → Agree xs (HeadResult.decoded head) (Parsed.frame p rest)

length-masked_by : (a b c d : ℕ) (xs : List ℕ) → length (masked_by a b c d xs) ≡ length xs
length-masked_by a b c d [] = refl
length-masked_by a b c d (x ∷ xs) = ap suc (length-masked_by b c d a xs)

length-unmasked : (n : ℕ) (body : List ℕ) → n + 4 ≤ length body → length (unmasked n body) ≡ n
length-unmasked n [] h = absurd (omega arith)
length-unmasked n (a ∷ []) h = absurd (omega arith)
length-unmasked n (a ∷ b ∷ []) h = absurd (omega arith)
length-unmasked n (a ∷ b ∷ c ∷ []) h = absurd (omega arith)
length-unmasked n (a ∷ b ∷ c ∷ d ∷ xs) h =
    length-masked_by a b c d (take n xs) ∙ omega (arith, length-take n xs)

module _ (xs : List ℕ) (base : ℕ) (body : List ℕ) (pos : 2 ≤ base) (base_small : base ≤ 4)
    (split : drop base xs ≡ body) (total : length xs ≡ base + length body) (flag n b1 : ℕ)
    (w1 : b1 < 256) (flag_byte : flag < 256) (word : n < 2 ^ 16) where
  behind_head : (k : ℕ) → drop n (drop k body) ≡ drop (base + k + n) xs
  behind_head k =
      ap (λ t. drop n (drop k t)) (sym split)
      ∙ ap (drop n) (drop-drop base k (base + k) xs refl)
      ∙ drop-drop (base + k) n (base + k + n) xs refl

  body_agrees : Agree xs (sized_head (length xs) flag b1 n base) (parse_body flag b1 n body)
  unfolding sized_head
  body_agrees = elim (lt_cases 127 b1) [
    | inl p ↦
        rw (lt→ltb _ _ p, bit_and-top b1 w1, eq→== (b1 / 128 * 128) 0x80 (omega arith))
          (elim (lt_cases (length body) (n + 4)) [
            | inl less ↦
                rw (lt→ltb _ _ less, lt→ltb (length xs) (n + (base + 4)) (omega (arith, total)))
                  short
            | inr room ↦
                rw (le→ltb _ _ room, le→ltb (length xs) (n + (base + 4)) (omega (arith, total)))
                  (both (record {
                    flag = refl;
                    size = sym (length-unmasked n body room);
                    byte = flag_byte;
                    small = omega (arith, length-unmasked n body room);
                    head_small = omega arith;
                    started = omega arith;
                    room = omega (arith, total);
                    behind = behind_head 4;
                  }))
          ])
    | inr p ↦
        rw (le→ltb _ _ p, bit_and-top b1 w1, ne→== (b1 / 128 * 128) 0x80 (λ e. omega arith))
          (elim (lt_cases (length body) n) [
            | inl less ↦
                rw (lt→ltb _ _ less, lt→ltb (length xs) (n + base) (omega (arith, total))) short
            | inr room ↦
                rw (le→ltb _ _ room, le→ltb (length xs) (n + base) (omega (arith, total)))
                  (both (record {
                    flag = refl;
                    size = omega (arith, length-take n body);
                    byte = flag_byte;
                    small = omega (arith, length-take n body);
                    head_small = omega arith;
                    started = pos;
                    room = omega (arith, total);
                    behind =
                        behind_head 0
                        ∙ ap (λ k. drop (k + n) xs) {x = base + 0} {y = base} (omega arith);
                  }))
          ])
  ]

long_agrees :
    (b0 b1 flag : ℕ) (body : List ℕ)
    → All IsByte (b1 ∷ body)
    → flag < 256
    → Agree
        (b0 ∷ b1 ∷ body)
        (head_long (length (b0 ∷ b1 ∷ body)) flag b1 body)
        (parse_long flag b1 body)
long_agrees b0 b1 flag [] w f = short
long_agrees b0 b1 flag (b2 ∷ []) w f = short
long_agrees b0 b1 flag (b2 ∷ b3 ∷ body) w f =
    body_agrees (b0 ∷ b1 ∷ b2 ∷ b3 ∷ body) 4 body (omega arith) (omega arith) refl (omega arith)
      flag (b2 + b3 * 256) b1 w.0 f (omega (arith, w.1.0, w.1.1.0))

kind_agrees :
    (b0 b1 flag : ℕ) (body : List ℕ)
    → All IsByte (b1 ∷ body)
    → flag < 256
    → Agree
        (b0 ∷ b1 ∷ body)
        (head_kind (length (b0 ∷ b1 ∷ body)) flag b1 body)
        (parse_kind flag b1 body)
kind_agrees b0 b1 flag body w f = elim (lt_cases (b1 % 128) 126) [
  | inl s ↦ rw (lt→ltb _ _ s) (
      body_agrees (b0 ∷ b1 ∷ body) 2 body (omega arith) (omega arith) refl (omega arith) flag
        (b1 % 128) b1 w.0 f (omega arith))
  | inr s ↦ rw (le→ltb _ _ s) (elim (lt_cases 126 (b1 % 128)) [
    | inl far ↦ rw (lt→ltb _ _ far) bad
    | inr near ↦ rw (le→ltb _ _ near) (long_agrees b0 b1 flag body w f)
  ])
]

pub head_of-parse : (xs : List ℕ) → All IsByte xs → Agree xs (head_of xs) (parse xs)
head_of-parse [] w = short
head_of-parse (b0 ∷ []) w = short
head_of-parse (b0 ∷ b1 ∷ body) w = by_opcode (opcode_flag (b0 % 16)) refl
  where
    by_opcode :
        (o : Option ℕ)
        → opcode_flag (b0 % 16) ≡ o
        → Agree
            (b0 ∷ b1 ∷ body)
            (head_opcode o (length (b0 ∷ b1 ∷ body)) b0 b1 body)
            (parse_opcode o b0 b1 body)
    by_opcode none e = bad
    by_opcode (some kind) e =
        kind_agrees b0 b1 (kind + b0 / 128 * 128) body w.1
          (omega (arith, opcode_flag_small (b0 % 16) kind e, w.0))
