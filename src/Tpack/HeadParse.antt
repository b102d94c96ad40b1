-- ===== src/Tpack/HeadParse.antt =====
-- The head that the first bytes spell, and the packet that the wire format finds there.
use frog_game_framework.Base.{
  ℕ, ◌+◌, ◌*◌, ◌%◌, ◌^◌, ◌≤◌, ◌<◌, ◌≡◌, refl, ap, sym, ◌∙◌, List, [], ◌∷◌, length, drop, arith, All,
  IsByte, lt_cases, lt→ltb, le→ltb, inl, inr, length-drop, length-take, drop-drop,
}
use frog_game_framework.Tpack.{Head, HeadResult, Packet, sized_head}
use frog_game_framework.Tpack.DecodeHead.{head_of, head_long, has_token_lem, marked_flag}
use frog_game_framework.Tpack.Wire.{Parsed, parse_body, parse_long, parse}

-- The head of the packet `p`, with the bytes `rest` behind the packet.
pub record FrameHead (xs : List ℕ) (head : Head) (p : Packet) (rest : List ℕ) : Type 0 where
  pub flag : head.flag ≡ p.flag
  pub size : head.payload_len ≡ length p.payload
  pub byte : p.flag < 256
  pub small : length p.payload < 2 ^ 16
  pub started : 2 ≤ head.offset
  pub head_small : head.offset ≤ 8
  pub room : head.offset + head.payload_len ≤ length xs
  pub behind : rest ≡ drop (head.offset + head.payload_len) xs

pub data Agree (xs : List ℕ) : HeadResult → Parsed → Type 0 where
  short : Agree xs HeadResult.incomplete Parsed.incomplete
  bad : Agree xs HeadResult.invalid Parsed.invalid
  both :
      {head : Head} {p : Packet} {rest : List ℕ}
      → FrameHead xs head p rest
      → Agree xs (HeadResult.decoded head) (Parsed.frame p rest)

module _ (xs : List ℕ) (base : ℕ) (body : List ℕ) (pos : 2 ≤ base) (base_small : base ≤ 4)
    (split : drop base xs ≡ body) (total : length xs ≡ base + length body) (b0 n : ℕ)
    (w0 : b0 < 256) (known : b0 % 16 < 8) (word : n < 2 ^ 16) where
  behind_head : (k : ℕ) → drop n (drop k body) ≡ drop (base + k + n) xs
  behind_head k =
      ap (λ t. drop n (drop k t)) (sym split)
      ∙ ap (drop n) (drop-drop base k (base + k) xs refl)
      ∙ drop-drop (base + k) n (base + k + n) xs refl

  body_agrees : Agree xs (sized_head (length xs) b0 (b0 % 16 * 16) n base) (parse_body b0 n body)
  unfolding sized_head
  body_agrees = elim (lt_cases 2 (b0 % 16)) [
    | inl p ↦
        rw (has_token_lem (b0 % 16) known, lt→ltb _ _ p)
          (elim (lt_cases (length body) (n + 4)) [
            | inl less ↦
                rw (lt→ltb _ _ less, lt→ltb (length xs) (n + (base + 4)) (omega (arith, total)))
                  short
            | inr room ↦
                rw (le→ltb _ _ room, le→ltb (length xs) (n + (base + 4)) (omega (arith, total)))
                  (both (record {
                    flag = marked_flag b0 (b0 % 16) w0 known;
                    size = omega (arith, length-take n (drop 4 body), length-drop 4 body);
                    byte = omega arith;
                    small = omega (arith, length-take n (drop 4 body), length-drop 4 body);
                    head_small = omega arith;
                    started = omega arith;
                    room = omega (arith, total);
                    behind = behind_head 4;
                  }))
          ])
    | inr p ↦
        rw (has_token_lem (b0 % 16) known, le→ltb _ _ p)
          (elim (lt_cases (length body) n) [
            | inl less ↦
                rw (lt→ltb _ _ less, lt→ltb (length xs) (n + base) (omega (arith, total))) short
            | inr room ↦
                rw (le→ltb _ _ room, le→ltb (length xs) (n + base) (omega (arith, total)))
                  (both (record {
                    flag = marked_flag b0 (b0 % 16) w0 known;
                    size = omega (arith, length-take n body);
                    byte = omega arith;
                    small = omega (arith, length-take n body);
                    head_small = omega arith;
                    started = pos;
                    room = omega (arith, total);
                    behind =
                        behind_head 0
                        ∙ ap (λ k. drop (k + n) xs) {x = base + 0} {y = base} (omega arith);
                  }))
          ])
  ]

pub head_of-parse : (xs : List ℕ) → All IsByte xs → Agree xs (head_of xs) (parse xs)
head_of-parse [] w = short
head_of-parse (b0 ∷ []) w = short
head_of-parse (b0 ∷ b1 ∷ body) w = elim (lt_cases 7 (b0 % 16)) [
  | inl p ↦ rw (lt→ltb _ _ p) bad
  | inr p ↦ rw (le→ltb _ _ p) (elim (lt_cases b1 255) [
    | inl s ↦ rw (lt→ltb _ _ s) (
        body_agrees (b0 ∷ b1 ∷ body) 2 body (omega arith) (omega arith) refl (omega arith) b0 b1 w.0
          (omega arith) (omega arith))
    | inr s ↦ rw (le→ltb _ _ s) (long body w (omega arith))
  ])
]
  where
    long :
        (t : List ℕ)
        → All IsByte (b0 ∷ b1 ∷ t)
        → b0 % 16 < 8
        → Agree (b0 ∷ b1 ∷ t) (head_long (length (b0 ∷ b1 ∷ t)) b0 t) (parse_long b0 t)
    long [] v p = short
    long (b2 ∷ []) v p = short
    long (b2 ∷ b3 ∷ t) v p =
        body_agrees (b0 ∷ b1 ∷ b2 ∷ b3 ∷ t) 4 t (omega arith) (omega arith) refl (omega arith) b0
          (b2 * 256 + b3) v.0 p (omega (arith, v.1.1.0, v.1.1.1.0))
