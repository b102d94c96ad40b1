-- ===== src/WebSocket/Decode.antt =====
-- `decode` on a valid queue implements the wire format of web socket frames: it never faults,
-- answers what `parse` finds at the front of the readable bytes, and consumes exactly a complete
-- frame.
use frog_game_framework.Base.{
  ℕ, ◌+◌, ◌*◌, ◌/◌, ◌%◌, ◌≤◌, ◌<◌, ◌≡◌, refl, ap, sym, ◌∙◌, subst, List, [], ◌∷◌, Option, none,
  some, length, take, drop, arith, All, IsByte, bit_and-top, lt_cases, lt→ltb, le→ltb, ne→==, eq→==,
  inl, inr, Gives, Gives_bind, Gives_map, drop-drop,
}
use frog_game_framework.ByteQueue.{ByteQueue}
use frog_game_framework.ByteQueue.View.{
  Holds, IsValid, contents, IsValid-holds, holds-IsValid, contents_of_holds,
}
use frog_game_framework.WebSocket.{
  Head, HeadResult, DecodeResult, opcode_flag, sized_head, take_mask, take_payload, take_frame,
  decode,
}
use frog_game_framework.WebSocket.Wire.{
  Parsed, unmasked, parse_body, parse_long, parse_kind, parse_opcode, parse, outcome,
}
use frog_game_framework.WebSocket.DecodeHead.{
  head_of, head_opcode, head_long, head_kind, decode_head_lem,
}
use frog_game_framework.WebSocket.Body.{skip_mask, skip_head, plain_payload, body_payload}

-- What `decode` promises for a parse of the bytes `xs`.
abbrev pub Answers : Parsed → List ℕ → DecodeResult × ByteQueue → Type 0
Answers p xs r = (r.0 ≡ (outcome p xs).0) × Holds r.1 (outcome p xs).1

-- What `decode` does with the result of `decode_head`.
abbrev pub continue : ByteQueue → HeadResult → Option (DecodeResult × ByteQueue)
continue q r = elim r [
  | HeadResult.incomplete ↦ some (DecodeResult.incomplete, q)
  | HeadResult.invalid ↦ some (DecodeResult.invalid, q)
  | HeadResult.decoded head ↦ take_frame q head
]

-- The body begins `base` bytes into the readable bytes.
module _ {q : ByteQueue} {xs : List ℕ} (h : Holds q xs) (base : ℕ) (body : List ℕ) (pos : 0 < base)
    (small : base ≤ 4) (split : drop base xs ≡ body) (total : length xs ≡ base + length body)
    (flag n : ℕ) where
  abbrev head_at : ℕ → Head
  head_at offset = record { payload_len = n; flag = flag; offset = offset }

  behind_mask : drop (base + 4) xs ≡ drop 4 body
  behind_mask = sym (drop-drop base 4 (base + 4) xs refl) ∙ ap (drop 4) split

  with_mask :
      n + 4 ≤ length body
      → Gives (take_frame q (head_at (base + 4))) (
          Answers
            (Parsed.frame
              (record { payload = unmasked n body; flag = flag })
              (drop n (drop 4 body)))
            xs)
  unfolding take_frame
  with_mask room =
      Gives_bind (take_mask q (base + 4)) _ _ (skip_mask h base pos (omega (arith, total))) (λ m s.
        Gives_bind (take_payload m.1 n (base + 4) m.0) _ _
          (body_payload n (base + 4) m.0 body (omega arith) room (s.0 ∙ ap (take 4) split)
            (subst (Holds m.1) behind_mask s.1))
          (λ r t. (ap (λ p. DecodeResult.frame (record { payload = p; flag = flag })) t.0, t.1)))

  without_mask :
      n ≤ length body
      → Gives
          (take_frame q (head_at base))
          (Answers (Parsed.frame (record { payload = take n body; flag = flag }) (drop n body)) xs)
  unfolding take_frame
  without_mask room =
      Gives_bind (take_mask q base) _ _ (skip_head h base small (omega (arith, total))) (λ m s.
        Gives_bind (take_payload m.1 n base m.0) _ _
          (plain_payload (subst (Holds m.1) split s) n base m.0 small room)
          (λ r t. (ap (λ p. DecodeResult.frame (record { payload = p; flag = flag })) t.0, t.1)))

  pub body_lem :
      (b1 : ℕ)
      → b1 < 256
      → Gives
          (continue q (sized_head (length xs) flag b1 n base))
          (Answers (parse_body flag b1 n body) xs)
  unfolding sized_head
  body_lem b1 w1 = elim (lt_cases 127 b1) [
    | inl p ↦
        rw (lt→ltb _ _ p, bit_and-top b1 w1, eq→== (b1 / 128 * 128) 0x80 (omega arith))
          (elim (lt_cases (length body) (n + 4)) [
            | inl less ↦
                rw (lt→ltb _ _ less, lt→ltb (length xs) (n + (base + 4)) (omega (arith, total)))
                  (refl, h)
            | inr room ↦
                rw (le→ltb _ _ room, le→ltb (length xs) (n + (base + 4)) (omega (arith, total)))
                  (with_mask room)
          ])
    | inr p ↦
        rw (le→ltb _ _ p, bit_and-top b1 w1, ne→== (b1 / 128 * 128) 0x80 (λ e. omega arith))
          (elim (lt_cases (length body) n) [
            | inl less ↦
                rw (lt→ltb _ _ less, lt→ltb (length xs) (n + base) (omega (arith, total))) (refl, h)
            | inr room ↦
                rw (le→ltb _ _ room, le→ltb (length xs) (n + base) (omega (arith, total)))
                  (without_mask room)
          ])
  ]

long_answer :
    {q : ByteQueue} (b0 b1 flag : ℕ) (body : List ℕ)
    → Holds q (b0 ∷ b1 ∷ body)
    → b1 < 256
    → Gives
        (continue q (head_long (length (b0 ∷ b1 ∷ body)) flag b1 body))
        (Answers (parse_long flag b1 body) (b0 ∷ b1 ∷ body))
long_answer b0 b1 flag [] h w = (refl, h)
long_answer b0 b1 flag (b2 ∷ []) h w = (refl, h)
long_answer b0 b1 flag (b2 ∷ b3 ∷ body) h w =
    body_lem h 4 body (omega arith) (omega arith) refl (omega arith) flag (b2 + b3 * 256) b1 w

kind_answer :
    {q : ByteQueue} (b0 b1 flag : ℕ) (body : List ℕ)
    → Holds q (b0 ∷ b1 ∷ body)
    → b1 < 256
    → Gives
        (continue q (head_kind (length (b0 ∷ b1 ∷ body)) flag b1 body))
        (Answers (parse_kind flag b1 body) (b0 ∷ b1 ∷ body))
kind_answer b0 b1 flag body h w = elim (lt_cases (b1 % 128) 126) [
  | inl s ↦
      rw (lt→ltb _ _ s)
        (body_lem h 2 body (omega arith) (omega arith) refl (omega arith) flag (b1 % 128) b1 w)
  | inr s ↦ rw (le→ltb _ _ s) (elim (lt_cases 126 (b1 % 128)) [
    | inl far ↦ rw (lt→ltb _ _ far) (refl, h)
    | inr near ↦ rw (le→ltb _ _ near) (long_answer b0 b1 flag body h w)
  ])
]

pub holds_answer :
    {q : ByteQueue} (xs : List ℕ) (h : Holds q xs)
    → All IsByte xs
    → Gives (continue q (head_of xs)) (Answers (parse xs) xs)
holds_answer [] h w = (refl, h)
holds_answer (b0 ∷ []) h w = (refl, h)
holds_answer {q} (b0 ∷ b1 ∷ body) h w = by_opcode (opcode_flag (b0 % 16))
  where
    by_opcode :
        (o : Option ℕ)
        → Gives
            (continue q (head_opcode o (length (b0 ∷ b1 ∷ body)) b0 b1 body))
            (Answers (parse_opcode o b0 b1 body) (b0 ∷ b1 ∷ body))
    by_opcode none = (refl, h)
    by_opcode (some kind) = kind_answer b0 b1 (kind + b0 / 128 * 128) body h w.1.0

-- What `decode` promises: the answer and the bytes that stay are those of the wire format.
pub record Decodes (xs : List ℕ) (r : DecodeResult × ByteQueue) : Type 0 where
  pub answer : r.0 ≡ (outcome (parse xs) xs).0
  pub rest : contents r.1 ≡ (outcome (parse xs) xs).1
  pub valid : IsValid r.1

-- `decode` on a valid queue of bytes never faults and does what the wire format says.
pub decode_frame-Decodes :
    {q : ByteQueue} → IsValid q → All IsByte (contents q) → Gives (decode q) (Decodes (contents q))
unfolding decode
decode_frame-Decodes {q} v w = rw (decode_head_lem (contents q) (IsValid-holds v) w) (
    Gives_map (continue q (head_of (contents q))) (holds_answer (contents q) (IsValid-holds v) w)
      (λ r a. record { answer = a.0; rest = contents_of_holds a.1; valid = holds-IsValid a.1 }))
