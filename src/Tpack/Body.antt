-- ===== src/Tpack/Body.antt =====
-- What decode reads behind a head: the token and the payload.
use frog_game_framework.Base.{
  ℕ, ◌+◌, ◌-◌, ◌*◌, ◌^◌, ◌≤◌, ◌<◌, ◌≡◌, refl, ap₂, bit_or_above, subst, false, List, [], ◌∷◌, some,
  ltb, if◌then◌else◌, ◌>>=◌, length, take, drop, arith, All, All-drop, IsByte, bit_or_join,
  lt_cases, lt→ltb, le→ltb, ne→==, eq_cases, inl, inr, Gives, Gives_bind, length-drop, drop-drop,
}
use frog_game_framework.ByteQueue.{ByteQueue, read_bytes, read_offset}
use frog_game_framework.ByteQueue.View.{Holds}
use frog_game_framework.ByteQueue.Offset.{read_offset-holds}
use frog_game_framework.ByteQueue.Read.{read_bytes_take}
use frog_game_framework.Tpack.{
  Head, Packet, DecodeResult, token_of, take_token, take_payload, take_packet,
}
use frog_game_framework.Tpack.Wire.{word_of}

-- Four bytes joined by shifts and `|` are the number that they stand for.
pub token_of_lem :
    (a b c d : ℕ)
    → a < 256
    → b < 256
    → c < 256
    → d < 256
    → token_of (a ∷ b ∷ c ∷ d ∷ []) ≡ some (word_of (a ∷ b ∷ c ∷ d ∷ []))
unfolding token_of
token_of_lem a b c d ha hb hc hd = rw (
  bit_or_join 24 a (b * 2 ^ 16) (omega arith),
  bit_or_above 16 (a * 256 + b) (a * 2 ^ 24 + b * 2 ^ 16) (c * 2 ^ 8) (omega arith) (omega arith),
  bit_or_above 8 (a * 65536 + b * 256 + c) (a * 2 ^ 24 + b * 2 ^ 16 + c * 2 ^ 8) d (omega arith) hd,
)

word_of-take : (xs : List ℕ) → word_of (take 4 xs) ≡ word_of xs
word_of-take [] = refl
word_of-take (a ∷ []) = refl
word_of-take (a ∷ b ∷ []) = refl
word_of-take (a ∷ b ∷ c ∷ []) = refl
word_of-take (a ∷ b ∷ c ∷ d ∷ xs) = refl

token_of-take :
    (xs : List ℕ) → 4 ≤ length xs → All IsByte xs → token_of (take 4 xs) ≡ some (word_of xs)
token_of-take [] h w = absurd (omega arith)
token_of-take (a ∷ []) h w = absurd (omega arith)
token_of-take (a ∷ b ∷ []) h w = absurd (omega arith)
token_of-take (a ∷ b ∷ c ∷ []) h w = absurd (omega arith)
token_of-take (a ∷ b ∷ c ∷ d ∷ xs) h w = token_of_lem a b c d w.0 w.1.0 w.1.1.0 w.1.1.1.0

module _ {q : ByteQueue} {xs : List ℕ} (h : Holds q xs) where
  abbrev TokenTaken : ℕ → ℕ × ByteQueue → Type 0
  TokenTaken offset r =
      (r.0 ≡ (if ltb 4 offset then word_of (drop (offset - 4) xs) else 0))
      × Holds r.1 (drop offset xs)

  take_token_lem :
      (offset : ℕ)
      → offset ≤ length xs
      → All IsByte xs
      → Gives (take_token q offset) (TokenTaken offset)
  unfolding take_token
  take_token_lem offset room w = elim (lt_cases 4 offset) [
    | inl p ↦ rw (lt→ltb _ _ p) (
        Gives_bind (read_offset q (offset - 4)) _ (TokenTaken offset)
          (read_offset-holds h (offset - 4) (omega arith)) (λ q1 d. after p q1 d.0))
    | inr p ↦ rw (le→ltb _ _ p) (
        Gives_bind (read_offset q offset) _ (TokenTaken offset) (read_offset-holds h offset room)
          (λ q1 d. (rw (le→ltb _ _ p), d.0)))
  ]
    where
      rest : List ℕ
      rest = drop (offset - 4) xs

      after :
          4 < offset
          → (q1 : ByteQueue) → Holds q1 rest
          → Gives
              (read_bytes q1 4 false >>= λ r.
                r.0 >>= λ bytes. token_of bytes >>= λ t. some (t, r.1))
              (TokenTaken offset)
      after p q1 h1 =
          let enough : 4 ≤ length rest = omega (arith, length-drop (offset - 4) xs) in
          Gives_bind (read_bytes q1 4 false) _ (TokenTaken offset)
            (read_bytes_take h1 4 (omega arith) enough)
            (λ r t.
              rw (t.0, token_of-take rest enough (All-drop IsByte (offset - 4) xs w))
                (
                  rw (lt→ltb _ _ p),
                  subst (Holds r.1) (drop-drop (offset - 4) 4 offset xs (omega arith)) t.1,
                ))

  pub take_payload_lem :
      (n : ℕ)
      → n ≤ length xs
      → Gives (take_payload q n) (λ r. (r.0 ≡ take n xs) × Holds r.1 (drop n xs))
  unfolding take_payload
  take_payload_lem n room = elim (eq_cases n 0) [
    | inl e ↦ rw e (refl, h)
    | inr e ↦ rw (ne→== _ _ e) (
        Gives_bind (read_bytes q n false) _ _ (read_bytes_take h n (omega arith) room)
          (λ r t. rw t.0 (refl, t.1)))
  ]

module _ {q : ByteQueue} {xs : List ℕ} (h : Holds q xs) (w : All IsByte xs) where
  abbrev packet_of : Head → Packet
  packet_of head = record {
    payload = take head.payload_len (drop head.offset xs);
    flag = head.flag;
    token = if ltb 4 head.offset then word_of (drop (head.offset - 4) xs) else 0;
  }

  pub take_packet_lem :
      (head : Head)
      → head.payload_len + head.offset ≤ length xs
      → Gives (take_packet q head) (λ r.
        (r.0 ≡ DecodeResult.packet (packet_of head))
        × Holds r.1 (drop head.payload_len (drop head.offset xs)))
  unfolding take_packet
  take_packet_lem head room =
      Gives_bind (take_token q head.offset) _ _ (take_token_lem h head.offset (omega arith) w)
        (λ t p.
          Gives_bind (take_payload t.1 head.payload_len) _ _
            (take_payload_lem p.1 head.payload_len (omega (arith, length-drop head.offset xs)))
            (λ u s. (
              ap₂ (λ a b. DecodeResult.packet (record { payload = a; flag = head.flag; token = b }))
                  s.0 p.0,
              s.1,
            )))
