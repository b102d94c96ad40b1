-- ===== src/Tpack/EncodeVec/Joined.antt =====
-- Below 0xffff bytes `encode_vec` sends what `encode` sends for the joined source buffers.
use frog_game_framework.Base.{
  ℕ, ◌+◌, ◌/◌, ◌%◌, ◌^◌, ◌<◌, ◌≡◌, refl, ap, sym, ◌∙◌, bit_or, List, [], ◌∷◌, ◌++◌, flatten, some,
  ltb, arith, if◌then◌else◌, length, ◌>>=◌, lt_cases, eq_cases, inl, inr, lt→ltb, le→ltb, eq→==,
  ne→==, Gives, bind_of_Gives,
}
use frog_game_framework.Memory.{Memory, store, store_at}
use frog_game_framework.Fragments.{copy_all}
use frog_game_framework.Fragments.GatherAll.{copy_all_lem, vec_length_lem}
use frog_game_framework.Tpack.{frame_final}
use frog_game_framework.Tpack.Encode.{
  opcode_of, token_byte_of, token_bytes, short_header, long_header, short_size, long_size, encode,
}
use frog_game_framework.Tpack.Encode.Frame.{token_part, frame_bytes, encode_single_lem}
use frog_game_framework.Tpack.EncodeVec.{vec_final_block, vec_header_size, encode_vec}

-- The block starts with `front`, and `n` bytes are left behind it.
record Starts (front : List ℕ) (n : ℕ) (block : List ℕ) : Type 0 where
  back : List ℕ
  split : block ≡ front ++ back
  size : length back ≡ n

module _ (first token_byte token n : ℕ) where
  short_start :
      (block : List ℕ)
      → length block ≡ short_size token_byte + n
      → Gives
          (short_header block first token_byte token n)
          (Starts (first ∷ (n % 256) ∷ token_part token_byte token) n)
  unfolding short_header
  short_start block e = elim (eq_cases token_byte 0) [
    | inl z ↦ rw (eq→== _ _ z) (plain block (rw (eq→== _ _ z) at e))
    | inr z ↦ rw (ne→== _ _ z) (marked block (rw (ne→== _ _ z) at e))
  ]
    where
      plain :
          (b : List ℕ)
          → length b ≡ 2 + n
          → Gives
              (store b 1 ((n % 256) ∷ []) >>= λ b2. store b2 0 (first ∷ []))
              (Starts (first ∷ (n % 256) ∷ []) n)
      plain [] h = absurd (omega arith)
      plain (x ∷ []) h = absurd (omega arith)
      plain (x ∷ y ∷ rest) h =
          rw
            (
              store_at (x ∷ []) (y ∷ []) rest ((n % 256) ∷ []) {i = 1} refl refl refl,
              store_at [] (x ∷ []) ((n % 256) ∷ rest) (first ∷ []) {i = 0} refl refl refl,
            )
            (record { back = rest; split = refl; size = omega arith })

      marked :
          (b : List ℕ)
          → length b ≡ 6 + n
          → Gives
              (store b 2 (token_bytes token) >>= λ b1.
                store b1 1 ((n % 256) ∷ []) >>= λ b2. store b2 0 (first ∷ []))
              (Starts (first ∷ (n % 256) ∷ token_bytes token) n)
      marked (x ∷ y ∷ t0 ∷ t1 ∷ t2 ∷ t3 ∷ rest) h =
          rw
            (
              store_at (x ∷ y ∷ []) (t0 ∷ t1 ∷ t2 ∷ t3 ∷ []) rest (token_bytes token) {i = 2} refl
                  refl refl,
              store_at (x ∷ []) (y ∷ []) (token_bytes token ++ rest) ((n % 256) ∷ []) {i = 1} refl
                  refl refl,
              store_at [] (x ∷ []) ((n % 256) ∷ (token_bytes token ++ rest)) (first ∷ []) {i = 0}
                  refl refl refl,
            )
            (record { back = rest; split = refl; size = omega arith })
      marked [] h = absurd (omega arith)
      marked (x ∷ []) h = absurd (omega arith)
      marked (x ∷ y ∷ []) h = absurd (omega arith)
      marked (x ∷ y ∷ c ∷ []) h = absurd (omega arith)
      marked (x ∷ y ∷ c ∷ d ∷ []) h = absurd (omega arith)
      marked (x ∷ y ∷ c ∷ d ∷ f ∷ []) h = absurd (omega arith)

  abbrev long_length : List ℕ
  long_length = 0xff ∷ (n / 2 ^ 8 % 256) ∷ (n % 256) ∷ []

  long_start :
      (block : List ℕ)
      → length block ≡ long_size token_byte + n
      → Gives
          (long_header block first token_byte token n)
          (Starts (first ∷ (long_length ++ token_part token_byte token)) n)
  unfolding long_header
  long_start block e = elim (eq_cases token_byte 0) [
    | inl z ↦ rw (eq→== _ _ z) (plain block (rw (eq→== _ _ z) at e))
    | inr z ↦ rw (ne→== _ _ z) (marked block (rw (ne→== _ _ z) at e))
  ]
    where
      plain :
          (b : List ℕ)
          → length b ≡ 4 + n
          → Gives
              (store b 1 long_length >>= λ b2. store b2 0 (first ∷ []))
              (Starts (first ∷ long_length) n)
      plain (x ∷ y ∷ c ∷ d ∷ rest) h =
          rw
            (
              store_at (x ∷ []) (y ∷ c ∷ d ∷ []) rest long_length {i = 1} refl refl refl,
              store_at [] (x ∷ []) (long_length ++ rest) (first ∷ []) {i = 0} refl refl refl,
            )
            (record { back = rest; split = refl; size = omega arith })
      plain [] h = absurd (omega arith)
      plain (x ∷ []) h = absurd (omega arith)
      plain (x ∷ y ∷ []) h = absurd (omega arith)
      plain (x ∷ y ∷ c ∷ []) h = absurd (omega arith)

      marked :
          (b : List ℕ)
          → length b ≡ 8 + n
          → Gives
              (store b 4 (token_bytes token) >>= λ b1.
                store b1 1 long_length >>= λ b2. store b2 0 (first ∷ []))
              (Starts (first ∷ (long_length ++ token_bytes token)) n)
      marked (x ∷ y ∷ c ∷ d ∷ t0 ∷ t1 ∷ t2 ∷ t3 ∷ rest) h =
          rw
            (
              store_at (x ∷ y ∷ c ∷ d ∷ []) (t0 ∷ t1 ∷ t2 ∷ t3 ∷ []) rest (token_bytes token)
                  {i = 4} refl refl refl,
              store_at (x ∷ []) (y ∷ c ∷ d ∷ []) (token_bytes token ++ rest) long_length {i = 1}
                  refl refl refl,
              store_at [] (x ∷ []) (long_length ++ (token_bytes token ++ rest)) (first ∷ []) {i = 0}
                  refl refl refl,
            )
            (record { back = rest; split = refl; size = omega arith })
      marked [] h = absurd (omega arith)
      marked (x ∷ []) h = absurd (omega arith)
      marked (x ∷ y ∷ []) h = absurd (omega arith)
      marked (x ∷ y ∷ c ∷ []) h = absurd (omega arith)
      marked (x ∷ y ∷ c ∷ d ∷ []) h = absurd (omega arith)
      marked (x ∷ y ∷ c ∷ d ∷ f ∷ []) h = absurd (omega arith)
      marked (x ∷ y ∷ c ∷ d ∷ f ∷ g ∷ []) h = absurd (omega arith)
      marked (x ∷ y ∷ c ∷ d ∷ f ∷ g ∷ k ∷ []) h = absurd (omega arith)

-- Everything of a frame before its payload.
abbrev head_bytes : ℕ → ℕ → ℕ → ℕ → List ℕ
head_bytes first token_byte token n =
    if ltb n 0xff
    then first ∷ (n % 256) ∷ token_part token_byte token
    else first ∷ 0xff ∷ (n / 2 ^ 8 % 256) ∷ (n % 256) ∷ token_part token_byte token

length-head_bytes :
    (first token_byte token n : ℕ)
    → vec_header_size n token_byte ≡ length (head_bytes first token_byte token n)
length-head_bytes first token_byte token n = ground arith

head-frame_bytes :
    (first token_byte token : ℕ) (payload : List ℕ)
    → head_bytes first token_byte token (length payload) ++ payload
      ≡ frame_bytes first token_byte token payload
unfolding frame_bytes
head-frame_bytes first token_byte token payload = elim (lt_cases (length payload) 0xff) [
  | inl p ↦ rw (lt→ltb _ _ p) refl
  | inr p ↦ rw (le→ltb _ _ p) refl
]

final_start :
    (memory : Memory) (first token_byte token n : ℕ)
    → Gives
        (vec_final_block memory first n token_byte token)
        (Starts (head_bytes first token_byte token n) n)
unfolding vec_final_block
final_start memory first token_byte token n = elim (lt_cases n 0xff) [
  | inl p ↦ rw (lt→ltb _ _ p) (short_start first token_byte token n _ (memory.length-malloc _))
  | inr p ↦ rw (le→ltb _ _ p) (long_start first token_byte token n _ (memory.length-malloc _))
]

-- For source buffers that hold less than 0xffff bytes together, `encode_vec` does not fault and
-- sends exactly what `encode` sends for the joined buffers, for every flag and token.
pub encode_vec-encode :
    (memory : Memory) (srcs : List (List ℕ)) (flag token : ℕ)
    → length (flatten srcs) < 0xffff
    → (encode_vec memory srcs flag token ≡ encode memory (flatten srcs) flag token)
      × (encode_vec memory srcs flag token
          ≡ some (
              frame_bytes
                (bit_or (opcode_of flag) frame_final)
                (token_byte_of flag)
                token
                (flatten srcs)
              ∷ []))
unfolding encode_vec encode
encode_vec-encode memory srcs flag token small = (vec ∙ sym whole, vec)
  where
    payload : List ℕ
    payload = flatten srcs

    first : ℕ
    first = bit_or (opcode_of flag) frame_final

    sent : List (List ℕ)
    sent = frame_bytes first (token_byte_of flag) token payload ∷ []

    whole : encode memory payload flag token ≡ some sent
    whole =
        rw
          (
            eq→== ((length payload / 0xffff + 1) % 2 ^ 32) 1 (omega arith),
            encode_single_lem memory payload (opcode_of flag) (token_byte_of flag) token,
          )
          refl

    filled :
        {b : List ℕ}
        → Starts (head_bytes first (token_byte_of flag) token (length payload)) (length payload) b
        → copy_all srcs b (vec_header_size (length payload) (token_byte_of flag))
          ≡ some (frame_bytes first (token_byte_of flag) token payload)
    filled {b} s =
        copy_all_lem srcs (head_bytes first (token_byte_of flag) token (length payload)) s.back b _
          s.split (length-head_bytes first (token_byte_of flag) token (length payload))
          (s.size ∙ sym (vec_length_lem srcs))
        ∙ ap some (head-frame_bytes first (token_byte_of flag) token payload)

    vec : encode_vec memory srcs flag token ≡ some sent
    vec =
        rw (vec_length_lem srcs, eq→== ((length payload / 0xffff + 1) % 2 ^ 32) 1 (omega arith))
          (bind_of_Gives (vec_final_block memory first (length payload) (token_byte_of flag) token)
            _ (final_start memory first (token_byte_of flag) token (length payload))
            (λ b s. ap (λ m. m >>= λ r. some (r ∷ [])) (filled s)))
