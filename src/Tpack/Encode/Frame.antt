-- ===== src/Tpack/Encode/Frame.antt =====
-- What one block of the encoder spells, byte by byte, and that the wire format reads it back.
use frog_game_framework.Base.{
  ℕ, ◌+◌, ◌*◌, ◌/◌, ◌%◌, ◌^◌, ◌≤◌, ◌<◌, ◌≡◌, ◌≢◌, refl, ap, ap₂, ◌∙◌, bit_or, List, [], ◌∷◌, ◌++◌,
  some, ltb, ◌==◌, arith, if◌then◌else◌, length, ◌>>=◌, lt_cases, eq_cases, inl, inr, lt→ltb,
  le→ltb, eq→==, ne→==, length-append, take-append_left, drop-append_left,
}
use frog_game_framework.Memory.{Memory, store, store_at, store_end}
use frog_game_framework.Tpack.{Packet, frame_final}
use frog_game_framework.Tpack.Wire.{Parsed, parse, parse_body, word_of}
use frog_game_framework.Tpack.Encode.{
  token_bytes, short_header, long_header, short_size, long_size, encode_single,
}

-- The token's place in a frame.
abbrev pub token_part : ℕ → ℕ → List ℕ
token_part token_byte token = if token_byte == 0 then [] else token_bytes token

-- A frame: its first byte, the length in its short or long form, the token and the payload.
unfoldable pub frame_bytes : ℕ → ℕ → ℕ → List ℕ → List ℕ
frame_bytes first token_byte token payload =
    let n = length payload in
    if ltb n 0xff
    then first ∷ (n % 256) ∷ (token_part token_byte token ++ payload)
    else first ∷ 0xff ∷ (n / 2 ^ 8 % 256) ∷ (n % 256) ∷ (token_part token_byte token ++ payload)

module _ (first token_byte token n : ℕ) (payload : List ℕ) (size : length payload ≡ n) where
  short_plain :
      (block : List ℕ)
      → length block ≡ 2 + n
      → token_byte ≡ 0
      → (short_header block first token_byte token n >>= λ b. store b 2 payload)
        ≡ some (first ∷ (n % 256) ∷ payload)
  unfolding short_header
  short_plain [] e z = absurd (omega arith)
  short_plain (a ∷ []) e z = absurd (omega arith)
  short_plain (a ∷ b ∷ rest) e z = rw (
    z,
    store_at (a ∷ []) (b ∷ []) rest ((n % 256) ∷ []) {i = 1} refl refl refl,
    store_at [] (a ∷ []) ((n % 256) ∷ rest) (first ∷ []) {i = 0} refl refl refl,
    store_end (first ∷ (n % 256) ∷ []) rest payload {i = 2} refl (omega arith),
  )

  short_token :
      (block : List ℕ)
      → length block ≡ 6 + n
      → token_byte ≢ 0
      → (short_header block first token_byte token n >>= λ b. store b 6 payload)
        ≡ some (first ∷ (n % 256) ∷ (token_bytes token ++ payload))
  unfolding short_header
  short_token (a ∷ b ∷ t0 ∷ t1 ∷ t2 ∷ t3 ∷ rest) e z = rw (
    ne→== _ _ z,
    store_at (a ∷ b ∷ []) (t0 ∷ t1 ∷ t2 ∷ t3 ∷ []) rest (token_bytes token) {i = 2} refl refl refl,
    store_at (a ∷ []) (b ∷ []) (token_bytes token ++ rest) ((n % 256) ∷ []) {i = 1} refl refl refl,
    store_at [] (a ∷ []) ((n % 256) ∷ (token_bytes token ++ rest)) (first ∷ []) {i = 0} refl refl
        refl,
    store_end (first ∷ (n % 256) ∷ token_bytes token) rest payload {i = 6} refl (omega arith),
  )
  short_token [] e z = absurd (omega arith)
  short_token (a ∷ []) e z = absurd (omega arith)
  short_token (a ∷ b ∷ []) e z = absurd (omega arith)
  short_token (a ∷ b ∷ c ∷ []) e z = absurd (omega arith)
  short_token (a ∷ b ∷ c ∷ d ∷ []) e z = absurd (omega arith)
  short_token (a ∷ b ∷ c ∷ d ∷ f ∷ []) e z = absurd (omega arith)

  abbrev long_length : List ℕ
  long_length = 0xff ∷ (n / 2 ^ 8 % 256) ∷ (n % 256) ∷ []

  long_plain :
      (block : List ℕ)
      → length block ≡ 4 + n
      → token_byte ≡ 0
      → (long_header block first token_byte token n >>= λ b. store b 4 payload)
        ≡ some (first ∷ (long_length ++ payload))
  unfolding long_header
  long_plain (a ∷ b ∷ c ∷ d ∷ rest) e z = rw (
    z,
    store_at (a ∷ []) (b ∷ c ∷ d ∷ []) rest long_length {i = 1} refl refl refl,
    store_at [] (a ∷ []) (long_length ++ rest) (first ∷ []) {i = 0} refl refl refl,
    store_end (first ∷ long_length) rest payload {i = 4} refl (omega arith),
  )
  long_plain [] e z = absurd (omega arith)
  long_plain (a ∷ []) e z = absurd (omega arith)
  long_plain (a ∷ b ∷ []) e z = absurd (omega arith)
  long_plain (a ∷ b ∷ c ∷ []) e z = absurd (omega arith)

  long_token :
      (block : List ℕ)
      → length block ≡ 8 + n
      → token_byte ≢ 0
      → (long_header block first token_byte token n >>= λ b. store b 8 payload)
        ≡ some (first ∷ (long_length ++ (token_bytes token ++ payload)))
  unfolding long_header
  long_token (a ∷ b ∷ c ∷ d ∷ t0 ∷ t1 ∷ t2 ∷ t3 ∷ rest) e z = rw (
    ne→== _ _ z,
    store_at (a ∷ b ∷ c ∷ d ∷ []) (t0 ∷ t1 ∷ t2 ∷ t3 ∷ []) rest (token_bytes token) {i = 4} refl
        refl refl,
    store_at (a ∷ []) (b ∷ c ∷ d ∷ []) (token_bytes token ++ rest) long_length {i = 1} refl refl
        refl,
    store_at [] (a ∷ []) (long_length ++ (token_bytes token ++ rest)) (first ∷ []) {i = 0} refl refl
        refl,
    store_end (first ∷ (long_length ++ token_bytes token)) rest payload {i = 8} refl (omega arith),
  )
  long_token [] e z = absurd (omega arith)
  long_token (a ∷ []) e z = absurd (omega arith)
  long_token (a ∷ b ∷ []) e z = absurd (omega arith)
  long_token (a ∷ b ∷ c ∷ []) e z = absurd (omega arith)
  long_token (a ∷ b ∷ c ∷ d ∷ []) e z = absurd (omega arith)
  long_token (a ∷ b ∷ c ∷ d ∷ f ∷ []) e z = absurd (omega arith)
  long_token (a ∷ b ∷ c ∷ d ∷ f ∷ g ∷ []) e z = absurd (omega arith)
  long_token (a ∷ b ∷ c ∷ d ∷ f ∷ g ∷ k ∷ []) e z = absurd (omega arith)

-- A header and a copy into a block of the right size spell the frame.
pub short_frame :
    (block : List ℕ) (first token_byte token : ℕ) (payload : List ℕ)
    → length block ≡ short_size token_byte + length payload
    → length payload < 0xff
    → (short_header block first token_byte token (length payload) >>= λ b.
        store b (short_size token_byte) payload)
      ≡ some (frame_bytes first token_byte token payload)
unfolding frame_bytes
short_frame block first token_byte token payload e p = elim (eq_cases token_byte 0) [
  | inl z ↦
      rw (lt→ltb _ _ p, eq→== _ _ z)
        (short_plain first token_byte token _ payload refl block (rw (eq→== _ _ z) at e) z)
  | inr z ↦
      rw (lt→ltb _ _ p, ne→== _ _ z)
        (short_token first token_byte token _ payload refl block (rw (ne→== _ _ z) at e) z)
]

pub long_frame :
    (block : List ℕ) (first token_byte token : ℕ) (payload : List ℕ)
    → length block ≡ long_size token_byte + length payload
    → 0xff ≤ length payload
    → (long_header block first token_byte token (length payload) >>= λ b.
        store b (long_size token_byte) payload)
      ≡ some (frame_bytes first token_byte token payload)
unfolding frame_bytes
long_frame block first token_byte token payload e p = elim (eq_cases token_byte 0) [
  | inl z ↦
      rw (le→ltb _ _ p, eq→== _ _ z)
        (long_plain first token_byte token _ payload refl block (rw (eq→== _ _ z) at e) z)
  | inr z ↦
      rw (le→ltb _ _ p, ne→== _ _ z)
        (long_token first token_byte token _ payload refl block (rw (ne→== _ _ z) at e) z)
]

-- The one block of a payload below 0xffff bytes.
pub encode_single_lem :
    (memory : Memory) (payload : List ℕ) (opcode token_byte token : ℕ)
    → encode_single memory payload opcode token_byte token
      ≡ some (frame_bytes (bit_or opcode frame_final) token_byte token payload)
unfolding encode_single
encode_single_lem memory payload opcode token_byte token = elim (lt_cases (length payload) 0xff) [
  | inl p ↦ rw (lt→ltb _ _ p) (short_frame _ _ token_byte token payload (memory.length-malloc _) p)
  | inr p ↦ rw (le→ltb _ _ p) (long_frame _ _ token_byte token payload (memory.length-malloc _) p)
]

-- The packet that a frame stands for.
abbrev pub packet_of : ℕ → ℕ → ℕ → List ℕ → Packet
packet_of kind mark token payload = record {
  payload = payload;
  flag = kind * 16 + mark * 128;
  token = if ltb 2 kind then token else 0;
}

module _ (kind mark token : ℕ) (payload rest : List ℕ) (hk : kind < 8) (hm : mark < 2)
    (hw : token < 2 ^ 32) where
  abbrev first : ℕ
  first = kind + mark * 128

  plain_body :
      kind ≤ 2
      → parse_body first (length payload) (payload ++ rest)
        ≡ Parsed.frame (packet_of kind mark token payload) rest
  plain_body p =
      rw
        (
          le→ltb 2 (first % 16) (omega arith),
          le→ltb (length (payload ++ rest)) (length payload)
              (omega (arith, length-append payload rest)),
          take-append_left (length payload) payload rest refl,
          drop-append_left (length payload) payload rest refl,
          le→ltb 2 kind p,
        )
        (ap (λ f. Parsed.frame (record { payload = payload; flag = f; token = 0 }) rest)
          {x = first % 16 * 16 + first / 128 * 128} {y = kind * 16 + mark * 128} (omega arith))

  token_body :
      2 < kind
      → parse_body first (length payload) (token_bytes token ++ (payload ++ rest))
        ≡ Parsed.frame (packet_of kind mark token payload) rest
  token_body p =
      rw
        (
          lt→ltb 2 (first % 16) (omega arith),
          le→ltb (length (token_bytes token ++ (payload ++ rest))) (length payload + 4)
              (omega (arith, length-append payload rest)),
          take-append_left (length payload) payload rest refl,
          drop-append_left (length payload) payload rest refl,
          lt→ltb 2 kind p,
        )
        (ap₂ (λ f t. Parsed.frame (record { payload = payload; flag = f; token = t }) rest)
          {x = first % 16 * 16 + first / 128 * 128} {y = kind * 16 + mark * 128}
          {u = word_of (token_bytes token ++ (payload ++ rest))} {v = token} (omega arith)
          (omega arith))

  any_body :
      (token_byte : ℕ)
      → token_byte ≡ (if ltb 2 kind then 4 else 0)
      → parse_body first (length payload) ((token_part token_byte token ++ payload) ++ rest)
        ≡ Parsed.frame (packet_of kind mark token payload) rest
  any_body token_byte e = elim (lt_cases 2 kind) [
    | inl p ↦ rw (e, lt→ltb 2 kind p) (rw (lt→ltb 2 kind p) at (token_body p))
    | inr p ↦ rw (e, le→ltb 2 kind p) (rw (le→ltb 2 kind p) at (plain_body p))
  ]

  -- The wire format reads a frame back, whatever follows it.
  pub parse-frame_bytes :
      (token_byte : ℕ)
      → token_byte ≡ (if ltb 2 kind then 4 else 0)
      → length payload ≤ 0xffff
      → parse (frame_bytes first token_byte token payload ++ rest)
        ≡ Parsed.frame (packet_of kind mark token payload) rest
  unfolding frame_bytes
  parse-frame_bytes token_byte e small = elim (lt_cases (length payload) 0xff) [
    | inl p ↦
        rw
          (
            lt→ltb _ _ p,
            le→ltb 7 (first % 16) (omega arith),
            lt→ltb (length payload % 256) 255 (omega arith),
          )
          (ap (λ n. parse_body first n ((token_part token_byte token ++ payload) ++ rest))
              (omega arith)
            ∙ any_body token_byte e)
    | inr p ↦
        rw (le→ltb _ _ p, le→ltb 7 (first % 16) (omega arith))
          (ap (λ n. parse_body first n ((token_part token_byte token ++ payload) ++ rest))
              {y = length payload} (omega arith)
            ∙ any_body token_byte e)
  ]
