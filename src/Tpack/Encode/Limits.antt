-- ===== src/Tpack/Encode/Limits.antt =====
-- Where `tpack_encode` allocates too little: the copy of the fragment leaves the block.
use frog_game_framework.Base.{
  ◌^◌, ℕ, zero, suc, ◌+◌, ◌-◌, ◌*◌, ◌/◌, ◌%◌, ◌≤◌, ◌<◌, ◌≡◌, ◌≢◌, refl, ◌∙◌, List, [], ◌∷◌, Option,
  none, some, ◌==◌, arith, if◌then◌else◌, length, ◌>>=◌, inl, inr, lt→ltb, le→ltb, eq→==, ne→==,
  eq_cases, lt→leb,
}
use frog_game_framework.Memory.{Memory, load, store, length-store, length-load}
use frog_game_framework.Fragments.{has_blocks_lem, count-below, fragment_offset}
use frog_game_framework.Tpack.{frame_final}
use frog_game_framework.Tpack.Encode.{
  opcode_of, token_byte_of, token_bytes, short_header, long_header, short_size, long_size,
  encode_last, encode_middle, encode_loop, encode,
}
use frog_game_framework.Tpack.Encode.RoundTrip.{token_byte_of_lem}

-- A chain fails where its last step fails on every value, or on those that the first step can give.
bind_none {ℓ κ} :
    {A : Type ℓ} {B : Type κ} (m : Option A) (f : A → Option B)
    → ((a : A) → m ≡ some a → f a ≡ none)
    → (m >>= f) ≡ none
bind_none none f h = refl
bind_none (some a) f h = h a refl

store_outside :
    (block : List ℕ) (i : ℕ) (bytes : List ℕ)
    → length block < i + length bytes
    → store block i bytes ≡ none
unfolding store
store_outside block i bytes h = rw (lt→leb _ _ h)

-- A block of `n` bytes, if there is one.
abbrev Sized : ℕ → Option (List ℕ) → Type 0
Sized n none = Unit {0}
Sized n (some b) = length b ≡ n

store-Sized :
    (n : ℕ) (block : List ℕ) (i : ℕ) (bytes : List ℕ)
    → length block ≡ n
    → Sized n (store block i bytes)
store-Sized n block i bytes e = by_result (store block i bytes) refl
  where
    by_result : (o : Option (List ℕ)) → store block i bytes ≡ o → Sized n o
    by_result none _ = tt
    by_result (some b) r = length-store block i bytes b r ∙ e

Sized-bind :
    (n : ℕ) (m : Option (List ℕ)) (f : List ℕ → Option (List ℕ))
    → Sized n m
    → ((b : List ℕ) → length b ≡ n → Sized n (f b))
    → Sized n (m >>= f)
Sized-bind n none f h k = tt
Sized-bind n (some b) f h k = k b h

Sized-none :
    (n : ℕ) (m : Option (List ℕ)) (f : List ℕ → Option (List ℕ))
    → Sized n m
    → ((b : List ℕ) → length b ≡ n → f b ≡ none)
    → (m >>= f) ≡ none
Sized-none n none f h k = refl
Sized-none n (some b) f h k = k b h

header-Sized :
    (n : ℕ) (block : List ℕ) (i : ℕ) (first token_byte token : ℕ) (size : List ℕ)
    → length block ≡ n
    → Sized n (
        (if token_byte == 0 then some block else store block i (token_bytes token)) >>= λ b1.
        store b1 1 size >>= λ b2. store b2 0 (first ∷ []))
header-Sized n block i first token_byte token size e =
    Sized-bind n (if token_byte == 0 then some block else store block i (token_bytes token)) _ start
      (λ b1 e1.
        Sized-bind n (store b1 1 size) (λ b2. store b2 0 (first ∷ [])) (store-Sized n b1 1 size e1)
          (λ b2 e2. store-Sized n b2 0 (first ∷ []) e2))
  where
    start : Sized n (if token_byte == 0 then some block else store block i (token_bytes token))
    start = elim (eq_cases token_byte 0) [
      | inl z ↦ rw (eq→== _ _ z) e
      | inr z ↦ rw (ne→== _ _ z) (store-Sized n block i (token_bytes token) e)
    ]

-- A payload that is copied past the end of the block it is given.
long_overrun :
    (block : List ℕ) (first token_byte token n : ℕ) (payload : List ℕ)
    → length block < long_size token_byte + length payload
    → (long_header block first token_byte token n >>= λ b. store b (long_size token_byte) payload)
      ≡ none
unfolding long_header
long_overrun block first token_byte token n payload h =
    Sized-none (length block) _ (λ b. store b (long_size token_byte) payload)
      (header-Sized (length block) block 4 first token_byte token _ refl)
      (λ b e. store_outside b (long_size token_byte) payload (rw e h))

short_overrun :
    (block : List ℕ) (first token_byte token n : ℕ) (payload : List ℕ)
    → length block < short_size token_byte + length payload
    → (short_header block first token_byte token n >>= λ b. store b (short_size token_byte) payload)
      ≡ none
unfolding short_header
short_overrun block first token_byte token n payload h =
    Sized-none (length block) _ (λ b. store b (short_size token_byte) payload)
      (header-Sized (length block) block 2 first token_byte token _ refl)
      (λ b e. store_outside b (short_size token_byte) payload (rw e h))

module _ (memory : Memory) (payload : List ℕ) (opcode token_byte token : ℕ) where
  -- The last fragment of a kind without token, if it is short but not empty.
  last_overrun :
      (chunk : List ℕ)
      → token_byte ≡ 0
      → 0 < length chunk
      → length chunk < 0xff
      → encode_last memory chunk token_byte token ≡ none
  unfolding encode_last
  last_overrun chunk z pos short =
      rw (lt→ltb _ _ short, z)
        (short_overrun (memory.malloc 2) frame_final 0 token (length chunk) chunk
          (omega (arith, memory.length-malloc 2)))

  -- Any fragment but the last of a kind with a token.
  middle_overrun :
      (chunk : List ℕ) (j : ℕ)
      → token_byte ≢ 0
      → 0 < length chunk
      → encode_middle memory chunk j opcode token_byte token ≡ none
  unfolding encode_middle
  middle_overrun chunk j z pos = rw (ne→== _ _ z) (
      rw (ne→== _ _ z) at (
        long_overrun (memory.malloc 8) (if j == 0 then opcode else 0) token_byte token 0xffff chunk
          (rw (ne→== _ _ z) (omega (arith, memory.length-malloc 8)))))

  -- The chunk of a fragment has the length that is asked for, and its offset is that of the fragment.
  fragment_offset_lem : (j offset : ℕ) → fragment_offset j ≡ some offset → offset ≡ j * 0xffff
  unfolding fragment_offset
  fragment_offset_lem j offset e = ground arith

  loop_token_fault :
      (left j : ℕ)
      → token_byte ≢ 0
      → encode_loop memory (suc left) j payload opcode token_byte token ≡ none
  unfolding encode_loop
  loop_token_fault left j z = bind_none (fragment_offset j) _ (λ offset e.
      bind_none (load payload offset 0xffff) _ (λ chunk l.
        rw (middle_overrun chunk j z (omega (arith, length-load payload offset 0xffff chunk l)))))

  loop_last_fault :
      (left j : ℕ)
      → left + j ≡ length payload / 0xffff
      → token_byte ≡ 0
      → 0 < length payload % 0xffff
      → length payload % 0xffff < 0xff
      → encode_loop memory left j payload opcode token_byte token ≡ none
  unfolding encode_loop
  loop_last_fault zero j e z pos short = bind_none (fragment_offset j) _ (λ offset o.
      bind_none (load payload offset (length payload - offset)) _ (λ chunk l.
        let size : length chunk ≡ length payload % 0xffff = omega (
          arith,
          length-load payload offset (length payload - offset) chunk l,
          fragment_offset_lem j offset o,
        ) in
        rw (last_overrun chunk z (omega arith) (omega arith))))
  loop_last_fault (suc left) j e z pos short = bind_none (fragment_offset j) _ (λ offset o.
      bind_none (load payload offset 0xffff) _ (λ chunk l.
        bind_none (encode_middle memory chunk j opcode token_byte token) _
          (λ block m. rw (loop_last_fault left (j + 1) (omega arith) z pos short))))

  loop_fault_of_count :
      (count : ℕ)
      → 0 < count
      → token_byte ≢ 0
      → encode_loop memory count 0 payload opcode token_byte token ≡ none
  loop_fault_of_count zero p z = absurd (omega arith)
  loop_fault_of_count (suc left) p z = loop_token_fault left 0 z

-- `encode` faults on every payload of 0xffff bytes or more, below 2^31, for a kind with a token: each
-- fragment but the last gets a block of eight bytes, and the copy of its 0xffff bytes leaves that block.
pub encode_token_fault :
    (memory : Memory) (payload : List ℕ) (kind token : ℕ)
    → 2 < kind
    → kind < 8
    → 0xffff ≤ length payload
    → length payload < 2 ^ 31
    → encode memory payload (kind * 16) token ≡ none
unfolding encode
encode_token_fault memory payload kind token hk h8 long bound = rw (
  ne→== ((length payload / 0xffff + 1) % 2 ^ 32) 1 (omega arith),
  has_blocks_lem (length payload) bound,
  count-below (length payload) bound,
  loop_fault_of_count memory payload (opcode_of (kind * 16)) (token_byte_of (kind * 16)) token
      (length payload / 0xffff) (omega arith)
      (rw (token_byte_of_lem kind h8, lt→ltb 2 kind hk) (omega arith)),
)

-- `encode` faults on every payload below 2^31 bytes for a kind without token whose last fragment would have between
-- 1 and 0xfe bytes behind at least one full fragment: that fragment gets a block of two bytes.
pub encode_last_fault :
    (memory : Memory) (payload : List ℕ) (kind token : ℕ)
    → kind ≤ 2
    → 0xffff ≤ length payload
    → length payload < 2 ^ 31
    → 0 < length payload % 0xffff
    → length payload % 0xffff < 0xff
    → encode memory payload (kind * 16) token ≡ none
unfolding encode
encode_last_fault memory payload kind token hk long bound pos short = rw (
  ne→== ((length payload / 0xffff + 1) % 2 ^ 32) 1 (omega arith),
  has_blocks_lem (length payload) bound,
  count-below (length payload) bound,
  loop_last_fault memory payload (opcode_of (kind * 16)) (token_byte_of (kind * 16)) token
      (length payload / 0xffff) 0 (omega arith)
      (token_byte_of_lem kind (omega arith) ∙ rw (le→ltb 2 kind hk)) pos short,
)
