-- ===== src/WebSocket/Encode/Blocks.antt =====
-- The blocks that the encoders send, as frames.
use frog_game_framework.Base.{
  ℕ, length-append, zero, suc, ◌+◌, ◌*◌, ◌/◌, ◌^◌, ◌≤◌, ◌<◌, ◌≡◌, refl, ap, sym, ◌∙◌, bit_or, List,
  [], ◌∷◌, ◌++◌, Option, some, ltb, ◌==◌, arith, if◌then◌else◌, length, take, drop, ◌>>=◌, lt→ltb,
  ne→==, bind_of_Gives, drop-drop,
}
use frog_game_framework.Memory.{Memory, store, store_end}
use frog_game_framework.Fragments.{fragment_offset}
use frog_game_framework.WebSocket.{frame_final}
use frog_game_framework.WebSocket.Encode.{final_block, middle_block, header_size}
use frog_game_framework.WebSocket.Encode.Frame.{
  header_bytes, frame_bytes, length-header_bytes, Starts, final_block_lem, middle_block_lem,
}

-- `left` frames of 0xffff bytes and a last one.
abbrev pub frames : ℕ → ℕ → ℕ → List ℕ → List (List ℕ)
frames zero first mark payload = frame_bytes frame_final 126 payload ∷ []
frames (suc left) first mark payload =
    frame_bytes first mark (take 0xffff payload) ∷ frames left 0 mark (drop 0xffff payload)

-- One final frame below 0xffff bytes, else several.
abbrev pub sent_frames : ℕ → ℕ → List ℕ → List (List ℕ)
sent_frames opcode mark payload =
    if ltb (length payload) 0xffff
    then frame_bytes (bit_or opcode frame_final) 126 payload ∷ []
    else frames (length payload / 0xffff) opcode mark payload

pub fragment_offset_lem : (j : ℕ) → j * 0xffff < 2 ^ 31 → fragment_offset j ≡ some (j * 0xffff)
unfolding fragment_offset
fragment_offset_lem j h = rw (lt→ltb _ _ h) refl

-- A block that starts with a header is filled by a payload of the right length.
fill_block :
    {block : List ℕ} (header payload : List ℕ) (i n : ℕ)
    → Starts header n block
    → i ≡ length header
    → length payload ≡ n
    → store block i payload ≡ some (header ++ payload)
fill_block {block} header payload i n s ei size =
    ap (λ b. store b i payload) s.split ∙ store_end header s.back payload ei (s.size ∙ sym size)

-- The frames behind fragment `j`, as the loop makes them.
pub later_frames :
    (left j opcode mark : ℕ) (payload : List ℕ) {m : Option (List (List ℕ))}
    → m
      ≡ some (frames left (if j + 1 == 0 then opcode else 0) mark (drop ((j + 1) * 0xffff) payload))
    → m ≡ some (frames left 0 mark (drop 0xffff (drop (j * 0xffff) payload)))
later_frames left j opcode mark payload e =
    e
    ∙ rw (ne→== (j + 1) 0 (λ z. omega arith)) (
        ap (λ t. some (frames left 0 mark t))
          (sym (drop-drop (j * 0xffff) 0xffff ((j + 1) * 0xffff) payload (omega arith))))

pub length-started :
    {front block : List ℕ} {n : ℕ} → Starts front n block → length block ≡ length front + n
length-started {front} s = ap length s.split ∙ length-append front s.back ∙ omega (arith, s.size)

pub header_size_small : (n : ℕ) → header_size n ≤ 4
header_size_small n = ground arith

module _ (memory : Memory) where
  -- The block for a last or an only frame, from one buffer.
  pub final_then :
      (first : ℕ) (payload : List ℕ) (k : List ℕ → Option (List (List ℕ)))
      → (final_block memory first (length payload) >>= λ b.
          store b (header_size (length payload)) payload >>= k)
        ≡ k (frame_bytes first 126 payload)
  final_then first payload k =
      bind_of_Gives (final_block memory first (length payload)) _
        (final_block_lem memory first (length payload))
        (λ b s.
          ap (λ m. m >>= k)
            (fill_block (header_bytes first 126 (length payload)) payload _ (length payload) s
              (sym (length-header_bytes first 126 (length payload))) refl))

  -- The block for a frame that others follow, from one buffer.
  pub middle_then :
      (j opcode : ℕ) (payload : List ℕ) (k : List ℕ → Option (List (List ℕ)))
      → length payload ≡ 0xffff
      → (middle_block memory 126 j opcode >>= λ b. store b 4 payload >>= k)
        ≡ k (frame_bytes (if j == 0 then opcode else 0) 126 payload)
  middle_then j opcode payload k size =
      let first = if j == 0 then opcode else 0 in
      bind_of_Gives (middle_block memory 126 j opcode) _ (middle_block_lem memory 126 j opcode)
        (λ b s.
          ap (λ m. m >>= k)
            (fill_block (header_bytes first 126 0xffff) payload 4 0xffff s refl size
              ∙ ap (λ n. some (header_bytes first 126 n ++ payload)) (sym size)))
