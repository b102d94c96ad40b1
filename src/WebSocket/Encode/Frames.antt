-- ===== src/WebSocket/Encode/Frames.antt =====
-- What the two encoders send, as a list of frames: the payload cut at every 0xffff bytes, the first
-- frame with the opcode and the last one with the final mark.
use frog_game_framework.Base.{
  ℕ, ◌⊎◌, zero, suc, ◌+◌, ◌-◌, ◌*◌, ◌/◌, ◌%◌, ◌^◌, ◌≤◌, ◌<◌, ◌≡◌, ◌≢◌, refl, ap, sym, ◌∙◌, bit_or,
  List, [], ◌∷◌, ◌++◌, flatten, Option, some, ◌==◌, arith, if◌then◌else◌, length, take, drop, ◌>>=◌,
  lt_cases, inl, inr, lt→ltb, le→ltb, eq→==, ne→==, bind_of_Gives, length-take, length-drop,
  drop-drop, take_all, All,
}
use frog_game_framework.Memory.{Memory}
use frog_game_framework.Fragments.{has_blocks_lem, count-below, Cursor, copy_all, gather}
use frog_game_framework.Fragments.Gather.{pending, Within, IsSource, Within-start, load-take}
use frog_game_framework.Fragments.GatherAll.{gather_lem, copy_all_lem, vec_length_lem}
use frog_game_framework.WebSocket.{frame_final}
use frog_game_framework.WebSocket.Encode.{
  opcode_of, final_block, middle_block, header_size, encode_loop, encode, encode_vec_loop,
  encode_vec,
}
use frog_game_framework.WebSocket.Encode.Frame.{
  header_bytes, frame_bytes, length-header_bytes, final_block_lem, middle_block_lem,
}
use frog_game_framework.WebSocket.Encode.Blocks.{
  frames, sent_frames, fragment_offset_lem, later_frames, length-started, header_size_small,
  final_then, middle_then,
}

-- The loops of the two encoders.
module _ (memory : Memory) where
  encode_loop_lem :
      (left j : ℕ) (payload : List ℕ) (opcode : ℕ)
      → length payload < 2 ^ 31
      → (left + j) * 0xffff ≤ length payload
      → encode_loop memory left j payload opcode
        ≡ some (frames left (if j == 0 then opcode else 0) 126 (drop (j * 0xffff) payload))
  unfolding encode_loop
  encode_loop_lem zero j payload opcode small inside =
      let last = drop (j * 0xffff) payload in
      rw
        (
          fragment_offset_lem j (omega arith),
          load-take payload (j * 0xffff) (length payload - j * 0xffff) (omega arith),
          take_all (length payload - j * 0xffff) last
              (omega (arith, length-drop (j * 0xffff) payload)),
        )
        (final_then memory frame_final last (λ b. some (b ∷ [])))
  encode_loop_lem (suc left) j payload opcode small inside =
      rw (fragment_offset_lem j (omega arith), load-take payload (j * 0xffff) 0xffff (omega arith))
        (middle_then memory j opcode (take 0xffff (drop (j * 0xffff) payload)) _ (
            omega (
              arith,
              length-take 0xffff (drop (j * 0xffff) payload),
              length-drop (j * 0xffff) payload,
            ))
          ∙ ap
              (λ m. m >>= λ rest. some (
                frame_bytes (if j == 0 then opcode else 0) 126
                  (take 0xffff (drop (j * 0xffff) payload))
                ∷ rest))
              (later_frames left j opcode 126 payload
                (encode_loop_lem left (j + 1) payload opcode small (omega arith))))

  -- The frames of `encode`, whatever the length of the payload, up to 2^31 bytes.
  pub encode-frames :
      (payload : List ℕ) (flag : ℕ)
      → length payload < 2 ^ 31
      → encode memory payload flag ≡ some (sent_frames (opcode_of flag) 126 payload)
  unfolding encode
  encode-frames payload flag small = elim (lt_cases (length payload) 0xffff) [
    | inl p ↦
        rw (lt→ltb _ _ p, eq→== ((length payload / 0xffff + 1) % 2 ^ 32) 1 (omega arith))
          (final_then memory (bit_or (opcode_of flag) frame_final) payload (λ b. some (b ∷ [])))
    | inr p ↦
        rw
          (
            le→ltb _ _ p,
            ne→== ((length payload / 0xffff + 1) % 2 ^ 32) 1 (λ e. omega arith),
            has_blocks_lem (length payload) small,
            count-below (length payload) small,
          )
          (encode_loop_lem (length payload / 0xffff) 0 payload (opcode_of flag) small (omega arith))
  ]

  -- The block for a last or an only frame, from the source buffers that a cursor is at.
  final_gather :
      (first : ℕ) (c : Cursor) (k : List ℕ × Cursor → Option (List (List ℕ)))
      {r : Option (List (List ℕ))}
      → Within c.sources c.offset
      → All IsSource c.sources
      → 0 < length (pending c.sources c.offset)
      → length (pending c.sources c.offset) < 2 ^ 31
      → ((next : Cursor) → k (frame_bytes first 126 (pending c.sources c.offset), next) ≡ r)
      → (final_block memory first (length (pending c.sources c.offset)) >>= λ b.
          gather c.sources c.offset b (header_size (length (pending c.sources c.offset))) >>= k)
        ≡ r
  final_gather first c k w sources pos small h =
      let ahead = pending c.sources c.offset in
      bind_of_Gives (final_block memory first (length ahead)) _
        (final_block_lem memory first (length ahead))
        (λ b s.
          bind_of_Gives (gather c.sources c.offset b (header_size (length ahead))) k
            (gather_lem c.sources c.offset (header_bytes first 126 (length ahead)) s.back b _
              (length ahead) s.split (sym (length-header_bytes first 126 (length ahead))) s.size w
              pos (omega arith) sources
              (omega (
                arith,
                length-started s,
                length-header_bytes first 126 (length ahead),
                header_size_small (length ahead),
              )))
            (λ r g.
              ap (λ t. k (t, r.1))
                (g.block
                  ∙ ap (λ t. header_bytes first 126 (length ahead) ++ t)
                      (take_all (length ahead) ahead (omega arith)))
              ∙ h r.1))

  middle_gather :
      (mark j opcode : ℕ) (c : Cursor) (k : List ℕ × Cursor → Option (List (List ℕ)))
      {r : Option (List (List ℕ))}
      → Within c.sources c.offset
      → All IsSource c.sources
      → 0xffff ≤ length (pending c.sources c.offset)
      → ((next : Cursor)
          → pending next.sources next.offset ≡ drop 0xffff (pending c.sources c.offset)
          → Within next.sources next.offset
          → All IsSource next.sources
          → k (
            frame_bytes
                (if j == 0 then opcode else 0)
                mark
                (take 0xffff (pending c.sources c.offset)),
            next,
          )
            ≡ r)
      → (middle_block memory mark j opcode >>= λ b. gather c.sources c.offset b 4 >>= k) ≡ r
  middle_gather mark j opcode c k w sources enough h =
      let ahead = pending c.sources c.offset in
      let first = if j == 0 then opcode else 0 in
      bind_of_Gives (middle_block memory mark j opcode) _ (middle_block_lem memory mark j opcode)
        (λ b s.
          bind_of_Gives (gather c.sources c.offset b 4) k
            (gather_lem c.sources c.offset (header_bytes first mark 0xffff) s.back b 4 0xffff
              s.split refl s.size w (omega arith) enough sources (omega (arith, length-started s)))
            (λ r g.
              ap (λ t. k (t, r.1))
                (g.block
                  ∙ ap (λ n. header_bytes first mark n ++ take 0xffff ahead) {x = 0xffff}
                      {y = length (take 0xffff ahead)} (omega (arith, length-take 0xffff ahead)))
              ∙ h r.1 g.moved g.within g.sources))

  encode_vec_loop_lem :
      (left j : ℕ) (payload : List ℕ) (c : Cursor) (opcode : ℕ)
      → length payload < 2 ^ 31
      → length payload / 0xffff ≡ left + j
      → length payload % 0xffff ≢ 0
      → pending c.sources c.offset ≡ drop (j * 0xffff) payload
      → Within c.sources c.offset
      → All IsSource c.sources
      → encode_vec_loop memory left j (length payload) c opcode
        ≡ some (frames left (if j == 0 then opcode else 0) 0xff (drop (j * 0xffff) payload))
  unfolding encode_vec_loop
  encode_vec_loop_lem zero j payload c opcode small count odd e w sources =
      let rest_length : length (pending c.sources c.offset) ≡ length payload - j * 0xffff =
        ap length e ∙ length-drop (j * 0xffff) payload in
      rw (fragment_offset_lem j (omega arith), sym rest_length)
        (final_gather frame_final c (λ x. some (x.0 ∷ [])) w sources (omega (arith, rest_length))
          (omega (arith, rest_length))
          (λ next. ap (λ t. some (frame_bytes frame_final 126 t ∷ [])) e))
  encode_vec_loop_lem (suc left) j payload c opcode small count odd e w sources =
      let first = if j == 0 then opcode else 0 in
      let rest_length : length (pending c.sources c.offset) ≡ length payload - j * 0xffff =
        ap length e ∙ length-drop (j * 0xffff) payload in
      middle_gather 0xff j opcode c _ w sources (omega (arith, rest_length)) (λ next moved wn sn.
        ap
          (λ m. m >>= λ rest.
            some (frame_bytes first 0xff (take 0xffff (pending c.sources c.offset)) ∷ rest))
          (later_frames left j opcode 0xff payload (
            encode_vec_loop_lem left (j + 1) payload next opcode small (omega arith) odd
              (moved
                ∙ ap (drop 0xffff) e
                ∙ drop-drop (j * 0xffff) 0xffff ((j + 1) * 0xffff) payload (omega arith))
              wn sn))
        ∙ ap
            (λ t. some (
              frame_bytes first 0xff (take 0xffff t)
              ∷ frames left 0 0xff (drop 0xffff (drop (j * 0xffff) payload))))
            e)

  -- The frames of `encode_vec`: those of the joined source buffers, except that a frame that others
  -- follow has 0xff for its second byte. This is for lengths that are no multiple of 0xffff, or
  -- below it, up to 2^31 bytes.
  pub encode_vec-frames :
      (srcs : List (List ℕ)) (flag : ℕ)
      → All IsSource srcs
      → length (flatten srcs) < 2 ^ 31
      → (length (flatten srcs) < 0xffff) ⊎ (length (flatten srcs) % 0xffff ≢ 0)
      → encode_vec memory srcs flag ≡ some (sent_frames (opcode_of flag) 0xff (flatten srcs))
  unfolding encode_vec
  encode_vec-frames srcs flag sources small size =
      rw (vec_length_lem srcs) (elim (lt_cases (length (flatten srcs)) 0xffff) [
        | inl p ↦
            rw (lt→ltb _ _ p, eq→== ((length (flatten srcs) / 0xffff + 1) % 2 ^ 32) 1 (omega arith))
              (one_frame)
        | inr p ↦
            rw
              (
                le→ltb _ _ p,
                ne→== ((length (flatten srcs) / 0xffff + 1) % 2 ^ 32) 1 (λ e. omega arith),
                has_blocks_lem (length (flatten srcs)) small,
                count-below (length (flatten srcs)) small,
              )
              (encode_vec_loop_lem (length (flatten srcs) / 0xffff) 0 (flatten srcs)
                (record { sources = srcs; offset = 0 }) (opcode_of flag) small (omega arith)
                (odd p size) refl (Within-start srcs) sources)
      ])
    where
      odd :
          0xffff ≤ length (flatten srcs)
          → (length (flatten srcs) < 0xffff) ⊎ (length (flatten srcs) % 0xffff ≢ 0)
          → length (flatten srcs) % 0xffff ≢ 0
      odd p (inl q) = absurd (omega arith)
      odd p (inr q) = q

      first : ℕ
      first = bit_or (opcode_of flag) frame_final

      one_frame :
          (final_block memory first (length (flatten srcs)) >>= λ block.
          copy_all srcs block (header_size (length (flatten srcs))) >>= λ b. some (b ∷ []))
          ≡ some (frame_bytes first 126 (flatten srcs) ∷ [])
      one_frame =
          bind_of_Gives (final_block memory first (length (flatten srcs))) _
            (final_block_lem memory first (length (flatten srcs)))
            (λ b s.
              ap (λ m. m >>= λ r. some (r ∷ []))
                (copy_all_lem srcs (header_bytes first 126 (length (flatten srcs))) s.back b _
                  s.split (sym (length-header_bytes first 126 (length (flatten srcs))))
                  (s.size ∙ sym (vec_length_lem srcs))))
