-- ===== src/Fragments/Gather.antt =====
-- The copy loops take the bytes of the source buffers in order, as if they were one payload.
use frog_game_framework.Base.{
  ℕ, Bool, Option, drop_all, drop-append_left, take-append_left, Gives_map, Gives_of_eq, ◌+◌, ◌-◌,
  ◌^◌, ◌≤◌, ◌<◌, ◌≡◌, refl, ap, sym, ◌∙◌, subst, true, false, List, [], ◌∷◌, ◌++◌, flatten, some,
  ◌==◌, length, take, drop, arith, All, lt→ltb, le→ltb, eq→==, ne→==, Gives, append_assoc,
  append-nil, length-append, length-take, length-drop, take-append_le, take-append_ge,
  drop-append_le, drop-append_ge, drop-drop, take_all, take-append-drop, le→leb,
}
use frog_game_framework.Memory.{sub_size, load, store, store_at, store_end}
use frog_game_framework.Fragments.{Cursor, gather}

-- The bytes that are still to be copied.
abbrev pub pending : List (List ℕ) → ℕ → List ℕ
pending srcs offset = drop offset (flatten srcs)

-- The offset lies in the first source buffer.
abbrev pub Within : List (List ℕ) → ℕ → Type 0
Within [] offset = offset ≡ 0
Within (src ∷ srcs) offset = offset ≤ length src

-- A source buffer: its length is an `int`.
abbrev pub IsSource : List ℕ → Type 0
IsSource src = length src < 2 ^ 31

-- The copy of the next `m` bytes: the block is filled, and the cursor moves on by them.
pub record Gathers (front : List ℕ) (m : ℕ) (ahead : List ℕ) (r : List ℕ × Cursor) : Type 0 where
  pub block : r.0 ≡ front ++ take m ahead
  pub moved : pending r.1.sources r.1.offset ≡ drop m ahead
  pub within : Within r.1.sources r.1.offset
  pub sources : All IsSource r.1.sources

sub_size_lem : (a b : ℕ) → b ≤ a → a < 2 ^ 64 → sub_size a b ≡ a - b
sub_size_lem a b h k = omega arith

pub load-take :
    (block : List ℕ) (i n : ℕ)
    → i + n ≤ length block
    → load block i n ≡ some (take n (drop i block))
unfolding load
load-take block i n h = rw (le→leb _ _ h) refl

pub Within-start : (srcs : List (List ℕ)) → Within srcs 0
Within-start [] = refl
Within-start (src ∷ srcs) = omega arith

module _ (src : List ℕ) (srcs : List (List ℕ)) (o : ℕ) (inside : o ≤ length src) where
  pending_cons : pending (src ∷ srcs) o ≡ drop o src ++ flatten srcs
  unfolding flatten
  pending_cons = drop-append_le o src (flatten srcs) inside

  -- The source buffer has more than the block needs.
  pub gather_inside :
      (front old block : List ℕ) (m : ℕ)
      → block ≡ front ++ old
      → length old ≡ m
      → o + m < length src
      → All IsSource (src ∷ srcs)
      → length block < 2 ^ 32
      → Gives
          (gather (src ∷ srcs) o block (length front))
          (Gathers front m (pending (src ∷ srcs) o))
  unfolding gather
  gather_inside front old block m e size more small fits =
      let block_total : length block ≡ length front + m =
        ap length e ∙ length-append front old ∙ omega arith in
      let room : sub_size (length block) (length front) ≡ m =
        sub_size_lem (length block) (length front) (omega arith) (omega arith) ∙ omega arith in
      let chunk_length : length (take m (drop o src)) ≡ m =
        omega (arith, length-take m (drop o src), length-drop o src) in
      rw
        (
          gather,
          room,
          sub_size_lem (length src) o inside (omega (arith, small.0)),
          lt→ltb m (length src - o) (omega arith),
          room,
          load-take src o m (omega arith),
          ap (λ b. store b (length front) (take m (drop o src))) e,
          store_end front old (take m (drop o src)) {i = length front} refl (omega arith),
        )
        (record {
          block =
              ap (λ t. front ++ t)
                (sym (
                  ap (take m) pending_cons
                  ∙ take-append_le m (drop o src) (flatten srcs)
                      (omega (arith, length-drop o src))));
          moved = sym (drop-drop o m (o + m) (flatten (src ∷ srcs)) refl);
          within = omega arith;
          sources = small;
        })

  -- The block needs the rest of the source buffer, and more from the next ones.
  module _ (front old block : List ℕ) (m : ℕ) (e : block ≡ front ++ old) (size : length old ≡ m)
      (enough : length src ≤ o + m) (small : All IsSource (src ∷ srcs))
      (fits : length block < 2 ^ 32) where
    abbrev taken : ℕ
    taken = length src - o

    abbrev block_after : List ℕ
    block_after = front ++ (drop o src ++ drop taken old)

    pub block_total : length block ≡ length front + m
    block_total = ap length e ∙ length-append front old ∙ omega arith

    copied : store block (length front) (drop o src) ≡ some block_after
    copied =
        store_at front (take taken old) (drop taken old) (drop o src)
          (e ∙ ap (λ t. front ++ t) (sym (take-append-drop taken old))) refl
          (omega (arith, length-take taken old, length-drop o src))

    read : load src o taken ≡ some (drop o src)
    read =
        load-take src o taken (omega arith)
        ∙ ap some (take_all taken (drop o src) (omega (arith, length-drop o src)))

    pub length-block_after : length block_after ≡ length front + m
    length-block_after = omega (
      arith,
      length-append front (drop o src ++ drop taken old),
      length-append (drop o src) (drop taken old),
      length-drop o src,
      length-drop taken old,
    )

    abbrev filled : Bool → ℕ → Option (List ℕ × Cursor)
    filled b k = elim b [
      | true ↦ some (block_after, record { sources = srcs; offset = 0 })
      | false ↦ gather srcs 0 block_after (length front + k)
    ]

    gather_step :
        gather (src ∷ srcs) o block (length front)
        ≡ filled (length front + taken == length block_after) taken
    unfolding gather
    gather_step =
        rw
          (
            gather,
            sub_size_lem (length block) (length front) (omega (arith, block_total)) (omega arith),
            sub_size_lem (length src) o inside (omega (arith, small.0)),
            le→ltb (length block - length front) (length src - o) (omega (arith, block_total)),
            sub_size_lem (length src) o inside (omega (arith, small.0)),
            read,
            copied,
          )
          (ap (λ k. filled (length front + taken == length block_after) k)
            (sub_size_lem (length src) o inside (omega (arith, small.0))))

    gather_done :
        taken ≡ m
        → gather (src ∷ srcs) o block (length front)
          ≡ some (block_after, record { sources = srcs; offset = 0 })
    gather_done full =
        gather_step
        ∙ rw (eq→== (length front + taken) (length block_after) (omega (arith, length-block_after)))
            refl

    gather_more :
        taken < m
        → gather (src ∷ srcs) o block (length front)
          ≡ gather srcs 0 block_after (length front + taken)
    gather_more part =
        gather_step
        ∙ rw
            (ne→== (length front + taken) (length block_after)
              (λ same. omega (arith, length-block_after)))
            refl

    -- What is to be copied, where it goes on behind this source buffer.
    ahead_taken : taken ≡ m → take m (pending (src ∷ srcs) o) ≡ drop o src
    ahead_taken full =
        ap (take m) pending_cons
        ∙ take-append_left m (drop o src) (flatten srcs) (omega (arith, length-drop o src))

    pub full_lem :
        taken ≡ m
        → Gives
            (gather (src ∷ srcs) o block (length front))
            (Gathers front m (pending (src ∷ srcs) o))
    full_lem full =
        Gives_of_eq (Gathers front m (pending (src ∷ srcs) o)) (gather_done full) (record {
          block =
              ap (λ t. front ++ t)
                (ap (λ t. drop o src ++ t) (drop_all taken old (omega arith))
                  ∙ append-nil (drop o src)
                  ∙ sym (ahead_taken full));
          moved = sym (
              ap (drop m) pending_cons
              ∙ drop-append_left m (drop o src) (flatten srcs) (omega (arith, length-drop o src)));
          within = Within-start srcs;
          sources = small.1;
        })

    pub part_lem :
        taken < m
        → Gives
            (gather srcs 0 block_after (length front + taken))
            (Gathers (front ++ drop o src) (m - taken) (pending srcs 0))
        → Gives
            (gather (src ∷ srcs) o block (length front))
            (Gathers front m (pending (src ∷ srcs) o))
    part_lem part rest =
        subst (λ r. Gives r (Gathers front m (pending (src ∷ srcs) o))) (sym (gather_more part))
          (Gives_map (gather srcs 0 block_after (length front + taken)) rest (λ r g. record {
            block =
                g.block
                ∙ append_assoc front (drop o src) (take (m - taken) (flatten srcs))
                ∙ ap (λ t. front ++ t)
                    (sym (
                      ap (take m) pending_cons
                      ∙ take-append_ge m (m - taken) (drop o src) (flatten srcs)
                          (omega (arith, length-drop o src))));
            moved =
                g.moved
                ∙ sym (
                    ap (drop m) pending_cons
                    ∙ drop-append_ge m (m - taken) (drop o src) (flatten srcs)
                        (omega (arith, length-drop o src)));
            within = g.within;
            sources = g.sources;
          }))
