-- ===== src/Fragments/GatherAll.antt =====
-- The copy loops over all source buffers.
use frog_game_framework.Base.{
  ℕ, ◌+◌, ◌-◌, ◌^◌, ◌≤◌, ◌<◌, ◌≡◌, refl, ap, sym, ◌∙◌, subst, List, [], ◌∷◌, ◌++◌, flatten, some,
  length, take, drop, arith, All, lt_cases, inl, inr, Gives, append_assoc, length-append,
  length-take, length-drop, take-append-drop, eq-nil_of_length,
}
use frog_game_framework.Memory.{store_at}
use frog_game_framework.Fragments.{vec_length, copy_all, gather}
use frog_game_framework.Fragments.Gather.{
  pending, Within, IsSource, Gathers, Within-start, part_lem, full_lem, length-block_after,
  block_total, gather_inside,
}

-- The loop fills the block with the next bytes of the source buffers.
pub gather_lem :
    (srcs : List (List ℕ)) (o : ℕ) (front old block : List ℕ) (i m : ℕ)
    → block ≡ front ++ old
    → i ≡ length front
    → length old ≡ m
    → Within srcs o
    → 0 < m
    → m ≤ length (pending srcs o)
    → All IsSource srcs
    → length block < 2 ^ 32
    → Gives (gather srcs o block i) (Gathers front m (pending srcs o))
unfolding flatten
gather_lem [] o front old block i m e ei size w pos enough small fits =
    absurd (omega (arith, length-drop {A = ℕ} o []))
gather_lem (src ∷ srcs) o front old block i m e ei size w pos enough small fits =
    subst (λ k. Gives (gather (src ∷ srcs) o block k) (Gathers front m (pending (src ∷ srcs) o)))
      (sym ei)
      (elim (lt_cases (o + m) (length src)) [
        | inl more ↦ gather_inside src srcs o w front old block m e size more small fits
        | inr less ↦ (elim (lt_cases (length src - o) m) [
          | inl part ↦ part_lem src srcs o w front old block m e size less small fits part (
              gather_lem srcs 0 (front ++ drop o src) (drop (length src - o) old) _ _
                (m - (length src - o))
                (sym (append_assoc front (drop o src) (drop (length src - o) old)))
                (omega (arith, length-append front (drop o src), length-drop o src))
                (omega (arith, length-drop (length src - o) old)) (Within-start srcs) (omega arith)
                (omega
                  (arith, length-drop o (src ++ flatten srcs), length-append src (flatten srcs)))
                small.1
                (omega (
                  arith,
                  length-block_after src srcs o w front old block m e size less small fits,
                  block_total src srcs o w front old block m e size less small fits,
                )))
          | inr full ↦ full_lem src srcs o w front old block m e size less small fits (omega arith)
        ])
      ])

pub vec_length_lem : (srcs : List (List ℕ)) → vec_length srcs ≡ length (flatten srcs)
unfolding flatten
vec_length_lem [] = refl
vec_length_lem (src ∷ srcs) = omega (arith, vec_length_lem srcs, length-append src (flatten srcs))

-- The copies of the only block fill it with the bytes of all source buffers.
pub copy_all_lem :
    (srcs : List (List ℕ)) (front old block : List ℕ) (i : ℕ)
    → block ≡ front ++ old
    → i ≡ length front
    → length old ≡ vec_length srcs
    → copy_all srcs block i ≡ some (front ++ flatten srcs)
unfolding copy_all flatten
copy_all_lem [] front old block i e ei size =
    ap some (e ∙ ap (λ t. front ++ t) (eq-nil_of_length old size))
copy_all_lem (src ∷ srcs) front old block i e ei size =
    rw
      (store_at front (take (length src) old) (drop (length src) old) src
        (e ∙ ap (λ t. front ++ t) (sym (take-append-drop (length src) old))) ei
        (omega (arith, length-take (length src) old)))
      (copy_all_lem srcs (front ++ src) (drop (length src) old) _ (i + length src)
          (sym (append_assoc front src (drop (length src) old)))
          (omega (arith, length-append front src)) (omega (arith, length-drop (length src) old))
        ∙ ap some (append_assoc front src (flatten srcs)))
