-- ===== src/Memory/Zeroed.antt =====
-- An allocator that clears its blocks: the assumptions of `Memory` can be met.
use frog_game_framework.Base.{
  ℕ, zero, suc, ◌≡◌, refl, ap, List, [], ◌∷◌, length, All, IsByte, arith,
}
use frog_game_framework.Memory.{Memory}

abbrev pub zeros : ℕ → List ℕ
zeros zero = []
zeros (suc n) = 0 ∷ zeros n

pub length-zeros : (n : ℕ) → length (zeros n) ≡ n
length-zeros zero = refl
length-zeros (suc n) = ap suc (length-zeros n)

-- Zeros that are not computed with.
pub blank : ℕ → List ℕ
blank n = zeros n

pub length-blank : (n : ℕ) → length (blank n) ≡ n
unfolding blank
length-blank n = length-zeros n

pub blank-IsByte : (n : ℕ) → All IsByte (blank n)
unfolding blank
blank-IsByte zero = tt
blank-IsByte (suc n) = (omega arith, blank-IsByte n)

abbrev pub zeroed : Memory
zeroed = record {
  malloc = zeros;
  realloc = λ block n. zeros n;
  length-malloc = length-zeros;
  length-realloc = λ block n. length-zeros n;
}
