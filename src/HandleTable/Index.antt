-- ===== src/HandleTable/Index.antt =====
-- The loops over the two arrays.
use frog_game_framework.Base.{
  ℕ, zero, suc, ◌+◌, ◌-◌, ◌≡◌, ◌≤◌, ◌<◌, inl, inr, ◌∙◌, refl, List, none, some, length, get_elem?,
  set_elem?, Gives, Gives_bind, Gives_map, SetAt, set_elem?-SetAt, eq_cases, arith,
}
use frog_game_framework.HandleTable.{Slot, clear_slots, fill_index}

-- `fill_index` over the entries from `i` to `i + n`.
pub record Numbered (n i capacity : ℕ) (index filled : List ℕ) : Type 0 where
  pub same_length : length filled ≡ length index
  pub before : (j : ℕ) → j < i → get_elem? filled j ≡ get_elem? index j
  pub numbered : (j : ℕ) → i ≤ j → j < i + n → get_elem? filled j ≡ some (capacity - j - 1)

Numbered-later :
    (n i capacity : ℕ) (index next filled : List ℕ)
    → SetAt index i (capacity - i - 1) next
    → Numbered n (suc i) capacity next filled
    → Numbered (suc n) i capacity index filled
Numbered-later n i capacity index next filled s k = record {
  same_length = k.same_length ∙ s.same_length;
  before = λ j h. k.before j (omega arith) ∙ s.elsewhere j (omega arith);
  numbered = λ j low high. elim (eq_cases j i) [
    | inl e ↦ rw e (k.before i (omega arith) ∙ s.here)
    | inr ne ↦ k.numbered j (omega arith) (omega arith)
  ];
}

pub fill_index-Numbered :
    (n i capacity : ℕ) (index : List ℕ)
    → i + n ≤ length index
    → Gives (fill_index n i capacity index) (Numbered n i capacity index)
unfolding fill_index
fill_index-Numbered zero i capacity index h = record {
  same_length = refl;
  before = λ j p. refl;
  numbered = λ j low high. absurd (omega arith);
}
fill_index-Numbered (suc n) i capacity index h =
    Gives_bind (set_elem? index i (capacity - i - 1)) (fill_index n (suc i) capacity) _
      (set_elem?-SetAt index i (capacity - i - 1) (omega arith))
      (λ next s.
        Gives_map (fill_index n (suc i) capacity next)
          (fill_index-Numbered n (suc i) capacity next (omega (arith, s.same_length)))
          (λ filled k. Numbered-later n i capacity index next filled s k))

-- `clear_slots` over the slots from `i` to `i + n`.
pub record Cleared (n i : ℕ) (slots cleared : List Slot) : Type 0 where
  pub same_length : length cleared ≡ length slots
  pub before : (j : ℕ) → j < i → get_elem? cleared j ≡ get_elem? slots j
  pub null : (j : ℕ) → i ≤ j → j < i + n → get_elem? cleared j ≡ some none

Cleared-later :
    (n i : ℕ) (slots next cleared : List Slot)
    → SetAt slots i none next
    → Cleared n (suc i) next cleared
    → Cleared (suc n) i slots cleared
Cleared-later n i slots next cleared s k = record {
  same_length = k.same_length ∙ s.same_length;
  before = λ j h. k.before j (omega arith) ∙ s.elsewhere j (omega arith);
  null = λ j low high. elim (eq_cases j i) [
    | inl e ↦ rw e (k.before i (omega arith) ∙ s.here)
    | inr ne ↦ k.null j (omega arith) (omega arith)
  ];
}

pub clear_slots-Cleared :
    (n i : ℕ) (slots : List Slot)
    → i + n ≤ length slots
    → Gives (clear_slots n i slots) (Cleared n i slots)
unfolding clear_slots
clear_slots-Cleared zero i slots h = record {
  same_length = refl;
  before = λ j p. refl;
  null = λ j low high. absurd (omega arith);
}
clear_slots-Cleared (suc n) i slots h =
    Gives_bind (set_elem? slots i none) (clear_slots n (suc i)) _
      (set_elem?-SetAt slots i none (omega arith))
      (λ next s.
        Gives_map (clear_slots n (suc i) next)
          (clear_slots-Cleared n (suc i) next (omega (arith, s.same_length)))
          (λ cleared k. Cleared-later n i slots next cleared s k))
