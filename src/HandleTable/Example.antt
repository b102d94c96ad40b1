-- ===== src/HandleTable/Example.antt =====
-- A small table and an allocator, for the tests of the centres.
use frog_game_framework.Base.{
  ℕ, zero, suc, ◌≡◌, ◌≤◌, ◌<◌, refl, sym, ap, List, [], ◌∷◌, none, some, length, get_elem?, arith,
  some-injective,
}
use frog_game_framework.HandleTable.{Slot, Handle, Table, Allocator}
use frog_game_framework.HandleTable.Valid.{IsValid, IsClean, Owns, occupied}
use frog_game_framework.Memory.Zeroed.{zeros, length-zeros}

-- Slots that are all NULL.
abbrev pub nulls : ℕ → List Slot
nulls zero = []
nulls (suc n) = none ∷ nulls n

pub length-nulls : (n : ℕ) → length (nulls n) ≡ n
length-nulls zero = refl
length-nulls (suc n) = ap suc (length-nulls n)

-- The slots in another size.
abbrev resized : List Slot → ℕ → List Slot
resized [] n = nulls n
resized (slot ∷ slots) zero = []
resized (slot ∷ slots) (suc n) = slot ∷ resized slots n

pub length-resized : (slots : List Slot) (n : ℕ) → length (resized slots n) ≡ n
length-resized [] n = length-nulls n
length-resized (slot ∷ slots) zero = refl
length-resized (slot ∷ slots) (suc n) = ap suc (length-resized slots n)

pub resized_keeps :
    (slots : List Slot) (n i : ℕ) (x : Slot)
    → length slots ≤ n
    → get_elem? slots i ≡ some x
    → get_elem? (resized slots n) i ≡ some x
resized_keeps [] n i x h e = absurd (ground arith)
resized_keeps (slot ∷ slots) zero i x h e = absurd (omega arith)
resized_keeps (slot ∷ slots) (suc n) zero x h e = e
resized_keeps (slot ∷ slots) (suc n) (suc i) x h e = resized_keeps slots n i x (omega arith) e

abbrev pub null_allocator : Allocator
null_allocator = record {
  malloc_index = zeros;
  malloc_slots = nulls;
  realloc_slots = resized;
  length-malloc_index = length-zeros;
  length-malloc_slots = length-nulls;
  length-realloc_slots = length-resized;
  realloc_slots-keeps = resized_keeps;
}

-- The handle 5 has slot 0, and slot 1 is free.
abbrev pub half_full : Table
half_full = record { slots = some 5 ∷ none ∷ []; capacity = 2; index = 1 ∷ 0 ∷ []; count = 1 }

top_entry : (j i : ℕ) → j < 1 → get_elem? (1 ∷ 0 ∷ []) j ≡ some i → 1 ≡ i
top_entry zero i p e = some-injective _ _ e
top_entry (suc j) i p e = absurd (omega arith)

pub half_full-IsValid : IsValid half_full
half_full-IsValid = record {
  slot_count = refl;
  index_count = refl;
  some_slots = omega arith;
  capped = omega arith;
  within = omega arith;
  in_range = λ j i p e. omega (arith, top_entry j i p e);
  distinct = λ j k i p q a b. omega arith;
}

pub half_full-IsClean : IsClean half_full
unfolding occupied
half_full-IsClean = record {
  free_null = λ i f. rw (sym (top_entry f.0 i f.1 f.2)) refl;
  conserved = refl;
}

pub half_full-Owns : Owns half_full 0 5
half_full-Owns = record {
  stored = refl;
  taken = λ f. absurd (omega (arith, top_entry f.0 0 f.1 f.2));
}

-- Nothing else is taken.
pub only_taken : (i : ℕ) (p : Handle) → Owns half_full i p → (i ≡ 0) × (p ≡ 5)
only_taken zero p o = (refl, sym (some-injective _ _ (some-injective _ _ o.stored)))
only_taken (suc zero) p o = absurd (ground (arith, o.stored))
only_taken (suc (suc i)) p o = absurd (ground (arith, o.stored))
