-- ===== src/HandleTable/Occupied.antt =====
-- How the number of slots with a handle changes.
use frog_game_framework.Base.{
  ℕ, zero, suc, ◌+◌, ◌≡◌, ◌≤◌, ◌<◌, refl, List, [], ◌∷◌, none, some, length, get_elem?, SetAt,
  some-injective, arith,
}
use frog_game_framework.HandleTable.{Slot}
use frog_game_framework.HandleTable.Valid.{occupied, weight}

-- An array that begins with the slots of another one and has only NULL behind them.
pub occupied_extended :
    (xs ys : List Slot)
    → length xs ≤ length ys
    → ((i : ℕ) → i < length xs → get_elem? ys i ≡ get_elem? xs i)
    → ((i : ℕ) → length xs ≤ i → i < length ys → get_elem? ys i ≡ some none)
    → occupied ys ≡ occupied xs
unfolding occupied
occupied_extended [] [] h kept null = refl
occupied_extended [] (y ∷ ys) h kept null =
    rw (some-injective _ _ (null 0 (omega arith) (omega arith))) (
      omega (
        arith,
        occupied_extended [] ys (omega arith) (λ i p. absurd (omega arith))
            (λ i p q. null (suc i) (omega arith) (omega arith)),
      ))
occupied_extended (x ∷ xs) [] h kept null = absurd (omega arith)
occupied_extended (x ∷ xs) (y ∷ ys) h kept null =
    rw
      (
        some-injective _ _ (kept 0 (omega arith)),
        occupied_extended xs ys (omega arith) (λ i p. kept (suc i) (omega arith))
            (λ i p q. null (suc i) (omega arith) (omega arith)),
      )
      refl

-- One slot that changes.
pub occupied_set :
    (xs : List Slot) (i : ℕ) (old new : Slot) (ys : List Slot)
    → get_elem? xs i ≡ some old
    → SetAt xs i new ys
    → occupied ys + weight old ≡ occupied xs + weight new
unfolding occupied
occupied_set [] i old new ys e s = absurd (ground arith)
occupied_set (x ∷ xs) i old new [] e s = absurd (omega (arith, s.same_length))
occupied_set (x ∷ xs) zero old new (y ∷ ys) e s =
    rw
      (
        some-injective _ _ e,
        some-injective _ _ s.here,
        occupied_extended xs ys (omega (arith, s.same_length))
            (λ i p. s.elsewhere (suc i) (omega arith))
            (λ i p q. absurd (omega (arith, s.same_length))),
      )
      (omega arith)
occupied_set (x ∷ xs) (suc i) old new (y ∷ ys) e s =
    rw (some-injective _ _ (s.elsewhere 0 (omega arith))) (
      omega (
        arith,
        occupied_set xs i old new ys e (record {
          same_length = omega (arith, s.same_length);
          here = s.here;
          elsewhere = λ j ne. s.elsewhere (suc j) (omega arith);
        }),
      ))
