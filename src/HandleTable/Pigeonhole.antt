-- ===== src/HandleTable/Pigeonhole.antt =====
-- Different numbers below a bound are at most as many as the bound.
use frog_game_framework.Base.{
  ℕ, zero, suc, ◌+◌, ◌≡◌, ◌≢◌, ◌≤◌, ◌<◌, inl, inr, refl, List, [], ◌∷◌, some, length, get_elem?,
  eq_cases, if◌then◌else◌, ◌==◌, sym, ◌∙◌, eq→==, ne→==, arith, ltb, ap, lt→ltb, le→ltb,
}

-- How often `v` stands among the first `n` entries.
occurrences : ℕ → ℕ → List ℕ → ℕ
occurrences v zero xs = 0
occurrences v (suc n) [] = 0
occurrences v (suc n) (x ∷ xs) = (if x == v then 1 else 0) + occurrences v n xs

absent :
    (v n : ℕ) (xs : List ℕ) → ((k : ℕ) → k < n → get_elem? xs k ≢ some v) → occurrences v n xs ≡ 0
unfolding occurrences
absent v zero xs h = refl
absent v (suc n) [] h = refl
absent v (suc n) (x ∷ xs) h =
    rw
      (
        ne→== x v (λ e. h 0 (omega arith) (ap some e)),
        absent v n xs (λ k p. h (suc k) (omega arith)),
      )
      refl

-- Entries at different places are different.
abbrev Apart : ℕ → List ℕ → Type 0
Apart n xs = (j k i : ℕ) → j < n → k < n → get_elem? xs j ≡ some i → get_elem? xs k ≡ some i → j ≡ k

Apart-tail : (n x : ℕ) (xs : List ℕ) → Apart (suc n) (x ∷ xs) → Apart n xs
Apart-tail n x xs h j k i p q a b =
    omega (arith, h (suc j) (suc k) i (omega arith) (omega arith) a b)

once : (v n : ℕ) (xs : List ℕ) → Apart n xs → occurrences v n xs ≤ 1
unfolding occurrences
once v zero xs h = omega arith
once v (suc n) [] h = omega arith
once v (suc n) (x ∷ xs) h = elim (eq_cases x v) [
  | inl e ↦
      rw
        (
          eq→== x v e,
          absent v n xs (λ k p f.
              absurd (omega (arith, h 0 (suc k) v (omega arith) (omega arith) (ap some e) f))),
        )
        (omega arith)
  | inr ne ↦ rw (ne→== x v ne) (omega (arith, once v n xs (Apart-tail n x xs h)))
]

-- The entries among the first `n` that are below `m`.
below : ℕ → ℕ → List ℕ → ℕ
unfolding occurrences
below zero n xs = 0
below (suc m) n xs = occurrences m n xs + below m n xs

below_bound : (m n : ℕ) (xs : List ℕ) → Apart n xs → below m n xs ≤ m
unfolding below
below_bound zero n xs h = omega arith
below_bound (suc m) n xs h = omega (arith, once m n xs h, below_bound m n xs h)

below_cons :
    (m n x : ℕ) (xs : List ℕ) → below m (suc n) (x ∷ xs) ≡ (if ltb x m then 1 else 0) + below m n xs
unfolding below occurrences
below_cons zero n x xs = rw (le→ltb x 0 (omega arith)) refl
below_cons (suc m) n x xs = ground (arith, below_cons m n x xs)

below_zero : (m : ℕ) (xs : List ℕ) → below m 0 xs ≡ 0
unfolding below occurrences
below_zero zero xs = refl
below_zero (suc m) xs = omega (arith, below_zero m xs)

below_all :
    (m n : ℕ) (xs : List ℕ)
    → n ≤ length xs
    → ((j i : ℕ) → j < n → get_elem? xs j ≡ some i → i < m)
    → below m n xs ≡ n
below_all m zero xs h b = below_zero m xs
below_all m (suc n) [] h b = absurd (omega arith)
below_all m (suc n) (x ∷ xs) h b =
    rw
      (
        below_cons m n x xs,
        lt→ltb x m (b 0 x (omega arith) refl),
        below_all m n xs (omega arith) (λ j i p. b (suc j) i (omega arith)),
      )
      (omega arith)

-- A number below the bound that is not among them leaves room for one more.
pub room :
    (m n : ℕ) (xs : List ℕ) (v : ℕ)
    → n ≤ length xs
    → Apart n xs
    → ((j i : ℕ) → j < n → get_elem? xs j ≡ some i → i < m)
    → v < m
    → ((k : ℕ) → k < n → get_elem? xs k ≢ some v)
    → n < m
room m n xs v h apart b low new = omega (
  arith,
  below_all m (suc n) (v ∷ xs) (omega arith) bounds,
  below_bound m (suc n) (v ∷ xs) different,
)
  where
    bounds : (j i : ℕ) → j < suc n → get_elem? (v ∷ xs) j ≡ some i → i < m
    bounds zero i p e = ground arith
    bounds (suc j) i p e = b j i (omega arith) e

    different : Apart (suc n) (v ∷ xs)
    different zero zero i p q a c = refl
    different zero (suc k) i p q a c = absurd (new k (omega arith) (c ∙ sym a))
    different (suc j) zero i p q a c = absurd (new j (omega arith) (a ∙ sym c))
    different (suc j) (suc k) i p q a c = ap suc (apart j k i (omega arith) (omega arith) a c)
