-- ===== src/Base/Arrays.antt =====
-- Arrays: lists that are read and written at a position.
use Prim.Native.Nat.{ℕ, zero, suc, ◌<◌}
use mathlib.Core.Path.{◌≡◌, refl, ap}
use mathlib.Core.Logic.{◌≢◌}
use mathlib.Core.List.{List, [], ◌∷◌}
use mathlib.Core.Option.{Option, none, some}
use mathlib.Core.Option
use native.Mathlib.Omega.{arith}
use frog_game_framework.Base.Lists.{length, get_elem?, set_elem?}
use frog_game_framework.Base.Fallible.{Gives}

-- `ys` is `xs` with `x` at `i`.
pub record SetAt {ℓ} {A : Type ℓ} (xs : List A) (i : ℕ) (x : A) (ys : List A) : Type ℓ where
  pub same_length : length ys ≡ length xs
  pub here : get_elem? ys i ≡ some x
  pub elsewhere : (j : ℕ) → j ≢ i → get_elem? ys j ≡ get_elem? xs j

module _ {A : Type 0} where
  after_head :
      (y : A) (xs : List A) (i : ℕ) (x : A) (ys : List A)
      → SetAt xs i x ys
      → SetAt (y ∷ xs) (suc i) x (y ∷ ys)
  after_head y xs i x ys s = record {
    same_length = ap suc s.same_length;
    here = s.here;
    elsewhere = λ j ne. at j ne;
  }
    where
      at : (j : ℕ) → j ≢ suc i → get_elem? (y ∷ ys) j ≡ get_elem? (y ∷ xs) j
      at zero ne = refl
      at (suc j) ne = s.elsewhere j (omega arith)

  pub set_elem?-SetAt :
      (xs : List A) (i : ℕ) (x : A) → i < length xs → Gives (set_elem? xs i x) (SetAt xs i x)
  set_elem?-SetAt [] i x h = absurd (omega arith)
  set_elem?-SetAt (y ∷ xs) zero x h = record {
    same_length = refl;
    here = refl;
    elsewhere = λ j ne. at j ne;
  }
    where
      at : (j : ℕ) → j ≢ zero → get_elem? (x ∷ xs) j ≡ get_elem? (y ∷ xs) j
      at zero ne = absurd (ne refl)
      at (suc j) ne = refl
  set_elem?-SetAt (y ∷ xs) (suc i) x h =
      put_back (set_elem? xs i x) (set_elem?-SetAt xs i x (omega arith))
    where
      put_back :
          (m : Option (List A))
          → Gives m (SetAt xs i x)
          → Gives (Option.map (λ ys. y ∷ ys) m) (SetAt (y ∷ xs) (suc i) x)
      put_back none g = g
      put_back (some ys) g = after_head y xs i x ys g

  -- What is inside an array can be read.
  pub get_elem?_inside : (xs : List A) (i : ℕ) → i < length xs → (x : A) × (get_elem? xs i ≡ some x)
  get_elem?_inside [] i h = absurd (omega arith)
  get_elem?_inside (x ∷ xs) zero h = (x, refl)
  get_elem?_inside (x ∷ xs) (suc i) h = get_elem?_inside xs i (omega arith)

  pub get_elem?_bound : (xs : List A) (i : ℕ) (x : A) → get_elem? xs i ≡ some x → i < length xs
  get_elem?_bound [] i x e = absurd (ground arith)
  get_elem?_bound (y ∷ xs) zero x e = omega arith
  get_elem?_bound (y ∷ xs) (suc i) x e = omega (arith, get_elem?_bound xs i x e)
