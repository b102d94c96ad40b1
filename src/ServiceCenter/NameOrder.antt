-- ===== src/ServiceCenter/NameOrder.antt =====
-- The order of names.
use Prim.Native.Nat.{Ordering}
use frog_game_framework.Base.{◌≡◌, refl, [], ◌∷◌, arith}
use frog_game_framework.ServiceCenter.Names.{Name, name_compare}

pub name_compare_refl : (a : Name) → name_compare a a ≡ Ordering.eq
unfolding name_compare
name_compare_refl [] = refl
name_compare_refl (x ∷ xs) = ground (arith, name_compare_refl xs)

pub name_compare_equal : (a b : Name) → name_compare a b ≡ Ordering.eq → a ≡ b
unfolding name_compare
name_compare_equal [] [] e = refl
name_compare_equal [] (y ∷ ys) e = absurd (ground arith)
name_compare_equal (x ∷ xs) [] e = absurd (ground arith)
name_compare_equal (x ∷ xs) (y ∷ ys) e = ground (arith, name_compare_equal xs ys)
