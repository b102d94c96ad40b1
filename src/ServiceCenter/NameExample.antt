-- ===== src/ServiceCenter/NameExample.antt =====
-- A tree of names that is a list, with new nodes in front.
use Prim.Native.Nat.{Ordering}
use frog_game_framework.Base.{
  ◌≡◌, ◌≢◌, ◌⊎◌, inl, inr, ◌↔◌, refl, sym, ap, ◌∙◌, subst, List, [], ◌∷◌, Option, none, some,
  some-injective, arith,
}
use frog_game_framework.ServiceCenter.NameOrder.{name_compare_refl, name_compare_equal}
use frog_game_framework.ServiceCenter.Names.{Name, Node, name_compare, Holds, NameTree}

-- The first node with the name.
unfoldable pub listed : Name → List Node → Option Node
listed name [] = none
listed name (y ∷ ys) =
    let rest = listed name ys in
    elim (name_compare name y.name) [
      | Ordering.lt ↦ rest
      | Ordering.eq ↦ some y
      | Ordering.gt ↦ rest
    ]

unfoldable pub enlisted : Node → List Node → Option (List Node)
enlisted x nodes = elim (listed x.name nodes) [ none ↦ some (x ∷ nodes) | some y ↦ none ]

-- No two nodes have one name.
abbrev pub IsDistinct : List Node → Type 0
IsDistinct [] = Unit {0}
IsDistinct (y ∷ ys) =
    ((x : Node) → Holds x ys → name_compare y.name x.name ≢ Ordering.eq) × IsDistinct ys

compare_sym : (a b : Name) → name_compare a b ≡ Ordering.eq → name_compare b a ≡ Ordering.eq
compare_sym a b e =
    subst (λ c. name_compare c a ≡ Ordering.eq) (name_compare_equal a b e) (name_compare_refl a)

pub listed_found :
    (name : Name) (x : Node) (nodes : List Node)
    → listed name nodes ≡ some x
    → Holds x nodes × (name_compare name x.name ≡ Ordering.eq)
unfolding listed
listed_found name x [] e = absurd (ground (arith, e))
listed_found name x (y ∷ ys) e =
    by_order (λ f. let r = listed_found name x ys f in (inr r.0, r.1)) (name_compare name y.name)
      refl e
  where
    by_order :
        (listed name ys ≡ some x → Holds x (y ∷ ys) × (name_compare name x.name ≡ Ordering.eq))
        → (o : Ordering) → name_compare name y.name ≡ o
        → elim o as (λ _. Option Node) [
          | Ordering.lt ↦ listed name ys
          | Ordering.eq ↦ some y
          | Ordering.gt ↦ listed name ys
        ]
          ≡ some x
        → Holds x (y ∷ ys) × (name_compare name x.name ≡ Ordering.eq)
    by_order later Ordering.lt o f = later f
    by_order later Ordering.gt o f = later f
    by_order later Ordering.eq o f =
        let same = some-injective _ _ f in
        (inl (sym same), subst (λ z. name_compare name z.name ≡ Ordering.eq) same o)

pub listed_missing :
    (name : Name) (x : Node) (nodes : List Node)
    → listed name nodes ≡ none
    → Holds x nodes
    → name_compare name x.name ≢ Ordering.eq
unfolding listed
listed_missing name x [] e holds equal = elim holds [ ]
listed_missing name x (y ∷ ys) e (inl same) equal =
    absurd (ground (arith, e, ap (λ z. name_compare name z.name) same, equal))
listed_missing name x (y ∷ ys) e (inr holds) equal =
    by_order (λ f. listed_missing name x ys f holds equal) (name_compare name y.name) e
  where
    by_order :
        (listed name ys ≡ none → ⊥)
        → (o : Ordering)
        → elim o as (λ _. Option Node) [
          | Ordering.lt ↦ listed name ys
          | Ordering.eq ↦ some y
          | Ordering.gt ↦ listed name ys
        ]
          ≡ none
        → ⊥
    by_order later Ordering.lt f = later f
    by_order later Ordering.gt f = later f
    by_order later Ordering.eq f = ground (arith, f)

pub distinct_unique :
    (x y : Node) (nodes : List Node)
    → IsDistinct nodes
    → Holds x nodes
    → Holds y nodes
    → name_compare x.name y.name ≡ Ordering.eq
    → x ≡ y
distinct_unique x y [] d h _ e = elim h [ ]
distinct_unique x y (z ∷ zs) d (inl a) (inl b) e = a ∙ sym b
distinct_unique x y (z ∷ zs) d (inl a) (inr b) e =
    absurd (d.0 y b (subst (λ w. name_compare w.name y.name ≡ Ordering.eq) a e))
distinct_unique x y (z ∷ zs) d (inr a) (inl b) e = absurd (
    d.0 x a (subst (λ w. name_compare w.name x.name ≡ Ordering.eq) b (compare_sym x.name y.name e)))
distinct_unique x y (z ∷ zs) d (inr a) (inr b) e = distinct_unique x y zs d.1 a b e

pub enlisted_refuses :
    (x : Node) (nodes : List Node)
    → enlisted x nodes ≡ none
    → (y : Node) × Holds y nodes × (name_compare x.name y.name ≡ Ordering.eq)
unfolding enlisted
enlisted_refuses x nodes e = by_found (listed x.name nodes) refl e
  where
    by_found :
        (o : Option Node)
        → listed x.name nodes ≡ o
        → elim o as (λ _. Option (List Node)) [ none ↦ some (x ∷ nodes) | some y ↦ none ] ≡ none
        → (y : Node) × Holds y nodes × (name_compare x.name y.name ≡ Ordering.eq)
    by_found none o f = absurd (ground (arith, f))
    by_found (some y) o f = let (holds, equal) = listed_found x.name y nodes o in (y, holds, equal)

abbrev pub Inserts : Node → List Node → List Node → Type 0
Inserts x nodes more =
    IsDistinct more
    × ((y : Node) → Holds y nodes → name_compare x.name y.name ≢ Ordering.eq)
    × ((y : Node) → Holds y more ↔ ((y ≡ x) ⊎ Holds y nodes))

pub enlisted-Inserts :
    (x : Node) (nodes more : List Node)
    → IsDistinct nodes
    → enlisted x nodes ≡ some more
    → Inserts x nodes more
unfolding enlisted
enlisted-Inserts x nodes more d e = by_found (listed x.name nodes) refl e
  where
    by_found :
        (o : Option Node)
        → listed x.name nodes ≡ o
        → elim o as (λ _. Option (List Node)) [ none ↦ some (x ∷ nodes) | some y ↦ none ]
          ≡ some more
        → Inserts x nodes more
    by_found (some y) o f = absurd (ground (arith, f))
    by_found none o f =
        let new : (y : Node) → Holds y nodes → name_compare x.name y.name ≢ Ordering.eq =
          λ y holds. listed_missing x.name y nodes o holds in
        subst (λ m. Inserts x nodes m) (some-injective _ _ f) ((new, d), new, λ y. (λ h. h, λ h. h))

abbrev pub name_list : NameTree
name_list = record {
  insert = enlisted;
  find = listed;
  IsTree = IsDistinct;
  unique = distinct_unique;
  found = λ name x nodes d e. listed_found name x nodes e;
  missing = λ name x nodes d e holds. listed_missing name x nodes e holds;
  refuses = λ x nodes d e. enlisted_refuses x nodes e;
  inserts = enlisted-Inserts;
}
