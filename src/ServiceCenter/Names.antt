-- ===== src/ServiceCenter/Names.antt =====
-- The names of services, for the red-black tree of src/service/source/serviceCenter_t.c. The tree is
-- taken as the list of its nodes from the least one on, as RB_FOREACH visits them; its order is
-- `serviceNameNodeCmp`, which is `strcmp`. RB_INSERT and RB_FIND are code of another project, and
-- parameters.
use Prim.Native.Nat.{compare, Ordering}
use frog_game_framework.Base.{
  ℕ, ◌≡◌, ◌≢◌, ◌⊎◌, ◌↔◌, List, [], ◌∷◌, Option, none, some, ◌==◌, if◌then◌else◌,
}
use mathlib.Core.Option

abbrev pub Name : Type 0
Name = List ℕ

pub record Node : Type 0 where
  pub name : Name
  pub service_id : ℕ

-- The sign of `strcmp`: the bytes are compared as unsigned char, and the end of a string comes first.
unfoldable pub name_compare : Name → Name → Ordering
name_compare [] [] = Ordering.eq
name_compare [] (y ∷ ys) = Ordering.lt
name_compare (x ∷ xs) [] = Ordering.gt
name_compare (x ∷ xs) (y ∷ ys) =
    let rest = name_compare xs ys in elim (compare x y) [ Ordering.eq ↦ rest | o ↦ o ]

-- The node is one of them.
abbrev pub Holds : Node → List Node → Type 0
Holds x [] = ⊥
Holds x (y ∷ ys) = (x ≡ y) ⊎ Holds x ys

-- `RB_INSERT` and `RB_FIND` of the BSD tree in src/core/include/rbtree_t.h, on a tree that is ordered
-- by `serviceNameNodeCmp`, and what its documentation says of them. `insert` gives `none` where a
-- node compares equal; else it adds the new node to those of the tree. `find` gives the node that
-- compares equal, if there is one.
pub record NameTree : Type 1 where
  pub insert : Node → List Node → Option (List Node)
  pub find : Name → List Node → Option Node
  pub IsTree : List Node → Type 0
  pub unique :
      (x y : Node) (nodes : List Node)
      → IsTree nodes
      → Holds x nodes
      → Holds y nodes
      → name_compare x.name y.name ≡ Ordering.eq
      → x ≡ y
  pub found :
      (name : Name) (x : Node) (nodes : List Node)
      → IsTree nodes
      → find name nodes ≡ some x
      → Holds x nodes × (name_compare name x.name ≡ Ordering.eq)
  pub missing :
      (name : Name) (x : Node) (nodes : List Node)
      → IsTree nodes
      → find name nodes ≡ none
      → Holds x nodes
      → name_compare name x.name ≢ Ordering.eq
  pub refuses :
      (x : Node) (nodes : List Node)
      → IsTree nodes
      → insert x nodes ≡ none
      → (y : Node) × Holds y nodes × (name_compare x.name y.name ≡ Ordering.eq)
  pub inserts :
      (x : Node) (nodes more : List Node)
      → IsTree nodes
      → insert x nodes ≡ some more
      → IsTree more
        × ((y : Node) → Holds y nodes → name_compare x.name y.name ≢ Ordering.eq)
        × ((y : Node) → Holds y more ↔ ((y ≡ x) ⊎ Holds y nodes))

-- `RB_FOREACH` up to the first node with the identifier, and `RB_REMOVE` of it.
unfoldable pub remove_id : ℕ → List Node → Option (List Node)
remove_id id [] = none
remove_id id (node ∷ nodes) =
    let rest = remove_id id nodes in
    if node.service_id == id then some nodes else Option.map (λ tail. node ∷ tail) rest
