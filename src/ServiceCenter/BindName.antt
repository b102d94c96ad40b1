-- ===== src/ServiceCenter/BindName.antt =====
-- serviceCenter_bindName and serviceCenter_findServiceID, over the tree of names.
use Prim.Native.Nat.{Ordering}
use frog_game_framework.Base.{
  ℕ, ◌≡◌, ◌≢◌, ◌⊎◌, ◌↔◌, inl, inr, refl, sym, ap, ◌∙◌, subst, List, Option, none, some, Bool, true,
  false, eq→==, ne→==, eq_cases, bit_and,
}
use frog_game_framework.HandleTable.Objects.{Objects}
use frog_game_framework.ServiceCenter.NameOrder.{name_compare_refl, name_compare_equal}
use frog_game_framework.ServiceCenter.Names.{Name, Node, name_compare, Holds, NameTree}
use frog_game_framework.ServiceCenter.Registry.{running}
use frog_game_framework.ServiceCenter.{Service, ServiceCenter, State, bind_name, find_service_id}

-- The identifiers that may get a name: those of services of this node.
abbrev pub MayBind : ServiceCenter → ℕ → Type 0
MayBind c id = (bit_and id 0x80000000 ≡ 0) × (bit_and id c.server_node_mask ≢ 0)

module _ (tree : NameTree) (c : ServiceCenter) (services : Objects Service) (id : ℕ)
    (name : Name) where
  abbrev new_node : Node
  new_node = record { name = name; service_id = id }

  -- What `bind_name` gives where the name is free.
  pub record NameBound (r : Bool × State) : Type 0 where
    pub may_bind : MayBind c id
    pub succeeds : r.0 ≡ true
    pub names : List Node
    pub after : r.1 ≡ running (record c { names = names }) services
    pub is_tree : tree.IsTree names
    pub was_free : (x : Node) → Holds x c.names → x.name ≢ name
    pub found : find_service_id tree r.1 name ≡ id
    pub others :
        (m : Name)
        → m ≢ name
        → find_service_id tree r.1 m ≡ find_service_id tree (running c services) m

  -- The name has an identifier, and nothing changes.
  pub record NameKnown (r : Bool × State) : Type 0 where
    pub may_bind : MayBind c id
    pub unchanged : r ≡ (false, running c services)
    pub owner : Node
    pub owned : Holds owner c.names
    pub same_name : owner.name ≡ name

  -- The identifier may not get a name, and nothing changes.
  abbrev pub NotBound : Bool × State → Type 0
  NotBound r = (¬ MayBind c id) × (r ≡ (false, running c services))

  equal_names : (x y : Name) → x ≡ y → name_compare x y ≡ Ordering.eq
  equal_names x y e = subst (λ z. name_compare x z ≡ Ordering.eq) e (name_compare_refl x)

  -- What the two trees find: the same node, or nothing.
  found_alike :
      (names : List Node) (m : Name)
      → tree.IsTree c.names
      → tree.IsTree names
      → ((y : Node) → Holds y names ↔ ((y ≡ new_node) ⊎ Holds y c.names))
      → m ≢ name
      → (now before : Option Node) → tree.find m names ≡ now
      → tree.find m c.names ≡ before
      → now ≡ before
  found_alike names m old new same ne none none e f = refl
  found_alike names m old new same ne none (some x) e f =
      let (there, equal) = tree.found m x c.names old f in
      absurd (tree.missing m x names new e ((same x).1 (inr there)) equal)
  found_alike names m old new same ne (some x) none e f =
      let (there, equal) = tree.found m x names new e in
      elim ((same x).0 there) [
        | inl it ↦ absurd (ne (name_compare_equal m x.name equal ∙ ap (λ n. n.name) it))
        | inr before ↦ absurd (tree.missing m x c.names old f before equal)
      ]
  found_alike names m old new same ne (some x) (some y) e f =
      let (there, equal) = tree.found m x names new e in
      let (here, also) = tree.found m y c.names old f in
      ap some (
        tree.unique x y names new there ((same y).1 (inr here)) (
          equal_names x.name y.name
            (sym (name_compare_equal m x.name equal) ∙ name_compare_equal m y.name also)))

  -- The new tree finds the new node.
  found_new :
      (names : List Node)
      → tree.IsTree names
      → Holds new_node names
      → (now : Option Node) → tree.find name names ≡ now
      → now ≡ some new_node
  found_new names new there none e =
      absurd (tree.missing name new_node names new e there (name_compare_refl name))
  found_new names new there (some x) e =
      let (holds, equal) = tree.found name x names new e in
      ap some (
        tree.unique x new_node names new holds there
          (equal_names x.name name (sym (name_compare_equal name x.name equal))))

  abbrev id_of : Option Node → ℕ
  id_of none = 0
  id_of (some node) = node.service_id

  abbrev Bound : Bool × State → Type 0
  Bound r = NameKnown r ⊎ NameBound r

  by_insert :
      (inserted : Option (List Node))
      → tree.insert new_node c.names ≡ inserted
      → tree.IsTree c.names
      → MayBind c id
      → Bound (elim inserted as (λ _. Bool × State) [
        | none ↦ (false, running c services)
        | some names ↦ (true, running (record c { names = names }) services)
      ])
  unfolding find_service_id
  by_insert none e old m =
      let (owner, owned, equal) = tree.refuses new_node c.names old e in
      inl (record {
        may_bind = m;
        unchanged = refl;
        owner = owner;
        owned = owned;
        same_name = sym (name_compare_equal name owner.name equal);
      })
  by_insert (some names) e old m =
      let (new, is_new, same) = tree.inserts new_node c.names names old e in
      let there = (same new_node).1 (inl refl) in
      inr (record {
        may_bind = m;
        succeeds = refl;
        names = names;
        after = refl;
        is_tree = new;
        was_free = λ x holds e2. is_new x holds (equal_names name x.name (sym e2));
        found = ap id_of (found_new names new there (tree.find name names) refl);
        others = λ k ne. ap id_of (
            found_alike names k old new same ne (tree.find k names) (tree.find k c.names) refl
              refl);
      })

  -- On a tree of names, `bind_name` gives a free name the identifier, which `find_service_id` then
  -- finds, and keeps the tree and what it finds by every other name; it refuses a name that is
  -- there, and an identifier that is not one of this node, and nothing changes then.
  pub bind_name-find_service_id :
      tree.IsTree c.names
      → NotBound (bind_name tree (running c services) id name)
        ⊎ (NameKnown (bind_name tree (running c services) id name)
            ⊎ NameBound (bind_name tree (running c services) id name))
  unfolding bind_name
  bind_name-find_service_id old = elim (eq_cases (bit_and id 0x80000000) 0) [
    | inl e ↦ elim (eq_cases (bit_and id c.server_node_mask) 0) [
      | inl z ↦ inl (
        λ m. m.1 z,
        rw (eq→== (bit_and id 0x80000000) 0 e, eq→== (bit_and id c.server_node_mask) 0 z) refl,
      )
      | inr nz ↦ inr (
          rw (eq→== (bit_and id 0x80000000) 0 e, ne→== (bit_and id c.server_node_mask) 0 nz)
            (by_insert (tree.insert new_node c.names) refl old (e, nz)))
    ]
    | inr ne ↦ inl (λ m. ne m.0, rw (ne→== (bit_and id 0x80000000) 0 ne) refl)
  ]
