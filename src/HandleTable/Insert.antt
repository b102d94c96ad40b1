-- ===== src/HandleTable/Insert.antt =====
-- A handle that is put into a table, which grows where it has no free slot.
use frog_game_framework.Base.{
  ℕ, ◌*◌, ◌≡◌, ◌≢◌, ◌≤◌, ◌<◌, inl, inr, sym, ◌∙◌, min, List, Option, none, some, eq→==, ne→==,
  length, Gives, Gives_bind, Gives_map, get_elem?_bound, eq_cases, lt_cases, arith,
}
use frog_game_framework.HandleTable.{
  Slot, Handle, Table, Allocator, handle_mask, take_slot, grow, insert,
}
use frog_game_framework.HandleTable.Start.{Renewed, RenewedNull, Grown, grow-Grown, grow-IsClean}
use frog_game_framework.HandleTable.Use.{
  Taken, take_slot-Taken, Taken-Owns, Taken-origin, Taken-IsClean,
}
use frog_game_framework.HandleTable.Valid.{IsValid, IsClean, Owns, Owns-inside}

-- The handle has a slot that no other one had, and every other one keeps its slot.
pub record InsertedAt (t : Table) (handle : Handle) (r : ℕ × Table) : Type 0 where
  pub valid : IsValid r.1
  pub inside : r.0 < r.1.capacity
  pub owns : Owns r.1 r.0 handle
  pub unused : (other : Handle) → ¬ Owns t r.0 other
  pub others : (j : ℕ) (other : Handle) → Owns t j other → Owns r.1 j other
  pub origin : (j : ℕ) (other : Handle) → j ≢ r.0 → Owns r.1 j other → Owns t j other

-- `none` only where the table is full and has its last size.
abbrev pub Inserted : Table → Handle → Option (ℕ × Table) → Type 0
Inserted t handle none = (t.count ≡ 0) × (t.capacity ≡ handle_mask)
Inserted t handle (some r) = InsertedAt t handle r

-- The same, with a table that stays clean.
abbrev pub InsertedClean : Table → Handle → Option (ℕ × Table) → Type 0
InsertedClean t handle none = (t.count ≡ 0) × (t.capacity ≡ handle_mask)
InsertedClean t handle (some r) = InsertedAt t handle r × IsClean r.1

of_Taken : (t : Table) (handle : Handle) (r : ℕ × Table) → Taken t handle r → InsertedAt t handle r
of_Taken t handle r k = record {
  valid = k.valid;
  inside = omega (arith, k.valid, get_elem?_bound r.1.slots r.0 (some handle) k.owns.stored);
  owns = k.owns;
  unused = λ other o. o.taken k.was_free;
  others = λ j other o. Taken-Owns j other k o;
  origin = λ j other ne o. Taken-origin j other k ne o;
}

Grown-Owns :
    (t u : Table) (j : ℕ) (handle : Handle)
    → IsValid t
    → Grown t u
    → Owns t j handle
    → Owns u j handle
Grown-Owns t u j handle valid g o =
    let bound = get_elem?_bound t.slots j (some handle) o.stored in
    record {
      stored = g.kept.kept j bound ∙ o.stored;
      taken = λ f. absurd (omega (arith, valid, bound, g.fresh j f));
    }

Grown-origin :
    (t u : Table) (j : ℕ) (handle : Handle)
    → IsValid t
    → t.count ≡ 0
    → Grown t u
    → Owns u j handle
    → Owns t j handle
Grown-origin t u j handle valid full g o = elim (lt_cases j t.capacity) [
  | inl h ↦ record {
    stored = sym (g.kept.kept j (omega (arith, valid))) ∙ o.stored;
    taken = λ f. absurd (omega (arith, full, f.1));
  }
  | inr h ↦ absurd (o.taken (g.all_new j h (Owns-inside u j handle g.valid o)))
]

after_Grown :
    (t u : Table) (handle : Handle) (r : ℕ × Table)
    → IsValid t
    → t.count ≡ 0
    → Grown t u
    → Taken u handle r
    → InsertedAt t handle r
after_Grown t u handle r valid full g k =
    let i = of_Taken u handle r k in
    record {
      valid = i.valid;
      inside = i.inside;
      owns = i.owns;
      unused = λ other o. i.unused other (Grown-Owns t u r.0 other valid g o);
      others = λ j other o. i.others j other (Grown-Owns t u j other valid g o);
      origin = λ j other ne o. Grown-origin t u j other valid full g (i.origin j other ne o);
    }

module _ (a : Allocator) (renew : List Slot → ℕ → ℕ → Option (List Slot)) (t : Table)
    (handle : Handle) (valid : IsValid t) where
  -- The three ways through `insert`.
  insert_gives :
      (P : Table → Type 0) (Q : Option (ℕ × Table) → Type 0)
      → (t.count ≡ 0 → t.capacity ≡ handle_mask → Q none)
      → (t.count ≡ 0 → t.capacity ≢ handle_mask → Gives (grow a renew t) (λ u. Grown t u × P u))
      → ((u : Table) (r : ℕ × Table)
          → t.count ≡ 0
          → Grown t u
          → P u
          → Taken u handle r
          → Q (some r))
      → ((r : ℕ × Table) → Taken t handle r → Q (some r))
      → Gives (insert a renew t handle) Q
  unfolding insert
  insert_gives P Q at_end grows after_grow at_once = elim (eq_cases t.count 0) [
    | inl full ↦ rw (eq→== t.count 0 full) (elim (eq_cases t.capacity handle_mask) [
      | inl last ↦ rw (eq→== t.capacity handle_mask last) (at_end full last)
      | inr small ↦ rw (ne→== t.capacity handle_mask small) (
          Gives_bind (grow a renew t) _ Q (grows full small) (λ u g.
            Gives_bind (take_slot u handle) _ Q (take_slot-Taken u handle g.0.valid g.0.room_made)
              (λ r k. after_grow u r full g.0 g.1 k)))
    ])
    | inr free ↦
        rw (ne→== t.count 0 free) (
          Gives_bind (take_slot t handle) _ Q (take_slot-Taken t handle valid (omega arith))
            at_once)
  ]

  -- Inserting into a valid table does not fault.
  pub insert-Inserted :
      ((slots : List Slot) (old n : ℕ)
        → length slots ≡ old
        → old ≤ n
        → Gives (renew slots old n) (Renewed slots n))
      → Gives (insert a renew t handle) (Inserted t handle)
  insert-Inserted renews =
      insert_gives (λ u. Unit {0}) (Inserted t handle) (λ full last. (full, last))
        (λ full small.
          Gives_map (grow a renew t)
            (grow-Grown a renew t valid small (
              renews t.slots t.capacity (min (t.capacity * 2) handle_mask) valid.slot_count
                (omega (arith, valid))))
            (λ u g. (g, tt)))
        (λ u r full g _ k. after_Grown t u handle r valid full g k) (λ r k. of_Taken t handle r k)

  -- A clean table stays clean where the new slots are cleared.
  pub insert-InsertedClean :
      IsClean t
      → ((slots : List Slot) (old n : ℕ)
          → length slots ≡ old
          → old ≤ n
          → Gives (renew slots old n) (RenewedNull slots n))
      → Gives (insert a renew t handle) (InsertedClean t handle)
  insert-InsertedClean clean renews =
      insert_gives IsClean (InsertedClean t handle) (λ full last. (full, last))
        (λ full small. grow-IsClean a renew t valid small full clean (
          renews t.slots t.capacity (min (t.capacity * 2) handle_mask) valid.slot_count
            (omega (arith, valid))))
        (λ u r full g c k. (after_Grown t u handle r valid full g k, Taken-IsClean k c))
        (λ r k. (of_Taken t handle r k, Taken-IsClean k clean))
