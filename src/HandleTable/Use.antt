-- ===== src/HandleTable/Use.antt =====
-- A slot that is taken and a slot that is given back.
use frog_game_framework.Base.{
  ℕ, ◌+◌, ◌-◌, ◌≡◌, ◌≢◌, ◌<◌, inl, inr, refl, sym, ap, ◌∙◌, List, none, some, ne→==, get_elem?,
  set_elem?, Gives, Gives_bind, SetAt, set_elem?-SetAt, get_elem?_inside, eq_cases, arith, subst,
  some-injective,
}
use frog_game_framework.HandleTable.{Slot, Handle, Table, take_slot}
use frog_game_framework.HandleTable.Occupied.{occupied_set}
use frog_game_framework.HandleTable.Valid.{IsValid, IsClean, IsFree, Owns}

-- What `take_slot` makes of a table: the index was free and has the handle now.
pub record Taken (t : Table) (handle : Handle) (r : ℕ × Table) : Type 0 where
  pub valid : IsValid r.1
  pub was_free : IsFree t r.0
  pub owns : Owns r.1 r.0 handle
  pub same_capacity : r.1.capacity ≡ t.capacity
  pub changed : SetAt t.slots r.0 (some handle) r.1.slots
  pub still_free : (j : ℕ) → IsFree r.1 j → IsFree t j
  pub keeps_free : (j : ℕ) → j ≢ r.0 → IsFree t j → IsFree r.1 j
  pub one_less : r.1.count + 1 ≡ t.count

module _ (t : Table) (handle : Handle) (valid : IsValid t) (more : 0 < t.count) where
  -- The table after the top `i` of the stack was given away.
  abbrev without_top : List Slot → Table
  without_top slots = record t { slots = slots; count = t.count - 1 }

  module _ (i : ℕ) (top : get_elem? t.index (t.count - 1) ≡ some i) (slots : List Slot)
      (s : SetAt t.slots i (some handle) slots) where
    without_top-IsValid : IsValid (without_top slots)
    without_top-IsValid = record {
      slot_count = s.same_length ∙ valid.slot_count;
      index_count = valid.index_count;
      some_slots = valid.some_slots;
      capped = valid.capped;
      within = omega (arith, valid);
      in_range = λ j k p e. valid.in_range j k (omega arith) e;
      distinct = λ j k v p q a b. valid.distinct j k v (omega arith) (omega arith) a b;
    }

    top_taken : ¬ IsFree (without_top slots) i
    top_taken (j, p, e) =
        omega (arith, valid.distinct j (t.count - 1) i (omega arith) (omega arith) e top)

    below_top : (j : ℕ) → j ≢ i → (f : IsFree t j) → f.0 < t.count - 1
    below_top j ne f = elim (eq_cases f.0 (t.count - 1)) [
      | inl e ↦ absurd (ne (some-injective _ _ (sym f.2 ∙ ap (get_elem? t.index) e ∙ top)))
      | inr other ↦ omega (arith, f.1)
    ]

    without_top-Taken : Taken t handle (i, without_top slots)
    without_top-Taken = record {
      valid = without_top-IsValid;
      was_free = (t.count - 1, omega arith, top);
      owns = record { stored = s.here; taken = top_taken };
      same_capacity = refl;
      changed = s;
      still_free = λ j f. (f.0, omega (arith, f.1), f.2);
      keeps_free = λ j ne f. (f.0, below_top j ne f, f.2);
      one_less = omega arith;
    }

  -- A valid table with a free slot gives it away without a fault.
  pub take_slot-Taken : Gives (take_slot t handle) (Taken t handle)
  unfolding take_slot
  take_slot-Taken =
      let (i, top) = get_elem?_inside t.index (t.count - 1) (omega (arith, valid)) in
      rw (ne→== t.count 0 (omega arith), top)
        (Gives_bind (set_elem? t.slots i (some handle)) _ (Taken t handle)
          (set_elem?-SetAt t.slots i (some handle)
            (omega (arith, valid, valid.in_range (t.count - 1) i (omega arith) top)))
          (λ slots s. without_top-Taken i top slots s))

-- Another handle keeps its slot.
pub Taken-Owns :
    {t : Table} {handle : Handle} {r : ℕ × Table} (j : ℕ) (other : Handle)
    → Taken t handle r
    → Owns t j other
    → Owns r.1 j other
Taken-Owns {t} {handle} {r} j other k o = record {
  stored = k.changed.elsewhere j (λ e. o.taken (subst (IsFree t) (sym e) k.was_free)) ∙ o.stored;
  taken = λ f. o.taken (k.still_free j f);
}

-- No other slot is taken.
pub Taken-origin :
    {t : Table} {handle : Handle} {r : ℕ × Table} (j : ℕ) (other : Handle)
    → Taken t handle r
    → j ≢ r.0
    → Owns r.1 j other
    → Owns t j other
Taken-origin j other k ne o = record {
  stored = sym (k.changed.elsewhere j ne) ∙ o.stored;
  taken = λ f. o.taken (k.keeps_free j ne f);
}

pub Taken-IsClean :
    {t : Table} {handle : Handle} {r : ℕ × Table} → Taken t handle r → IsClean t → IsClean r.1
Taken-IsClean {t} {handle} {r} k clean = record {
  free_null = λ i f.
      k.changed.elsewhere i (λ e. k.owns.taken (subst (IsFree r.1) e f))
      ∙ clean.free_null i (k.still_free i f);
  conserved = omega (
    arith,
    k.one_less,
    k.same_capacity,
    clean.conserved,
    occupied_set t.slots r.0 none (some handle) r.1.slots (clean.free_null r.0 k.was_free)
        k.changed,
  );
}
