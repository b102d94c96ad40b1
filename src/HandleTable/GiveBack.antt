-- ===== src/HandleTable/GiveBack.antt =====
-- A slot that is given back.
use frog_game_framework.Base.{
  ℕ, ◌+◌, ◌≡◌, ◌≢◌, ◌<◌, ◌⊎◌, inl, inr, refl, sym, ap, ◌∙◌, List, none, some, get_elem?, set_elem?,
  Gives, Gives_bind, SetAt, set_elem?-SetAt, get_elem?_bound, eq_cases, arith, subst,
  some-injective,
}
use frog_game_framework.HandleTable.{Slot, Handle, Table, give_slot}
use frog_game_framework.HandleTable.Occupied.{occupied_set}
use frog_game_framework.HandleTable.Pigeonhole.{room}
use frog_game_framework.HandleTable.Valid.{IsValid, IsClean, IsFree, Owns}

-- What `give_slot` makes of a table: the index is free again, and its slot is NULL.
pub record Given (t : Table) (i : ℕ) (u : Table) : Type 0 where
  pub valid : IsValid u
  pub now_free : IsFree u i
  pub same_capacity : u.capacity ≡ t.capacity
  pub changed : SetAt t.slots i none u.slots
  pub newly_free : (j : ℕ) → IsFree u j → (j ≡ i) ⊎ IsFree t j
  pub keeps_free : (j : ℕ) → IsFree t j → IsFree u j
  pub one_more : u.count ≡ t.count + 1

module _ (t : Table) (i : ℕ) (handle : Handle) (valid : IsValid t) (o : Owns t i handle) where
  inside : i < t.capacity
  inside = omega (arith, valid, get_elem?_bound t.slots i (some handle) o.stored)

  -- The stack has room for the index.
  space : t.count < t.capacity
  space =
      room t.capacity t.count t.index i (omega (arith, valid)) valid.distinct valid.in_range inside
        (λ k p e. o.taken (k, p, e))

  module _ (slots : List Slot) (s : SetAt t.slots i none slots) (index : List ℕ)
      (x : SetAt t.index t.count i index) where
    abbrev with_top : Table
    with_top = record t { slots = slots; index = index; count = t.count + 1 }

    -- An entry is the new one, or an old one.
    entry :
        (j v : ℕ)
        → j < t.count + 1
        → get_elem? index j ≡ some v
        → ((j ≡ t.count) × (v ≡ i)) ⊎ ((j < t.count) × (get_elem? t.index j ≡ some v))
    entry j v p e = elim (eq_cases j t.count) [
      | inl q ↦ inl (q, some-injective _ _ (sym e ∙ ap (λ k. get_elem? index k) q ∙ x.here))
      | inr ne ↦ inr (omega arith, sym (x.elsewhere j ne) ∙ e)
    ]

    with_top-distinct :
        (j k v : ℕ)
        → j < t.count + 1
        → k < t.count + 1
        → get_elem? index j ≡ some v
        → get_elem? index k ≡ some v
        → j ≡ k
    with_top-distinct j k v p q a b = elim (entry j v p a) [
      | inl c ↦ elim (entry k v q b) [
        | inl d ↦ omega arith
        | inr d ↦ absurd (o.taken (k, d.0, d.1 ∙ ap some c.1))
      ]
      | inr c ↦ elim (entry k v q b) [
        | inl d ↦ absurd (o.taken (j, c.0, c.1 ∙ ap some d.1))
        | inr d ↦ valid.distinct j k v c.0 d.0 c.1 d.1
      ]
    ]

    with_top-in_range : (j v : ℕ) → j < t.count + 1 → get_elem? index j ≡ some v → v < t.capacity
    with_top-in_range j v p e = elim (entry j v p e) [
      | inl c ↦ omega (arith, inside)
      | inr c ↦ valid.in_range j v c.0 c.1
    ]

    newly : (j : ℕ) → IsFree with_top j → (j ≡ i) ⊎ IsFree t j
    newly j (k, p, e) = elim (entry k j p e) [ inl c ↦ inl c.1 | inr c ↦ inr (k, c.0, c.1) ]

    with_top-Given : Given t i with_top
    with_top-Given = record {
      valid = record {
        slot_count = s.same_length ∙ valid.slot_count;
        index_count = x.same_length ∙ valid.index_count;
        some_slots = valid.some_slots;
        capped = valid.capped;
        within = omega (arith, space);
        in_range = with_top-in_range;
        distinct = with_top-distinct;
      };
      now_free = (t.count, omega arith, x.here);
      same_capacity = refl;
      changed = s;
      newly_free = newly;
      keeps_free = λ j f. (f.0, omega (arith, f.1), x.elsewhere f.0 (omega (arith, f.1)) ∙ f.2);
      one_more = refl;
    }

  -- Giving back a slot that is taken never writes outside the two arrays.
  pub give_slot-Given : Gives (give_slot t i) (Given t i)
  unfolding give_slot
  give_slot-Given =
      Gives_bind (set_elem? t.slots i none) _ (Given t i)
        (set_elem?-SetAt t.slots i none (omega (arith, valid, inside)))
        (λ slots s.
          Gives_bind (set_elem? t.index t.count i) _ (Given t i)
            (set_elem?-SetAt t.index t.count i (omega (arith, valid, space)))
            (λ index x. with_top-Given slots s index x))

pub Given-Owns :
    {t : Table} {i : ℕ} {u : Table} (j : ℕ) (other : Handle)
    → Given t i u
    → j ≢ i
    → Owns t j other
    → Owns u j other
Given-Owns j other g ne o = record {
  stored = g.changed.elsewhere j ne ∙ o.stored;
  taken = λ f. elim (g.newly_free j f) [ inl e ↦ ne e | inr old ↦ o.taken old ];
}

pub Given-origin :
    {t : Table} {i : ℕ} {u : Table} (j : ℕ) (other : Handle)
    → Given t i u
    → Owns u j other
    → (j ≢ i) × Owns t j other
Given-origin {t} {i} {u} j other g o =
    let ne : j ≢ i = λ e. o.taken (subst (IsFree u) (sym e) g.now_free) in
    (
      ne,
      record {
        stored = sym (g.changed.elsewhere j ne) ∙ o.stored;
        taken = λ f. o.taken (g.keeps_free j f);
      },
    )

pub Given-IsClean :
    {t : Table} {i : ℕ} {u : Table} (handle : Handle)
    → Given t i u
    → get_elem? t.slots i ≡ some (some handle)
    → IsClean t
    → IsClean u
Given-IsClean {t} {i} {u} handle g stored clean = record {
  free_null = λ j f. elim (eq_cases j i) [
    | inl e ↦ rw e g.changed.here
    | inr ne ↦
        g.changed.elsewhere j ne
        ∙ elim (g.newly_free j f) [ inl e ↦ absurd (ne e) | inr old ↦ clean.free_null j old ]
  ];
  conserved = omega (
    arith,
    g.one_more,
    g.same_capacity,
    clean.conserved,
    occupied_set t.slots i (some handle) none u.slots stored g.changed,
  );
}
