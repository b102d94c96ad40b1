-- ===== src/HandleTable/Start.antt =====
-- The first table, and a table that has grown.
use frog_game_framework.Base.{
  ℕ, ◌+◌, ◌-◌, ◌*◌, ◌≡◌, ◌≢◌, ◌≤◌, ◌<◌, sym, ap, ◌∙◌, min, List, [], Option, none, some, length,
  get_elem?, Gives, Gives_bind, some-injective, arith,
}
use frog_game_framework.HandleTable.{
  Slot, Table, Allocator, first_capacity, handle_mask, clear_slots, fill_index, make_table, grow,
}
use frog_game_framework.HandleTable.Index.{
  Numbered, fill_index-Numbered, Cleared, clear_slots-Cleared,
}
use frog_game_framework.HandleTable.Occupied.{occupied_extended}
use frog_game_framework.HandleTable.Valid.{IsValid, IsClean, IsFree, occupied}

-- A table whose free indices were just numbered.
module _ (slots : List Slot) (capacity count : ℕ) (index filled : List ℕ)
    (size : length index ≡ capacity) (fits : count ≤ capacity)
    (numbers : Numbered count 0 capacity index filled) where
  abbrev fresh_table : Table
  fresh_table = record { slots = slots; capacity = capacity; index = filled; count = count }

  entry : (j i : ℕ) → j < count → get_elem? filled j ≡ some i → i ≡ capacity - j - 1
  entry j i p e = some-injective _ _ (sym e ∙ numbers.numbered j (omega arith) (omega arith))

  fresh_table-IsValid :
      length slots ≡ capacity → 0 < capacity → capacity ≤ handle_mask → IsValid fresh_table
  fresh_table-IsValid same pos cap = record {
    slot_count = same;
    index_count = numbers.same_length ∙ size;
    some_slots = pos;
    capped = cap;
    within = fits;
    in_range = λ j i p e. omega (arith, entry j i p e);
    distinct = λ j k i p q a b. omega (arith, entry j i p a, entry k i q b);
  }

  fresh_above : (i : ℕ) → IsFree fresh_table i → capacity - count ≤ i
  fresh_above i (j, p, e) = omega (arith, entry j i p e)

  fresh_below : (i : ℕ) → IsFree fresh_table i → i < capacity
  fresh_below i (j, p, e) = omega (arith, entry j i p e)

  fresh_all : (i : ℕ) → capacity - count ≤ i → i < capacity → IsFree fresh_table i
  fresh_all i low high = (
    capacity - i - 1,
    omega arith,
    numbers.numbered (capacity - i - 1) (omega arith) (omega arith)
        ∙ ap some {x = capacity - (capacity - i - 1) - 1} {y = i} (omega arith),
  )

-- What `renew` has to give: the new size, and the old slots in their places.
pub record Renewed (slots : List Slot) (n : ℕ) (renewed : List Slot) : Type 0 where
  pub size : length renewed ≡ n
  pub kept : (i : ℕ) → i < length slots → get_elem? renewed i ≡ get_elem? slots i

-- In addition, the new slots are NULL.
pub record RenewedNull (slots : List Slot) (n : ℕ) (renewed : List Slot) : Type 0 where
  pub renews : Renewed slots n renewed
  pub null : (i : ℕ) → length slots ≤ i → i < n → get_elem? renewed i ≡ some none

-- What a table that has grown has in common with the old one, which was full.
pub record Grown (t u : Table) : Type 0 where
  pub valid : IsValid u
  pub room_made : 0 < u.count
  pub kept : Renewed t.slots u.capacity u.slots
  pub fresh : (i : ℕ) → IsFree u i → t.capacity ≤ i
  pub all_new : (i : ℕ) → t.capacity ≤ i → i < u.capacity → IsFree u i
  pub larger : u.count + t.capacity ≡ u.capacity

module _ (a : Allocator) (renew : List Slot → ℕ → ℕ → Option (List Slot)) (t : Table)
    (valid : IsValid t) (small : t.capacity ≢ handle_mask) where
  pub new_capacity : ℕ
  new_capacity = min (t.capacity * 2) handle_mask

  abbrev grown_with : List Slot → List ℕ → Table
  grown_with slots index = record {
    slots = slots;
    capacity = min (t.capacity * 2) handle_mask;
    index = index;
    count = min (t.capacity * 2) handle_mask - t.capacity;
  }

  -- What `grow` gives satisfies what its two arrays make of it.
  grow_gives :
      {P : List Slot → Type 0} (Q : Table → Type 0)
      → Gives (renew t.slots t.capacity (min (t.capacity * 2) handle_mask)) P
      → ((slots : List Slot) (index filled : List ℕ)
          → P slots
          → length index ≡ min (t.capacity * 2) handle_mask
          → Numbered
              (min (t.capacity * 2) handle_mask - t.capacity)
              0
              (min (t.capacity * 2) handle_mask)
              index
              filled
          → Q (grown_with slots filled))
      → Gives (grow a renew t) Q
  unfolding grow
  grow_gives Q renewed k =
      let capacity = min (t.capacity * 2) handle_mask in
      let index = a.malloc_index capacity in
      Gives_bind (renew t.slots t.capacity capacity) _ Q renewed (λ slots r.
        Gives_bind (fill_index (capacity - t.capacity) 0 capacity index) _ Q
          (fill_index-Numbered (capacity - t.capacity) 0 capacity index
            (omega (arith, a.length-malloc_index capacity)))
          (λ filled n. k slots index filled r (a.length-malloc_index capacity) n))

  grown_with-Grown :
      (slots : List Slot) (index filled : List ℕ)
      → Renewed t.slots (min (t.capacity * 2) handle_mask) slots
      → length index ≡ min (t.capacity * 2) handle_mask
      → Numbered
          (min (t.capacity * 2) handle_mask - t.capacity)
          0
          (min (t.capacity * 2) handle_mask)
          index
          filled
      → Grown t (grown_with slots filled)
  grown_with-Grown slots index filled r size n =
      let capacity = min (t.capacity * 2) handle_mask in
      let count = capacity - t.capacity in
      record {
        valid =
            fresh_table-IsValid slots capacity count index filled size (omega arith) n r.size
              (omega (arith, valid)) (omega arith);
        room_made = omega (arith, valid);
        kept = r;
        fresh = λ i f.
            omega (
              arith,
              valid,
              fresh_above slots capacity count index filled size (omega arith) n i f,
            );
        all_new = λ i low high.
            fresh_all slots capacity count index filled size (omega arith) n i (omega arith) high;
        larger = omega (arith, valid);
      }

  -- A table that grows does not fault and keeps what it holds.
  pub grow-Grown :
      Gives
        (renew t.slots t.capacity (min (t.capacity * 2) handle_mask))
        (Renewed t.slots (min (t.capacity * 2) handle_mask))
      → Gives (grow a renew t) (Grown t)
  grow-Grown renewed = grow_gives (Grown t) renewed grown_with-Grown

  grown_with-IsClean :
      (slots : List Slot) (index filled : List ℕ)
      → t.count ≡ 0
      → IsClean t
      → RenewedNull t.slots (min (t.capacity * 2) handle_mask) slots
      → length index ≡ min (t.capacity * 2) handle_mask
      → Numbered
          (min (t.capacity * 2) handle_mask - t.capacity)
          0
          (min (t.capacity * 2) handle_mask)
          index
          filled
      → IsClean (grown_with slots filled)
  grown_with-IsClean slots index filled full clean r size n =
      let capacity = min (t.capacity * 2) handle_mask in
      let count = capacity - t.capacity in
      record {
        free_null = λ i f.
            r.null i
              (omega (
                arith,
                valid,
                fresh_above slots capacity count index filled size (omega arith) n i f,
              ))
              (fresh_below slots capacity count index filled size (omega arith) n i f);
        conserved = omega (
          arith,
          valid,
          clean.conserved,
          occupied_extended t.slots slots (omega (arith, valid, r.renews.size)) r.renews.kept
              (λ i low high. r.null i low (omega (arith, r.renews.size))),
        );
      }

  pub grow-IsClean :
      t.count ≡ 0
      → IsClean t
      → Gives
          (renew t.slots t.capacity (min (t.capacity * 2) handle_mask))
          (RenewedNull t.slots (min (t.capacity * 2) handle_mask))
      → Gives (grow a renew t) (λ u. Grown t u × IsClean u)
  grow-IsClean full clean renewed =
      grow_gives (λ u. Grown t u × IsClean u) renewed
        (λ slots index filled r size n. (
          grown_with-Grown slots index filled r.renews size n,
          grown_with-IsClean slots index filled full clean r size n,
        ))

abbrev pub IsFirst : Table → Type 0
IsFirst t = IsValid t × IsClean t × ((i : ℕ) → i < t.capacity → get_elem? t.slots i ≡ some none)

-- The first table is valid, all its slots are NULL and free.
pub make_table-IsValid : (a : Allocator) → Gives (make_table a) IsFirst
unfolding make_table occupied
make_table-IsValid a =
    Gives_bind (clear_slots first_capacity 0 (a.malloc_slots first_capacity)) _ _
      (clear_slots-Cleared first_capacity 0 (a.malloc_slots first_capacity)
        (omega (arith, a.length-malloc_slots first_capacity)))
      (λ slots c.
        Gives_bind (fill_index first_capacity 0 first_capacity (a.malloc_index first_capacity)) _ _
          (fill_index-Numbered first_capacity 0 first_capacity (a.malloc_index first_capacity)
            (omega (arith, a.length-malloc_index first_capacity)))
          (λ filled n. first slots filled c n))
  where
    first :
        (slots : List Slot) (filled : List ℕ)
        → Cleared first_capacity 0 (a.malloc_slots first_capacity) slots
        → Numbered first_capacity 0 first_capacity (a.malloc_index first_capacity) filled
        → IsFirst (record {
          slots = slots;
          capacity = first_capacity;
          index = filled;
          count = first_capacity;
        })
    first slots filled c n =
        let size = c.same_length ∙ a.length-malloc_slots first_capacity in
        (
          fresh_table-IsValid slots first_capacity first_capacity (a.malloc_index first_capacity)
              filled (a.length-malloc_index first_capacity) (omega arith) n size (omega arith)
              (omega arith),
          record {
            free_null = λ i f. c.null i (omega arith) (
                fresh_below slots first_capacity first_capacity (a.malloc_index first_capacity)
                  filled (a.length-malloc_index first_capacity) (omega arith) n i f);
            conserved = omega (
              arith,
              occupied_extended [] slots (omega arith) (λ i p. absurd (omega arith))
                  (λ i p q. c.null i (omega arith) (omega (arith, size))),
            );
          },
          λ i p. c.null i (omega arith) p,
        )
