-- ===== src/ServiceCenter/Registry.antt =====
-- What holds of the service centre between two calls, and what a search finds then.
use frog_game_framework.Base.{
  ℕ, ◌+◌, ◌*◌, ◌%◌, ◌^◌, ◌≡◌, ◌≢◌, ◌<◌, inl, inr, refl, sym, Option, none, some, ◌>>=◌, ◌-◌,
  bit_and, bit_or, bit_and-high, bit_and_self, bit_or_join, eq→==, ne→==, get_elem?,
  get_elem?_inside, lt_cases, eq_cases, arith,
}
use frog_game_framework.HandleTable.{Handle, find_slot}
use frog_game_framework.HandleTable.Find.{find_slot_stored, find_slot_null, find_slot_beyond}
use frog_game_framework.HandleTable.Objects.{Objects}
use frog_game_framework.HandleTable.Valid.{IsValid, IsClean, Owns}
use frog_game_framework.ServiceCenter.{Service, ServiceCenter, State, match_id, search_id}

-- The state with a centre.
abbrev pub running : ServiceCenter → Objects Service → State
running c services = record { center = some c; services = services }

-- The identifier of the service in slot `i`.
abbrev pub id_of_slot : ServiceCenter → ℕ → ℕ
id_of_slot c i = c.server_node_mask + (i + 1)

pub record IsNamed (c : ServiceCenter) (services : Objects Service) (i : ℕ) (p : Handle)
    : Type 0 where
  pub service : Service
  pub lives : services p ≡ some service
  pub own_id : service.service_id ≡ id_of_slot c i

-- The table is valid, and every service in it lives and has the identifier of its slot.
pub record IsRegistry (c : ServiceCenter) (services : Objects Service) : Type 0 where
  pub valid : IsValid c.table
  pub masked : c.server_node_mask ≡ c.server_node_id % 0x800 * 2 ^ 20
  pub named : (i : ℕ) (p : Handle) → Owns c.table i p → IsNamed c services i p

module _ (c : ServiceCenter) (services : Objects Service) (r : IsRegistry c services) where
  -- The bits of an identifier of this node.
  pub node_bits :
      (low : ℕ)
      → low < 2 ^ 20
      → bit_and (c.server_node_mask + low) c.server_node_mask ≡ c.server_node_mask
  node_bits low h =
      rw
        (
          r.masked,
          bit_and-high 20 (c.server_node_id % 0x800) low (c.server_node_id % 0x800) h,
          bit_and_self (c.server_node_id % 0x800),
        )
        refl

  pub joined_id : (i : ℕ) → i < 0xfffff → bit_or c.server_node_mask (i + 1) ≡ id_of_slot c i
  joined_id i h =
      rw r.masked (bit_or_join 20 (c.server_node_id % 0x800) (i + 1) (omega (arith, r.valid)))

  pub low_bits : (i : ℕ) → i < c.table.capacity → id_of_slot c i % 0x100000 ≡ i + 1
  low_bits i h = omega (arith, r.masked, r.valid)

  -- A registered service is found by its identifier.
  pub search_registered :
      (i : ℕ) (p : Handle)
      → i < c.table.capacity
      → Owns c.table i p
      → c.server_node_mask ≢ 0
      → search_id (running c services) (id_of_slot c i) ≡ some (some (i, p))
  unfolding search_id match_id
  search_registered i p h o ne =
      let n = r.named i p o in
      rw
        (
          ne→== (id_of_slot c i) 0 (omega arith),
          node_bits (i + 1) (omega (arith, r.valid)),
          ne→== c.server_node_mask 0 ne,
          find_slot_stored c.table (id_of_slot c i) i (low_bits i h) p h o.stored,
          n.lives,
          n.own_id,
          eq→== (id_of_slot c i) (id_of_slot c i) refl,
        )
        refl

  -- Without node bits nothing is found.
  pub search_masked :
      (id : ℕ) → bit_and id c.server_node_mask ≡ 0 → search_id (running c services) id ≡ some none
  unfolding search_id
  search_masked id e = elim (eq_cases id 0) [
    | inl z ↦ rw (eq→== id 0 z) refl
    | inr nz ↦ rw (ne→== id 0 nz, e) refl
  ]

  -- What a slot that is found makes of the comparison of identifiers.
  other_id :
      (id i : ℕ) (p : Handle)
      → Owns c.table i p
      → id ≢ id_of_slot c i
      → match_id services id (some (i, p)) ≡ some none
  unfolding match_id
  other_id id i p o ne =
      let n = r.named i p o in
      rw (n.lives, n.own_id, ne→== (id_of_slot c i) id (λ e. ne (sym e))) refl

  module _ (clean : IsClean c.table) where
    handle_owned :
        (i : ℕ) (p : Handle) → get_elem? c.table.slots i ≡ some (some p) → Owns c.table i p
    handle_owned i p e = record {
      stored = e;
      taken = λ f. absurd (ground (arith, clean.free_null i f));
    }

    abbrev IsUnused : ℕ → Type 0
    IsUnused id = (i : ℕ) (p : Handle) → Owns c.table i p → id ≢ id_of_slot c i

    at_slot :
        (id i : ℕ) (x : Option Handle)
        → IsUnused id
        → id % 0x100000 ≡ i + 1
        → i < c.table.capacity
        → get_elem? c.table.slots i ≡ some x
        → (find_slot c.table id >>= match_id services id) ≡ some none
    unfolding match_id
    at_slot id i none unused low h e = rw (find_slot_null c.table id i low h e) refl
    at_slot id i (some p) unused low h e =
        let o = handle_owned i p e in
        rw (find_slot_stored c.table id i low p h e) (other_id id i p o (unused i p o))

    at_low_bits :
        (id i : ℕ)
        → IsUnused id
        → id % 0x100000 ≡ i + 1
        → (find_slot c.table id >>= match_id services id) ≡ some none
    unfolding match_id
    at_low_bits id i unused low = elim (lt_cases i c.table.capacity) [
      | inl h ↦
          let (x, e) = get_elem?_inside c.table.slots i (omega (arith, r.valid)) in
          at_slot id i x unused low h e
      | inr h ↦ rw (find_slot_beyond c.table id i low h) refl
    ]

    -- On a clean table, an identifier that no service has is not found, unless its low bits are 0.
    pub search_unregistered :
        (id : ℕ) → id % 0x100000 ≢ 0 → IsUnused id → search_id (running c services) id ≡ some none
    unfolding search_id
    search_unregistered id low unused = elim (eq_cases (bit_and id c.server_node_mask) 0) [
      | inl e ↦ search_masked id e
      | inr ne ↦
          rw (ne→== id 0 (λ z. low (omega arith)), ne→== (bit_and id c.server_node_mask) 0 ne)
            (at_low_bits id (id % 0x100000 - 1) unused (omega arith))
    ]
