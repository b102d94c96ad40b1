-- ===== src/ServiceCenter/Enlist.antt =====
-- serviceCenter_init and serviceCenter_register, with the assignment of the identifier in
-- service_start.
use frog_game_framework.Base.{
  ℕ, ◌+◌, ◌%◌, ◌^◌, ◌*◌, ◌/◌, ◌≡◌, ◌≤◌, ◌⊎◌, refl, sym, ap, ◌∙◌, List, length, [], Option, none,
  some, ◌>>=◌, inl, inr, eq_cases, get_elem?_inside, get_elem?, some-injective, bit_or, bind_assoc,
  arith, bit_and, bit_and-ones, Gives, Gives_bind, subst,
}
use frog_game_framework.HandleTable.{
  Handle, Slot, Table, Allocator, handle_mask, insert, make_table,
}
use frog_game_framework.HandleTable.Insert.{InsertedAt, Inserted, insert-Inserted}
use frog_game_framework.HandleTable.Objects.{
  Objects, update, update_same, update_other, update_again,
}
use frog_game_framework.HandleTable.Start.{Renewed, make_table-IsValid}
use frog_game_framework.HandleTable.Valid.{IsClean, Owns, Owns-inside}
use frog_game_framework.ServiceCenter.{
  Service, ServiceCenter, State, renew, init, register, registered, enlist,
}
use frog_game_framework.ServiceCenter.Gain.{add_ref_lem, with_ref}
use frog_game_framework.ServiceCenter.Registry.{running, id_of_slot, IsNamed, IsRegistry, joined_id}

renew-Renewed :
    (a : Allocator) (slots : List Slot) (old n : ℕ)
    → length slots ≡ old
    → old ≤ n
    → Gives (renew a slots old n) (Renewed slots n)
renew-Renewed a slots old n e h = record {
  size = a.length-realloc_slots slots n;
  kept = λ i p.
      let (x, at) = get_elem?_inside slots i p in
      a.realloc_slots-keeps slots n i x (omega arith) at ∙ sym at;
}

-- The service, with a new identifier and one more reference.
abbrev pub enlisted : Service → ℕ → Service
enlisted x id = record x { service_id = id; ref_count = (x.ref_count + 1) % 2 ^ 32 }

-- The service has the slot `slot`, and the identifier of it.
pub record EnlistedAt (c : ServiceCenter) (services : Objects Service) (p : Handle) (x : Service)
    (r : ℕ × State) : Type 0 where
  pub center : ServiceCenter
  pub slot : ℕ
  pub id : r.0 ≡ id_of_slot c slot
  pub same_mask : center.server_node_mask ≡ c.server_node_mask
  pub same_names : center.names ≡ c.names
  pub after : r.1 ≡ running center (update services p (some (enlisted x r.0)))
  pub registry : IsRegistry center (update services p (some (enlisted x r.0)))
  pub owns : Owns center.table slot p
  pub unused : (q : Handle) → ¬ Owns c.table slot q
  pub others : (j : ℕ) (q : Handle) → Owns c.table j q → Owns center.table j q

-- Without a free slot the identifier is 0.
pub record Refused (c : ServiceCenter) (services : Objects Service) (p : Handle) (x : Service)
    (r : ℕ × State) : Type 0 where
  pub id : r.0 ≡ 0
  pub full : (c.table.count ≡ 0) × (c.table.capacity ≡ handle_mask)
  pub after : r.1 ≡ running c (update services p (some (record x { service_id = 0 })))
  pub registry : IsRegistry c (update services p (some (record x { service_id = 0 })))

module _ (c : ServiceCenter) (services : Objects Service) (p : Handle) (x : Service)
    (r : IsRegistry c services) (lives : services p ≡ some x)
    (fresh : (i : ℕ) → ¬ Owns c.table i p) where
  -- A service that is not in the table does not matter to the others.
  kept-IsNamed :
      (y : Service) (i : ℕ) (q : Handle)
      → Owns c.table i q
      → IsNamed c (update services p (some y)) i q
  kept-IsNamed y i q o =
      let n = r.named i q o in
      record {
        service = n.service;
        lives =
            update_other services p (some y) q (λ e. fresh i (subst (Owns c.table i) e o))
            ∙ n.lives;
        own_id = n.own_id;
      }

  abbrev Enlisted : ℕ × State → Type 0
  Enlisted s = Refused c services p x s ⊎ EnlistedAt c services p x s

  -- What follows on the search for a slot.
  abbrev assign : Option (ℕ × Table) → Option (ℕ × State)
  assign found = registered c (running c services) p found >>= λ s. s.1.services p >>= λ service.
      some (
        s.0,
        record s.1 {
          services = update s.1.services p (some (record service { service_id = s.0 }));
        },
      )

  module _ (i : ℕ) (table : Table) (k : InsertedAt c.table p (i, table)) where
    slot_id : bit_or c.server_node_mask (i + 1) ≡ id_of_slot c i
    slot_id = joined_id c services r i (omega (arith, k.inside, k.valid.capped))

    abbrev new_service : Service
    new_service = enlisted x (bit_or c.server_node_mask (i + 1))

    IsNamed-after :
        (j : ℕ) (q : Handle)
        → Owns table j q
        → IsNamed (record c { table = table }) (update services p (some new_service)) j q
    IsNamed-after j q o = elim (eq_cases j i) [
      | inl e ↦
          let same : q ≡ p =
            some-injective _ _
              (some-injective _ _ (sym o.stored ∙ ap (get_elem? table.slots) e ∙ k.owns.stored)) in
          record {
            service = new_service;
            lives =
                ap (update services p (some new_service)) same
                ∙ update_same services p (some new_service);
            own_id = slot_id ∙ ap (λ v. id_of_slot c v) (sym e);
          }
      | inr ne ↦
          let n = kept-IsNamed new_service j q (k.origin j q ne o) in
          record { service = n.service; lives = n.lives; own_id = n.own_id }
    ]

    taken_slot : EnlistedAt c services p x (
      bit_or c.server_node_mask (i + 1),
      running (record c { table = table }) (update services p (some new_service)),
    )
    taken_slot = record {
      center = record c { table = table };
      slot = i;
      id = slot_id;
      same_mask = refl;
      same_names = refl;
      after = refl;
      registry = record { valid = k.valid; masked = r.masked; named = IsNamed-after };
      owns = k.owns;
      unused = k.unused;
      others = k.others;
    }

  after_insert :
      (found : Option (ℕ × Table)) → Inserted c.table p found → Gives (assign found) Enlisted
  unfolding registered
  after_insert none full = rw lives (
      inl (record {
        id = refl;
        full = full;
        after = refl;
        registry = record {
          valid = r.valid;
          masked = r.masked;
          named = kept-IsNamed (record x { service_id = 0 });
        };
      }))
  after_insert (some (i, table)) k =
      rw
        (
          add_ref_lem services p x lives,
          update_same services p (some (with_ref x)),
          update_again services p (some (with_ref x))
              (some (enlisted x (bit_or c.server_node_mask (i + 1)))),
        )
        (inr (taken_slot i table k))

-- Registering a service that lives and is not registered keeps the registry: it gets the
-- identifier of a slot that no other one had, or 0 where the table is full and has its last size.
pub enlist-Enlisted :
    (a : Allocator) (c : ServiceCenter) (services : Objects Service) (p : Handle) (x : Service)
    → IsRegistry c services
    → services p ≡ some x
    → ((i : ℕ) → ¬ Owns c.table i p)
    → Gives
        (enlist a (running c services) p)
        (λ s. Refused c services p x s ⊎ EnlistedAt c services p x s)
unfolding enlist register
enlist-Enlisted a c services p x r lives fresh =
    rw (bind_assoc (insert a (renew a) c.table p) (registered c (running c services) p) _) (
      Gives_bind (insert a (renew a) c.table p) (assign c services p x r lives fresh) _
        (insert-Inserted a (renew a) c.table p r.valid (renew-Renewed a))
        (after_insert c services p x r lives fresh))

-- The first centre is a registry with a clean table and without names; a second call changes
-- nothing.
pub init-IsRegistry :
    (a : Allocator) (node : ℕ) (services : Objects Service)
    → Gives (init a node (record { center = none; services = services })) (λ s.
      (c : ServiceCenter) × (s ≡ running c services)
      × IsRegistry c services
      × IsClean c.table
      × (c.names ≡ [])
      × (init a node s ≡ some s))
unfolding init
init-IsRegistry a node services = Gives_bind (make_table a) _ _ (make_table-IsValid a) (λ t first. (
  record {
    table = t;
    server_node_id = node;
    server_node_mask = bit_and node 0x7ff * 2 ^ 20;
    names = [];
  },
  refl,
  record {
    valid = first.0;
    masked = ap (λ v. v * 2 ^ 20) (low_node node);
    named = λ i p o. absurd (ground (arith, first.2 i (Owns-inside t i p first.0 o), o.stored));
  },
  first.1,
  refl,
  refl,
))
  where
    low_node : (n : ℕ) → bit_and n 0x7ff ≡ n % 0x800
    low_node n =
        ap (λ v. bit_and v 0x7ff) {x = n} {y = n / 0x800 * 0x800 + n % 0x800} (omega arith)
        ∙ bit_and-ones 11 (n / 0x800) (n % 0x800) (omega arith)
