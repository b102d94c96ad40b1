-- ===== src/ServiceCenter/Deregister.antt =====
-- serviceCenter_deregister and serviceCenter_clear.
use frog_game_framework.Base.{
  ℕ, ◌+◌, ◌-◌, ◌%◌, ◌^◌, ◌≡◌, ◌≢◌, refl, sym, ap, ◌∙◌, List, [], ◌∷◌, Option, none, some,
  some-injective, Bool, true, false, inl, inr, eq_cases, eq→==, ne→==, ◌==◌, if◌then◌else◌, arith,
  Gives, Gives_bind,
}
use frog_game_framework.HandleTable.{Handle, Slot, Table, give_slot}
use frog_game_framework.HandleTable.Objects.{Objects, update, update_other}
use frog_game_framework.HandleTable.GiveBack.{Given, give_slot-Given, Given-origin}
use frog_game_framework.HandleTable.Valid.{IsClean, Owns, Owns-inside}
use frog_game_framework.ServiceCenter.{
  Service, ServiceCenter, State, release, remove_name, drop_service, drop_slot, search_id,
  deregister, clear_loop, clear,
}
use frog_game_framework.ServiceCenter.Names.{Node, remove_id}
use frog_game_framework.ServiceCenter.Registry.{
  running, id_of_slot, IsNamed, IsRegistry, search_registered, search_unregistered,
}

-- A service with one reference less; the last one frees it.
abbrev pub without_ref : Service → Option Service
without_ref s =
    if s.ref_count == 1
    then none
    else some (record s { ref_count = (s.ref_count + 2 ^ 32 - 1) % 2 ^ 32 })

release_lem :
    (services : Objects Service) (p : Handle) (s : Service)
    → services p ≡ some s
    → release services p ≡ some (update services p (without_ref s))
unfolding release
release_lem services p s e = rw e refl

-- The names without the first one of the identifier.
abbrev pub names_without : ℕ → List Node → List Node
names_without id names = elim (remove_id id names) [ none ↦ names | some rest ↦ rest ]

pub remove_name_lem :
    (c : ServiceCenter) (services : Objects Service) (id : ℕ)
    → id ≢ 0
    → (remove_name (running c services) id).1
      ≡ running (record c { names = names_without id c.names }) services
unfolding remove_name
remove_name_lem c services id ne = rw (ne→== id 0 ne) (by_result (remove_id id c.names))
  where
    by_result :
        (found : Option (List Node))
        → (elim found as (λ _. Bool × State) [
          | none ↦ (false, running c services)
          | some names ↦ (true, running (record c { names = names }) services)
        ]).1
          ≡ running (record c { names = elim found [ none ↦ c.names | some rest ↦ rest ] }) services
    by_result none = refl
    by_result (some names) = refl

drop_service_lem :
    (c : ServiceCenter) (services : Objects Service) (id i : ℕ) (p : Handle)
    → id ≢ 0
    → drop_service (running c services) id i p
      ≡ drop_slot (running (record c { names = names_without id c.names }) services) i p
unfolding drop_service
drop_service_lem c services id i p ne = ap (λ s. drop_slot s i p) (remove_name_lem c services id ne)

-- What `deregister` makes of a registered service: the slot `i` is free and NULL, the service has
-- one reference less, its first name is removed, and the others stay registered.
pub record Dropped (c : ServiceCenter) (services : Objects Service) (i : ℕ) (p : Handle)
    (r : Bool × State) : Type 0 where
  pub found : r.0 ≡ true
  pub service : Service
  pub lived : services p ≡ some service
  pub table : Table
  pub given : Given c.table i table
  pub after :
      r.1
      ≡ running
          (record c { table = table; names = names_without (id_of_slot c i) c.names })
          (update services p (without_ref service))
  pub registry :
      IsRegistry
        (record c { table = table; names = names_without (id_of_slot c i) c.names })
        (update services p (without_ref service))

module _ (c : ServiceCenter) (services : Objects Service) (i : ℕ) (p : Handle)
    (r : IsRegistry c services) (o : Owns c.table i p) where
  -- Another service is at another address, since its identifier is another one.
  other_address : (j : ℕ) (q : Handle) → j ≢ i → Owns c.table j q → q ≢ p
  other_address j q ne x e =
      let n = r.named i p o in
      let m = r.named j q x in
      let same : m.service ≡ n.service =
        some-injective _ _ (sym m.lives ∙ ap services e ∙ n.lives) in
      ne (omega (arith, m.own_id, n.own_id, ap (λ s. s.service_id) same))

  module _ (table : Table) (g : Given c.table i table) (y : Option Service) where
    IsNamed-after :
        (j : ℕ) (q : Handle)
        → Owns table j q
        → IsNamed
            (record c { table = table; names = names_without (id_of_slot c i) c.names })
            (update services p y)
            j
            q
    IsNamed-after j q x =
        let (ne, old) = Given-origin j q g x in
        let n = r.named j q old in
        record {
          service = n.service;
          lives = update_other services p y q (other_address j q ne old) ∙ n.lives;
          own_id = n.own_id;
        }

  -- On a registry with a node number other than 0, `deregister` of the identifier of a registered
  -- service never faults, frees its slot and keeps the registry.
  pub deregister-Dropped :
      c.server_node_mask ≢ 0
      → Gives (deregister (running c services) (id_of_slot c i)) (Dropped c services i p)
  unfolding deregister drop_slot
  deregister-Dropped ne =
      let n = r.named i p o in
      rw
        (
          search_registered c services r i p (Owns-inside c.table i p r.valid o) o ne,
          drop_service_lem c services (id_of_slot c i) i p (omega arith),
          release_lem services p n.service n.lives,
        )
        (Gives_bind (give_slot c.table i) _ (Dropped c services i p)
          (give_slot-Given c.table i p r.valid o)
          (λ table g. record {
            found = refl;
            service = n.service;
            lived = n.lives;
            table = table;
            given = g;
            after = refl;
            registry = record {
              valid = g.valid;
              masked = r.masked;
              named = IsNamed-after table g (without_ref n.service);
            };
          }))

-- On a clean table, an identifier that no registered service has is refused and changes nothing,
-- where its low 20 bits are not 0.
pub deregister-unregistered :
    (c : ServiceCenter) (services : Objects Service) (id : ℕ)
    → IsRegistry c services
    → IsClean c.table
    → id % 0x100000 ≢ 0
    → ((i : ℕ) (p : Handle) → Owns c.table i p → id ≢ id_of_slot c i)
    → deregister (running c services) id ≡ some (false, running c services)
unfolding deregister
deregister-unregistered c services id r clean low unused =
    rw (search_unregistered c services r clean id low unused) refl

-- Every slot is NULL or has a service that lives.
abbrev IsLive : Objects Service → List Slot → Type 0
IsLive services [] = Unit {0}
IsLive services (none ∷ slots) = IsLive services slots
IsLive services (some p ∷ slots) = ((x : Service) × (services p ≡ some x)) × IsLive services slots

no_center :
    (services : Objects Service) (id : ℕ)
    → deregister (record { center = none; services = services }) id
      ≡ some (false, record { center = none; services = services })
unfolding deregister search_id
no_center services id = elim (eq_cases id 0) [
  | inl z ↦ rw (eq→== id 0 z) refl
  | inr nz ↦ rw (ne→== id 0 nz) refl
]

clear_loop_lem :
    (services : Objects Service) (slots : List Slot)
    → IsLive services slots
    → clear_loop slots (record { center = none; services = services })
      ≡ some (record { center = none; services = services })
unfolding clear_loop
clear_loop_lem services [] h = refl
clear_loop_lem services (none ∷ slots) h = clear_loop_lem services slots h
clear_loop_lem services (some p ∷ slots) h =
    rw (h.0.1, no_center services h.0.0.service_id) (clear_loop_lem services slots h.1)

-- `clear` on a centre whose slots are NULL or have services that live removes the centre and
-- releases none of the services: every reference that `register` took stays.
pub clear_releases_none :
    (c : ServiceCenter) (services : Objects Service)
    → IsLive services c.table.slots
    → clear (running c services) ≡ some (record { center = none; services = services })
unfolding clear
clear_releases_none c services h = clear_loop_lem services c.table.slots h
