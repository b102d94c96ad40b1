-- ===== src/ServiceCenter/Gain.antt =====
-- serviceCenter_gain.
use frog_game_framework.Base.{
  ℕ, ◌+◌, ◌%◌, ◌^◌, ◌≡◌, ◌≢◌, refl, sym, ap, ◌∙◌, Option, none, some, inl, inr, eq_cases,
  bit_and-zero_below, arith, subst, some-injective, Gives,
}
use frog_game_framework.HandleTable.{Handle}
use frog_game_framework.HandleTable.Objects.{Objects, update, update_same, update_other}
use frog_game_framework.HandleTable.Valid.{IsClean, Owns, Owns-inside}
use frog_game_framework.ServiceCenter.{Service, ServiceCenter, State, add_ref, gain}
use frog_game_framework.ServiceCenter.Registry.{
  running, id_of_slot, IsNamed, IsRegistry, search_registered, search_unregistered, search_masked,
}

abbrev pub with_ref : Service → Service
with_ref s = record s { ref_count = (s.ref_count + 1) % 2 ^ 32 }

pub add_ref_lem :
    (services : Objects Service) (p : Handle) (s : Service)
    → services p ≡ some s
    → add_ref services p ≡ some (update services p (some (with_ref s)))
unfolding add_ref
add_ref_lem services p s e = rw e refl

-- A service that changes, but not its identifier, stays registered.
pub changed-IsNamed :
    (c : ServiceCenter) (services : Objects Service) (i : ℕ) (p q : Handle) (s : Service)
    → services q ≡ some s
    → (t : Service) → t.service_id ≡ s.service_id
    → IsNamed c services i p
    → IsNamed c (update services q (some t)) i p
changed-IsNamed c services i p q s e t same n = elim (eq_cases p q) [
  | inl h ↦ record {
    service = t;
    lives =
        subst (λ r. update services q (some t) r ≡ some t) (sym h)
          (update_same services q (some t));
    own_id =
        same
        ∙ ap (λ x. x.service_id) (some-injective _ _ (sym e ∙ ap services (sym h) ∙ n.lives))
        ∙ n.own_id;
  }
  | inr ne ↦ record {
    service = n.service;
    lives = update_other services q (some t) p ne ∙ n.lives;
    own_id = n.own_id;
  }
]

-- What `gain` does to a state in order: a service that is registered is found and has one more
-- reference; all that is registered stays so.
pub record Gained (c : ServiceCenter) (services : Objects Service) (p : Handle)
    (r : Option Handle × State) : Type 0 where
  pub found : r.0 ≡ some p
  pub service : Service
  pub lived : services p ≡ some service
  pub after : r.1 ≡ running c (update services p (some (with_ref service)))
  pub registry : IsRegistry c (update services p (some (with_ref service)))

-- On a registry with a node number other than 0, `gain` of the identifier of a registered service
-- gives the service with one more reference and keeps the registry.
pub gain-Gained :
    (c : ServiceCenter) (services : Objects Service) (i : ℕ) (p : Handle)
    → IsRegistry c services
    → c.server_node_mask ≢ 0
    → Owns c.table i p
    → Gives (gain (running c services) (id_of_slot c i)) (Gained c services p)
unfolding gain
gain-Gained c services i p r ne o =
    let n = r.named i p o in
    rw
      (
        search_registered c services r i p (Owns-inside c.table i p r.valid o) o ne,
        add_ref_lem services p n.service n.lives,
      )
      (record {
        found = refl;
        service = n.service;
        lived = n.lives;
        after = refl;
        registry = record {
          valid = r.valid;
          masked = r.masked;
          named = λ j q x.
              changed-IsNamed c services j q p n.service n.lives (with_ref n.service) refl
                (r.named j q x);
        };
      })

-- On a registry whose table is clean, an identifier that no registered service has gives NULL and
-- changes nothing, where its low 20 bits are not 0.
pub gain-unregistered :
    (c : ServiceCenter) (services : Objects Service) (id : ℕ)
    → IsRegistry c services
    → IsClean c.table
    → id % 0x100000 ≢ 0
    → ((i : ℕ) (p : Handle) → Owns c.table i p → id ≢ id_of_slot c i)
    → gain (running c services) id ≡ some (none, running c services)
unfolding gain
gain-unregistered c services id r clean low unused =
    rw (search_unregistered c services r clean id low unused) refl

-- With node number 0 no service is ever found, not even one that is registered.
pub gain-node_zero :
    (c : ServiceCenter) (services : Objects Service) (id : ℕ)
    → IsRegistry c services
    → c.server_node_id % 0x800 ≡ 0
    → gain (running c services) id ≡ some (none, running c services)
unfolding gain
gain-node_zero c services id r zero =
    let no_mask : c.server_node_mask ≡ 0 = omega (arith, r.masked) in
    rw (search_masked c services r id (rw no_mask (bit_and-zero_below id id (omega arith)))) refl
