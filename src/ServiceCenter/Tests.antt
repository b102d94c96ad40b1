-- ===== src/ServiceCenter/Tests.antt =====
-- A centre of node 3 with the service 5 in its table, named "a"; the service 6 is not registered.
use frog_game_framework.Base.{
  ℕ, ◌+◌, ◌*◌, ◌≡◌, ◌<◌, ◌⊎◌, refl, [], ◌∷◌, none, some, ◌==◌, if◌then◌else◌, arith, Gives,
}
use frog_game_framework.HandleTable.Example.{
  null_allocator, half_full, half_full-IsValid, half_full-Owns, only_taken,
}
use frog_game_framework.HandleTable.Objects.{Objects}
use frog_game_framework.HandleTable.Valid.{Owns}
use frog_game_framework.ServiceCenter.{
  Service, ServiceCenter, enlist, gain, deregister, clear, bind_name,
}
use frog_game_framework.ServiceCenter.BindName.{
  NotBound, NameKnown, NameBound, bind_name-find_service_id,
}
use frog_game_framework.ServiceCenter.Deregister.{Dropped, deregister-Dropped, clear_releases_none}
use frog_game_framework.ServiceCenter.Enlist.{Refused, EnlistedAt, enlist-Enlisted}
use frog_game_framework.ServiceCenter.Gain.{gain-node_zero}
use frog_game_framework.ServiceCenter.NameExample.{name_list}
use frog_game_framework.ServiceCenter.Registry.{running, IsRegistry}

abbrev center_at : ℕ → ServiceCenter
center_at node = record {
  table = half_full;
  server_node_id = node;
  server_node_mask = node * 0x100000;
  names = record { name = 97 ∷ []; service_id = node * 0x100000 + 1 } ∷ [];
}

abbrev services_at : ℕ → Objects Service
services_at node q =
    if q == 5
    then some (record { service_id = node * 0x100000 + 1; ref_count = 2 })
    else if q == 6
    then some (record { service_id = 0; ref_count = 1 })
    else none

registry_at : (node : ℕ) → node < 0x800 → IsRegistry (center_at node) (services_at node)
registry_at node h = record {
  valid = half_full-IsValid;
  masked = omega arith;
  named = λ i p o.
      let (at, who) = only_taken i p o in
      rw (at, who)
        (record {
          service = record { service_id = node * 0x100000 + 1; ref_count = 2 };
          lives = refl;
          own_id = refl;
        });
}

abbrev center : ServiceCenter
center = center_at 3

abbrev services : Objects Service
services = services_at 3

registry : IsRegistry center services
registry = registry_at 3 (omega arith)

not_in_table : (i : ℕ) → ¬ Owns center.table i 6
not_in_table i o = omega (arith, (only_taken i 6 o).1)

enlist-Enlisted_example : Gives (enlist null_allocator (running center services) 6) (λ s.
    Refused center services 6 (record { service_id = 0; ref_count = 1 }) s
    ⊎ EnlistedAt center services 6 (record { service_id = 0; ref_count = 1 }) s)
enlist-Enlisted_example =
    enlist-Enlisted null_allocator center services 6 (record { service_id = 0; ref_count = 1 })
      registry refl not_in_table

gain-node_zero_example :
    gain (running (center_at 0) (services_at 0)) 1
    ≡ some (none, running (center_at 0) (services_at 0))
gain-node_zero_example =
    gain-node_zero (center_at 0) (services_at 0) 1 (registry_at 0 (omega arith)) refl

deregister-Dropped_example :
    Gives (deregister (running center services) 0x300001) (Dropped center services 0 5)
deregister-Dropped_example =
    deregister-Dropped center services 0 5 registry half_full-Owns (λ e. omega arith)

clear_releases_none_example :
    clear (running center services) ≡ some (record { center = none; services = services })
clear_releases_none_example =
    clear_releases_none center services
      ((record { service_id = 0x300001; ref_count = 2 }, refl), tt)

bind_name-find_service_id_example :
    NotBound name_list center services 0x300002
      (98 ∷ [])
      (bind_name name_list (running center services) 0x300002 (98 ∷ []))
    ⊎ (NameKnown name_list center services 0x300002
          (98 ∷ [])
          (bind_name name_list (running center services) 0x300002 (98 ∷ []))
        ⊎ NameBound name_list center services 0x300002
            (98 ∷ [])
            (bind_name name_list (running center services) 0x300002 (98 ∷ [])))
bind_name-find_service_id_example =
    bind_name-find_service_id name_list center services 0x300002 (98 ∷ []) (λ x h. absurd h, tt)
