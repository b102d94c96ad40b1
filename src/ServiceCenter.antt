-- ===== src/ServiceCenter.antt =====
-- The service centre: src/service/source/serviceCenter_t.c, with service_addref, service_release and
-- service_getID of src/service/source/service_t.c.
--
-- A service lives at an address; `none` is an address where no service is. A call that reads such an
-- address is a fault. The lock of the centre is held over each function, so that a function is one
-- step. An identifier is a uint32_t, a name a list of bytes other than 0.
mod Tests
pub mod Names
pub mod Registry
pub mod Gain
pub mod Enlist
pub mod Deregister
pub mod NameOrder
pub mod BindName
pub mod NameExample
use frog_game_framework.Base.{
  ℕ, ◌+◌, ◌-◌, ◌*◌, ◌%◌, ◌^◌, ◌==◌, ltb, if◌then◌else◌, List, [], ◌∷◌, Option, none, some, ◌>>=◌,
  Bool, true, false, bit_and, bit_or,
}
use frog_game_framework.HandleTable.{
  Handle, Slot, Table, Allocator, make_table, insert, find_slot, give_slot,
}
use frog_game_framework.HandleTable.Objects.{Objects, update}
use frog_game_framework.ServiceCenter.Names.{Name, Node, NameTree, remove_id}

pub record Service : Type 0 where
  pub service_id : ℕ
  pub ref_count : ℕ

-- `service_addref`: `atomic_fetch_add` on an atomic_int.
unfoldable pub add_ref : Objects Service → Handle → Option (Objects Service)
add_ref services p = do
  s ← services p
  some (update services p (some (record s { ref_count = (s.ref_count + 1) % 2 ^ 32 })))

-- `service_release`: the last one frees the service.
unfoldable pub release : Objects Service → Handle → Option (Objects Service)
release services p = do
  s ← services p
  some (
      update services p (
        if s.ref_count == 1
        then none
        else some (record s { ref_count = (s.ref_count + 2 ^ 32 - 1) % 2 ^ 32 })))

-- `service_getID`.
abbrev pub get_id : Objects Service → Handle → Option ℕ
get_id services p = services p >>= λ s. some s.service_id

pub record ServiceCenter : Type 0 where
  pub table : Table
  pub server_node_id : ℕ
  pub server_node_mask : ℕ
  pub names : List Node

-- `s_pServiceCenter`, and the services.
pub record State : Type 0 where
  pub center : Option ServiceCenter
  pub services : Objects Service

-- `serviceCenter_init`.
unfoldable pub init : Allocator → ℕ → State → Option State
init a server_node_id s = elim s.center [
  | some c ↦ some s
  | none ↦ (do
    table ← make_table a
    some (record s {
      center = some (record {
        table = table;
        server_node_id = server_node_id;
        server_node_mask = bit_and server_node_id 0x7ff * 2 ^ 20;
        names = [];
      });
    }))
]

-- `mem_realloc` of the slots: the new ones are not cleared.
abbrev pub renew : Allocator → List Slot → ℕ → ℕ → Option (List Slot)
renew a slots old capacity = some (a.realloc_slots slots capacity)

-- `serviceCenter_register` after the search for a slot.
unfoldable pub registered : ServiceCenter → State → Handle → Option (ℕ × Table) → Option (ℕ × State)
registered c s p none = some (0, s)
registered c s p (some (i, table)) = do
  services ← add_ref s.services p
  some (
    bit_or c.server_node_mask (i + 1),
    record { center = some (record c { table = table }); services = services },
  )

-- `serviceCenter_register`: 0 where there is no centre or no slot.
unfoldable pub register : Allocator → State → Handle → Option (ℕ × State)
register a s p = elim s.center [
  | none ↦ some (0, s)
  | some c ↦ insert a (renew a) c.table p >>= registered c s p
]

-- `pService->uiServiceID = serviceCenter_register(pService)`, as service_start does it.
unfoldable pub enlist : Allocator → State → Handle → Option (ℕ × State)
enlist a s p = do
  r ← register a s p
  service ← r.1.services p
  some (
    r.0,
    record r.1 { services = update r.1.services p (some (record service { service_id = r.0 })) },
  )

-- `serviceCenter_removeName`: the first node in the order of the names that has the identifier.
unfoldable pub remove_name : State → ℕ → Bool × State
remove_name s id = if id == 0 then (false, s) else elim s.center [
  | none ↦ (false, s)
  | some c ↦ elim (remove_id id c.names) [
    | none ↦ (false, s)
    | some names ↦ (true, record s { center = some (record c { names = names }) })
  ]
]

-- The removal of the service at slot `i`, after its name.
unfoldable pub drop_slot : State → ℕ → Handle → Option (Bool × State)
drop_slot s i p = elim s.center [
  | none ↦ none
  | some c ↦ (do
    services ← release s.services p
    table ← give_slot c.table i
    some (true, record { center = some (record c { table = table }); services = services }))
]

-- The removal of the service at slot `i`, whose identifier was compared.
unfoldable pub drop_service : State → ℕ → ℕ → Handle → Option (Bool × State)
drop_service s id i p = drop_slot (remove_name s id).1 i p

-- The service that a slot names, if it has this identifier.
unfoldable pub match_id : Objects Service → ℕ → Option (ℕ × Handle) → Option (Option (ℕ × Handle))
match_id services id none = some none
match_id services id (some (i, p)) = do
  own ← get_id services p
  some (if own == id then some (i, p) else none)

-- The search that `serviceCenter_deregister` and `serviceCenter_gain` begin with.
unfoldable pub search_id : State → ℕ → Option (Option (ℕ × Handle))
search_id s id = if id == 0 then some none else elim s.center [
  | none ↦ some none
  | some c ↦
      if bit_and id c.server_node_mask == 0
      then some none
      else find_slot c.table id >>= match_id s.services id
]

-- `serviceCenter_deregister`.
unfoldable pub deregister : State → ℕ → Option (Bool × State)
deregister s id = search_id s id >>= λ found. elim found [
  | none ↦ some (false, s)
  | some x ↦ drop_service s id x.0 x.1
]

-- `serviceCenter_gain`: `none` inside is NULL.
unfoldable pub gain : State → ℕ → Option (Option Handle × State)
gain s id = search_id s id >>= λ found. elim found [
  | none ↦ some (none, s)
  | some x ↦
      add_ref s.services x.1 >>= λ services. some (some x.1, record s { services = services })
]

-- The loop of `serviceCenter_clear` over the slots.
unfoldable pub clear_loop : List Slot → State → Option State
clear_loop [] s = some s
clear_loop (none ∷ slots) s = clear_loop slots s
clear_loop (some p ∷ slots) s = do
  id ← get_id s.services p
  r ← deregister s id
  clear_loop slots r.1

-- `serviceCenter_clear`: `s_pServiceCenter` is NULL from the start on.
unfoldable pub clear : State → Option State
clear s = elim s.center [
  | none ↦ some s
  | some c ↦ clear_loop c.table.slots (record s { center = none })
]

-- `serviceCenter_bindName`.
unfoldable pub bind_name : NameTree → State → ℕ → Name → Bool × State
bind_name tree s id name =
    if bit_and id 0x80000000 == 0
    then elim s.center [
      | none ↦ (false, s)
      | some c ↦
          if bit_and id c.server_node_mask == 0
          then (false, s)
          else elim (tree.insert (record { name = name; service_id = id }) c.names) [
            | none ↦ (false, s)
            | some names ↦ (true, record s { center = some (record c { names = names }) })
          ]
    ]
    else (false, s)

-- `serviceCenter_unbindName`.
abbrev pub unbind_name : State → ℕ → Bool × State
unbind_name s id = remove_name s id

-- `serviceCenter_findServiceID`: 0 where nothing has the name.
unfoldable pub find_service_id : NameTree → State → Name → ℕ
find_service_id tree s name = elim s.center [
  | none ↦ 0
  | some c ↦ elim (tree.find name c.names) [ none ↦ 0 | some node ↦ node.service_id ]
]
