-- ===== src/ChannelCenter/GetIds.antt =====
-- channelCenter_getIds.
use frog_game_framework.Base.{
  ℕ, suc, ◌+◌, ◌-◌, ◌≡◌, ◌<◌, ◌⊎◌, refl, sym, ap, ◌∙◌, List, [], ◌∷◌, ◌++◌, append_assoc, length,
  length-append, none, some, inl, inr, eq_cases, eq→==, ne→==, arith, set_elem?, get_elem?,
}
use mathlib.Core.Option
use frog_game_framework.HandleTable.{Handle, Slot, Allocator}
use frog_game_framework.HandleTable.Objects.{Objects}
use frog_game_framework.HandleTable.Valid.{occupied}
use frog_game_framework.ChannelCenter.{Channel, ChannelCenter, get_loop, get_ids}
use frog_game_framework.ChannelCenter.Registry.{running, IsRegistry, handle_owned}

-- The identifiers of the channels in the slots, in their order.
abbrev pub listed : Objects Channel → List Slot → List ℕ
listed channels [] = []
listed channels (none ∷ slots) = listed channels slots
listed channels (some p ∷ slots) =
    let rest = listed channels slots in elim (channels p) [ none ↦ rest | some x ↦ x.id ∷ rest ]

-- Every channel in the slots lives.
abbrev AllLive : Objects Channel → List Slot → Type 0
AllLive channels slots =
    (i : ℕ) (p : Handle) → get_elem? slots i ≡ some (some p) → (x : Channel) × (channels p ≡ some x)

-- A write behind what is there already.
set_elem?_behind :
    (front back : List ℕ) (old new : ℕ)
    → set_elem? (front ++ (old ∷ back)) (length front) new ≡ some (front ++ (new ∷ back))
set_elem?_behind [] back old new = refl
set_elem?_behind (x ∷ front) back old new =
    ap (Option.map (λ ys. x ∷ ys)) (set_elem?_behind front back old new)

get_loop_lem :
    (channels : Objects Channel) (slots : List Slot) (front back : List ℕ) (i : ℕ)
    → AllLive channels slots
    → i ≡ length front
    → length back ≡ occupied slots
    → get_loop channels slots i (front ++ back) ≡ some (front ++ listed channels slots)
unfolding get_loop occupied
get_loop_lem channels [] front [] i live e n = refl
get_loop_lem channels [] front (x ∷ back) i live e n = absurd (omega arith)
get_loop_lem channels (none ∷ slots) front back i live e n =
    get_loop_lem channels slots front back i (λ j p s. live (suc j) p s) e (omega arith)
get_loop_lem channels (some p ∷ slots) front [] i live e n = absurd (omega arith)
get_loop_lem channels (some p ∷ slots) front (y ∷ back) i live e n =
    let (x, lives) = live 0 p refl in
    let tail =
      get_loop_lem channels slots (front ++ (x.id ∷ [])) back (i + 1) (λ j q s. live (suc j) q s)
        (omega (arith, e, length-append front (x.id ∷ []))) (omega (arith, n)) in
    rw
      (
        listed,
        lives,
        e,
        set_elem?_behind front back y x.id,
        sym e,
        sym (append_assoc front (x.id ∷ []) back),
      )
      (tail ∙ ap some (append_assoc front (x.id ∷ []) (listed channels slots)))

-- On a registry, `get_ids` never writes outside its array: it gives the identifiers of the
-- registered channels in the order of their slots, and their number; without channels it gives 0
-- and NULL.
pub get_ids-listed :
    (a : Allocator) (c : ChannelCenter) (channels : Objects Channel) (released : List Handle)
    → IsRegistry c channels
    → ((c.table.count ≡ c.table.capacity)
        × (get_ids a (running c channels released) ≡ some (0, none)))
      ⊎ ((c.table.count < c.table.capacity)
          × (get_ids a (running c channels released)
              ≡ some (occupied c.table.slots, some (listed channels c.table.slots))))
unfolding get_ids
get_ids-listed a c channels released r =
    let n = c.table.capacity - c.table.count in
    elim (eq_cases n 0) [
      | inl z ↦ inl (omega (arith, r.valid), rw (eq→== n 0 z) refl)
      | inr nz ↦ inr (
        omega arith,
        let size : n ≡ occupied c.table.slots = omega (arith, r.clean.conserved) in
            rw
              (
                ne→== n 0 nz,
                get_loop_lem channels c.table.slots [] (a.malloc_index n) 0
                    (λ i p s.
                      let named = r.named i p (handle_owned c channels released r i p s) in
                      (named.channel, named.lives))
                    refl (a.length-malloc_index n ∙ size),
                size,
              )
              refl,
      )
    ]
