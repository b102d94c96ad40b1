-- ===== src/ChannelCenter/History.antt =====
-- What a program may do with channels and their centre, in any order.
use frog_game_framework.Base.{
  ℕ, ◌+◌, ◌≡◌, sym, ap, get_elem?, subst, ◌∙◌, List, none, some, some-injective, inl, inr, arith,
  Gives_at,
}
use frog_game_framework.HandleTable.{Handle, Allocator}
use frog_game_framework.HandleTable.Objects.{Objects}
use frog_game_framework.HandleTable.Valid.{Owns}
use frog_game_framework.ChannelCenter.Create.{create_channel-Created, init-IsRegistry}
use frog_game_framework.ChannelCenter.Drop.{deregister-Deregistered}
use frog_game_framework.ChannelCenter.Held.{
  Held, set_held, AllCounted, dropped-AllCounted, created-AllCounted, unregistered-AllCounted,
}
use frog_game_framework.ChannelCenter.Lookup.{gain-LookedUp, add_ref_lem}
use frog_game_framework.ChannelCenter.Registry.{running, IsRegistry}
use frog_game_framework.ChannelCenter.{
  Channel, ChannelCenter, State, add_ref, release, create_channel, gain, deregister,
}
use frog_game_framework.ChannelCenter.Calls.{
  Step, create, look_up, miss, drop, hold, let_go, Reachable, start, later, InOrder, in_order,
  after_more, after_less,
}

after-Step :
    (a : Allocator) (c : ChannelCenter) (channels : Objects Channel) (released : List Handle)
    (s : State) (held : Held) (t : State) (now : Held)
    → s ≡ running c channels released
    → IsRegistry c channels
    → AllCounted c channels held
    → Step a s held t now
    → InOrder t now
after-Step a c channels released s held t _ here r n (create p rubbish free e) =
    let fresh : channels p ≡ none = ap (λ v. v.channels p) (sym here) ∙ free in
    elim (Gives_at _ (ap (λ v. create_channel a v p rubbish) (sym here) ∙ e)
      (create_channel-Created a c channels released p rubbish r fresh)) [
        | inl m ↦
            in_order t _ c _ released m.after m.registry
              (unregistered-AllCounted c channels held p r fresh n)
        | inr m ↦
            in_order t _ m.center _ released m.after m.registry
              (created-AllCounted c channels released held p t m fresh n)
      ]
after-Step a c channels released s held t _ here r n (look_up id p low e bound) =
    let f = ap (λ v. gain v id) (sym here) ∙ e in
    elim (gain-LookedUp c channels released r id low) [
      | inl g ↦
          let pair = some-injective _ _ (sym f ∙ g.2.result) in
          let same : p ≡ g.1 = some-injective _ _ (ap (λ v. v.0) pair) in
          subst (λ q. InOrder t (set_held held q (held q + 1))) (sym same)
            (after_more a c channels released r held n t g.1 (r.named g.0 g.1 g.2.owns).channel
              (r.named g.0 g.1 g.2.owns).lives (omega (arith, bound, ap held same))
              (ap (λ v. v.1) pair))
      | inr g ↦ absurd (ground (arith, some-injective _ _ (sym f ∙ g.1)))
    ]
after-Step a c channels released s held t _ here r n (miss id low e) =
    let f = ap (λ v. gain v id) (sym here) ∙ e in
    elim (gain-LookedUp c channels released r id low) [
      | inl g ↦ absurd (ground (arith, some-injective _ _ (sym f ∙ g.2.result)))
      | inr g ↦
          in_order t held c channels released (ap (λ v. v.1) (some-injective _ _ (sym f ∙ g.1))) r n
    ]
after-Step a c channels released s held t _ here r n (drop id b low e) =
    elim (Gives_at _ (ap (λ v. deregister v id) (sym here) ∙ e)
      (deregister-Deregistered c channels released r id low)) [
        | inl d ↦
            in_order t held d.3.center _ _ d.3.after d.3.registry
              (dropped-AllCounted c d.3.center channels held r d.0 d.1 d.2 _ d.3.given n)
        | inr d ↦ in_order t held c channels released (ap (λ v. v.1) d.1) r n
      ]
after-Step a c channels released s held t _ here r n (hold p x lives some_held bound e) =
    let at : channels p ≡ some x = ap (λ v. v.channels p) (sym here) ∙ lives in
    after_more a c channels released r held n t p x at bound (
      some-injective _ _
        (sym (ap (λ v. add_ref v p) (sym here) ∙ e) ∙ add_ref_lem c channels released p x at))
after-Step a c channels released s held t _ here r n (let_go p x lives some_held e) =
    after_less a c channels released r held n t p x (ap (λ v. v.channels p) (sym here) ∙ lives)
      some_held (ap (λ v. release v p) (sym here) ∙ e)

Reachable-InOrder : {a : Allocator} {v : State} {refs : Held} → Reachable a v refs → InOrder v refs
Reachable-InOrder {a} {v} (start released e) =
    let f = Gives_at _ e (init-IsRegistry a (λ p. none) released) in
    in_order v (λ p. 0) f.0 (λ p. none) released f.1 f.2
      (λ i p x o lives. absurd (ground (arith, lives)))
Reachable-InOrder {a} {v} {refs} (later {s} {t} {held} {now} before step) =
    let o = Reachable-InOrder before in
    after-Step a o.center s.channels s.released s held v refs o.is_running o.registry o.counted step

-- In whatever order a program creates channels, looks them up, holds them, gives its references up,
-- the last ones also, and removes channels from a centre that `init` made, where it gives up only
-- references that it holds, looks up and removes identifiers whose low 20 bits are not 0, and has
-- less than 2^32 - 1 references to a channel: the table stays valid, every registered channel lives
-- and has one reference more than the program holds, and two registered channels with the same
-- identifier are one.
pub Reachable-distinct :
    {a : Allocator} {s : State} {held : Held}
    → Reachable a s held
    → (c : ChannelCenter) × (s.center ≡ some c)
      × IsRegistry c s.channels
      × AllCounted c s.channels held
      × ((i j : ℕ) (p q : Handle) (x y : Channel)
          → Owns c.table i p
          → Owns c.table j q
          → s.channels p ≡ some x
          → s.channels q ≡ some y
          → x.id ≡ y.id
          → (i ≡ j) × (p ≡ q))
Reachable-distinct {a} {s} {held} reached =
    let o = Reachable-InOrder reached in
    (
      o.center,
      ap (λ v. v.center) o.is_running,
      o.registry,
      o.counted,
      λ i j p q x y at there live other same. same_slot s o i j p q x y at there live other same,
    )
  where
    same_slot :
        (v : State) (o : InOrder v held) (i j : ℕ) (p q : Handle) (x y : Channel)
        → Owns o.center.table i p
        → Owns o.center.table j q
        → v.channels p ≡ some x
        → v.channels q ≡ some y
        → x.id ≡ y.id
        → (i ≡ j) × (p ≡ q)
    same_slot v o i j p q x y at there live other same =
        let n = o.registry.named i p at in
        let m = o.registry.named j q there in
        let e : i ≡ j = omega (
          arith,
          n.low,
          m.low,
          ap (λ z. z.id) (some-injective _ _ (sym live ∙ n.lives)),
          ap (λ z. z.id) (some-injective _ _ (sym other ∙ m.lives)),
        ) in
        (
          e,
          some-injective _ _ (
              some-injective _ _
                (sym at.stored ∙ ap (λ k. get_elem? o.center.table.slots k) e ∙ there.stored)),
        )
