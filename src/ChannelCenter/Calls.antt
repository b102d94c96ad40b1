-- ===== src/ChannelCenter/Calls.antt =====
-- The calls that a program makes, with the references to channels that it holds, and what a change
-- of one reference makes of the centre.
use frog_game_framework.Base.{
  ℕ, ◌+◌, ◌-◌, ◌%◌, ◌^◌, ◌≡◌, ◌≢◌, ◌≤◌, ◌<◌, refl, sym, ap, subst, ◌∙◌, List, none, some,
  some-injective, inl, inr, Bool, arith, eq→==, ne→==, eq_cases,
}
use frog_game_framework.HandleTable.{Handle, Allocator}
use frog_game_framework.HandleTable.Objects.{Objects, update, update_other}
use frog_game_framework.HandleTable.Valid.{Owns}
use frog_game_framework.ChannelCenter.Drop.{release_lem, released_after}
use frog_game_framework.ChannelCenter.Held.{
  Held, set_held, AllCounted, changed-AllCounted, freed-AllCounted,
}
use frog_game_framework.ChannelCenter.Lookup.{changed-IsNamed, with_ref}
use frog_game_framework.ChannelCenter.Registry.{running, IsNamed, IsRegistry}
use frog_game_framework.ChannelCenter.{
  Channel, ChannelCenter, State, init, add_ref, release, create_channel, gain, deregister,
}

-- One call, with the references that the program holds before and after it. A channel is created
-- where no other one is, with a reference for who creates it; `gain` and `add_ref` give one more,
-- while there are less than 2^32 - 1; `add_ref` and `release` are called by who holds a reference,
-- also for the last one. Identifiers come from the centre, so that their low bits are not 0.
pub data Step (a : Allocator) : State → Held → State → Held → Type 0 where
  create :
      {s t : State} {held : Held} (p : Handle) (rubbish : ℕ)
      → s.channels p ≡ none
      → create_channel a s p rubbish ≡ some t
      → Step a s held t (set_held held p 1)
  look_up :
      {s t : State} {held : Held} (id : ℕ) (p : Handle)
      → id % 0x100000 ≢ 0
      → gain s id ≡ some (some p, t)
      → held p + 2 < 2 ^ 32
      → Step a s held t (set_held held p (held p + 1))
  miss :
      {s t : State} {held : Held} (id : ℕ)
      → id % 0x100000 ≢ 0
      → gain s id ≡ some (none, t)
      → Step a s held t held
  drop :
      {s t : State} {held : Held} (id : ℕ) (b : Bool)
      → id % 0x100000 ≢ 0
      → deregister s id ≡ some (b, t)
      → Step a s held t held
  hold :
      {s t : State} {held : Held} (p : Handle) (x : Channel)
      → s.channels p ≡ some x
      → 1 ≤ held p
      → held p + 2 < 2 ^ 32
      → add_ref s p ≡ some t
      → Step a s held t (set_held held p (held p + 1))
  let_go :
      {s t : State} {held : Held} (p : Handle) (x : Channel)
      → s.channels p ≡ some x
      → 1 ≤ held p
      → release s p ≡ some t
      → Step a s held t (set_held held p (held p - 1))

-- The states after `init`, where the program holds no channel.
pub data Reachable (a : Allocator) : State → Held → Type 0 where
  start :
      {t : State} (released : List Handle)
      → init a (record { center = none; channels = λ p. none; released = released }) ≡ some t
      → Reachable a t (λ p. 0)
  later :
      {s t : State} {held now : Held} → Reachable a s held → Step a s held t now → Reachable a t now

pub record InOrder (s : State) (held : Held) : Type 0 where
  pub center : ChannelCenter
  pub is_running : s ≡ running center s.channels s.released
  pub registry : IsRegistry center s.channels
  pub counted : AllCounted center s.channels held

pub in_order :
    (s : State) (held : Held) (c : ChannelCenter) (channels : Objects Channel)
    (released : List Handle)
    → s ≡ running c channels released
    → IsRegistry c channels
    → AllCounted c channels held
    → InOrder s held
in_order s held c channels released e r n =
    subst (λ v. InOrder v held) (sym e)
      (record { center = c; is_running = refl; registry = r; counted = n })

module _ (a : Allocator) (c : ChannelCenter) (channels : Objects Channel) (released : List Handle)
    (r : IsRegistry c channels) (held : Held) (n : AllCounted c channels held) (t : State) where
  after_change :
      (p : Handle) (x y : Channel) (count : ℕ)
      → channels p ≡ some x
      → y.id ≡ x.id
      → ((i : ℕ) → Owns c.table i p → (y.ref_count ≡ count + 1) × (count + 1 < 2 ^ 32))
      → t ≡ running c (update channels p (some y)) released
      → InOrder t (set_held held p count)
  after_change p x y count lives same here e =
      in_order t (set_held held p count) c (update channels p (some y)) released e
        (record {
          valid = r.valid;
          clean = r.clean;
          started = r.started;
          bounded = r.bounded;
          named = λ j q o. changed-IsNamed channels j q p x y lives same (r.named j q o);
        })
        (changed-AllCounted c channels held p y count here n)

  -- One reference more.
  pub after_more :
      (p : Handle) (x : Channel)
      → channels p ≡ some x
      → held p + 2 < 2 ^ 32
      → t ≡ running c (update channels p (some (with_ref x))) released
      → InOrder t (set_held held p (held p + 1))
  after_more p x lives low =
      after_change p x (with_ref x) (held p + 1) lives refl
        (λ i o. (omega (arith, low, (n i p x o lives).counted), omega (arith, low)))

  -- The last reference: the channel is not registered, as the centre would have one more.
  after_last :
      (p : Handle) (x : Channel)
      → channels p ≡ some x
      → 1 ≤ held p
      → x.ref_count ≡ 1
      → t ≡ running c (update channels p none) (released_after x released)
      → InOrder t (set_held held p (held p - 1))
  after_last p x lives some_held last e =
      in_order t (set_held held p (held p - 1)) c (update channels p none)
        (released_after x released) e
        (record {
          valid = r.valid;
          clean = r.clean;
          started = r.started;
          bounded = r.bounded;
          named = kept;
        })
        (freed-AllCounted c channels held p (held p - 1) unowned n)
    where
      unowned : (i : ℕ) → ¬ Owns c.table i p
      unowned i o = omega (arith, (n i p x o lives).counted, last, some_held)

      kept : (j : ℕ) (q : Handle) → Owns c.table j q → IsNamed (update channels p none) j q
      kept j q o =
          let m = r.named j q o in
          let ne : q ≢ p = λ same. unowned j (subst (λ h. Owns c.table j h) same o) in
          record {
            channel = m.channel;
            lives = update_other channels p none q ne ∙ m.lives;
            low = m.low;
            top = m.top;
            word = m.word;
          }

  pub after_less :
      (p : Handle) (x : Channel)
      → channels p ≡ some x
      → 1 ≤ held p
      → release (running c channels released) p ≡ some t
      → InOrder t (set_held held p (held p - 1))
  after_less p x lives some_held e =
      let f = some-injective _ _ (sym e ∙ release_lem c channels released p x lives) in
      elim (eq_cases x.ref_count 1) [
        | inl last ↦ after_last p x lives some_held last (
            f
            ∙ ap (λ o. running c (update channels p o) (released_after x released))
                (rw (eq→== x.ref_count 1 last) refl))
        | inr more ↦
            after_change p x (record x { ref_count = (x.ref_count + 2 ^ 32 - 1) % 2 ^ 32 })
              (held p - 1) lives refl
              (λ i o.
                let k = n i p x o lives in
                (omega (arith, k.counted, k.below, some_held), omega (arith, k.below)))
              (f ∙ rw (ne→== x.ref_count 1 more) refl)
      ]
