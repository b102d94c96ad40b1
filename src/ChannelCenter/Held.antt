-- ===== src/ChannelCenter/Held.antt =====
-- The references to channels that a program holds, beside the one that the centre has to each
-- registered channel.
use frog_game_framework.Base.{
  ℕ, ◌+◌, ◌^◌, ◌≡◌, ◌≢◌, ◌<◌, refl, sym, ap, get_elem?, subst, ◌∙◌, List, [], Option, none, some,
  some-injective, inl, inr, arith, eq_cases, ◌==◌, eq→==, ne→==, if◌then◌else◌,
}
use frog_game_framework.HandleTable.{Handle}
use frog_game_framework.HandleTable.Objects.{Objects, update, update_same, update_other}
use frog_game_framework.HandleTable.GiveBack.{Given, Given-origin}
use frog_game_framework.HandleTable.Valid.{Owns}
use frog_game_framework.ChannelCenter.{Channel, ChannelCenter, State}
use frog_game_framework.ChannelCenter.Create.{CreatedAt, created}
use frog_game_framework.ChannelCenter.Drop.{other_address}
use frog_game_framework.ChannelCenter.Registry.{new_id, IsRegistry}

-- How many references the program holds to the channel at each address.
abbrev pub Held : Type 0
Held = Handle → ℕ

-- The program holds `n` references to the channel at `p`.
unfoldable pub set_held : Held → Handle → ℕ → Held
set_held held p n q = if q == p then n else held q

set_held_same : (held : Held) (p : Handle) (n : ℕ) → set_held held p n p ≡ n
unfolding set_held
set_held_same held p n = rw (eq→== p p refl) refl

set_held_other :
    (held : Held) (p : Handle) (n : ℕ) (q : Handle) → q ≢ p → set_held held p n q ≡ held q
unfolding set_held
set_held_other held p n q ne = rw (ne→== q p ne) refl

-- A registered channel has the references that the program holds, and that of the centre.
pub record Counts (held : Held) (p : Handle) (x : Channel) : Type 0 where
  pub counted : x.ref_count ≡ held p + 1
  pub below : held p + 1 < 2 ^ 32

abbrev pub AllCounted : ChannelCenter → Objects Channel → Held → Type 0
AllCounted c channels held =
    (i : ℕ) (p : Handle) (x : Channel) → Owns c.table i p → channels p ≡ some x → Counts held p x

-- The channel at `p` changes with the references to it.
pub changed-AllCounted :
    (c : ChannelCenter) (channels : Objects Channel) (held : Held) (p : Handle) (y : Channel)
    (n : ℕ)
    → ((i : ℕ) → Owns c.table i p → (y.ref_count ≡ n + 1) × (n + 1 < 2 ^ 32))
    → AllCounted c channels held
    → AllCounted c (update channels p (some y)) (set_held held p n)
changed-AllCounted c channels held p y n here all i q x o lives = elim (eq_cases q p) [
  | inl e ↦
      let at = set_held_same held p n in
      let (count, low) = here i (subst (λ h. Owns c.table i h) e o) in
      let same : y ≡ x =
        some-injective _ _ (
          sym (update_same channels p (some y))
          ∙ ap (update channels p (some y)) (sym e)
          ∙ lives) in
      record {
        counted =
            ap (λ v. v.ref_count) (sym same)
            ∙ count
            ∙ ap (λ m. m + 1) (sym at ∙ ap (set_held held p n) (sym e));
        below = omega (arith, low, at, ap (set_held held p n) e);
      }
  | inr ne ↦
      let old = all i q x o (sym (update_other channels p (some y) q ne) ∙ lives) in
      let at = set_held_other held p n q ne in
      record { counted = omega (arith, old.counted, at); below = omega (arith, old.below, at) }
]

-- A channel is freed that is not registered.
pub freed-AllCounted :
    (c : ChannelCenter) (channels : Objects Channel) (held : Held) (p : Handle) (n : ℕ)
    → ((i : ℕ) → ¬ Owns c.table i p)
    → AllCounted c channels held
    → AllCounted c (update channels p none) (set_held held p n)
freed-AllCounted c channels held p n unowned all i q x o lives =
    let ne : q ≢ p = λ e. unowned i (subst (λ h. Owns c.table i h) e o) in
    let old = all i q x o (sym (update_other channels p none q ne) ∙ lives) in
    let at = set_held_other held p n q ne in
    record { counted = omega (arith, old.counted, at); below = omega (arith, old.below, at) }

-- A channel loses its slot.
pub dropped-AllCounted :
    (c d : ChannelCenter) (channels : Objects Channel) (held : Held) (r : IsRegistry c channels)
    (i : ℕ) (p : Handle) (o : Owns c.table i p) (y : Option Channel)
    → Given c.table i d.table
    → AllCounted c channels held
    → AllCounted d (update channels p y) held
dropped-AllCounted c d channels held r i p o y given all j q x own lives =
    let (ne, old) = Given-origin j q given own in
    all j q x old
      (sym (update_other channels p y q (other_address c channels [] r i p o j q ne old)) ∙ lives)

-- Where no other channel is, a registered one has no references counted.
unowned :
    (c : ChannelCenter) (channels : Objects Channel) (p : Handle)
    → IsRegistry c channels
    → channels p ≡ none
    → (i : ℕ) → ¬ Owns c.table i p
unowned c channels p r free i o = absurd (ground (arith, free, (r.named i p o).lives))

-- A new channel has a reference of the program.
pub created-AllCounted :
    (c : ChannelCenter) (channels : Objects Channel) (released : List Handle) (held : Held)
    (p : Handle) (s : State) (n : CreatedAt c channels released p s)
    → channels p ≡ none
    → AllCounted c channels held
    → AllCounted n.center
        (update channels p (some (created (new_id c.sequence n.slot) 2)))
        (set_held held p 1)
created-AllCounted c channels released held p s n free all =
    changed-AllCounted n.center channels held p (created (new_id c.sequence n.slot) 2) 1
      (λ i o. (refl, omega arith)) before
  where
    before : AllCounted n.center channels held
    before j q x o lives = elim (eq_cases j n.slot) [
      | inl e ↦
          let same : q ≡ p = some-injective _ _ (
            some-injective _ _
              (sym o.stored ∙ ap (λ k. get_elem? n.center.table.slots k) e ∙ n.owns.stored)) in
          absurd (ground (arith, free, ap channels same, lives))
      | inr ne ↦ all j q x (n.origin j q ne o) lives
    ]

pub unregistered-AllCounted :
    (c : ChannelCenter) (channels : Objects Channel) (held : Held) (p : Handle)
    → IsRegistry c channels
    → channels p ≡ none
    → AllCounted c channels held
    → AllCounted c (update channels p (some (created 0 1))) (set_held held p 1)
unregistered-AllCounted c channels held p r free all =
    changed-AllCounted c channels held p (created 0 1) 1
      (λ i o. absurd (unowned c channels p r free i o)) all
