-- ===== src/HandleTable/Objects.antt =====
-- Objects at their addresses.
use mathlib.Core.Path.{fun_ext}
use frog_game_framework.Base.{
  ◌≡◌, ◌≢◌, refl, Option, ◌==◌, eq→==, ne→==, if◌then◌else◌, eq_cases, inl, inr,
}
use frog_game_framework.HandleTable.{Handle}

abbrev pub Objects {ℓ} : Type ℓ → Type ℓ
Objects A = Handle → Option A

-- The objects after the one at `p` has changed; `none` frees it.
unfoldable pub update {ℓ} : {A : Type ℓ} → Objects A → Handle → Option A → Objects A
update objects p x q = if q == p then x else objects q

module _ {ℓ} {A : Type ℓ} (objects : Objects A) (p : Handle) (x : Option A) where
  pub update_same : update objects p x p ≡ x
  unfolding update
  update_same = rw (eq→== p p refl) refl

  pub update_other : (q : Handle) → q ≢ p → update objects p x q ≡ objects q
  unfolding update
  update_other q ne = rw (ne→== q p ne) refl

  pub update_again : (y : Option A) → update (update objects p x) p y ≡ update objects p y
  unfolding update
  update_again y =
      fun_ext (λ q. elim (eq_cases q p) [
        | inl e ↦ rw (eq→== q p e) refl
        | inr ne ↦ rw (ne→== q p ne) refl
      ])
