-- ===== src/WebSocket/Body.antt =====
-- What decode reads behind a head: the mask and the payload.
use frog_game_framework.Base.{
  ℕ, ◌+◌, ◌-◌, ◌%◌, ◌≤◌, ◌<◌, ◌≡◌, refl, subst, false, List, [], ◌∷◌, some, length, take, drop,
  arith, lt→ltb, le→ltb, ne→==, eq_cases, inl, inr, Gives, Gives_bind, length-drop, drop-drop,
}
use frog_game_framework.ByteQueue.{ByteQueue, read_bytes, read_offset}
use frog_game_framework.ByteQueue.View.{Holds}
use frog_game_framework.ByteQueue.Offset.{read_offset-holds}
use frog_game_framework.ByteQueue.Read.{read_bytes_take}
use frog_game_framework.WebSocket.{unmask, take_mask, take_payload}
use frog_game_framework.WebSocket.Wire.{masked_by, unmasked}

-- `unMask` uses the four bytes of the mask in turn.
pub unmask_lem :
    (a b c d i : ℕ) (xs : List ℕ)
    → i % 4 ≡ 0
    → unmask (a ∷ b ∷ c ∷ d ∷ []) i xs ≡ some (masked_by a b c d xs)
unfolding unmask
unmask_lem a b c d i [] e = refl
unmask_lem a b c d i (x ∷ []) e = rw e refl
unmask_lem a b c d i (x ∷ y ∷ []) e = let e1 : (i + 1) % 4 ≡ 1 = omega arith in rw (e, e1) refl
unmask_lem a b c d i (x ∷ y ∷ z ∷ []) e =
    let e1 : (i + 1) % 4 ≡ 1 = omega arith in
    let e2 : (i + 1 + 1) % 4 ≡ 2 = omega arith in rw (e, e1, e2) refl
unmask_lem a b c d i (x ∷ y ∷ z ∷ w ∷ xs) e =
    let e1 : (i + 1) % 4 ≡ 1 = omega arith in
    let e2 : (i + 1 + 1) % 4 ≡ 2 = omega arith in
    let e3 : (i + 1 + 1 + 1) % 4 ≡ 3 = omega arith in
    rw (e, e1, e2, e3, unmask_lem a b c d (i + 1 + 1 + 1 + 1) xs (omega arith)) refl

module _ {q : ByteQueue} {xs : List ℕ} (h : Holds q xs) where
  pub skip_mask :
      (base : ℕ)
      → 0 < base
      → base + 4 ≤ length xs
      → Gives
          (take_mask q (base + 4))
          (λ r. (r.0 ≡ take 4 (drop base xs)) × Holds r.1 (drop (base + 4) xs))
  unfolding take_mask
  skip_mask base pos room =
      let cancel : base + 4 - 4 ≡ base = omega arith in
      rw (lt→ltb 4 (base + 4) (omega arith), cancel)
        (Gives_bind (read_offset q base) _ _ (read_offset-holds h base (omega arith)) (λ q1 d.
          Gives_bind (read_bytes q1 4 false) _ _
            (read_bytes_take d.0 4 (omega arith) (omega (arith, length-drop base xs)))
            (λ r t. rw t.0 (refl, subst (Holds r.1) (drop-drop base 4 (base + 4) xs refl) t.1))))

  pub skip_head :
      (base : ℕ)
      → base ≤ 4
      → base ≤ length xs
      → Gives (take_mask q base) (λ r. Holds r.1 (drop base xs))
  unfolding take_mask
  skip_head base small room =
      rw (le→ltb 4 base small)
        (Gives_bind (read_offset q base) _ _ (read_offset-holds h base room) (λ q1 d. d.0))

  pub plain_payload :
      (n base : ℕ) (mask : List ℕ)
      → base ≤ 4
      → n ≤ length xs
      → Gives (take_payload q n base mask) (λ r. (r.0 ≡ take n xs) × Holds r.1 (drop n xs))
  unfolding take_payload
  plain_payload n base mask small room = elim (eq_cases n 0) [
    | inl e ↦ rw e (refl, h)
    | inr e ↦
        rw (ne→== _ _ e, le→ltb 4 base small)
          (Gives_bind (read_bytes q n false) _ _ (read_bytes_take h n (omega arith) room)
            (λ r t. rw t.0 (refl, t.1)))
  ]

  masked_payload :
      (n offset a b c d : ℕ)
      → 4 < offset
      → n ≤ length xs
      → Gives
          (take_payload q n offset (a ∷ b ∷ c ∷ d ∷ []))
          (λ r. (r.0 ≡ masked_by a b c d (take n xs)) × Holds r.1 (drop n xs))
  unfolding take_payload
  masked_payload n offset a b c d masked room = elim (eq_cases n 0) [
    | inl e ↦ rw e (refl, h)
    | inr e ↦
        rw (ne→== _ _ e, lt→ltb 4 offset masked)
          (Gives_bind (read_bytes q n false) _ _ (read_bytes_take h n (omega arith) room)
            (λ r t. rw (t.0, unmask_lem a b c d 0 (take n xs) refl) (refl, t.1)))
  ]

-- A payload behind the mask that the body starts with.
pub body_payload :
    {q : ByteQueue} (n offset : ℕ) (mask body : List ℕ)
    → 4 < offset
    → n + 4 ≤ length body
    → mask ≡ take 4 body
    → Holds q (drop 4 body)
    → Gives
        (take_payload q n offset mask)
        (λ r. (r.0 ≡ unmasked n body) × Holds r.1 (drop n (drop 4 body)))
body_payload n offset mask [] p room e h = absurd (omega arith)
body_payload n offset mask (a ∷ []) p room e h = absurd (omega arith)
body_payload n offset mask (a ∷ b ∷ []) p room e h = absurd (omega arith)
body_payload n offset mask (a ∷ b ∷ c ∷ []) p room e h = absurd (omega arith)
body_payload n offset mask (a ∷ b ∷ c ∷ d ∷ xs) p room e h =
    rw e (masked_payload h n offset a b c d p (omega arith))
