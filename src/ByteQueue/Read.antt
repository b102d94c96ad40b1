-- ===== src/ByteQueue/Read.antt =====
-- `read_bytes` hands out the oldest bytes, and takes them out unless it only peeks.
use frog_game_framework.Base.{
  ℕ, ◌≤◌, ◌<◌, ◌≡◌, refl, ap, sym, ◌∙◌, subst, ◌⊎◌, inl, inr, List, some, arith, length, Gives,
  Gives_bind, Gives_of_eq, eq-nil_of_length, ◌==◌, if◌then◌else◌, Option, none, ltb, ◌>>=◌, eq→==,
  ne→==, eq_cases, lt_cases, lt→ltb, le→ltb, take, drop, Bool, true, false, take_all, drop_all,
  ◌||◌,
}
use frog_game_framework.ByteQueue.{ByteQueue, read_offset, read_bytes}
use frog_game_framework.ByteQueue.View.{
  Holds, IsValid, contents, IsValid-holds, holds-IsValid, contents_of_holds,
}
use frog_game_framework.ByteQueue.Space.{get_bytes_readable-holds}
use frog_game_framework.ByteQueue.Offset.{copy_out-holds, read_offset-holds}

module _ {q : ByteQueue} {xs : List ℕ} (h : Holds q xs) where
  -- A read of at least one byte that is there, through the number of bytes that it comes to.
  read_some :
      (n m : ℕ) (peek : Bool)
      → n ≡ (if ltb (length xs) m then length xs else m)
      → 0 < n
      → n ≤ length xs
      → read_bytes q m peek
        ≡ ((if peek then some q else read_offset q n) >>= λ q'. some (some (take n xs), q'))
  unfolding read_bytes
  read_some n m peek e p enough =
      rw (get_bytes_readable-holds h, ← e, ne→== n 0 (omega arith), copy_out-holds h n p enough)

  pub read_bytes_peek :
      (n : ℕ) → 0 < n → n ≤ length xs → read_bytes q n true ≡ some (some (take n xs), q)
  read_bytes_peek n p enough = read_some n n true (ground arith) p enough

  -- The bytes that leave, and a queue with the rest.
  abbrev pub Takes : ℕ → Option (List ℕ) × ByteQueue → Type 0
  Takes n r = (r.0 ≡ some (take n xs)) × Holds r.1 (drop n xs) × (r.1.capacity ≡ q.capacity)

  pub read_bytes_take : (n : ℕ) → 0 < n → n ≤ length xs → Gives (read_bytes q n false) (Takes n)
  read_bytes_take n p enough =
      subst (λ m. Gives m (Takes n)) (sym (read_some n n false (ground arith) p enough))
        (Gives_bind (read_offset q n) (λ q'. some (some (take n xs), q')) (Takes n)
          (read_offset-holds h n enough) (λ q' d. (refl, d.0, d.1)))

-- What `read_bytes` promises for a queue that holds `xs`: the result `false` exactly where nothing
-- is there or nothing is asked for, else the oldest bytes; a valid queue, with those bytes taken
-- out unless it only peeks.
pub record Reads (xs : List ℕ) (m : ℕ) (peek : Bool) (r : Option (List ℕ) × ByteQueue)
    : Type 0 where
  pub bytes : r.0 ≡ (if (length xs == 0) || (m == 0) then none else some (take m xs))
  pub valid : IsValid r.1
  pub rest : contents r.1 ≡ (if peek then xs else drop m xs)

module _ {q : ByteQueue} (v : IsValid q) (m : ℕ) where
  abbrev held : List ℕ
  held = contents q

  -- The number of bytes that leave takes and drops as `m` does.
  abbrev amount : ℕ
  amount = if ltb (length held) m then length held else m

  amount-take : take amount held ≡ take m held
  amount-take = elim (lt_cases (length held) m) [
    | inl p ↦
        rw (lt→ltb _ _ p) (take_all _ held (omega arith) ∙ sym (take_all m held (omega arith)))
    | inr p ↦ rw (le→ltb _ _ p)
  ]

  amount-drop : drop amount held ≡ drop m held
  amount-drop = elim (lt_cases (length held) m) [
    | inl p ↦
        rw (lt→ltb _ _ p) (drop_all _ held (omega arith) ∙ sym (drop_all m held (omega arith)))
    | inr p ↦ rw (le→ltb _ _ p)
  ]

  nothing : (peek : Bool) → (length held ≡ 0) ⊎ (m ≡ 0) → Reads held m peek (none, q)
  nothing peek e = record { bytes = ground arith; valid = v; rest = unmoved peek (same e) }
    where
      same : (length held ≡ 0) ⊎ (m ≡ 0) → drop m held ≡ held
      same (inl z) = drop_all m held (omega arith) ∙ sym (eq-nil_of_length held z)
      same (inr z) = ap (λ k. drop k held) z

      unmoved : (p : Bool) → drop m held ≡ held → held ≡ (if p then held else drop m held)
      unmoved true d = refl
      unmoved false d = sym d

  something :
      (peek : Bool)
      → 0 < amount
      → amount ≤ length held
      → Gives (read_bytes q m peek) (Reads held m peek)
  something true p le =
      Gives_of_eq (Reads held m true) (read_some (IsValid-holds v) amount m true refl p le)
        (record { bytes = ground (arith, amount-take); valid = v; rest = refl })
  something false p le =
      subst (λ o. Gives o (Reads held m false))
        (sym (read_some (IsValid-holds v) amount m false refl p le))
        (Gives_bind (read_offset q amount) _ (Reads held m false)
          (read_offset-holds (IsValid-holds v) amount le)
          (λ q' d. record {
            bytes = ground (arith, amount-take);
            valid = holds-IsValid d.0;
            rest = contents_of_holds d.0 ∙ amount-drop;
          }))

  -- `read_bytes` on a valid queue never faults, and does what `Reads` says.
  pub read_bytes-Reads : (peek : Bool) → Gives (read_bytes q m peek) (Reads held m peek)
  read_bytes-Reads peek = elim (eq_cases amount 0) [
    | inl e ↦ Gives_of_eq (Reads held m peek) (empty_read e) (nothing peek (ground arith))
    | inr e ↦ something peek (omega arith) (ground arith)
  ]
    where
      empty_read : amount ≡ 0 → read_bytes q m peek ≡ some (none, q)
      empty_read e =
          unfold read_bytes in rw (get_bytes_readable-holds (IsValid-holds v), eq→== _ 0 e)
