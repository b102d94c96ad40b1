-- ===== src/Memory.antt =====
-- Buffers of bytes, and the allocator behind `mem_malloc` and `mem_realloc`
-- (src/core/include/utility_t.h). The framework calls both through function pointers that the
-- host program sets, so they are parameters: a new block has the size that was asked for and any
-- contents. A failed allocation (NULL) is not modelled; the code does not test for it either.
--
-- A byte is a number. A read or write outside a block is a fault, `none`.
pub mod Zeroed
use frog_game_framework.Base.{
  ℕ, ◌+◌, ◌-◌, ◌*◌, ◌/◌, ◌%◌, ◌^◌, ◌≡◌, ◌++◌, List, Option, none, some, arith, leb, ◌==◌,
  if◌then◌else◌, length, take, drop, length-append, take-append_left, drop-append_left, length-take,
  length-drop, append_assoc, append-nil, ap, sym, ◌∙◌, [],
}

pub record Memory : Type 0 where
  pub malloc : ℕ → List ℕ
  pub realloc : List ℕ → ℕ → List ℕ
  pub length-malloc : (n : ℕ) → length (malloc n) ≡ n
  pub length-realloc : (block : List ℕ) (n : ℕ) → length (realloc block n) ≡ n

-- `size_t` arithmetic: 64 bits, wrapping.
abbrev pub add_size : ℕ → ℕ → ℕ
add_size a b = (a + b) % 2 ^ 64

abbrev pub sub_size : ℕ → ℕ → ℕ
sub_size a b = (a + 2 ^ 64 - b) % 2 ^ 64

-- `a % b` on `size_t`; a division by zero is a fault.
abbrev pub mod_size : ℕ → ℕ → Option ℕ
mod_size a b = if b == 0 then none else some (a % b)

-- The macro `align_size(n, 256)`: round up to a multiple of 256 by clearing the low eight bits.
abbrev pub align_size : ℕ → ℕ
align_size n = add_size n 255 / 256 * 256

-- Reads `n` bytes from offset `i` of a block.
unfoldable pub load : List ℕ → ℕ → ℕ → Option (List ℕ)
load block i n = if leb (i + n) (length block) then some (take n (drop i block)) else none

-- `memcpy(block + i, bytes, length bytes)`.
unfoldable pub store : List ℕ → ℕ → List ℕ → Option (List ℕ)
store block i bytes =
    if leb (i + length bytes) (length block)
    then some (take i block ++ (bytes ++ drop (i + length bytes) block))
    else none

pub load_in :
    (front bytes back : List ℕ) (i n : ℕ)
    → i ≡ length front
    → n ≡ length bytes
    → load (front ++ (bytes ++ back)) i n ≡ some bytes
unfolding load
load_in front bytes back i n ei en = ground (
  arith,
  drop-append_left i front (bytes ++ back) ei,
  take-append_left n bytes back en,
  length-append front (bytes ++ back),
  length-append bytes back,
)

pub store_in :
    (front old back bytes : List ℕ) (i : ℕ)
    → i ≡ length front
    → length old ≡ length bytes
    → store (front ++ (old ++ back)) i bytes ≡ some (front ++ (bytes ++ back))
unfolding store
store_in front old back bytes i ei eo = ground (
  arith,
  take-append_left i front (old ++ back) ei,
  drop-append_left (i + length bytes) (front ++ old) back (omega (arith, length-append front old)),
  append_assoc front old back,
  length-append front (old ++ back),
  length-append old back,
)

-- The same, with the block's parts given by an equation.
pub load_at :
    {block : List ℕ} (front bytes back : List ℕ) {i n : ℕ}
    → block ≡ front ++ (bytes ++ back)
    → i ≡ length front
    → n ≡ length bytes
    → load block i n ≡ some bytes
load_at front bytes back {i} {n} e ei en =
    ap (λ b. load b i n) e ∙ load_in front bytes back i n ei en

pub store_at :
    {block : List ℕ} (front old back bytes : List ℕ) {i : ℕ}
    → block ≡ front ++ (old ++ back)
    → i ≡ length front
    → length old ≡ length bytes
    → store block i bytes ≡ some (front ++ (bytes ++ back))
store_at front old back bytes {i} e ei eo =
    ap (λ b. store b i bytes) e ∙ store_in front old back bytes i ei eo

-- A store that fills the block to its end.
pub store_end :
    (front rest bytes : List ℕ) {i : ℕ}
    → i ≡ length front
    → length rest ≡ length bytes
    → store (front ++ rest) i bytes ≡ some (front ++ bytes)
store_end front rest bytes {i} ei e =
    store_at front rest [] bytes (ap (λ t. front ++ t) (sym (append-nil rest))) ei e
    ∙ ap (λ t. some (front ++ t)) (append-nil bytes)

pub length-store :
    (block : List ℕ) (i : ℕ) (bytes result : List ℕ)
    → store block i bytes ≡ some result
    → length result ≡ length block
unfolding store
length-store block i bytes result e = ground (
  arith,
  length-append (take i block) (bytes ++ drop (i + length bytes) block),
  length-append bytes (drop (i + length bytes) block),
  length-take i block,
  length-drop (i + length bytes) block,
)

pub length-load :
    (block : List ℕ) (i n : ℕ) (bytes : List ℕ) → load block i n ≡ some bytes → length bytes ≡ n
unfolding load
length-load block i n bytes e = ground (arith, length-take n (drop i block), length-drop i block)
