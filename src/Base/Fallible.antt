-- ===== src/Base/Fallible.antt =====
-- Code that may fault: `none` stands for an access outside a buffer or a failed assertion.
use mathlib.Core.Path.{◌≡◌, refl, sym, subst}
use mathlib.Core.Bool.{Bool, true, false}
use mathlib.Core.Option.{Option, none, some}

infixl 5 ◌>>=◌ ◌>>◌
abbrev pub ◌>>=◌ {ℓ κ} : {A : Type ℓ} {B : Type κ} → Option A → (A → Option B) → Option B
none >>= f = none
some a >>= f = f a

abbrev pub ◌>>◌ {ℓ} : {B : Type ℓ} → Option (Unit {0}) → Option B → Option B
m >> k = m >>= λ _. k

pub bind_assoc {ℓ κ μ} :
    {A : Type ℓ} {B : Type κ} {C : Type μ} (m : Option A) (f : A → Option B) (g : B → Option C)
    → (m >>= f >>= g) ≡ (m >>= λ a. f a >>= g)
bind_assoc none f g = refl
bind_assoc (some a) f g = refl

-- `assert(b)`.
abbrev pub assert : Bool → Option (Unit {0})
assert true = some tt
assert false = none

-- `e` gives a result, and the result satisfies `P`.
abbrev pub Gives {ℓ} : {A : Type ℓ} → Option A → (A → Type 0) → Type 0
Gives none P = ⊥
Gives (some a) P = P a

pub Gives_map {ℓ} :
    {A : Type ℓ} (m : Option A) {P Q : A → Type 0} → Gives m P → ((a : A) → P a → Q a) → Gives m Q
Gives_map none h k = h
Gives_map (some a) h k = k a h

pub Gives_bind {ℓ κ} :
    {A : Type ℓ} {B : Type κ} (m : Option A) (f : A → Option B) {P : A → Type 0} (Q : B → Type 0)
    → Gives m P
    → ((a : A) → P a → Gives (f a) Q)
    → Gives (m >>= f) Q
Gives_bind none f Q h k = absurd h
Gives_bind (some a) f Q h k = k a h

-- A result that is known.
pub Gives_of_eq {ℓ} :
    {A : Type ℓ} {m : Option A} {a : A} (P : A → Type 0) → m ≡ some a → P a → Gives m P
Gives_of_eq P e h = subst (λ o. Gives o P) (sym e) h

pub Gives_at {ℓ} :
    {A : Type ℓ} {m : Option A} {a : A} (P : A → Type 0) → m ≡ some a → Gives m P → P a
Gives_at P e h = subst (λ o. Gives o P) e h

-- A chain whose second step gives the same on all that the first one may give.
pub bind_of_Gives {ℓ κ} :
    {A : Type ℓ} {B : Type κ} (m : Option A) (f : A → Option B) {P : A → Type 0} {r : Option B}
    → Gives m P
    → ((a : A) → P a → f a ≡ r)
    → (m >>= f) ≡ r
bind_of_Gives none f h k = absurd h
bind_of_Gives (some a) f h k = k a h

-- A code that gives a result has one.
abbrev pub result_or {ℓ} : {A : Type ℓ} → A → Option A → A
result_or d none = d
result_or d (some a) = a

pub some_of_Gives {ℓ} :
    {A : Type ℓ} (m : Option A) (P : A → Type 0) (d : A) → Gives m P → m ≡ some (result_or d m)
some_of_Gives none P d h = absurd h
some_of_Gives (some a) P d h = refl
