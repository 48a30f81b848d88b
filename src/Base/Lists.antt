-- ===== src/Base/Lists.antt =====
-- Lists measured by native numbers, and Boolean membership for lists of numbers.
use Prim.Native.Nat.{ℕ, zero, suc, ◌+◌, ◌≤◌}
use mathlib.Core.Path.{◌≡◌, refl, subst}
use mathlib.Core.Logic.{◌≢◌, inl, inr}
use mathlib.Core.Bool.{Bool, true, false, ◌||◌}
use mathlib.Core.List.{List, [], ◌∷◌, ◌++◌}
use native.Mathlib.Omega.{arith}
use native.Mathlib.Decide.{ℕ_discrete}
use libtbm.Base.Tests.{◌==◌, if◌then◌else◌, Bool-cases}

module _ {ℓ} {A : Type ℓ} where
  abbrev pub length : List A → ℕ
  length [] = 0
  length (x ∷ xs) = suc (length xs)

  pub length-append : (xs ys : List A) → length (xs ++ ys) ≡ length xs + length ys
  length-append [] ys = omega arith
  length-append (x ∷ xs) ys = omega (arith, length-append xs ys)

abbrev pub drop {ℓ} : {A : Type ℓ} → ℕ → List A → List A
drop zero l = l
drop (suc n) [] = []
drop (suc n) (x ∷ l) = drop n l

-- Every element has the property; it computes to a tuple.
abbrev pub All {ℓ κ} : {A : Type ℓ} → (A → Type κ) → List A → Type κ
All P [] = Unit
All P (x ∷ xs) = P x × All P xs

pub All-append {ℓ κ} :
    {A : Type ℓ} (P : A → Type κ) (xs ys : List A) → All P xs → All P ys → All P (xs ++ ys)
All-append P [] ys hx hy = hy
All-append P (x ∷ xs) ys hx hy = (hx.0, All-append P xs ys hx.1 hy)

pub All-mono {ℓ κ μ} :
    {A : Type ℓ} (P : A → Type κ) (Q : A → Type μ) (xs : List A)
    → ((a : A) → P a → Q a)
    → All P xs
    → All Q xs
All-mono P Q [] f h = tt
All-mono P Q (x ∷ xs) f h = (f x h.0, All-mono P Q xs f h.1)

abbrev pub has : ℕ → List ℕ → Bool
has a [] = false
has a (x ∷ xs) = (x == a) || has a xs

infix 40 ◌∈◌ ◌∉◌
abbrev pub ◌∈◌ : ℕ → List ℕ → Type 0
a ∈ xs = has a xs ≡ true

abbrev pub ◌∉◌ : ℕ → List ℕ → Type 0
a ∉ xs = has a xs ≡ false

-- No number stands twice.
abbrev pub Distinct : List ℕ → Type 0
Distinct [] = Unit
Distinct (x ∷ xs) = (x ∉ xs) × Distinct xs

-- Drops the first occurrence.
abbrev pub erase : ℕ → List ℕ → List ℕ
erase a [] = []
erase a (x ∷ xs) = if x == a then xs else x ∷ erase a xs

pub has-append : (a : ℕ) (xs ys : List ℕ) → has a (xs ++ ys) ≡ (has a xs || has a ys)
has-append a [] ys = refl
has-append a (x ∷ xs) ys = ground (arith, has-append a xs ys)

pub Distinct-append_one :
    (xs : List ℕ) (item : ℕ) → Distinct xs → item ∉ xs → Distinct (xs ++ item ∷ [])
Distinct-append_one [] item d n = ground arith
Distinct-append_one (x ∷ xs) item d n =
    (ground (arith, has-append x xs (item ∷ [])), Distinct-append_one xs item d.1 (ground arith))

pub All_of_mem {κ} : (P : ℕ → Type κ) (a : ℕ) (xs : List ℕ) → All P xs → a ∈ xs → P a
All_of_mem P a [] h m = absurd (ground arith)
All_of_mem P a (x ∷ xs) h m = elim (ℕ_discrete x a) [
  | yes e ↦ subst P e h.0
  | no n ↦ All_of_mem P a xs h.1 (ground arith)
]

pub not-mem_of_All {κ} : (P : ℕ → Type κ) (a : ℕ) (xs : List ℕ) → All P xs → ¬ P a → a ∉ xs
not-mem_of_All P a xs h n = elim (Bool-cases (has a xs)) [
  | inl m ↦ absurd (n (All_of_mem P a xs h m))
  | inr m ↦ m
]

pub All-mem-erase :
    (x : ℕ) (xs ys : List ℕ) → x ∉ xs → All (λ a. a ∈ ys) xs → All (λ a. a ∈ erase x ys) xs
All-mem-erase x [] ys n h = tt
All-mem-erase x (a ∷ xs) ys n h =
    (mem-erase a ys h.0 (ground arith), All-mem-erase x xs ys (ground arith) h.1)
  where
    mem-erase : (b : ℕ) (zs : List ℕ) → b ∈ zs → b ≢ x → b ∈ erase x zs
    mem-erase b [] m d = m
    mem-erase b (z ∷ zs) m d = ground (arith, mem-erase b zs)

pub length-erase : (x : ℕ) (ys : List ℕ) → x ∈ ys → length (erase x ys) + 1 ≡ length ys
length-erase x [] m = cc
length-erase x (y ∷ ys) m = ground (arith, length-erase x ys)

-- A list without repetition is no longer than one that holds its elements.
pub length-le_of_mem : (xs ys : List ℕ) → Distinct xs → All (λ a. a ∈ ys) xs → length xs ≤ length ys
length-le_of_mem [] ys d h = omega arith
length-le_of_mem (x ∷ xs) ys d h = omega (
  arith,
  length-erase x ys h.0,
  length-le_of_mem xs (erase x ys) d.1 (All-mem-erase x xs ys d.0 h.1),
)

pub All-mono_mem {κ μ} :
    (P : ℕ → Type κ) (Q : ℕ → Type μ) (xs : List ℕ)
    → ((a : ℕ) → a ∈ xs → P a → Q a)
    → All P xs
    → All Q xs
All-mono_mem P Q [] f h = tt
All-mono_mem P Q (x ∷ xs) f h =
    (f x (ground arith) h.0, All-mono_mem P Q xs (λ a m. f a (ground arith)) h.1)

pub not-mem-erase : (h : ℕ) (l : List ℕ) → Distinct l → h ∉ erase h l
not-mem-erase h [] d = refl
not-mem-erase h (x ∷ l) d = ground (arith, not-mem-erase h l d.1)

pub All-erase {κ} : (P : ℕ → Type κ) (a : ℕ) (xs : List ℕ) → All P xs → All P (erase a xs)
All-erase P a [] h = tt
All-erase P a (x ∷ xs) h = elim (Bool-cases (x == a)) [
  | inl e ↦ rw e h.1
  | inr n ↦ rw n (h.0, All-erase P a xs h.1)
]

pub mem_of_erase : (a b : ℕ) (xs : List ℕ) → a ∈ erase b xs → a ∈ xs
mem_of_erase a b [] m = m
mem_of_erase a b (x ∷ xs) m = ground (arith, mem_of_erase a b xs)

pub Distinct-erase : (b : ℕ) (xs : List ℕ) → Distinct xs → Distinct (erase b xs)
Distinct-erase b [] d = tt
Distinct-erase b (x ∷ xs) d = elim (Bool-cases (x == b)) [
  | inl e ↦ rw e d.1
  | inr n ↦ rw n (ground (arith, mem_of_erase x b xs), Distinct-erase b xs d.1)
]

abbrev pub take {ℓ} : {A : Type ℓ} → ℕ → List A → List A
take zero l = []
take (suc n) [] = []
take (suc n) (x ∷ l) = x ∷ take n l
