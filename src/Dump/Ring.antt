-- ===== src/Dump/Ring.antt =====
-- src/tbm_surface_internal.c: the buffers of a dump as a window on the dumps that were made.
use libtbm.Base.{
  ◌==◌, if◌then◌else◌, ℕ, zero, suc, ◌+◌, ◌≡◌, ◌≤◌, ◌<◌, refl, sym, ap, List, [], ◌∷◌, ◌++◌, take,
  drop, length, length-append, Bool-cases, inl, inr, arith,
}
use libtbm.Dump.State.{DumpBuf}
use libtbm.Dump.Store.{put_buf}

-- The list from the place `n` on, and then what is before.
abbrev pub rotated {ℓ} : {A : Type ℓ} → ℕ → List A → List A
rotated n l = drop n l ++ take n l

pub append_assoc {ℓ} : {A : Type ℓ} (a b c : List A) → (a ++ b) ++ c ≡ a ++ (b ++ c)
append_assoc [] b c = refl
append_assoc (x ∷ a) b c = ap (λ l. x ∷ l) (append_assoc a b c)

pub append_nil {ℓ} : {A : Type ℓ} (a : List A) → a ++ [] ≡ a
append_nil [] = refl
append_nil (x ∷ a) = ap (λ l. x ∷ l) (append_nil a)

drop-all {ℓ} : {A : Type ℓ} (l : List A) → (drop (length l) l ≡ []) × (take (length l) l ≡ l)
drop-all [] = (refl, refl)
drop-all (x ∷ l) = ((drop-all l).0, ap (λ r. x ∷ r) (drop-all l).1)

drop-prefix {ℓ} :
    {A : Type ℓ} (a b : List A) → (drop (length a) (a ++ b) ≡ b) × (take (length a) (a ++ b) ≡ a)
drop-prefix [] b = (refl, refl)
drop-prefix (x ∷ a) b = ((drop-prefix a b).0, ap (λ r. x ∷ r) (drop-prefix a b).1)

pub drop-append {ℓ} :
    {A : Type ℓ} (n : ℕ) (a b : List A) → n ≤ length a → drop n (a ++ b) ≡ drop n a ++ b
drop-append zero a b l = refl
drop-append (suc n) [] b l = absurd (omega (arith, l))
drop-append (suc n) (x ∷ a) b l = drop-append n a b (omega (arith, l))

drop-nil {ℓ} : {A : Type ℓ} (n : ℕ) → let e : List A = [] in drop n e ≡ []
drop-nil zero = refl
drop-nil (suc n) = refl

pub drop-drop {ℓ} : {A : Type ℓ} (m n : ℕ) (l : List A) → drop n (drop m l) ≡ drop (m + n) l
drop-drop zero n l = let e : 0 + n ≡ n = omega arith in rw e refl
drop-drop (suc m) n [] = let e : suc m + n ≡ suc (m + n) = omega arith in rw e (drop-nil n)
drop-drop (suc m) n (x ∷ l) =
    let e : suc m + n ≡ suc (m + n) = omega arith in rw e (drop-drop m n l)

split_at {ℓ} :
    {A : Type ℓ} (n : ℕ) (l : List A)
    → n < length l
    → (a : List A) × (y : A) × (b : List A) × (l ≡ a ++ y ∷ b) × (length a ≡ n)
split_at n [] h = absurd (omega (arith, h))
split_at zero (x ∷ l) h = ([], x, l, refl, refl)
split_at (suc n) (x ∷ l) h =
    let (a, y, b, e, k) = split_at n l (omega (arith, h)) in
    (x ∷ a, y, b, ap (λ r. x ∷ r) e, omega (arith, k))

put_buf-prefix :
    (a : List DumpBuf) (x y : DumpBuf) (b : List DumpBuf)
    → put_buf (length a) x (a ++ y ∷ b) ≡ a ++ x ∷ b
put_buf-prefix [] x y b = refl
put_buf-prefix (z ∷ a) x y b = ap (λ r. z ∷ r) (put_buf-prefix a x y b)

pub length-put_buf : (k : ℕ) (x : DumpBuf) (l : List DumpBuf) → length (put_buf k x l) ≡ length l
length-put_buf k x [] = refl
length-put_buf zero x (b ∷ l) = refl
length-put_buf (suc k) x (b ∷ l) = ap (λ n. suc n) (length-put_buf k x l)

rotated-last :
    (a b : List DumpBuf) (x y : DumpBuf)
    → rotated (length a + 1) (a ++ x ∷ b) ≡ drop 1 (rotated (length a) (a ++ y ∷ b) ++ x ∷ [])
rotated-last a b x y =
    let one : length a + 1 ≡ length (a ++ x ∷ []) = omega (arith, length-append a (x ∷ [])) in
    let whole : a ++ x ∷ b ≡ (a ++ x ∷ []) ++ b = sym (append_assoc a (x ∷ []) b) in
    let (d, t) = drop-prefix (a ++ x ∷ []) b in
    let (d1, t1) = drop-prefix a (y ∷ b) in
    rw (one, whole, d, t, d1, t1) (sym (append_assoc b a (x ∷ [])))

rotated-put_mid :
    (n : ℕ) (l : List DumpBuf) (x z : DumpBuf) (a b : List DumpBuf)
    → l ≡ a ++ z ∷ b
    → length a ≡ n
    → rotated (n + 1) (put_buf n x l) ≡ drop 1 (rotated n l ++ x ∷ [])
rotated-put_mid n l x z a b s k = rw (s, ← k, put_buf-prefix a x z b) (rotated-last a b x z)

-- Where the buffer after the place `n` is replaced, the window moves on by one.
pub rotated-put_buf :
    (n : ℕ) (l : List DumpBuf) (x : DumpBuf)
    → n ≤ length l
    → 0 < length l
    → let k = if n == length l then 0 else n in
      rotated (k + 1) (put_buf k x l) ≡ drop 1 (rotated n l ++ x ∷ [])
rotated-put_buf n [] x h p = absurd (omega (arith, p))
rotated-put_buf n (y ∷ t) x h p = elim (Bool-cases (n == length (y ∷ t))) [
  | inl e ↦
      let s : n ≡ length (y ∷ t) = ground (arith, e) in
      let (d, k) = drop-all t in rw (e, s, d, k) refl
  | inr e ↦
      let below : n < length (y ∷ t) = ground (arith, e, h) in
      let (a, z, b, s, k) = split_at n (y ∷ t) below in rw e (rotated-put_mid n (y ∷ t) x z a b s k)
]
