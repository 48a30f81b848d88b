-- ===== src/Sync/Name.antt =====
-- src/tbm_sync.c: the name of a fence that the driver gets.
use libtbm.Base.{
  Option, false, ℕ, zero, suc, ◌≤◌, ◌≡◌, ◌≢◌, refl, List, [], ◌∷◌, arith, All, length, take, none,
  some, ◌==◌, if◌then◌else◌,
}
use libtbm.Sync.{copy_bytes, copy_string}

abbrev pub prefixed : ℕ → Option (List ℕ) → Option (List ℕ)
prefixed c none = none
prefixed c (some l) = some (c ∷ l)

-- The text that stands in an array of bytes: what comes before the first zero byte, where there is
-- one.
abbrev pub text_in : List ℕ → Option (List ℕ)
text_in [] = none
text_in (c ∷ l) = let rest = text_in l in if c == 0 then some [] else prefixed c rest

copy_bytes-text :
    (n : ℕ) (src : List ℕ)
    → All (λ c. c ≢ 0) src
    → (text_in (copy_bytes n src) ≡ some (take n src)) × (length (copy_bytes n src) ≤ suc n)
unfolding copy_bytes
copy_bytes-text zero src h = (refl, omega arith)
copy_bytes-text (suc n) [] h = (refl, omega arith)
copy_bytes-text (suc n) (c ∷ src) h =
    let (t, l) = copy_bytes-text n src h.1 in
    let z : (c == 0) ≡ false = ground (arith, h.0) in (rw (z, t) refl, omega (arith, l))

-- For a text without zero bytes, the name that _copy_string leaves in an array of size n + 1 is the
-- first n bytes of the text, and at most n + 1 bytes are written; for NULL the name is empty, and
-- for a size of 0 nothing is written.
pub copy_string_lem :
    (src : List ℕ) (n : ℕ)
    → All (λ c. c ≢ 0) src
    → (text_in (copy_string (some src) (suc n)) ≡ some (take n src))
      × (length (copy_string (some src) (suc n)) ≤ suc n)
      × (text_in (copy_string none (suc n)) ≡ some [])
      × (copy_string (some src) 0 ≡ [])
unfolding copy_string
copy_string_lem src n h = let (t, l) = copy_bytes-text n src h in (t, l, refl, refl)
