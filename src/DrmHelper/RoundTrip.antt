-- ===== src/DrmHelper/RoundTrip.antt =====
-- Reading what was printed.
use libtbm.Bo.State.{is_negative}
use libtbm.Base.{
  ◌||◌, length-append, length, ℕ, zero, suc, ◌&&◌, ◌+◌, ◌-◌, ◌*◌, ◌/◌, ◌%◌, ◌^◌, ◌<◌, ◌≡◌, refl, ap,
  ◌∙◌, List, [], ◌∷◌, ◌++◌, some, ◌==◌, leb, ltb, true, false, Bool-cases, inl, inr, arith, All,
  All-append,
}
use libtbm.DrmHelper.Decimal.{digits, print_int, is_digit, read_digits, scan_digits, scan_int}

read_digits-append :
    (l : List ℕ) (acc : ℕ) (c : ℕ)
    → All (λ d. is_digit d ≡ true) l
    → is_digit c ≡ true
    → read_digits acc (l ++ c ∷ []) ≡ read_digits acc l * 10 + (c - 48)
unfolding read_digits
read_digits-append [] acc c h d = rw (read_digits, d, read_digits) refl
read_digits-append (x ∷ l) acc c h d =
    rw (h.0, read_digits) (read_digits-append l (acc * 10 + (x - 48)) c h.1 d)

digits_are : (k n : ℕ) → All (λ d. is_digit d ≡ true) (digits k n)
unfolding digits
digits_are zero n = tt
digits_are (suc k) n = elim (Bool-cases (ltb n 10)) [
  | inl s ↦ rw (digits, s) (ground arith, tt)
  | inr s ↦
      rw (digits, s) (All-append _ (digits k (n / 10)) _ (digits_are k (n / 10)) (ground arith, tt))
]

-- 10 to the power of `k`
abbrev tens : ℕ → ℕ
tens zero = 1
tens (suc k) = 10 * tens k

read-digits : (k n : ℕ) → n < tens k → read_digits 0 (digits k n) ≡ n
unfolding read_digits digits
read-digits zero n l = omega (arith, l)
read-digits (suc k) n l = elim (Bool-cases (ltb n 10)) [
  | inl s ↦
      let d : is_digit (48 + n) ≡ true = ground arith in
      rw (digits, s, read_digits, d, read_digits) (omega arith)
  | inr s ↦
      let d : is_digit (48 + n % 10) ≡ true = ground arith in
      let r = read-digits k (n / 10) (omega (arith, l)) in
      rw (digits, s)
        (read_digits-append (digits k (n / 10)) 0 _ (digits_are k (n / 10)) d ∙ omega (arith, r))
]

digits-some : (k n : ℕ) → 0 < length (digits (suc k) n)
unfolding digits
digits-some k n = elim (Bool-cases (ltb n 10)) [
  | inl s ↦ rw (digits, s) (omega arith)
  | inr s ↦ rw (digits, s) (omega (arith, length-append (digits k (n / 10)) ((48 + n % 10) ∷ [])))
]

scan_digits_lem :
    (l : List ℕ)
    → All (λ d. is_digit d ≡ true) l
    → 0 < length l
    → scan_digits l ≡ some (read_digits 0 l)
unfolding scan_digits
scan_digits_lem [] h l = absurd (omega (arith, l))
scan_digits_lem (c ∷ cs) h l = rw h.0 refl

scan_int_lem :
    (l : List ℕ)
    → All (λ d. is_digit d ≡ true) l
    → 0 < length l
    → scan_int l ≡ some (read_digits 0 l % 2 ^ 32)
unfolding scan_int
scan_int_lem [] h l = absurd (omega (arith, l))
scan_int_lem (c ∷ cs) h l =
    let white : ((c == 32) || (leb 9 c && leb c 13)) ≡ false = ground (arith, h.0) in
    let minus : (c == 45) ≡ false = ground (arith, h.0) in
    let plus : (c == 43) ≡ false = ground (arith, h.0) in
    rw (scan_int, white, minus, plus, scan_digits_lem (c ∷ cs) h l) refl

-- What is printed of a 32-bit number is read back.
pub scan_int-print_int : (n : ℕ) → n < 2 ^ 32 → scan_int (print_int n) ≡ some n
unfolding scan_int print_int
scan_int-print_int n l = elim (Bool-cases (is_negative n)) [
  | inl s ↦
      let m = 2 ^ 32 - n in
      let e = scan_digits_lem (digits 10 m) (digits_are 10 m) (digits-some 9 m) in
      let r = read-digits 10 m (omega (arith, l)) in
      rw (print_int, s, scan_int, e, r) (ap some (ground (arith, s)))
  | inr s ↦
      let e = scan_int_lem (digits 10 n) (digits_are 10 n) (digits-some 9 n) in
      let r = read-digits 10 n (omega (arith, l)) in
      rw (print_int, s, e, r) (ap some (omega (arith, l)))
]
