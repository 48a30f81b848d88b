-- ===== src/DrmHelper/Decimal.antt =====
-- What `snprintf` and `sscanf` do with "%d", for the two files of the DRM helpers. An `int` is its
-- 32-bit pattern, and a text is its bytes. A number that no `int` holds is read modulo 2 ^ 32.
use libtbm.Base.{
  ℕ, zero, suc, Bool, ◌&&◌, ◌||◌, ◌+◌, ◌-◌, ◌*◌, ◌/◌, ◌%◌, ◌^◌, List, [], ◌∷◌, ◌++◌, Option, none,
  some, ◌==◌, if◌then◌else◌, leb, ltb, true, false,
}
use libtbm.Bo.State.{is_negative}

-- The last `n` decimal digits at most, and no leading zero.
unfoldable pub digits : ℕ → ℕ → List ℕ
digits zero n = []
digits (suc k) n = elim (ltb n 10) [
  | true ↦ (48 + n) ∷ []
  | false ↦ digits k (n / 10) ++ (48 + n % 10) ∷ []
]

-- `snprintf(buf, sizeof(buf), "%d", n)`
unfoldable pub print_int : ℕ → List ℕ
print_int n = if is_negative n then 45 ∷ digits 10 (2 ^ 32 - n) else digits 10 n

abbrev pub is_digit : ℕ → Bool
is_digit c = leb 48 c && leb c 57

unfoldable pub read_digits : ℕ → List ℕ → ℕ
read_digits acc [] = acc
read_digits acc (c ∷ l) = elim (is_digit c) [
  | true ↦ read_digits (acc * 10 + (c - 48)) l
  | false ↦ acc
]

-- The number, where there is a digit.
unfoldable pub scan_digits : List ℕ → Option ℕ
scan_digits [] = none
scan_digits (c ∷ l) = if is_digit c then some (read_digits 0 (c ∷ l)) else none

abbrev negated : Option ℕ → Option ℕ
negated none = none
negated (some n) = some ((2 ^ 32 - n % 2 ^ 32) % 2 ^ 32)

abbrev wrapped : Option ℕ → Option ℕ
wrapped none = none
wrapped (some n) = some (n % 2 ^ 32)

-- `sscanf(value, "%d", &n)`; `none` where it does not return 1.
unfoldable pub scan_int : List ℕ → Option ℕ
scan_int [] = none
scan_int (c ∷ l) =
    let rest = scan_int l in
    if (c == 32) || (leb 9 c && leb c 13)
    then rest
    else if c == 45
    then negated (scan_digits l)
    else if c == 43
    then wrapped (scan_digits l)
    else wrapped (scan_digits (c ∷ l))
