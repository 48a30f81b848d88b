-- ===== src/Surface/Bits.antt =====
-- The two tables of the code against what the comments on the formats say.
use libtbm.Base.{
  inr, ==_iff, inl, subst, Bool-cases, ℕ_discrete, ℕ, ◌*◌, ◌≡◌, refl, Bool, true, false, ◌&&◌, ◌==◌,
  if◌then◌else◌, List, [], ◌∷◌, has, ◌∈◌, ◌∉◌, arith, Option, none, some,
}
use libtbm.Surface.Table.{
  get_num_planes, get_bpp, planes_1, planes_2, planes_3, bpp_8, bpp_16, bpp_24, bpp_32, bpp_12,
  bpp_16_b, bpp_9, bpp_12_b, bpp_16_c, bpp_24_b,
}
use libtbm.Surface.Documented.{Layout, planes_of, bits_per_pixel, pixels_per_word, documented}

-- What the comments say of a format, if they say anything.
unfoldable pub layout_in : List (ℕ × Layout) → ℕ → Option Layout
layout_in [] f = none
layout_in ((g, l) ∷ t) f = if g == f then some l else layout_in t f

abbrev formats_in : List (ℕ × Layout) → List ℕ
formats_in [] = []
formats_in ((g, l) ∷ t) = g ∷ formats_in t

abbrev is_subset : List ℕ → List ℕ → Bool
is_subset [] l = true
is_subset (x ∷ k) l = has x l && is_subset k l

abbrev pub planes_said : Option Layout → ℕ
planes_said none = 0
planes_said (some l) = planes_of l

abbrev pub bpp_said : Option Layout → ℕ
bpp_said none = 0
bpp_said (some l) = pixels_per_word l * bits_per_pixel l

abbrev row_agrees : ℕ → Bool
row_agrees f =
    get_num_planes f == planes_said (layout_in documented f)
    && get_bpp f == bpp_said (layout_in documented f)

abbrev all_agree : List ℕ → Bool
all_agree [] = true
all_agree (f ∷ l) = row_agrees f && all_agree l

all_agree_lem : (f : ℕ) (l : List ℕ) → all_agree l ≡ true → f ∈ l → row_agrees f ≡ true
all_agree_lem f [] a m = absurd (ground arith)
all_agree_lem f (x ∷ l) a m = elim (ℕ_discrete x f) [
  | yes e ↦ subst (λ y. row_agrees y ≡ true) e (ground arith)
  | no n ↦ all_agree_lem f l (ground arith) (ground arith)
]

not-mem_subset : (f : ℕ) (k l : List ℕ) → is_subset k l ≡ true → f ∉ l → f ∉ k
not-mem_subset f [] l s n = refl
not-mem_subset f (x ∷ k) l s n = elim (ℕ_discrete x f) [
  | yes e ↦ let y = subst (λ z. has z l ≡ true) e (ground arith) in absurd (ground arith)
  | no d ↦ ground (arith, not-mem_subset f k l)
]

layout_in-none : (t : List (ℕ × Layout)) (f : ℕ) → f ∉ formats_in t → layout_in t f ≡ none
unfolding layout_in
layout_in-none [] f n = refl
layout_in-none ((g, l) ∷ t) f n = ground (arith, layout_in-none t f)

abbrev known : List ℕ
known = formats_in documented

known_agree : all_agree known ≡ true
unfolding get_num_planes get_bpp layout_in
known_agree = refl

unknown_zero : (f : ℕ) → f ∉ known → (get_num_planes f ≡ 0) × (get_bpp f ≡ 0)
unfolding get_num_planes get_bpp
unknown_zero f n =
    let none_of = λ (k : List ℕ) (s : is_subset k known ≡ true). not-mem_subset f k known s n in
    (
      rw (none_of planes_1 refl, none_of planes_2 refl, none_of planes_3 refl) refl,
      rw
          (
            none_of bpp_8 refl,
            none_of bpp_16 refl,
            none_of bpp_24 refl,
            none_of bpp_32 refl,
            none_of bpp_12 refl,
            none_of bpp_16_b refl,
            none_of bpp_9 refl,
            none_of bpp_12_b refl,
            none_of bpp_16_c refl,
            none_of bpp_24_b refl,
          )
          refl,
    )

and_both : (a b : Bool) → a && b ≡ true → (a ≡ true) × (b ≡ true)
and_both true b e = (refl, e)
and_both false b e = absurd (ground arith)

-- For every format code, tbm_surface_internal_get_num_planes gives the number of planes that the
-- comments on the formats in tbm_surface.h describe, and tbm_surface_internal_get_bpp the bits per
-- pixel times the pixels of a word that they describe: both give 0 for a code that is no format,
-- and tbm_surface_internal_get_bpp gives 32, not 16, for the packed formats whose words hold two
-- pixels.
pub format_tables :
    (f : ℕ)
    → (get_num_planes f ≡ planes_said (layout_in documented f))
      × (get_bpp f ≡ bpp_said (layout_in documented f))
format_tables f = elim (Bool-cases (has f known)) [
  | inl m ↦
      let a = all_agree_lem f known known_agree m in
      let p = (==_iff (get_num_planes f) (planes_said (layout_in documented f))).0 in
      let q = (==_iff (get_bpp f) (bpp_said (layout_in documented f))).0 in
      let (x, y) = and_both _ _ a in (p x, q y)
  | inr m ↦ let z = unknown_zero f m in rw (layout_in-none documented f m) z
]
