-- ===== src/Surface/Debug.antt =====
-- src/tbm_surface_internal.c: what `_tbm_surface_internal_get_debug_data` finds after
-- `tbm_surface_internal_set_debug_data`.
use libtbm.Base.{
  ◌≢◌, ℕ, ◌≡◌, refl, sym, ◌∙◌, ap, subst, true, false, Bool-cases, inl, inr, arith, ◌==◌,
  if◌then◌else◌, List, [], ◌∷◌, ◌++◌, Option, none, some,
}
use libtbm.Surface.State.{set_surf, Surface, Surfaces, Platform, DebugData, surf_is_valid}
use libtbm.Surface.Data.{
  str_eq, same_value, is_prefix, overwrite, note_key, has_key, set_debug_data, debug_value,
  get_debug_data,
}

str_eq_refl : (a : List ℕ) → str_eq a a ≡ true
unfolding str_eq
str_eq_refl [] = refl
str_eq_refl (x ∷ a) = ground (arith, str_eq_refl a)

str_eq_sound : (a b : List ℕ) → str_eq a b ≡ true → a ≡ b
unfolding str_eq
str_eq_sound [] [] h = refl
str_eq_sound (x ∷ a) (y ∷ b) h =
    let e : x ≡ y = ground arith in
    let k : str_eq a b ≡ true = ground arith in
    ap (λ z. z ∷ a) e ∙ ap (λ z. y ∷ z) (str_eq_sound a b k)
str_eq_sound [] (y ∷ b) h = absurd (ground arith)
str_eq_sound (x ∷ a) [] h = absurd (ground arith)

str_eq_ne : (a b : List ℕ) → a ≢ b → str_eq a b ≡ false
str_eq_ne a b n = elim (Bool-cases (str_eq a b)) [
  | inl e ↦ absurd (n (str_eq_sound a b e))
  | inr e ↦ e
]

-- What the entry of a key holds next, where it has held `old`: the old value only where that is a
-- prefix of the new one.
pub data Next (old value : Option (List ℕ)) : Option (List ℕ) → Type 0 where
  kept : (a rest : List ℕ) → old ≡ some a → value ≡ some (a ++ rest) → Next old value (some a)
  replaced : ((a rest : List ℕ) → old ≡ some a → value ≢ some (a ++ rest)) → Next old value value

-- The same by the code's test.
abbrev next_value : (old value : Option (List ℕ)) → Option (List ℕ)
next_value old value = if same_value old value then old else value

overwrite-done :
    (key : List ℕ) (value : Option (List ℕ)) (l : List DebugData)
    → (overwrite key value l).0 ≡ true
    → debug_value key (overwrite key value l).1 ≡ next_value (debug_value key l) value
unfolding overwrite debug_value
overwrite-done key value [] h = absurd (ground arith)
overwrite-done key value (d ∷ l) h = elim (Bool-cases (str_eq d.key key)) [
  | inl k ↦ elim (Bool-cases (same_value d.value value)) [
    | inl s ↦ rw (k, s, k) refl
    | inr s ↦ rw (k, s, k) refl
  ]
  | inr k ↦ rw (k, k) (overwrite-done key value l (ground (arith, h)))
]

overwrite-not_done :
    (key : List ℕ) (value : Option (List ℕ)) (l : List DebugData)
    → (overwrite key value l).0 ≡ false
    → next_value (debug_value key l) value ≡ value
unfolding overwrite debug_value same_value
overwrite-not_done key value [] h = refl
overwrite-not_done key value (d ∷ l) h = elim (Bool-cases (str_eq d.key key)) [
  | inl k ↦ elim (Bool-cases (same_value d.value value)) [
    | inl s ↦ absurd (ground (arith, h))
    | inr s ↦ rw (k, s) refl
  ]
  | inr k ↦ rw k (overwrite-not_done key value l (ground (arith, h)))
]

overwrite-other :
    (key other : List ℕ) (value : Option (List ℕ)) (l : List DebugData)
    → str_eq key other ≡ false
    → debug_value other (overwrite key value l).1 ≡ debug_value other l
unfolding overwrite debug_value
overwrite-other key other value [] n = refl
overwrite-other key other value (d ∷ l) n = elim (Bool-cases (str_eq d.key key)) [
  | inl k ↦
      let o : str_eq d.key other ≡ false =
        subst (λ x. str_eq x other ≡ false) (sym (str_eq_sound d.key key k)) n in
      elim (Bool-cases (same_value d.value value)) [
        | inl s ↦ rw (k, s) refl
        | inr s ↦ rw (k, s, o) (overwrite-other key other value l n)
      ]
  | inr k ↦ elim (Bool-cases (str_eq d.key other)) [
    | inl o ↦ rw (k, o) refl
    | inr o ↦ rw (k, o) (overwrite-other key other value l n)
  ]
]

note_key_same :
    (s : ℕ) (key other : List ℕ) (w : Surfaces)
    → get_debug_data s other (note_key key w) ≡ get_debug_data s other w
unfolding note_key get_debug_data
note_key_same s key other w = elim (Bool-cases (has_key key w.debug_key_list)) [
  | inl h ↦ rw h refl
  | inr h ↦ rw h refl
]

some_surface : (s : ℕ) (w : Surfaces) → surf_is_valid w s ≡ true → s ≢ 0
unfolding surf_is_valid
some_surface s w v z = absurd (ground (arith, v, z))

get_debug_data-set_surf :
    (s : ℕ) (other : List ℕ) (x : Surface) (w : Surfaces)
    → s ≢ 0
    → get_debug_data s other (set_surf s x w) ≡ debug_value other x.debug_data_list
unfolding get_debug_data
get_debug_data-set_surf s other x w n =
    let z : (s == 0) ≡ false = ground arith in
    let y : (s == s) ≡ true = ground arith in rw (z, y) refl

get_debug_data_lem :
    (s : ℕ) (other : List ℕ) (w : Surfaces)
    → s ≢ 0
    → get_debug_data s other w ≡ debug_value other (w.surfs s).debug_data_list
unfolding get_debug_data
get_debug_data_lem s other w n = let z : (s == 0) ≡ false = ground arith in rw z refl

-- What the key `other` holds in the list, after `value` was set for `key`.
abbrev expected : (key other : List ℕ) → Option (List ℕ) → List DebugData → Option (List ℕ)
expected key other value l =
    if str_eq key other then next_value (debug_value key l) value else debug_value other l

found-done :
    (key other : List ℕ) (value : Option (List ℕ)) (l : List DebugData)
    → (overwrite key value l).0 ≡ true
    → debug_value other (overwrite key value l).1 ≡ expected key other value l
found-done key other value l d = elim (Bool-cases (str_eq key other)) [
  | inl k ↦
      subst (λ o. debug_value o (overwrite key value l).1 ≡ expected key o value l)
        (str_eq_sound key other k) (rw (str_eq_refl key) (overwrite-done key value l d))
  | inr k ↦ rw k (overwrite-other key other value l k)
]

found-added :
    (key other : List ℕ) (value : Option (List ℕ)) (l : List DebugData)
    → (overwrite key value l).0 ≡ false
    → debug_value other (record { key = key; value = value } ∷ (overwrite key value l).1)
      ≡ expected key other value l
unfolding debug_value
found-added key other value l d = elim (Bool-cases (str_eq key other)) [
  | inl k ↦ rw k (sym (overwrite-not_done key value l d))
  | inr k ↦ rw k (overwrite-other key other value l k)
]

get_debug_data_found :
    (e : Platform) (s : ℕ) (key other : List ℕ) (value : Option (List ℕ)) (w : Surfaces)
    → surf_is_valid w s ≡ true
    → e.calloc_debug w ≡ true
    → let r = set_debug_data e s key value w in
      (r.0 ≡ 1)
      × (get_debug_data s other r.1 ≡ (
          if str_eq key other
          then next_value (get_debug_data s key w) value
          else get_debug_data s other w))
unfolding set_debug_data
get_debug_data_found e s key other value w valid memory =
    let l = (w.surfs s).debug_data_list in
    let r = overwrite key value l in
    let n = some_surface s w valid in
    rw (get_debug_data_lem s key w n, get_debug_data_lem s other w n)
      (elim (Bool-cases r.0) [
        | inl d ↦
            rw (valid, d)
              (
                refl,
                note_key_same s key other _
                    ∙ (get_debug_data-set_surf s other
                          (record (w.surfs s) { debug_data_list = r.1 }) w n
                        ∙ found-done key other value l d),
              )
        | inr d ↦
            rw (valid, d, memory)
              (
                refl,
                note_key_same s key other _
                    ∙ (get_debug_data-set_surf s other
                          (record (w.surfs s) {
                            debug_data_list = record { key = key; value = value } ∷ r.1;
                          })
                          w n
                        ∙ found-added key other value l d),
              )
      ])

is_prefix-append : (a rest : List ℕ) → is_prefix a (a ++ rest) ≡ true
unfolding is_prefix
is_prefix-append [] rest = refl
is_prefix-append (x ∷ a) rest = ground (arith, is_prefix-append a rest)

is_prefix_rest : (a b : List ℕ) → is_prefix a b ≡ true → (rest : List ℕ) × (b ≡ a ++ rest)
unfolding is_prefix
is_prefix_rest [] b h = (b, refl)
is_prefix_rest (x ∷ a) [] h = absurd (ground arith)
is_prefix_rest (x ∷ a) (y ∷ b) h =
    let e : y ≡ x = ground arith in
    let k : is_prefix a b ≡ true = ground arith in
    let (rest, r) = is_prefix_rest a b k in (rest, ap (λ z. z ∷ b) e ∙ ap (λ z. x ∷ z) r)

Next-value : (old value : Option (List ℕ)) → Next old value (next_value old value)
unfolding same_value
Next-value none value = replaced (λ a rest o v. cc)
Next-value (some a) none = replaced (λ b rest o v. cc)
Next-value (some a) (some b) = elim (Bool-cases (is_prefix a b)) [
  | inl p ↦ let (rest, e) = is_prefix_rest a b p in rw p (kept a rest refl (ap some e))
  | inr p ↦ rw p (replaced (λ c rest o v. absurd (ground (arith, p, is_prefix-append a rest))))
]

-- On a valid surface, with memory, tbm_surface_internal_set_debug_data returns 1,
-- _tbm_surface_internal_get_debug_data then gives for the key the old value, where the new value is
-- that with something or nothing after it, and else the new value, and what it gives for any other
-- key is as before.
pub get_debug_data-set_debug_data :
    (e : Platform) (s : ℕ) (key other : List ℕ) (value : Option (List ℕ)) (w : Surfaces)
    → surf_is_valid w s ≡ true
    → e.calloc_debug w ≡ true
    → key ≢ other
    → let r = set_debug_data e s key value w in
      (r.0 ≡ 1)
      × Next (get_debug_data s key w) value (get_debug_data s key r.1)
      × (get_debug_data s other r.1 ≡ get_debug_data s other w)
get_debug_data-set_debug_data e s key other value w valid memory ne =
    let same = get_debug_data_found e s key key value w valid memory in
    let apart = get_debug_data_found e s key other value w valid memory in
    let old = get_debug_data s key w in
    (
      same.0,
      subst (Next old value) (sym (same.1 ∙ (rw (str_eq_refl key) refl))) (Next-value old value),
      apart.1 ∙ rw (str_eq_ne key other ne) refl,
    )
