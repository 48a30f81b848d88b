-- ===== src/Dump/Only.antt =====
-- src/tbm_surface_internal.c: the one surface that `tbm_surface_internal_dump_start` makes
-- where there is none.
use libtbm.Surface.Table.{get_num_planes}
use libtbm.Bo.Life.{free_all}
use libtbm.Bo.Init.{bufmgr_init}
use libtbm.Base.{
  erase, ℕ, zero, suc, true, false, ◌&&◌, ◌≡◌, ◌≢◌, ◌⊎◌, inl, inr, refl, List, [], ◌∷◌, Option,
  none, some, ◌==◌, ◌>>=◌, Bool-cases, Option-cases, is_positive, arith,
}
use libtbm.Bo.State.{Manager, Backend}
use libtbm.Bo.Alloc.{alloc}
use libtbm.Surface.State.{Surfaces, Platform, surf_is_valid}
use libtbm.Surface.Create.{
  count_bos, get_bos, query_planes, create_with_flags, open_bufmgr, close_bufmgr,
}
use libtbm.Surface.Life.{surface_unref, destroy_surface, drop_bos}
use libtbm.Dump.State.{Dump, Media}
use libtbm.Dump.Begin.{make_bufs, make_dump}

-- The result, where there is one, has the property.
abbrev pub Each : {A : Type 0} → (A → Type 0) → Option A → Type 0
Each P none = Unit
Each P (some a) = P a

pub Each-bind :
    {A B : Type 0} (P : A → Type 0) (Q : B → Type 0) (o : Option A) (f : A → Option B)
    → Each P o
    → ((a : A) → P a → Each Q (f a))
    → Each Q (o >>= f)
Each-bind P Q none f h k = tt
Each-bind P Q (some a) f h k = k a h

-- The only surface is `s`, and it has one reference.
pub record Only (s : ℕ) (w : Surfaces) : Type 0 where
  pub owned : w.owned ≡ true
  pub listed : w.surf_list ≡ s ∷ []
  pub one : (w.surfs s).refcnt ≡ 1

make_bufs-no_bufmgr :
    (f : Media) (e : Backend) (size n i : ℕ) (m : Manager)
    → is_positive n ≡ true
    → (make_bufs f e 0 size n i m).0.1 ≡ false
unfolding make_bufs alloc
make_bufs-no_bufmgr f e size zero i m p = absurd (ground (arith, p))
make_bufs-no_bufmgr f e size (suc n) i m p = elim (Bool-cases (f.calloc_buf i)) [
  | inl c ↦ rw (make_bufs, c) refl
  | inr c ↦ rw (make_bufs, c) refl
]

pub make_dump-no_bufmgr :
    (f : Media) (e : Platform) (path : List ℕ) (size count : ℕ) (d : Dump) (w : Surfaces)
    → w.owned ≡ false
    → is_positive count ≡ true
    → (make_dump f e path size count d w).dump_info ≡ d.dump_info
unfolding make_dump
make_dump-no_bufmgr f e path size count d w o p =
    let b = make_bufs-no_bufmgr f e.back size count 0 w.mgr p in simp (o, b) refl

pub surface_unref-Only :
    (e : Platform) (s : ℕ) (w : Surfaces)
    → s ≢ 0
    → Only s w
    → Each (λ r. r.owned ≡ false) (surface_unref e s w)
unfolding surface_unref destroy_surface surf_is_valid close_bufmgr
surface_unref-Only e s w z h =
    let y : (s == s) ≡ true = ground arith in
    let nz : (s == 0) ≡ false = ground (arith, z) in
    let valid : surf_is_valid w s ≡ true = simp (h.owned, h.listed, nz, y) refl in
    let left : erase s w.surf_list ≡ [] = simp (h.listed, y) refl in
    let x = w.surfs s in
    elim (Option-cases (drop_bos e.back x.bos (free_all x.user_data_list w.mgr))) [
      | inl d ↦ rw (valid, h.one, y, d) tt
      | inr (m, d) ↦ rw (valid, h.one, y, d, left) refl
    ]

pub create_with_flags-Only :
    (e : Platform) (width height format flags : ℕ) (w : Surfaces)
    → w.owned ≡ false
    → Each (λ r. (r.0 ≡ 0) ⊎ Only r.0 r.1) (create_with_flags e width height format flags w)
unfolding create_with_flags open_bufmgr
create_with_flags-Only e width height format flags w o =
    let w1 : Surfaces = record w {
      mgr = (bufmgr_init e.system w.mgr).1;
      owned = true;
      surf_list = [];
    } in
    let s = e.calloc_surface w1 in
    let y : (s == s) ≡ true = ground arith in
    elim (Bool-cases (is_positive width && is_positive height)) [
      | inr bad ↦ simp bad (inl refl)
      | inl good ↦ elim (Bool-cases ((bufmgr_init e.system w.mgr).0 == 0)) [
        | inl none_made ↦ simp (good, o, none_made) tt
        | inr made ↦ elim (Bool-cases (s == 0)) [
          | inl null ↦ simp (good, o, made, null) (inl refl)
          | inr got ↦
              elim (Option-cases (query_planes e width height format 0 (get_num_planes format))) [
                | inl n ↦ simp (good, o, made, got, n) (inl refl)
                | inr (planes, q) ↦
                    elim (Option-cases (
                      get_bos e s width height format flags planes (count_bos 1 planes) 0 []
                        w1.mgr)) [
                          | inl past ↦ simp (good, o, made, got, q, past) tt
                          | inr (r, b) ↦ elim (Option-cases r.0) [
                            | inl n ↦ simp (good, o, made, got, q, b, n) (inl refl)
                            | inr (bos, l) ↦
                                simp (good, o, made, got, q, b, l)
                                  (inr (record { owned = refl; listed = refl; one = rw y refl }))
                          ]
                        ]
              ]
        ]
      ]
    ]
