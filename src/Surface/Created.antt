-- ===== src/Surface/Created.antt =====
-- src/tbm_surface_internal.c: `tbm_surface_internal_create_with_flags` gets all buffer objects of a
-- surface, or leaves the lists as they were.
use libtbm.Surface.Counted.{count_bos_lem, query_planes_lem, SmallIndex}
use libtbm.Surface.Table.{get_num_planes}
use libtbm.Base.{
  if_true, ◌≢◌, ◌<◌, All, Option-cases, ◌&&◌, is_positive, ◌<◌, ℕ, zero, suc, ◌+◌, ◌≡◌, refl, ◌∙◌,
  ◌≤◌, ap, true, false, Bool-cases, inl, inr, ◌⊎◌, List, [], ◌∷◌, ◌++◌, ◌==◌, arith, Option, none,
  some, length, length-append,
}
use libtbm.Bo.State.{Manager, bo_is_valid}
use libtbm.Bo.Alloc.{set_surface}
use libtbm.Surface.State.{surf_is_valid, Surfaces, Plane, Platform}
use libtbm.Surface.Create.{
  count_bos, query_planes, open_bufmgr, create_with_flags, surface_bo, get_bos, bo_size_of,
  plane_max, is_past_bos,
}
use libtbm.Surface.GivenBack.{Single-same, erase_all, unref_bos-Single}
use libtbm.Surface.Bos.{Fresh, Got, Got-next, surface_bo-cases}

-- Nothing that counts has changed.
Got-same :
    {old : List ℕ} {m : Manager} {got : List ℕ} (r : Manager)
    → r.bo_list ≡ m.bo_list
    → ((a : ℕ) → (r.bos a).ref_cnt ≡ (m.bos a).ref_cnt)
    → r.live ≡ m.live
    → Got old m got
    → Got old r got
Got-same {old} {m} {got} r l s v g = record {
  single = Single-same r l s g.single;
  before = ap (erase_all got) l ∙ g.before;
  live = v ∙ g.live;
}

Got-set_surface :
    {old : List ℕ} {got : List ℕ} (b s : ℕ) (m : Manager)
    → Got old m got
    → Got old (set_surface b s m).1 got
unfolding set_surface
Got-set_surface b s m g = elim (Bool-cases (bo_is_valid m b)) [
  | inl v ↦ rw v (Got-same _ refl (λ a. ground arith) refl g)
  | inr v ↦ rw v g
]

-- After an error what was there before is left; else there are as many as were asked for.
abbrev Outcome : (old : List ℕ) (n : ℕ) → Option (Option (List ℕ) × Manager) → Type 0
Outcome old n o =
    ((r : Manager) × (o ≡ some (none, r)) × (r.bo_list ≡ old))
    ⊎ ((bos : List ℕ) × (r : Manager) × (o ≡ some (some bos, r)) × (length bos ≡ n) × Got old r bos)

in_bos : (e : Platform) (i b : ℕ) → i < plane_max → is_past_bos e i b ≡ false
in_bos e i b h = ground arith

get_bos_lem :
    (e : Platform) (surface width height format flags : ℕ) (planes : List Plane) (n i : ℕ)
    (got : List ℕ) (m : Manager) {old : List ℕ} (t : ℕ)
    → length got + n ≡ t
    → i + n ≤ plane_max
    → Fresh e
    → Got old m got
    → Outcome old t (get_bos e surface width height format flags planes n i got m)
unfolding get_bos
get_bos_lem e surface width height format flags planes zero i got m t k few fresh g =
    inr (got, m, refl, omega arith, g)
get_bos_lem e surface width height format flags planes (suc n) i got m {old} t k few fresh g =
    let size = bo_size_of i planes in
    let (b, m1) = surface_bo e width height format flags i size m in
    let inside = in_bos e i b (omega (arith, few)) in
    elim (surface_bo-cases e width height format flags i size m fresh) [
      | inl (z, same) ↦
          let g1 = Got-same m1 same.list (λ a. ap (λ f. (f a).ref_cnt) same.refs) same.live g in
          let y : (b == 0) ≡ true = ground arith in
          rw (get_bos, inside, y)
            (inl (_, refl, (unref_bos-Single e.back got m1 g1.single g1.live).0 ∙ g1.before))
      | inr a ↦
          let y : (b == 0) ≡ false = ground (arith, a.some_bo) in
          rw (get_bos, inside, y)
            (get_bos_lem e surface width height format flags planes n (i + 1) (got ++ b ∷ []) _ t
              (omega (arith, length-append got (b ∷ []))) (omega (arith, few)) fresh
              (Got-set_surface b surface m1 (Got-next m1 b g a)))
    ]

-- The surface that was created.
pub record Created (w r : Surfaces) (s : ℕ) : Type 0 where
  pub valid : surf_is_valid r s ≡ true
  pub surf_list : r.surf_list ≡ s ∷ w.surf_list
  pub one : (r.surfs s).refcnt ≡ 1
  pub new : s ≢ 0
  pub num_bos : length (r.surfs s).bos ≡ (r.surfs s).num_bos
  pub few_bos : (r.surfs s).num_bos ≤ plane_max
  pub planes : length (r.surfs s).planes ≡ (r.surfs s).num_planes
  pub plane_bos : All (λ p. p.bo_idx < (r.surfs s).num_bos) (r.surfs s).planes
  pub bos : Got w.mgr.bo_list r.mgr (r.surfs s).bos

-- NULL and the lists as before, or a surface.
abbrev pub Made : (w : Surfaces) → Option (ℕ × Surfaces) → Type 0
Made w o =
    (s : ℕ) × (r : Surfaces) × (o ≡ some (s, r))
    × (((s ≡ 0) × (r.mgr.bo_list ≡ w.mgr.bo_list) × (r.surf_list ≡ w.surf_list)) ⊎ Created w r s)

pub open_owned : (e : Platform) (w : Surfaces) → w.owned ≡ true → open_bufmgr e w ≡ some (false, w)
unfolding open_bufmgr
open_owned e w h = if_true w.owned _ _ h

-- Where the buffer manager is there and set up for surfaces, new memory for a buffer object is not
-- in its list, and the back end numbers the buffer objects of planes below four,
-- tbm_surface_internal_create_with_flags returns: either NULL, with the lists of buffer objects and
-- of surfaces as before, or a surface at the head of the list of surfaces that is valid and has one
-- reference, has as many buffer objects as it says, at most four, all different and listed with one
-- reference each, as many planes as it says, each on one of these buffer objects, and without these
-- buffer objects the list is as before.
pub create_with_flags_cases :
    (e : Platform) (width height format flags : ℕ) (w : Surfaces)
    → Fresh e
    → SmallIndex e
    → w.owned ≡ true
    → w.mgr.live ≡ true
    → Made w (create_with_flags e width height format flags w)
unfolding create_with_flags surf_is_valid
create_with_flags_cases e width height format flags w fresh small owned live =
    let o0 = open_owned e w owned in
    let s = e.calloc_surface w in
    let g0 : Got w.mgr.bo_list w.mgr [] = record {
      single = record { listed = tt; distinct = tt };
      before = refl;
      live = live;
    } in
    elim (Bool-cases (is_positive width && is_positive height)) [
      | inr v ↦ rw v (0, w, refl, inl (refl, refl, refl))
      | inl v ↦ elim (Bool-cases (s == 0)) [
        | inl z ↦ rw (v, o0, z) (0, w, refl, inl (refl, refl, refl))
        | inr z ↦
            elim (Option-cases (query_planes e width height format 0 (get_num_planes format))) [
              | inl q ↦ rw (v, o0, z, q) (0, w, refl, inl (refl, refl, refl))
              | inr (planes, q) ↦
                  let n = count_bos 1 planes in
                  let (many, d) = query_planes_lem e width height format _ small q in
                  elim (get_bos_lem e s width height format flags planes n 0 [] w.mgr n
                    (omega arith) (omega (arith, (count_bos_lem planes d).1)) fresh g0) [
                      | inl (r, o, l) ↦ rw (v, o0, z, q, o) (0, _, refl, inl (refl, l, refl))
                      | inr (bos, r, o, k, g) ↦
                          rw (v, o0, z, q, o)
                            (
                              s,
                              _,
                              refl,
                              inr (record {
                                valid = ground (arith, owned, z);
                                surf_list = refl;
                                one = ground arith;
                                new = ground (arith, z);
                                num_bos = ground (arith, k);
                                few_bos = ground (arith, (count_bos_lem planes d).1);
                                planes = ground (arith, many);
                                plane_bos =
                                    (let y : (s == s) ≡ true = ground arith in
                                      rw y (count_bos_lem planes d).2);
                                bos = (let y : (s == s) ≡ true = ground arith in rw y g);
                              }),
                            )
                    ]
            ]
      ]
    ]
