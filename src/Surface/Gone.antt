-- ===== src/Surface/Gone.antt =====
-- src/tbm_surface_internal.c: `tbm_surface_internal_unref` of the last reference gives back what the
-- surface has got.
use libtbm.Base.{
  ℕ, ◌≡◌, refl, sym, ◌∙◌, ap, true, false, inl, inr, List, [], ◌∷◌, ◌==◌, arith, erase, some, ◌>>=◌,
}
use libtbm.Bo.State.{Manager, Backend, set_bo, Bo}
use libtbm.Bo.Life.{unref, free_all}
use libtbm.Bo.Kept.{free_all_same}
use libtbm.Surface.State.{Surfaces, Platform, surf_is_valid}
use libtbm.Surface.Create.{create_with_flags}
use libtbm.Surface.Life.{drop_bos, destroy_surface, surface_unref}
use libtbm.Surface.GivenBack.{erase_all, Single, Single-same, Single-next, unref_one, free_all_live}
use libtbm.Surface.Bos.{Fresh, erase-head}
use libtbm.Surface.Counted.{SmallIndex}
use libtbm.Surface.Created.{create_with_flags_cases}

drop_bos_lem :
    (e : Backend) (l : List ℕ) (m : Manager)
    → Single m l
    → m.live ≡ true
    → (r : Manager) × (drop_bos e l m ≡ some r) × (r.bo_list ≡ erase_all l m.bo_list)
unfolding drop_bos
drop_bos_lem e [] m i live = (m, refl, refl)
drop_bos_lem e (b ∷ l) m i live =
    let (nz, k, one) = i.listed.0 in
    let z : (b == 0) ≡ false = ground arith in
    let m1 = set_bo b (record (m.bos b) { surface = 0 }) m in
    let i1 = Single-same m1 refl (λ a. ground arith) i in
    let (r1, r2, r3, r4) = unref_one e b m1 nz live k (i1.listed.0.2) in
    let (r, q1, q2) = drop_bos_lem e l (unref e b m1) (Single-next (unref e b m1) i1 r1 r4) r2 in
    rw (drop_bos, z) (r, q1, q2 ∙ ap (erase_all l) r1)

-- Another surface, `o`, is left.
surface_unref_last :
    (e : Platform) (s : ℕ) (w : Surfaces) (o : ℕ) (l : List ℕ)
    → surf_is_valid w s ≡ true
    → (w.surfs s).refcnt ≡ 1
    → Single w.mgr (w.surfs s).bos
    → w.mgr.live ≡ true
    → erase s w.surf_list ≡ o ∷ l
    → (q : Surfaces) × (surface_unref e s w ≡ some q)
      × (q.surf_list ≡ o ∷ l)
      × (q.mgr.bo_list ≡ erase_all (w.surfs s).bos w.mgr.bo_list)
unfolding surface_unref destroy_surface
surface_unref_last e s w o l valid one i live left =
    let us = (w.surfs s).user_data_list in
    let m1 = free_all us w.mgr in
    let (f1, f2, f3) = free_all_same us w.mgr in
    let i1 = Single-same m1 f2 (λ a. ap (λ (g : ℕ → Bo). (g a).ref_cnt) f1) i in
    let (r, d1, d2) = drop_bos_lem e.back (w.surfs s).bos m1 i1 (free_all_live us w.mgr ∙ live) in
    let y : (s == s) ≡ true = ground arith in
    rw (valid, one, y, d1, left) (_, refl, left, d2 ∙ ap (erase_all (w.surfs s).bos) f2)

-- Where the buffer manager is there and set up for surfaces, another surface is listed, new memory
-- for a buffer object is not in the list of buffer objects, and the back end numbers the buffer
-- objects of planes below four, tbm_surface_internal_create_with_flags returns,
-- tbm_surface_internal_unref of what it returned, NULL included, ends, and the lists of surfaces and
-- of buffer objects are then as before.
pub create_with_flags-surface_unref :
    (e : Platform) (width height format flags : ℕ) (w : Surfaces) (o : ℕ) (l : List ℕ)
    → Fresh e
    → SmallIndex e
    → w.owned ≡ true
    → w.mgr.live ≡ true
    → w.surf_list ≡ o ∷ l
    → (q : Surfaces) × ((do
      (s, r) ← create_with_flags e width height format flags w
      surface_unref e s r)
        ≡ some q)
      × (q.surf_list ≡ w.surf_list)
      × (q.mgr.bo_list ≡ w.mgr.bo_list)
unfolding surface_unref surf_is_valid
create_with_flags-surface_unref e width height format flags w o l fresh small owned live left =
    let (s, r, c, h) =
      create_with_flags_cases e width height format flags w fresh small owned live in
    elim h [
      | inl (z, b, k) ↦ rw (c, z) (r, ground arith, k, b)
      | inr h ↦
          let head : erase s r.surf_list ≡ o ∷ l =
            ap (erase s) h.surf_list ∙ (erase-head s w.surf_list ∙ left) in
          let (q, q1, q2, q3) =
            surface_unref_last e s r o l h.valid h.one h.bos.single h.bos.live head in
          rw c (q, q1, q2 ∙ sym left, q3 ∙ h.bos.before)
    ]
