-- ===== src/Surface/Counter.antt =====
-- src/tbm_surface_internal.c and tbm_bufmgr.c: how a buffer object of a surface changes `bo_cnt`.
use libtbm.Base.{
  erase, ℕ, ◌<◌, ◌^◌, ◌≡◌, ◌≢◌, refl, ◌∙◌, ap, true, Bool-cases, inl, inr, arith, not, is_positive,
  ◌&&◌, ◌==◌, if◌then◌else◌,
}
use libtbm.SurfaceQueue.State.{inc32, dec32}
use libtbm.Bo.State.{Manager, Backend}
use libtbm.Bo.Alloc.{alloc, is_bufmgr}
use libtbm.Bo.Life.{unref}
use libtbm.Surface.State.{Platform}
use libtbm.Surface.Create.{surface_bo}
use libtbm.Surface.GivenBack.{unref_one}
use libtbm.Surface.Bos.{Fresh, surface_bo-cases, erase-head}

alloc_count :
    (e : Backend) (bufmgr size flags : ℕ) (m : Manager)
    → let r = alloc e bufmgr size flags m in r.0 ≢ 0 → r.1.bo_cnt ≡ inc32 m.bo_cnt
unfolding alloc
alloc_count e bufmgr size flags m =
    elim (Bool-cases (not (is_bufmgr m bufmgr && is_positive size))) [
      | inl v ↦ rw v (λ n. absurd (n refl))
      | inr v ↦ elim (Bool-cases (e.calloc_bo m == 0)) [
        | inl z ↦ rw (v, z) (λ n. absurd (n refl))
        | inr z ↦ elim (Bool-cases (e.alloc_ret (e.calloc_bo m) size flags m == 0)) [
          | inl p ↦ rw (v, z, p) (λ n. absurd (n refl))
          | inr p ↦ rw (v, z, p) (λ n. refl)
        ]
      ]
    ]

surface_bo_count :
    (e : Platform) (width height format flags i size : ℕ) (m : Manager)
    → let r = surface_bo e width height format flags i size m in
      r.0 ≢ 0 → r.1.bo_cnt ≡ (if e.has_surface_bo_alloc then m.bo_cnt else inc32 m.bo_cnt)
unfolding surface_bo
surface_bo_count e width height format flags i size m =
    let b = e.back.calloc_bo m in
    elim (Bool-cases e.has_surface_bo_alloc) [
      | inr h ↦ rw h (alloc_count e.back m.address size flags m)
      | inl h ↦ elim (Bool-cases (b == 0)) [
        | inl z ↦ rw (h, z) (λ n. absurd (n refl))
        | inr z ↦ elim (Bool-cases (e.surface_alloc_ret b width height format flags i m == 0)) [
          | inl p ↦ rw (h, z, p) (λ n. absurd (n refl))
          | inr p ↦ rw (h, z, p) (λ n. refl)
        ]
      ]
    ]

-- Where the buffer manager is there, bo_cnt fits 32 bits and new memory for a buffer object is not
-- in the list, let tbm_surface_internal_create_with_flags get a buffer object, and let it be
-- unreferenced. The list is then as before, and so is bo_cnt, unless the back end has
-- surface_bo_alloc: then bo_cnt is one less than before, and 2^32 - 1 where it was 0.
pub surface_bo-unref :
    (e : Platform) (width height format flags i size : ℕ) (m : Manager)
    → Fresh e
    → m.live ≡ true
    → m.bo_cnt < 2 ^ 32
    → let r = surface_bo e width height format flags i size m in
      r.0 ≢ 0
      → let q = unref e.back r.0 r.1 in
        (q.bo_list ≡ m.bo_list)
        × (q.bo_cnt ≡ (if e.has_surface_bo_alloc then dec32 m.bo_cnt else m.bo_cnt))
surface_bo-unref e width height format flags i size m fresh live small n =
    let (b, r) = surface_bo e width height format flags i size m in
    elim (surface_bo-cases e width height format flags i size m fresh) [
      | inl (z, same) ↦ absurd (n z)
      | inr a ↦
          let (l, v, c, s) =
            unref_one e.back b r n (a.live ∙ live) (rw a.list (ground arith)) a.one in
          let k = surface_bo_count e width height format flags i size m n in
          (
            l ∙ (ap (erase b) a.list ∙ erase-head b m.bo_list),
            c
                ∙ (ap dec32 k ∙ elim (Bool-cases e.has_surface_bo_alloc) [
                  | inl h ↦ rw h refl
                  | inr h ↦ rw h (omega arith)
                ]),
          )
    ]
