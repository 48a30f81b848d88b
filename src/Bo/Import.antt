-- ===== src/Bo/Import.antt =====
-- Importing the same buffer twice.
use libtbm.Base.{ℕ, ◌≡◌, ◌≢◌, refl, sym, ◌∙◌, ap, true, false, inl, inr, List, [], ◌∷◌, ◌==◌, arith}
use libtbm.SurfaceQueue.State.{inc32}
use libtbm.Bo.State.{Bo, Manager, Backend, ask, bo_import_call}
use libtbm.Bo.Alloc.{is_bufmgr, find_priv, import_priv, import_bo}
use libtbm.Bo.Kept.{IsKept, find_priv-cases}

find_priv_same :
    (bos bos' : ℕ → Bo) (p : ℕ) (l : List ℕ)
    → ((a : ℕ) → (bos' a).priv ≡ (bos a).priv)
    → find_priv bos' p l ≡ find_priv bos p l
unfolding find_priv
find_priv_same bos bos' p [] s = refl
find_priv_same bos bos' p (b ∷ l) s = ground (arith, s b, find_priv_same bos bos' p l s)

-- The back end knows this key by one `priv`, and there is memory.
pub record Knows (e : Backend) (key p : ℕ) : Type 0 where
  pub can : e.has_import ≡ true
  pub gives : (b : ℕ) (m : Manager) → e.import_ret b key m ≡ p
  pub some_priv : p ≢ 0
  pub memory : (m : Manager) → e.calloc_bo m ≢ 0

import_bo-eq :
    {e : Backend} {key p : ℕ} (bufmgr : ℕ) (m : Manager)
    → Knows e key p
    → is_bufmgr m bufmgr ≡ true
    → import_bo e bufmgr key m
      ≡ import_priv e (e.calloc_bo m) p (ask (bo_import_call (e.calloc_bo m) key) m)
unfolding import_bo
import_bo-eq {e} {key} {p} bufmgr m k v =
    let z : (e.calloc_bo m == 0) ≡ false = ground (arith, k.memory m) in
    let n : (p == 0) ≡ false = ground (arith, k.some_priv) in
    rw (v, k.can, z, k.gives (e.calloc_bo m) m, n) refl

-- Where a buffer object with this `priv` is listed, it gets one more reference.
import_priv-found :
    (e : Backend) (b p k : ℕ) (m : Manager)
    → find_priv m.bos p m.bo_list ≡ k
    → k ≢ 0
    → let r = import_priv e b p m in
      (r.0 ≡ k)
      × (r.1.bo_list ≡ m.bo_list)
      × (r.1.bo_cnt ≡ m.bo_cnt)
      × ((r.1.bos k).ref_cnt ≡ inc32 (m.bos k).ref_cnt)
      × ((a : ℕ) → (r.1.bos a).priv ≡ (m.bos a).priv)
      × (r.1.live ≡ m.live)
      × (r.1.address ≡ m.address)
unfolding import_priv
import_priv-found e b p k m f nz =
    let z : (k == 0) ≡ false = ground arith in
    rw (f, z) (refl, refl, refl, ground arith, λ a. ground arith, refl, refl)

import_priv-new :
    (e : Backend) (b p : ℕ) (m : Manager)
    → find_priv m.bos p m.bo_list ≡ 0
    → let r = import_priv e b p m in
      (r.0 ≡ b)
      × (find_priv r.1.bos p r.1.bo_list ≡ b)
      × ((r.1.bos b).ref_cnt ≡ 1)
      × (r.1.live ≡ m.live)
      × (r.1.address ≡ m.address)
unfolding import_priv find_priv
import_priv-new e b p m f = rw f (refl, ground arith, ground arith, refl, refl)

module _ {e : Backend} {key p : ℕ} (k : Knows e key p) (bufmgr : ℕ) where
  -- What an import leaves for the next one.
  after_import :
      (m : Manager)
      → IsKept m
      → is_bufmgr m bufmgr ≡ true
      → let r = import_bo e bufmgr key m in
        (find_priv r.1.bos p r.1.bo_list ≡ r.0) × (r.0 ≢ 0) × (is_bufmgr r.1 bufmgr ≡ true)
  after_import m i v =
      let m1 = ask (bo_import_call (e.calloc_bo m) key) m in
      elim (find_priv-cases m.bos p m.bo_list i.positive) [
        | inl (z, u) ↦
            let (r0, r1, r2, r3, r4) = import_priv-new e (e.calloc_bo m) p m1 z in
            rw (import_bo-eq bufmgr m k v) (r1 ∙ sym r0, λ w. k.memory m (sym r0 ∙ w), ground arith)
        | inr (h, s, nz) ↦
            let (r0, r1, r2, r3, r4, r5, r6) =
              import_priv-found e (e.calloc_bo m) p (find_priv m.bos p m.bo_list) m1 refl nz in
            rw (import_bo-eq bufmgr m k v) (
              ap (λ l. find_priv (import_priv e (e.calloc_bo m) p m1).1.bos p l) r1
                  ∙ (find_priv_same m.bos _ p m.bo_list r4 ∙ sym r0),
              λ w. nz (sym r0 ∙ w),
              ground arith,
            )
      ]

  -- Where the list of buffer objects is in order, the back end knows a key by one priv, and there
  -- is memory, a second tbm_bo_import of the key returns the same buffer object as the first, which
  -- is not NULL, leaves the list and bo_cnt as the first left them, and raises ref_cnt by one.
  pub import_again :
      (m : Manager)
      → IsKept m
      → is_bufmgr m bufmgr ≡ true
      → let r = import_bo e bufmgr key m in
        let s = import_bo e bufmgr key r.1 in
        (r.0 ≢ 0)
        × (s.0 ≡ r.0)
        × (s.1.bo_list ≡ r.1.bo_list)
        × (s.1.bo_cnt ≡ r.1.bo_cnt)
        × ((s.1.bos r.0).ref_cnt ≡ inc32 (r.1.bos r.0).ref_cnt)
  import_again m i v =
      let r = import_bo e bufmgr key m in
      let (f, nz, w) = after_import m i v in
      let (r0, r1, r2, r3, r4, r5, r6) =
        import_priv-found e (e.calloc_bo r.1) p r.0 (ask (bo_import_call (e.calloc_bo r.1) key) r.1)
          f nz in
      rw (import_bo-eq bufmgr r.1 k w) (nz, r0, r1, r2, r3)
