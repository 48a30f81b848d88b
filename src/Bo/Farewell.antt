-- ===== src/Bo/Farewell.antt =====
-- What happens when the last reference to a buffer object goes.
use libtbm.SurfaceQueue.Invariant.{update_self}
use libtbm.SurfaceQueue.State.{dec32}
use libtbm.Base.{
  ◌^◌, not-mem-erase, Distinct, is_positive, Bool-cases, inl, inr, ◌&&◌, if◌then◌else◌, ℕ, zero,
  suc, ◌+◌, ◌<◌, ◌≡◌, ◌≢◌, refl, ◌∙◌, true, false, List, [], ◌∷◌, ◌==◌, arith, erase, ap,
}
use libtbm.Bo.State.{
  set_bo, set_lock_cnt, Manager, Backend, BackendCall, UserData, Bo, bo_free_call, free_func_call,
  bo_is_valid,
}
use libtbm.Bo.UserData.{free_data}
use libtbm.Bo.Lock.{back_unlock}
use libtbm.Bo.Life.{free_all, unlock_all, free_bo, unref}
use libtbm.Bo.Balance.{locks, unlocks, Books, Alone}

-- How often the user's `free_func` has run on this data.
abbrev pub frees : (free_func data_ptr : ℕ) → List BackendCall → ℕ
frees f d [] = 0
frees f d (free_func_call g t ∷ c) = (if f == g && d == t then 1 else 0) + frees f d c
frees f d (x ∷ c) = frees f d c

-- How often an item of the list holds this data, with this function.
unfoldable pub holds : (free_func data_ptr : ℕ) → List UserData → ℕ
holds f d [] = 0
holds f d (x ∷ l) = (if f == x.free_func && d == x.data_ptr then 1 else 0) + holds f d l

-- How often the back end was asked to free the buffer object.
abbrev pub bo_frees : ℕ → List BackendCall → ℕ
bo_frees b [] = 0
bo_frees b (bo_free_call t ∷ c) = (if t == b then 1 else 0) + bo_frees b c
bo_frees b (x ∷ c) = bo_frees b c

free_data-parts :
    (x : UserData) (m : Manager) (b f d : ℕ)
    → let r = free_data x m in
      (r.bos ≡ m.bos)
      × (r.bo_list ≡ m.bo_list)
      × (locks b r.calls ≡ locks b m.calls)
      × (unlocks b r.calls ≡ unlocks b m.calls)
      × (bo_frees b r.calls ≡ bo_frees b m.calls)
      × (f ≢ 0 → d ≢ 0 → frees f d r.calls ≡ holds f d (x ∷ []) + frees f d m.calls)
unfolding free_data holds
free_data-parts x m b f d =
    (ground arith, ground arith, ground arith, ground arith, ground arith, λ y z. ground arith)

free_all-parts :
    (l : List UserData) (m : Manager) (b f d : ℕ)
    → let r = free_all l m in
      (r.bos ≡ m.bos)
      × (r.bo_list ≡ m.bo_list)
      × (locks b r.calls ≡ locks b m.calls)
      × (unlocks b r.calls ≡ unlocks b m.calls)
      × (bo_frees b r.calls ≡ bo_frees b m.calls)
      × (f ≢ 0 → d ≢ 0 → frees f d r.calls ≡ holds f d l + frees f d m.calls)
unfolding free_all holds
free_all-parts [] m b f d = (refl, refl, refl, refl, refl, λ x y. omega arith)
free_all-parts (x ∷ l) m b f d =
    let (i1, i2, i3, i4, i5, i6) = free_all-parts l (free_data x m) b f d in
    let (j1, j2, j3, j4, j5, j6) = free_data-parts x m b f d in
    (i1 ∙ j1, i2 ∙ j2, i3 ∙ j3, i4 ∙ j4, i5 ∙ j5, λ y z. omega (arith, i6 y z, j6 y z))

unlock_all-parts :
    (e : Backend) (b n : ℕ) (m : Manager) (f d : ℕ)
    → e.has_unlock ≡ true
    → let r = unlock_all e b n m in
      (r.bo_list ≡ m.bo_list)
      × (locks b r.calls ≡ locks b m.calls)
      × (unlocks b r.calls ≡ n + unlocks b m.calls)
      × (bo_frees b r.calls ≡ bo_frees b m.calls)
      × (frees f d r.calls ≡ frees f d m.calls)
unfolding unlock_all back_unlock
unlock_all-parts e b zero m f d u = (refl, refl, omega arith, refl, refl)
unlock_all-parts e b (suc n) m f d u =
    let i = unlock_all-parts e b n (set_lock_cnt b n (back_unlock e b m)) f d u in ground arith

free_bo-parts :
    (e : Backend) (b : ℕ) (m : Manager) (f d : ℕ)
    → e.has_unlock ≡ true
    → (m.bos b).lock_cnt < 2 ^ 31
    → let r = free_bo e b m in
      (r.bo_list ≡ erase b m.bo_list)
      × (locks b r.calls ≡ locks b m.calls)
      × (unlocks b r.calls ≡ (m.bos b).lock_cnt + unlocks b m.calls)
      × (bo_frees b r.calls ≡ 1 + bo_frees b m.calls)
      × (f ≢ 0 → d ≢ 0 → frees f d r.calls ≡ holds f d (m.bos b).user_data_list + frees f d m.calls)
unfolding free_bo
free_bo-parts e b m f d u small =
    let m1 = free_all (m.bos b).user_data_list m in
    let c = (m1.bos b).lock_cnt in
    let (i1, i2, i3, i4, i5, i6) = free_all-parts (m.bos b).user_data_list m b f d in
    let same : c ≡ (m.bos b).lock_cnt = ap (λ (g : ℕ → Bo). (g b).lock_cnt) i1 in
    let (j1, j2, j3, j4, j5) = unlock_all-parts e b c m1 f d u in
    elim (Bool-cases (is_positive c)) [
      | inl p ↦ rw p (
        ap (erase b) (j1 ∙ i2),
        j2 ∙ i3,
        omega (arith, j3, i4, same),
        ground (arith, j4, i5),
        λ x y. omega (arith, j5, i6 x y),
      )
      | inr p ↦
          let z : c ≡ 0 = ground arith in
          rw p (ap (erase b) i2, i3, omega (arith, i4, same, z), ground (arith, i5), i6)
    ]

-- Where the books of a valid buffer object are even, the back end has both lock functions, nobody
-- else acts while a lock is waited for, the list of buffer objects has it once and ref_cnt is 1,
-- tbm_bo_unref makes it invalid, gives back all locks that the back end has granted, asks the back
-- end once more to free it, and calls each free_func once more for each item of user data that
-- holds the data.
pub unref_last :
    (e : Backend) (b : ℕ) (m : Manager) (f d : ℕ)
    → Alone e
    → bo_is_valid m b ≡ true
    → Distinct m.bo_list
    → Books 0 m b
    → (m.bos b).ref_cnt ≡ 1
    → f ≢ 0
    → d ≢ 0
    → let r = unref e b m in
      (bo_is_valid r b ≡ false)
      × (locks b r.calls ≡ unlocks b r.calls)
      × (bo_frees b r.calls ≡ bo_frees b m.calls + 1)
      × (frees f d r.calls ≡ frees f d m.calls + holds f d (m.bos b).user_data_list)
unfolding unref bo_is_valid
unref_last e b m f d a valid distinct i last nf nd =
    let m1 = set_bo b (record (m.bos b) { ref_cnt = dec32 (m.bos b).ref_cnt }) m in
    let self = update_self m.bos b (record (m.bos b) { ref_cnt = dec32 (m.bos b).ref_cnt }) in
    let p : is_positive (m.bos b).ref_cnt ≡ true = ground arith in
    let z : ((m1.bos b).ref_cnt == 0) ≡ true = ground arith in
    let counted : (m1.bos b).lock_cnt ≡ (m.bos b).lock_cnt = ap (λ (x : Bo). x.lock_cnt) self in
    let listed : (m1.bos b).user_data_list ≡ (m.bos b).user_data_list =
      ap (λ (x : Bo). x.user_data_list) self in
    let (j1, j2, j3, j4, j5) = free_bo-parts e b m1 f d a.unlock (omega (arith, i.room, counted)) in
    rw (valid, p, z)
      (
        ground (arith, j1, not-mem-erase b m.bo_list distinct),
        omega (arith, j2, j3, i.even, counted),
        omega (arith, j4),
        omega (arith, j5 nf nd, ap (holds f d) listed),
      )
