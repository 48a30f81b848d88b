-- ===== src/Surface/GivenBack.antt =====
-- Buffer objects that are got and given back again leave the list as it was.
use libtbm.Base.{
  is_positive, ℕ, zero, suc, ◌≡◌, ◌≢◌, refl, sym, ◌∙◌, ap, subst, true, false, List, [], ◌∷◌, ◌∈◌,
  ◌∉◌, All-mono, ◌==◌, arith, All, All-mono_mem, Distinct, erase,
}
use libtbm.SurfaceQueue.State.{dec32}
use libtbm.Bo.State.{Manager, Backend, UserData, set_bo, set_lock_cnt, bo_is_valid}
use libtbm.Bo.UserData.{free_data}
use libtbm.Bo.Lock.{back_unlock}
use libtbm.Bo.Life.{unref, free_bo, free_all, unlock_all}
use libtbm.Bo.Kept.{free_bo_shape}
use libtbm.Surface.Create.{unref_bos}

abbrev pub erase_all : List ℕ → List ℕ → List ℕ
erase_all [] l = l
erase_all (b ∷ g) l = erase_all g (erase b l)

pub free_all_live : (l : List UserData) (m : Manager) → (free_all l m).live ≡ m.live
unfolding free_all free_data
free_all_live [] m = refl
free_all_live (d ∷ l) m = free_all_live l (free_data d m) ∙ ground arith

unlock_all_live : (e : Backend) (b n : ℕ) (m : Manager) → (unlock_all e b n m).live ≡ m.live
unfolding unlock_all back_unlock
unlock_all_live e b zero m = refl
unlock_all_live e b (suc n) m =
    unlock_all_live e b n (set_lock_cnt b n (back_unlock e b m)) ∙ ground arith

pub free_bo_live : (e : Backend) (b : ℕ) (m : Manager) → (free_bo e b m).live ≡ m.live
unfolding free_bo
free_bo_live e b m =
    let m1 = free_all (m.bos b).user_data_list m in
    let i = free_all_live (m.bos b).user_data_list m in
    let j = unlock_all_live e b (m1.bos b).lock_cnt m1 in ground arith

listed_valid :
    (m : Manager) (b : ℕ) → b ≢ 0 → m.live ≡ true → b ∈ m.bo_list → bo_is_valid m b ≡ true
unfolding bo_is_valid
listed_valid m b nz live k = ground arith

-- The last reference goes.
pub unref_one :
    (e : Backend) (b : ℕ) (m : Manager)
    → b ≢ 0
    → m.live ≡ true
    → b ∈ m.bo_list
    → (m.bos b).ref_cnt ≡ 1
    → let r = unref e b m in
      (r.bo_list ≡ erase b m.bo_list)
      × (r.live ≡ true)
      × (r.bo_cnt ≡ dec32 m.bo_cnt)
      × ((a : ℕ) → b ≢ a → (r.bos a).ref_cnt ≡ (m.bos a).ref_cnt)
unfolding unref
unref_one e b m nz live k one =
    let m1 = set_bo b (record (m.bos b) { ref_cnt = dec32 (m.bos b).ref_cnt }) m in
    let (l, c, s) = free_bo_shape e b m1 in
    let v = listed_valid m b nz live k in
    let p : is_positive (m.bos b).ref_cnt ≡ true = ground arith in
    let z : ((m1.bos b).ref_cnt == 0) ≡ true = ground arith in
    rw (v, p, z) (l, free_bo_live e b m1 ∙ live, c, λ a n. (s a).0 ∙ ground arith)

-- These buffer objects are listed, each with one reference.
pub record Single (m : Manager) (got : List ℕ) : Type 0 where
  pub listed : All (λ b. (b ≢ 0) × (b ∈ m.bo_list) × ((m.bos b).ref_cnt ≡ 1)) got
  pub distinct : Distinct got

pub Single-same :
    {m : Manager} {got : List ℕ} (r : Manager)
    → r.bo_list ≡ m.bo_list
    → ((a : ℕ) → (r.bos a).ref_cnt ≡ (m.bos a).ref_cnt)
    → Single m got
    → Single r got
Single-same {m} {got} r l s i = record {
  listed = All-mono _ _ got (λ x h. (h.0, subst (λ y. x ∈ y) (sym l) h.1, s x ∙ h.2)) i.listed;
  distinct = i.distinct;
}

mem-erase_ne : (a b : ℕ) (l : List ℕ) → b ≢ a → a ∈ l → a ∈ erase b l
mem-erase_ne a b [] n m = m
mem-erase_ne a b (x ∷ l) n m = ground (arith, mem-erase_ne a b l n)

mem-ne : (a b : ℕ) (l : List ℕ) → a ∈ l → b ∉ l → b ≢ a
mem-ne a b [] m n = cc
mem-ne a b (x ∷ l) m n = ground (arith, mem-ne a b l)

pub Single-next :
    {m : Manager} {b : ℕ} {l : List ℕ} (r : Manager)
    → Single m (b ∷ l)
    → r.bo_list ≡ erase b m.bo_list
    → ((a : ℕ) → b ≢ a → (r.bos a).ref_cnt ≡ (m.bos a).ref_cnt)
    → Single r l
Single-next {m} {b} {l} r i e s = record {
  listed =
      All-mono_mem _ _ l
        (λ a k h.
          let n = mem-ne a b l k i.distinct.0 in
          (h.0, subst (λ x. a ∈ x) (sym e) (mem-erase_ne a b m.bo_list n h.1), s a n ∙ h.2))
        i.listed.1;
  distinct = i.distinct.1;
}

pub unref_bos-Single :
    (e : Backend) (l : List ℕ) (m : Manager)
    → Single m l
    → m.live ≡ true
    → ((unref_bos e l m).bo_list ≡ erase_all l m.bo_list) × ((unref_bos e l m).live ≡ true)
unfolding unref_bos
unref_bos-Single e [] m i live = (refl, live)
unref_bos-Single e (b ∷ l) m i live =
    let (nz, k, one) = i.listed.0 in
    let z : (b == 0) ≡ false = ground arith in
    let (r1, r2, r3, r4) = unref_one e b m nz live k one in
    let (q1, q2) = unref_bos-Single e l (unref e b m) (Single-next (unref e b m) i r1 r4) r2 in
    rw (unref_bos, z) (q1 ∙ ap (erase_all l) r1, q2)
