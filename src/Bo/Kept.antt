-- ===== src/Bo/Kept.antt =====
-- The list of buffer objects: what holds of it whatever is allocated, imported, swapped, referenced
-- and unreferenced.
use libtbm.Base.{
  is_positive, ap, erase, ◌⊎◌, ℕ, suc, zero, ◌+◌, ◌<◌, ◌^◌, ◌≡◌, ◌≢◌, refl, sym, ◌∙◌, Bool-cases,
  inl, inr, List, [], ◌∷◌, ◌∈◌, ◌∉◌, arith, All, All-mono_mem, All_of_mem, Distinct, length, ◌==◌,
}
use libtbm.SurfaceQueue.State.{dec32}
use libtbm.Bo.State.{set_lock_cnt, UserData, Bo, Manager, Backend, set_bo, BackendCall}
use libtbm.Bo.UserData.{free_data}
use libtbm.Bo.Lock.{back_unlock}
use libtbm.Bo.Life.{free_bo, free_all, unlock_all}
use libtbm.Bo.Alloc.{enlist, find_priv}

pub record IsKept (m : Manager) : Type 0 where
  pub positive : All (λ b. b ≢ 0) m.bo_list
  pub distinct : Distinct m.bo_list
  pub counted : m.bo_cnt ≡ length m.bo_list
  pub few : length m.bo_list < 2 ^ 32
  pub refs : All (λ b. (0 < (m.bos b).ref_cnt) × ((m.bos b).ref_cnt < 2 ^ 31)) m.bo_list
  pub unique : (a b : ℕ) → a ∈ m.bo_list → b ∈ m.bo_list → (m.bos a).priv ≡ (m.bos b).priv → a ≡ b

-- Calls and errors do not matter, nor what a buffer object holds beside its references and `priv`.
pub IsKept-same :
    {m : Manager} (m' : Manager)
    → IsKept m
    → m'.bo_list ≡ m.bo_list
    → m'.bo_cnt ≡ m.bo_cnt
    → ((b : ℕ) → b ∈ m.bo_list → (0 < (m'.bos b).ref_cnt) × ((m'.bos b).ref_cnt < 2 ^ 31))
    → ((b : ℕ) → (m'.bos b).priv ≡ (m.bos b).priv)
    → IsKept m'
IsKept-same {m} m' i l c r p = record {
  positive = rw l i.positive;
  distinct = rw l i.distinct;
  counted = rw (l, c) i.counted;
  few = rw l i.few;
  refs = rw l (All-mono_mem _ _ m.bo_list (λ b k h. r b k) i.refs);
  unique =
      λ a b x y e. i.unique a b (ground (arith, l)) (ground (arith, l)) (sym (p a) ∙ (e ∙ p b));
}

pub enlist-IsKept :
    {m : Manager} (b priv flags : ℕ) (calls : List BackendCall)
    → IsKept m
    → b ≢ 0
    → b ∉ m.bo_list
    → length m.bo_list + 1 < 2 ^ 32
    → ((a : ℕ) → a ∈ m.bo_list → (m.bos a).priv ≢ priv)
    → IsKept (enlist b priv flags (record m { calls = calls }))
enlist-IsKept {m} b priv flags calls i nz fresh room new = record {
  positive = (nz, i.positive);
  distinct = (fresh, i.distinct);
  counted = omega (arith, i.counted);
  few = omega arith;
  refs = (ground arith, All-mono_mem _ _ m.bo_list (λ a k h. ground arith) i.refs);
  unique = λ a c x y e. ground (arith, i.unique a c, new a, new c);
}

pub find_priv-cases :
    (bos : ℕ → Bo) (p : ℕ) (l : List ℕ)
    → All (λ b. b ≢ 0) l
    → ((find_priv bos p l ≡ 0) × ((a : ℕ) → a ∈ l → (bos a).priv ≢ p))
      ⊎ ((find_priv bos p l ∈ l) × ((bos (find_priv bos p l)).priv ≡ p) × (find_priv bos p l ≢ 0))
unfolding find_priv
find_priv-cases bos p [] n = inl (refl, λ a m. absurd (ground arith))
find_priv-cases bos p (b ∷ l) n = elim (Bool-cases ((bos b).priv == p)) [
  | inl e ↦ inr (ground arith, ground arith, rw e n.0)
  | inr e ↦ elim (find_priv-cases bos p l n.1) [
    | inl (z, u) ↦ inl (ground arith, λ a m. ground (arith, u a))
    | inr (m, s, nz) ↦ inr (ground arith, ground arith, rw e nz)
  ]
]

-- One reference more or less.
pub set_ref-IsKept :
    {m : Manager} (b n : ℕ)
    → IsKept m
    → 0 < n
    → n < 2 ^ 31
    → IsKept (set_bo b (record (m.bos b) { ref_cnt = n }) m)
set_ref-IsKept {m} b n i pos small =
    IsKept-same _ i refl refl (λ a k. let h = All_of_mem _ a m.bo_list i.refs k in ground arith)
      (λ a. ground arith)

pub free_all_same :
    (l : List UserData) (m : Manager)
    → ((free_all l m).bos ≡ m.bos)
      × ((free_all l m).bo_list ≡ m.bo_list)
      × ((free_all l m).bo_cnt ≡ m.bo_cnt)
unfolding free_all free_data
free_all_same [] m = (refl, refl, refl)
free_all_same (d ∷ l) m =
    let (i1, i2, i3) = free_all_same l (free_data d m) in
    (i1 ∙ ground arith, i2 ∙ ground arith, i3 ∙ ground arith)

unlock_all_same :
    (e : Backend) (b n : ℕ) (m : Manager)
    → let r = unlock_all e b n m in
      (r.bo_list ≡ m.bo_list)
      × (r.bo_cnt ≡ m.bo_cnt)
      × ((a : ℕ) → ((r.bos a).ref_cnt ≡ (m.bos a).ref_cnt) × ((r.bos a).priv ≡ (m.bos a).priv))
unfolding unlock_all back_unlock
unlock_all_same e b zero m = (refl, refl, λ a. (refl, refl))
unlock_all_same e b (suc n) m =
    let (i1, i2, i3) = unlock_all_same e b n (set_lock_cnt b n (back_unlock e b m)) in
    (i1 ∙ ground arith, i2 ∙ ground arith, λ a. ((i3 a).0 ∙ ground arith, (i3 a).1 ∙ ground arith))

pub free_bo_shape :
    (e : Backend) (b : ℕ) (m : Manager)
    → let r = free_bo e b m in
      (r.bo_list ≡ erase b m.bo_list)
      × (r.bo_cnt ≡ dec32 m.bo_cnt)
      × ((a : ℕ) → ((r.bos a).ref_cnt ≡ (m.bos a).ref_cnt) × ((r.bos a).priv ≡ (m.bos a).priv))
unfolding free_bo
free_bo_shape e b m =
    let m1 = free_all (m.bos b).user_data_list m in
    let c = (m1.bos b).lock_cnt in
    let (i1, i2, i3) = free_all_same (m.bos b).user_data_list m in
    let (j1, j2, j3) = unlock_all_same e b c m1 in
    let f = λ (a : ℕ). ap (λ (g : ℕ → Bo). (g a).ref_cnt) i1 in
    let g = λ (a : ℕ). ap (λ (g : ℕ → Bo). (g a).priv) i1 in
    elim (Bool-cases (is_positive c)) [
      | inl p ↦
          rw p (ap (erase b) (j1 ∙ i2), ap dec32 (j2 ∙ i3), λ a. ((j3 a).0 ∙ f a, (j3 a).1 ∙ g a))
      | inr p ↦ rw p (ap (erase b) i2, ap dec32 i3, λ a. (f a, g a))
    ]
