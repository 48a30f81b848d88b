-- ===== src/Surface/Bos.antt =====
-- The buffer objects of a new surface: all of them, or none.
use libtbm.Base.{
  has, ℕ, ◌≡◌, ◌≢◌, refl, sym, ◌∙◌, ap, subst, true, false, Bool-cases, inl, inr, ◌⊎◌, List, [],
  ◌∷◌, ◌++◌, ◌∉◌, ◌==◌, arith, All-append, All-mono_mem, Distinct-append_one, erase, not,
  is_positive, ◌&&◌, not-mem_of_All,
}
use libtbm.Bo.State.{Manager, Backend}
use libtbm.Bo.Alloc.{alloc, is_bufmgr}
use libtbm.Surface.State.{Platform}
use libtbm.Surface.Create.{surface_bo}
use libtbm.Surface.GivenBack.{erase_all, Single}

-- New memory is not in use.
abbrev pub Fresh : Platform → Type 0
Fresh e = (m : Manager) → e.back.calloc_bo m ∉ m.bo_list

-- A new buffer object: it is listed before the others, which stay as they were.
pub record Added (m r : Manager) (b : ℕ) : Type 0 where
  pub some_bo : b ≢ 0
  pub unlisted : b ∉ m.bo_list
  pub list : r.bo_list ≡ b ∷ m.bo_list
  pub one : (r.bos b).ref_cnt ≡ 1
  pub rest : (a : ℕ) → b ≢ a → (r.bos a).ref_cnt ≡ (m.bos a).ref_cnt
  pub live : r.live ≡ m.live

pub record Refused (m r : Manager) : Type 0 where
  pub list : r.bo_list ≡ m.bo_list
  pub refs : r.bos ≡ m.bos
  pub live : r.live ≡ m.live

alloc-cases :
    (e : Backend) (bufmgr size flags : ℕ) (m : Manager)
    → e.calloc_bo m ∉ m.bo_list
    → let r = alloc e bufmgr size flags m in ((r.0 ≡ 0) × Refused m r.1) ⊎ Added m r.1 r.0
unfolding alloc
alloc-cases e bufmgr size flags m fresh =
    elim (Bool-cases (not (is_bufmgr m bufmgr && is_positive size))) [
      | inl v ↦ rw v (inl (refl, record { list = refl; refs = refl; live = refl }))
      | inr v ↦ elim (Bool-cases (e.calloc_bo m == 0)) [
        | inl z ↦ rw (v, z) (inl (refl, record { list = refl; refs = refl; live = refl }))
        | inr z ↦ elim (Bool-cases (e.alloc_ret (e.calloc_bo m) size flags m == 0)) [
          | inl p ↦ rw (v, z, p) (inl (refl, record { list = refl; refs = refl; live = refl }))
          | inr p ↦
              rw (v, z, p)
                (inr (record {
                  some_bo = ground arith;
                  unlisted = fresh;
                  list = refl;
                  one = ground arith;
                  rest = λ a n. ground arith;
                  live = refl;
                }))
        ]
      ]
    ]

pub surface_bo-cases :
    (e : Platform) (width height format flags i size : ℕ) (m : Manager)
    → Fresh e
    → let r = surface_bo e width height format flags i size m in
      ((r.0 ≡ 0) × Refused m r.1) ⊎ Added m r.1 r.0
unfolding surface_bo
surface_bo-cases e width height format flags i size m fresh =
    let b = e.back.calloc_bo m in
    elim (Bool-cases e.has_surface_bo_alloc) [
      | inr h ↦ rw h (alloc-cases e.back m.address size flags m (fresh m))
      | inl h ↦ elim (Bool-cases (b == 0)) [
        | inl z ↦ rw (h, z) (inl (refl, record { list = refl; refs = refl; live = refl }))
        | inr z ↦ elim (Bool-cases (e.surface_alloc_ret b width height format flags i m == 0)) [
          | inl p ↦ rw (h, z, p) (inl (refl, record { list = refl; refs = refl; live = refl }))
          | inr p ↦
              rw (h, z, p)
                (inr (record {
                  some_bo = ground arith;
                  unlisted = fresh m;
                  list = refl;
                  one = ground arith;
                  rest = λ a n. ground arith;
                  live = refl;
                }))
        ]
      ]
    ]

erase_all-append :
    (g : List ℕ) (b : ℕ) (l : List ℕ) → erase_all (g ++ b ∷ []) l ≡ erase b (erase_all g l)
erase_all-append [] b l = refl
erase_all-append (x ∷ g) b l = erase_all-append g b (erase x l)

erase_all-cons : (g : List ℕ) (b : ℕ) (l : List ℕ) → b ∉ g → erase_all g (b ∷ l) ≡ b ∷ erase_all g l
erase_all-cons [] b l n = refl
erase_all-cons (x ∷ g) b l n =
    let d : (b == x) ≡ false = ground arith in rw d (erase_all-cons g b (erase x l) (ground arith))

pub erase-head : (b : ℕ) (l : List ℕ) → erase b (b ∷ l) ≡ l
erase-head b l = let z : (b == b) ≡ true = ground arith in rw z refl

-- What the loop keeps: the ones it has got are listed before the old ones.
pub record Got (old : List ℕ) (m : Manager) (got : List ℕ) : Type 0 where
  pub single : Single m got
  pub before : erase_all got m.bo_list ≡ old
  pub live : m.live ≡ true

pub Got-next :
    {old : List ℕ} {m : Manager} {got : List ℕ} (r : Manager) (b : ℕ)
    → Got old m got
    → Added m r b
    → Got old r (got ++ b ∷ [])
Got-next {old} {m} {got} r b g a =
    let s = g.single in
    let new : b ∉ got = not-mem_of_All _ b got s.listed (λ h. ground (arith, a.unlisted)) in
    record {
      single = record {
        listed =
            All-append _ got (b ∷ [])
              (All-mono_mem _ _ got
                (λ x k h.
                  let n : b ≢ x =
                    λ z. ground (arith, new, subst (λ y. has y got ≡ true) (sym z) k) in
                  (h.0, rw a.list (ground arith), a.rest x n ∙ h.2))
                s.listed)
              ((a.some_bo, rw a.list (ground arith), a.one), tt);
        distinct = Distinct-append_one got b s.distinct new;
      };
      before =
          ap (erase_all (got ++ b ∷ [])) a.list
          ∙ (erase_all-append got b (b ∷ m.bo_list)
              ∙ (ap (erase b) (erase_all-cons got b m.bo_list new)
                  ∙ (erase-head b (erase_all got m.bo_list) ∙ g.before)));
      live = a.live ∙ g.live;
    }
