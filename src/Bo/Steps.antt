-- ===== src/Bo/Steps.antt =====
-- Each operation on the list of buffer objects keeps it in order.
use libtbm.Base.{
  ◌&&◌, not, not-mem-erase, subst, if◌then◌else◌, ℕ, ◌+◌, ◌<◌, ◌^◌, ◌≡◌, ◌≢◌, refl, ap, true, false,
  Bool-cases, inl, inr, ◌∈◌, ◌∉◌, arith, All-mono_mem, All_of_mem, All-erase, mem_of_erase,
  Distinct-erase, erase, length, length-erase, is_positive, ◌==◌,
}
use libtbm.Bo.State.{Bo, Manager, Backend, set_bo, bo_is_valid}
use libtbm.SurfaceQueue.State.{inc32, dec32}
use libtbm.Bo.Life.{ref, unref, free_bo}
use libtbm.Bo.Alloc.{is_bufmgr, alloc, find_priv, import_priv, import_bo, import_fd, swap}
use libtbm.Bo.Kept.{
  IsKept, IsKept-same, enlist-IsKept, find_priv-cases, set_ref-IsKept, free_bo_shape,
}

free_bo-IsKept :
    (e : Backend) (b n : ℕ) (m : Manager)
    → IsKept m
    → b ∈ m.bo_list
    → IsKept (free_bo e b (set_bo b (record (m.bos b) { ref_cnt = n }) m))
free_bo-IsKept e b n m i k =
    let m0 = set_bo b (record (m.bos b) { ref_cnt = n }) m in
    let (l, c, s) = free_bo_shape e b m0 in
    record {
      positive = rw l (All-erase _ b m.bo_list i.positive);
      distinct = rw l (Distinct-erase b m.bo_list i.distinct);
      counted = rw (c, l) (omega (arith, i.counted, i.few, length-erase b m.bo_list k));
      few = rw l (omega (arith, i.few, length-erase b m.bo_list k));
      refs = rw l (
          All-mono_mem _ _ (erase b m.bo_list)
            (λ a k2 h. ground (arith, s a, not-mem-erase b m.bo_list i.distinct))
            (All-erase _ b m.bo_list i.refs));
      unique = λ x y p q r.
          i.unique x y (mem_of_erase x b m.bo_list (subst (λ z. x ∈ z) l p))
            (mem_of_erase y b m.bo_list (subst (λ z. y ∈ z) l q)) (ground (arith, s x, s y));
    }

-- Calls and errors are not looked at.
IsKept-errors :
    {m : Manager} (m' : Manager)
    → IsKept m
    → m'.bo_list ≡ m.bo_list
    → m'.bo_cnt ≡ m.bo_cnt
    → m'.bos ≡ m.bos
    → IsKept m'
IsKept-errors {m} m' i l c s =
    IsKept-same m' i l c
      (λ b k.
        let h = All_of_mem _ b m.bo_list i.refs k in
        ground (arith, ap (λ (g : ℕ → Bo). (g b).ref_cnt) s))
      (λ b. ap (λ (g : ℕ → Bo). (g b).priv) s)

valid_mem : (m : Manager) (b : ℕ) → bo_is_valid m b ≡ true → b ∈ m.bo_list
unfolding bo_is_valid
valid_mem m b v = ground arith

pub ref-IsKept :
    (b : ℕ) (m : Manager) → IsKept m → (m.bos b).ref_cnt + 1 < 2 ^ 31 → IsKept (ref b m).1
unfolding ref
ref-IsKept b m i room = elim (Bool-cases (bo_is_valid m b)) [
  | inr v ↦ rw v i
  | inl v ↦ rw v (set_ref-IsKept b (inc32 (m.bos b).ref_cnt) i (omega arith) (omega arith))
]

pub unref-IsKept : (e : Backend) (b : ℕ) (m : Manager) → IsKept m → IsKept (unref e b m)
unfolding unref
unref-IsKept e b m i = elim (Bool-cases (bo_is_valid m b)) [
  | inr v ↦ rw v i
  | inl v ↦
      let k = valid_mem m b v in
      let h = All_of_mem _ b m.bo_list i.refs k in
      let p : is_positive (m.bos b).ref_cnt ≡ true = ground arith in
      let d = dec32 (m.bos b).ref_cnt in
      elim (Bool-cases (((set_bo b (record (m.bos b) { ref_cnt = d }) m).bos b).ref_cnt == 0)) [
        | inl z ↦ rw (v, p, z) (free_bo-IsKept e b d m i k)
        | inr z ↦ rw (v, p, z) (set_ref-IsKept b d i (ground arith) (omega arith))
      ]
]

import_priv-IsKept :
    (e : Backend) (b p : ℕ) (m : Manager)
    → IsKept m
    → b ≢ 0
    → b ∉ m.bo_list
    → length m.bo_list + 1 < 2 ^ 32
    → ((a : ℕ) → a ∈ m.bo_list → (m.bos a).ref_cnt + 1 < 2 ^ 31)
    → IsKept (import_priv e b p m).1
unfolding import_priv
import_priv-IsKept e b p m i nz fresh room refs =
    elim (find_priv-cases m.bos p m.bo_list i.positive) [
      | inl (z, u) ↦ rw z (
          enlist-IsKept b p (if e.has_get_flags then e.flags_ret b m else 0) m.calls i nz fresh room
            u)
      | inr (k, s, nz) ↦
          let z : (find_priv m.bos p m.bo_list == 0) ≡ false = ground arith in
          let r = refs (find_priv m.bos p m.bo_list) k in
          rw z (set_ref-IsKept (find_priv m.bos p m.bo_list) _ i (omega arith) (omega arith))
    ]

pub alloc-IsKept :
    (e : Backend) (bufmgr size flags : ℕ) (m : Manager)
    → IsKept m
    → e.calloc_bo m ∉ m.bo_list
    → length m.bo_list + 1 < 2 ^ 32
    → ((a : ℕ) → a ∈ m.bo_list → (m.bos a).priv ≢ e.alloc_ret (e.calloc_bo m) size flags m)
    → IsKept (alloc e bufmgr size flags m).1
unfolding alloc
alloc-IsKept e bufmgr size flags m i fresh room new =
    elim (Bool-cases (not (is_bufmgr m bufmgr && is_positive size))) [
      | inl v ↦ rw v i
      | inr v ↦ elim (Bool-cases (e.calloc_bo m == 0)) [
        | inl z ↦ rw (v, z) (IsKept-errors _ i refl refl refl)
        | inr z ↦ elim (Bool-cases (e.alloc_ret (e.calloc_bo m) size flags m == 0)) [
          | inl p ↦ rw (v, z, p) (IsKept-errors _ i refl refl refl)
          | inr p ↦
              rw (v, z, p) (enlist-IsKept (e.calloc_bo m) _ flags _ i (ground arith) fresh room new)
        ]
      ]
    ]

-- The premises of the two imports.
pub record Imports (e : Backend) (m : Manager) : Type 0 where
  pub fresh : e.calloc_bo m ∉ m.bo_list
  pub room : length m.bo_list + 1 < 2 ^ 32
  pub refs : (a : ℕ) → a ∈ m.bo_list → (m.bos a).ref_cnt + 1 < 2 ^ 31

pub import_bo-IsKept :
    (e : Backend) (bufmgr key : ℕ) (m : Manager)
    → IsKept m
    → Imports e m
    → IsKept (import_bo e bufmgr key m).1
unfolding import_bo
import_bo-IsKept e bufmgr key m i j =
    let b = e.calloc_bo m in
    elim (Bool-cases (not (is_bufmgr m bufmgr))) [
      | inl v ↦ rw v i
      | inr v ↦ elim (Bool-cases (not e.has_import)) [
        | inl o ↦ rw (v, o) i
        | inr o ↦ elim (Bool-cases (b == 0)) [
          | inl z ↦ rw (v, o, z) i
          | inr z ↦ elim (Bool-cases (e.import_ret b key m == 0)) [
            | inl p ↦ rw (v, o, z, p) (IsKept-errors _ i refl refl refl)
            | inr p ↦
                rw (v, o, z, p)
                  (import_priv-IsKept e b (e.import_ret b key m) _
                    (IsKept-errors _ i refl refl refl) (ground arith) j.fresh j.room j.refs)
          ]
        ]
      ]
    ]

pub import_fd-IsKept :
    (e : Backend) (bufmgr fd : ℕ) (m : Manager)
    → IsKept m
    → Imports e m
    → IsKept (import_fd e bufmgr fd m).1
unfolding import_fd
import_fd-IsKept e bufmgr fd m i j =
    let b = e.calloc_bo m in
    elim (Bool-cases (not (is_bufmgr m bufmgr))) [
      | inl v ↦ rw v i
      | inr v ↦ elim (Bool-cases (not e.has_import_fd)) [
        | inl o ↦ rw (v, o) i
        | inr o ↦ elim (Bool-cases (b == 0)) [
          | inl z ↦ rw (v, o, z) i
          | inr z ↦ elim (Bool-cases (e.import_fd_ret b fd m == 0)) [
            | inl p ↦ rw (v, o, z, p) (IsKept-errors _ i refl refl refl)
            | inr p ↦
                rw (v, o, z, p)
                  (import_priv-IsKept e b (e.import_fd_ret b fd m) _
                    (IsKept-errors _ i refl refl refl) (ground arith) j.fresh j.room j.refs)
          ]
        ]
      ]
    ]

pub swap-IsKept : (e : Backend) (b1 b2 : ℕ) (m : Manager) → IsKept m → IsKept (swap e b1 b2 m).1
unfolding swap
swap-IsKept e b1 b2 m i = elim (Bool-cases (bo_is_valid m b1)) [
  | inr v ↦ rw v i
  | inl v ↦ elim (Bool-cases (bo_is_valid m b2)) [
    | inr w ↦ rw (v, w) i
    | inl w ↦ elim (Bool-cases (e.size_ret b1 m == e.size_ret b2 m)) [
      | inr s ↦ rw (v, w, s) (IsKept-errors _ i refl refl refl)
      | inl s ↦
          let k1 = valid_mem m b1 v in
          let k2 = valid_mem m b2 w in
          rw (v, w, s)
            (record {
              positive = i.positive;
              distinct = i.distinct;
              counted = i.counted;
              few = i.few;
              refs = All-mono_mem _ _ m.bo_list (λ a k h. ground arith) i.refs;
              unique = λ x y p q r. ground (
                arith,
                i.unique x y,
                i.unique b1 y,
                i.unique b2 y,
                i.unique x b1,
                i.unique x b2,
                i.unique b1 b2,
              );
            })
    ]
  ]
]
