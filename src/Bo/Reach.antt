-- ===== src/Bo/Reach.antt =====
-- The operations on the list of buffer objects as steps, and what every reachable state has.
use libtbm.Base.{ℕ, ◌+◌, ◌<◌, ◌^◌, ◌≢◌, ◌∈◌, ◌∉◌, length}
use libtbm.Bo.State.{Manager, Backend}
use libtbm.Bo.Life.{ref, unref}
use libtbm.Bo.Alloc.{alloc, import_bo, import_fd, swap}
use libtbm.Bo.Kept.{IsKept}
use libtbm.Bo.Steps.{
  Imports, alloc-IsKept, import_bo-IsKept, import_fd-IsKept, ref-IsKept, unref-IsKept, swap-IsKept,
}

-- What may happen to the list of buffer objects. A buffer object has new memory, the back end gives
-- each allocation a `priv` of its own, and the counters have room.
pub data BoStep (e : Backend) (bufmgr : ℕ) (m : Manager) : Manager → Type 0 where
  alloc_step :
      (size flags : ℕ)
      → e.calloc_bo m ∉ m.bo_list
      → length m.bo_list + 1 < 2 ^ 32
      → ((a : ℕ) → a ∈ m.bo_list → (m.bos a).priv ≢ e.alloc_ret (e.calloc_bo m) size flags m)
      → BoStep e bufmgr m (alloc e bufmgr size flags m).1
  import_step : (key : ℕ) → Imports e m → BoStep e bufmgr m (import_bo e bufmgr key m).1
  import_fd_step : (fd : ℕ) → Imports e m → BoStep e bufmgr m (import_fd e bufmgr fd m).1
  ref_step : (b : ℕ) → (m.bos b).ref_cnt + 1 < 2 ^ 31 → BoStep e bufmgr m (ref b m).1
  unref_step : (b : ℕ) → BoStep e bufmgr m (unref e b m)
  swap_step : (b1 b2 : ℕ) → BoStep e bufmgr m (swap e b1 b2 m).1

pub data BoReach (e : Backend) (bufmgr : ℕ) (m : Manager) : Manager → Type 0 where
  here : BoReach e bufmgr m m
  next : {r s : Manager} → BoReach e bufmgr m r → BoStep e bufmgr r s → BoReach e bufmgr m s

BoStep-IsKept :
    {e : Backend} {bufmgr : ℕ} {m r : Manager} → BoStep e bufmgr m r → IsKept m → IsKept r
BoStep-IsKept {e} {bufmgr} {m} (alloc_step size flags f r n) i =
    alloc-IsKept e bufmgr size flags m i f r n
BoStep-IsKept {e} {bufmgr} {m} (import_step key j) i = import_bo-IsKept e bufmgr key m i j
BoStep-IsKept {e} {bufmgr} {m} (import_fd_step fd j) i = import_fd-IsKept e bufmgr fd m i j
BoStep-IsKept {m} (ref_step b r) i = ref-IsKept b m i r
BoStep-IsKept {e} {m} (unref_step b) i = unref-IsKept e b m i
BoStep-IsKept {e} {m} (swap_step b1 b2) i = swap-IsKept e b1 b2 m i

-- Whatever sequence of tbm_bo_alloc, tbm_bo_import, tbm_bo_import_fd, tbm_bo_ref, tbm_bo_unref and
-- tbm_bo_swap is run, where a new buffer object gets memory that is not in the list, an allocation
-- gets a priv of its own, and the counters have room: if at first the list holds each buffer object
-- once and none is NULL, bo_cnt is its length, each buffer object has a positive ref_cnt, and no
-- two have one priv, then so it is in the end.
pub BoReach-IsKept :
    {e : Backend} {bufmgr : ℕ} {m r : Manager} → BoReach e bufmgr m r → IsKept m → IsKept r
BoReach-IsKept here i = i
BoReach-IsKept (next q s) i = BoStep-IsKept s (BoReach-IsKept q i)
