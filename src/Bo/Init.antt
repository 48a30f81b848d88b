-- ===== src/Bo/Init.antt =====
-- src/tbm_bufmgr.c: the life of the buffer manager, and src/tbm_bufmgr_backend.c: what it can do.
use libtbm.Base.{
  ℕ, Bool, true, false, not, List, [], ◌∷◌, ◌&&◌, ◌==◌, ◌+◌, if◌then◌else◌, is_positive,
}
use libtbm.SurfaceQueue.State.{inc32, dec32}
use libtbm.Bo.State.{
  Manager, Backend, LockType, heap_alloc_failed, load_module_failed, bufmgr_deinit_call,
  bufmgr_init_call, ask, set_bo, set_last_result,
}
use libtbm.Bo.Alloc.{is_bufmgr}
use libtbm.Bo.Life.{unref}

-- What the system gives: memory for the manager, whether a module could be loaded, and the lock type
-- that the variable BUFMGR_LOCK_TYPE names.
pub record System : Type 0 where
  pub calloc_bufmgr : Manager → ℕ
  pub load_module : Manager → Bool
  pub lock_type : LockType

-- `tbm_bufmgr_init`: the manager, NULL after an error.
unfoldable pub bufmgr_init : System → Manager → ℕ × Manager
bufmgr_init e m =
    let a = e.calloc_bufmgr m in
    if m.live
    then (m.address, record m { ref_count = inc32 m.ref_count })
    else if a == 0
    then (0, set_last_result heap_alloc_failed m)
    else if not (e.load_module m)
    then (0, set_last_result load_module_failed m)
    else (
      a,
      ask bufmgr_init_call (record m {
        live = true;
        address = a;
        ref_count = 1;
        lock_type = e.lock_type;
        bo_cnt = 0;
        bo_list = [];
      }),
    )

-- The loop of `tbm_bufmgr_deinit` over the buffer objects that are left.
unfoldable pub free_bos : Backend → List ℕ → Manager → Manager
free_bos e [] m = m
free_bos e (b ∷ l) m = free_bos e l (unref e b (set_bo b (record (m.bos b) { ref_cnt = 1 }) m))

-- Its end.
unfoldable pub shut_down : Manager → Manager
shut_down m = ask bufmgr_deinit_call (record m { live = false })

-- `tbm_bufmgr_deinit` where no surface is left.
unfoldable pub bufmgr_deinit : Backend → ℕ → Manager → Manager
bufmgr_deinit e bufmgr m =
    let m1 = record m { ref_count = dec32 m.ref_count } in
    if bufmgr == 0
    then m
    else if not m.live
    then m
    else if is_positive m1.ref_count
    then m1
    else shut_down (free_bos e m1.bo_list m1)

-- `tbm_backend_init`: the capabilities, `TBM_BUFMGR_CAPABILITY_SHARE_KEY` and `_SHARE_FD`.
unfoldable pub capabilities : Backend → ℕ
capabilities e =
    (if e.has_import && e.has_export then 1 else 0)
    + (if e.has_import_fd && e.has_export_fd then 2 else 0)

-- `tbm_bufmgr_get_capability`
unfoldable pub get_capability : Backend → (bufmgr : ℕ) → Manager → ℕ
get_capability e bufmgr m = if not (is_bufmgr m bufmgr) then 0 else capabilities e
