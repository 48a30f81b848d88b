-- ===== src/Bo/State.antt =====
-- src/tbm_bufmgr.c and tbm_bufmgr_int.h: the data of the buffer manager and of its buffer objects.
use libtbm.Base.{ℕ, ◌^◌, Bool, not, ◌&&◌, List, ◌∷◌, ltb, ◌==◌, has}
use libtbm.Links.{update}

-- A negative `int`, as a 32-bit pattern.
abbrev pub is_negative : ℕ → Bool
is_negative n = not (ltb n (2 ^ 31))

-- The lock types; the manager has one of these three.
pub data LockType : Type 0 where
  try_once try_always try_never : LockType

-- The errors that `_tbm_set_last_result` is given here.
pub data BoError : Type 0 where
  error_none heap_alloc_failed load_module_failed bo_alloc_failed import_failed import_fd_failed :
      BoError
  export_failed export_fd_failed get_handle_failed lock_failed map_failed unmap_failed : BoError
  swap_failed : BoError

-- `tbm_user_data` without its link; `free_func` is known by its address.
pub record UserData : Type 0 where
  pub key : ℕ
  pub data_ptr : ℕ
  pub free_func : ℕ

-- `struct _tbm_bo` without its link.
pub record Bo : Type 0 where
  pub ref_cnt : ℕ
  pub flags : ℕ
  pub user_data_list : List UserData
  pub priv : ℕ
  pub surface : ℕ
  pub lock_cnt : ℕ
  pub map_cnt : ℕ

-- What is asked of the back end and of the user; a lock with what came of it.
pub data BackendCall : Type 0 where
  bo_lock_call : (bo ret : ℕ) → BackendCall
  bo_alloc_call : (bo size flags : ℕ) → BackendCall
  bo_import_call bo_import_fd_call : (bo key : ℕ) → BackendCall
  surface_bo_alloc_call : (bo width height format flags bo_idx : ℕ) → BackendCall
  bufmgr_init_call bufmgr_deinit_call : BackendCall
  bo_unlock_call bo_map_call bo_unmap_call bo_free_call : ℕ → BackendCall
  free_func_call : (free_func data_ptr : ℕ) → BackendCall

-- `struct _tbm_bufmgr` with `gBufMgr`, which is `address` where `live` is true and NULL otherwise.
pub record Manager : Type 0 where
  pub live : Bool
  pub address : ℕ
  pub ref_count : ℕ
  pub lock_type : LockType
  pub bo_cnt : ℕ
  pub bo_list : List ℕ
  pub bos : ℕ → Bo
  pub last_result : BoError
  pub calls : List BackendCall  -- newest first

-- The back end, the other threads, and the memory.
pub record Backend : Type 0 where
  pub has_lock : Bool
  pub has_unlock : Bool
  pub lock_ret : (bo device opt : ℕ) → Manager → ℕ
  pub map_ret : (bo device opt : ℕ) → Manager → ℕ
  pub unmap_ret : ℕ → Manager → ℕ
  pub during_lock : ℕ → Manager → Manager  -- what others do while `bo_lock` has the mutex released
  pub calloc_data : Manager → Bool
  pub calloc_bo : Manager → ℕ
  pub alloc_ret : (bo size flags : ℕ) → Manager → ℕ
  pub has_import : Bool
  pub import_ret : (bo key : ℕ) → Manager → ℕ
  pub has_import_fd : Bool
  pub import_fd_ret : (bo fd : ℕ) → Manager → ℕ
  pub has_get_flags : Bool
  pub flags_ret : ℕ → Manager → ℕ
  pub has_export : Bool
  pub export_ret : ℕ → Manager → ℕ
  pub has_export_fd : Bool
  pub export_fd_ret : ℕ → Manager → ℕ
  pub handle_ret : (bo device : ℕ) → Manager → ℕ
  pub size_ret : ℕ → Manager → ℕ

abbrev pub ask : BackendCall → Manager → Manager
ask c m = record m { calls = c ∷ m.calls }

abbrev pub set_bo : ℕ → Bo → Manager → Manager
set_bo b x m = record m { bos = update m.bos b x }

abbrev pub set_lock_cnt : ℕ → ℕ → Manager → Manager
set_lock_cnt b n m = set_bo b (record (m.bos b) { lock_cnt = n }) m

abbrev pub set_map_cnt : ℕ → ℕ → Manager → Manager
set_map_cnt b n m = set_bo b (record (m.bos b) { map_cnt = n }) m

-- `_tbm_set_last_result`
abbrev pub set_last_result : BoError → Manager → Manager
set_last_result e m = record m { last_result = e }

-- `_tbm_bo_is_valid`
unfoldable pub bo_is_valid : Manager → ℕ → Bool
bo_is_valid m b = not (b == 0) && (m.live && has b m.bo_list)
