-- ===== src/Bo/Alloc.antt =====
-- src/tbm_bufmgr.c: how buffer objects come into being, and what is asked about them. A `tbm_bufmgr`
-- that the caller passes is known by its address.
use libtbm.Base.{◌-◌, ℕ, Bool, not, List, [], ◌∷◌, ◌&&◌, ◌==◌, if◌then◌else◌, is_positive, ◌^◌}
use libtbm.Links.{update}
use libtbm.SurfaceQueue.State.{inc32}
use libtbm.Bo.State.{
  Bo, Manager, Backend, bo_alloc_call, bo_import_call, bo_import_fd_call, heap_alloc_failed,
  bo_alloc_failed, import_failed, import_fd_failed, export_failed, export_fd_failed,
  get_handle_failed, swap_failed, ask, set_bo, set_last_result, bo_is_valid, is_negative,
}

-- `bufmgr` is not NULL and is `gBufMgr`.
abbrev pub is_bufmgr : Manager → ℕ → Bool
is_bufmgr m bufmgr = not (bufmgr == 0) && (m.live && bufmgr == m.address)

-- A zeroed `struct _tbm_bo` with what is filled in.
abbrev pub new_bo : (priv flags : ℕ) → Bo
new_bo priv flags = record {
  ref_cnt = 1;
  flags = flags;
  user_data_list = [];
  priv = priv;
  surface = 0;
  lock_cnt = 0;
  map_cnt = 0;
}

-- The new buffer object comes first.
abbrev pub enlist : (b priv flags : ℕ) → Manager → Manager
enlist b priv flags m = record m {
  bo_cnt = inc32 m.bo_cnt;
  bos = update m.bos b (new_bo priv flags);
  bo_list = b ∷ m.bo_list;
}

-- `tbm_bo_alloc`
unfoldable pub alloc : Backend → (bufmgr size flags : ℕ) → Manager → ℕ × Manager
alloc e bufmgr size flags m =
    let b = e.calloc_bo m in
    let p = e.alloc_ret b size flags m in
    let m1 = ask (bo_alloc_call b size flags) m in
    if not (is_bufmgr m bufmgr && is_positive size)
    then (0, m)
    else if b == 0
    then (0, set_last_result heap_alloc_failed m)
    else if p == 0
    then (0, set_last_result bo_alloc_failed m1)
    else (b, enlist b p flags m1)

-- The search of the two imports for a buffer object with this `priv`; 0 if there is none.
unfoldable pub find_priv : (ℕ → Bo) → ℕ → List ℕ → ℕ
find_priv bos p [] = 0
find_priv bos p (b ∷ l) = let rest = find_priv bos p l in if (bos b).priv == p then b else rest

-- The end of the two imports, which have the same text: a buffer object that is known gets one more
-- reference, and a new one is listed.
unfoldable pub import_priv : Backend → (b priv : ℕ) → Manager → ℕ × Manager
import_priv e b priv m =
    let k = find_priv m.bos priv m.bo_list in
    let flags = if e.has_get_flags then e.flags_ret b m else 0 in
    if k == 0
    then (b, enlist b priv flags m)
    else (k, set_bo k (record (m.bos k) { ref_cnt = inc32 (m.bos k).ref_cnt }) m)

-- `tbm_bo_import`
unfoldable pub import_bo : Backend → (bufmgr key : ℕ) → Manager → ℕ × Manager
import_bo e bufmgr key m =
    let b = e.calloc_bo m in
    let p = e.import_ret b key m in
    let m1 = ask (bo_import_call b key) m in
    if not (is_bufmgr m bufmgr)
    then (0, m)
    else if not e.has_import
    then (0, m)
    else if b == 0
    then (0, m)
    else if p == 0
    then (0, set_last_result import_failed m1)
    else import_priv e b p m1

-- `tbm_bo_import_fd`
unfoldable pub import_fd : Backend → (bufmgr fd : ℕ) → Manager → ℕ × Manager
import_fd e bufmgr fd m =
    let b = e.calloc_bo m in
    let p = e.import_fd_ret b fd m in
    let m1 = ask (bo_import_fd_call b fd) m in
    if not (is_bufmgr m bufmgr)
    then (0, m)
    else if not e.has_import_fd
    then (0, m)
    else if b == 0
    then (0, m)
    else if p == 0
    then (0, set_last_result import_fd_failed m1)
    else import_priv e b p m1

-- `tbm_bo_export`
unfoldable pub export_bo : Backend → ℕ → Manager → ℕ × Manager
export_bo e b m =
    let r = e.export_ret b m in
    if not (bo_is_valid m b)
    then (0, m)
    else if not e.has_export
    then (0, m)
    else if r == 0
    then (0, set_last_result export_failed m)
    else (r, m)

-- `tbm_bo_export_fd`; -1 as a 32-bit pattern.
unfoldable pub export_fd : Backend → ℕ → Manager → ℕ × Manager
export_fd e b m =
    let r = e.export_fd_ret b m in
    if not (bo_is_valid m b)
    then (2 ^ 32 - 1, m)
    else if not e.has_export_fd
    then (2 ^ 32 - 1, m)
    else if is_negative r
    then (r, set_last_result export_fd_failed m)
    else (r, m)

-- `tbm_bo_get_handle`
unfoldable pub get_handle : Backend → (b device : ℕ) → Manager → ℕ × Manager
get_handle e b device m =
    let r = e.handle_ret b device m in
    if not (bo_is_valid m b)
    then (0, m)
    else if r == 0
    then (0, set_last_result get_handle_failed m)
    else (r, m)

-- `tbm_bo_size`
unfoldable pub bo_size : Backend → ℕ → Manager → ℕ
bo_size e b m = if not (bo_is_valid m b) then 0 else e.size_ret b m

-- `tbm_bo_get_flags`
unfoldable pub get_flags : ℕ → Manager → ℕ
get_flags b m = if not (bo_is_valid m b) then 0 else (m.bos b).flags

-- `tbm_bo_swap`
unfoldable pub swap : Backend → (b1 b2 : ℕ) → Manager → ℕ × Manager
swap e b1 b2 m =
    if not (bo_is_valid m b1)
    then (0, m)
    else if not (bo_is_valid m b2)
    then (0, m)
    else if not (e.size_ret b1 m == e.size_ret b2 m)
    then (0, set_last_result swap_failed m)
    else (let m1 = set_bo b1 (record (m.bos b1) { priv = (m.bos b2).priv }) m in
        (1, set_bo b2 (record (m1.bos b2) { priv = (m.bos b1).priv }) m1))

-- `_tbm_bo_set_surface`
unfoldable pub set_surface : (b surface : ℕ) → Manager → ℕ × Manager
set_surface b surface m =
    if not (bo_is_valid m b)
    then (0, m)
    else (1, set_bo b (record (m.bos b) { surface = surface }) m)
