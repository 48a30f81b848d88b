-- ===== src/Bo/Private.antt =====
-- src/tbm_bufmgr_backend.c: what a back end keeps in the buffer manager and in buffer objects.
use libtbm.Base.{
  true, false, ℕ, Bool, ◌≡◌, ◌≢◌, refl, List, Option, none, some, ◌==◌, if◌then◌else◌, arith,
}
use libtbm.Bo.State.{Manager, set_bo, bo_is_valid}

-- `struct _tbm_bufmgr_backend` without its functions, which are `Backend`.
pub record BackendTable : Type 0 where
  pub priv : ℕ

-- `tbm_backend_alloc`; `none` for NULL.
unfoldable pub backend_alloc : (calloc_succeeds : Bool) → Option BackendTable
backend_alloc ok = if ok then some (record { priv = 0 }) else none

-- `tbm_backend_get_bufmgr_priv` of a buffer object of the manager, and
-- `tbm_backend_get_priv_from_bufmgr`
unfoldable pub get_bufmgr_priv : BackendTable → ℕ
get_bufmgr_priv t = t.priv

-- `tbm_backend_set_bo_priv`
unfoldable pub set_bo_priv : (bo priv : ℕ) → Manager → Manager
set_bo_priv b p m = set_bo b (record (m.bos b) { priv = p }) m

-- `tbm_backend_get_bo_priv`
unfoldable pub get_bo_priv : (bo : ℕ) → Manager → ℕ
get_bo_priv b m = (m.bos b).priv

-- `tbm_backend_is_display_server`, by the value of TBM_DISPLAY_SERVER
unfoldable pub is_display_server : Option (List ℕ) → ℕ
is_display_server none = 0
is_display_server (some value) = 1

-- The private data of one buffer object is set, that of the others stays, and which buffer objects are
-- valid stays.
pub get_bo_priv-set_bo_priv :
    (b p c : ℕ) (m : Manager)
    → c ≢ b
    → (get_bo_priv b (set_bo_priv b p m) ≡ p)
      × (get_bo_priv c (set_bo_priv b p m) ≡ get_bo_priv c m)
      × (bo_is_valid (set_bo_priv b p m) c ≡ bo_is_valid m c)
unfolding get_bo_priv set_bo_priv bo_is_valid
get_bo_priv-set_bo_priv b p c m n =
    let other : (b == c) ≡ false = ground (arith, n) in
    let same : (b == b) ≡ true = ground arith in
    (rw (get_bo_priv, same) refl, rw (get_bo_priv, other) refl, refl)
