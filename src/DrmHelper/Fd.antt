-- ===== src/DrmHelper/Fd.antt =====
-- src/tbm_drm_helper_client.c and src/tbm_drm_helper_server.c: a descriptor of the device, kept in a
-- variable of the environment.
use libtbm.Base.{◌-◌, ℕ, ◌+◌, ◌%◌, ◌^◌, List, Option, none, some, ◌==◌, if◌then◌else◌}
use libtbm.Bo.State.{is_negative}
use libtbm.DrmHelper.Decimal.{print_int, scan_int}

-- TBM_DRM_FD, TBM_DRM_MASTER_FD and TDM_DRM_MASTER_FD
pub data Variable : Type 0 where
  tbm_drm_fd tbm_drm_master_fd tdm_drm_master_fd : Variable

-- The C library: the calls that the code makes, each with the state after it and what it returns.
pub record Os (E : Type 0) : Type 0 where
  pub getenv : E → Variable → Option (List ℕ)
  pub setenv : E → Variable → List ℕ → E × ℕ
  pub unsetenv : E → Variable → E × ℕ
  pub getfd : E → (fd : ℕ) → ℕ
  pub dup : E → (fd : ℕ) → E × ℕ
  pub setfd : E → (fd flags : ℕ) → E × ℕ

abbrev pub minus_one : ℕ
minus_one = 2 ^ 32 - 1

-- `flags|FD_CLOEXEC`
abbrev pub close_on_exec : ℕ → ℕ
close_on_exec flags = if flags % 2 == 1 then flags else flags + 1

module _ {E : Type 0} (os : Os E) where
  -- `tbm_drm_helper_set_fd`
  unfoldable pub set_fd : E → (fd : ℕ) → E
  set_fd e fd = (os.setenv e tbm_drm_fd (print_int fd)).0

  -- `tbm_drm_helper_unset_fd`
  unfoldable pub unset_fd : E → E
  unset_fd e = (os.unsetenv e tbm_drm_fd).0

  -- `tbm_drm_helper_set_tbm_master_fd`
  unfoldable pub set_tbm_master_fd : E → (fd : ℕ) → E
  set_tbm_master_fd e fd = (os.setenv e tbm_drm_master_fd (print_int fd)).0

  -- `tbm_drm_helper_unset_tbm_master_fd`
  unfoldable pub unset_tbm_master_fd : E → E
  unset_tbm_master_fd e = (os.unsetenv e tbm_drm_master_fd).0

  -- What follows once the number is read.
  unfoldable pub duplicate : E → (fd : ℕ) → E × ℕ
  duplicate e fd =
      let flags = os.getfd e fd in
      let (e1, new_fd) = os.dup e fd in
      let (e2, _) = os.setfd e1 new_fd (close_on_exec flags) in
      if flags == minus_one
      then (e, minus_one)
      else if is_negative new_fd
      then (e1, minus_one)
      else (e2, new_fd)

  -- The two functions that read a descriptor, by their variable.
  unfoldable pub read_fd : E → Option (List ℕ) → E × ℕ
  read_fd e none = (e, minus_one)
  read_fd e (some value) = elim (scan_int value) [
    | none ↦ (e, minus_one)
    | some fd ↦ duplicate e fd
  ]

  -- `tbm_drm_helper_get_fd`
  unfoldable pub get_fd : E → E × ℕ
  get_fd e = read_fd e (os.getenv e tbm_drm_fd)

  -- `tbm_drm_helper_get_master_fd`
  unfoldable pub get_master_fd : E → E × ℕ
  get_master_fd e = read_fd e (os.getenv e tdm_drm_master_fd)
