-- ===== src/Surface/State.antt =====
-- src/tbm_surface_internal.c and tbm_bufmgr_int.h: the data of surfaces and of their module.
use libtbm.Base.{ℕ, Bool, not, ◌&&◌, List, Option, ◌==◌, has}
use libtbm.Links.{update}
use libtbm.Bo.State.{Manager, Backend, UserData}
use libtbm.Bo.Init.{System}

-- `tbm_surface_plane_s` without its pointer, and the plane's `planes_bo_idx`.
pub record Plane : Type 0 where
  pub size : ℕ
  pub offset : ℕ
  pub stride : ℕ
  pub bo_idx : ℕ

-- `tbm_surface_debug_data`; a text is its bytes.
pub record DebugData : Type 0 where
  pub key : List ℕ
  pub value : Option (List ℕ)

-- `struct _tbm_surface` with its `tbm_surface_info_s`. The arrays of planes and of buffer objects are
-- lists of as many as are in use.
pub record Surface : Type 0 where
  pub width : ℕ
  pub height : ℕ
  pub format : ℕ
  pub bpp : ℕ
  pub size : ℕ
  pub num_planes : ℕ
  pub planes : List Plane
  pub flags : ℕ
  pub num_bos : ℕ
  pub bos : List ℕ
  pub refcnt : ℕ
  pub debug_pid : ℕ
  pub user_data_list : List UserData
  pub debug_data_list : List DebugData

-- The buffer manager, with the surfaces on its `surf_list`, and whether `g_surface_bufmgr` is set.
pub record Surfaces : Type 0 where
  pub mgr : Manager
  pub owned : Bool
  pub surf_list : List ℕ
  pub surfs : ℕ → Surface
  pub debug_key_list : List (List ℕ)

-- Code outside this file.
pub record Platform : Type 0 where
  pub system : System
  pub back : Backend
  pub calloc_surface : Surfaces → ℕ
  pub has_supported_format : Bool
  pub supported_format_ret : ℕ
  pub has_plane_data : Bool
  pub plane_data : (width height format plane_idx : ℕ) → Option Plane
  pub has_surface_bo_alloc : Bool
  pub surface_alloc_ret : (bo width height format flags bo_idx : ℕ) → Manager → ℕ
  pub calloc_debug : Surfaces → Bool

abbrev pub set_surf : ℕ → Surface → Surfaces → Surfaces
set_surf s x w = record w { surfs = update w.surfs s x }

abbrev pub set_mgr : Manager → Surfaces → Surfaces
set_mgr m w = record w { mgr = m }

-- `_tbm_surface_internal_is_valid`, and `tbm_surface_internal_is_valid`
unfoldable pub surf_is_valid : Surfaces → ℕ → Bool
surf_is_valid w s = w.owned && (not (s == 0) && has s w.surf_list)
