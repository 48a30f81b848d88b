-- ===== src/Surface/Access.antt =====
-- src/tbm_surface_internal.c: mapping a surface, and what is asked about it.
use libtbm.Base.{
  ℕ, zero, suc, true, false, not, ◌+◌, List, [], ◌∷◌, ◌++◌, Option, none, some, ◌==◌, if◌then◌else◌,
  ltb,
}
use libtbm.Bo.State.{Manager, Backend, is_negative}
use libtbm.Bo.Lock.{map_bo, unmap_bo}
use libtbm.Bo.Alloc.{get_handle}
use libtbm.Surface.State.{Plane, Surface, Surfaces, Platform, set_surf, set_mgr, surf_is_valid}

-- `TBM_DEVICE_CPU`
abbrev pub device_cpu : ℕ
device_cpu = 1

unfoldable pub unmap_bos : Backend → List ℕ → Manager → Manager
unmap_bos e [] m = m
unmap_bos e (b ∷ l) m = unmap_bos e l (unmap_bo e b m).1

-- The loop of `tbm_surface_internal_get_info` that maps: the pointers of all handles. After an
-- error those that have been mapped, `done`, are unmapped, and there is no result.
unfoldable pub map_bos :
    Backend → (opt : ℕ) → (bos done handles : List ℕ) → Manager → Option (List ℕ) × Manager
map_bos e opt [] done handles m = (some handles, m)
map_bos e opt (b ∷ l) done handles m =
    let (p, m1) = map_bo e b device_cpu opt m in
    elim (p == 0) [
      | true ↦ (none, unmap_bos e done m1)
      | false ↦ map_bos e opt l (done ++ b ∷ []) (handles ++ p ∷ []) m1
    ]

-- The same without mapping.
unfoldable pub handle_bos : Backend → (bos handles : List ℕ) → Manager → Option (List ℕ) × Manager
handle_bos e [] handles m = (some handles, m)
handle_bos e (b ∷ l) handles m =
    let (p, m1) = get_handle e b device_cpu m in
    elim (p == 0) [ true ↦ (none, m1) | false ↦ handle_bos e l (handles ++ p ∷ []) m1 ]

-- The entry of an array, 0 beyond the ones in use.
unfoldable pub get_or_zero : List ℕ → ℕ → ℕ
get_or_zero [] i = 0
get_or_zero (x ∷ l) zero = x
get_or_zero (x ∷ l) (suc i) = get_or_zero l i

-- `info->planes[i].ptr`: NULL where the buffer object has no handle.
unfoldable pub plane_ptrs : List ℕ → List Plane → List ℕ
plane_ptrs handles [] = []
plane_ptrs handles (p ∷ l) =
    (let h = get_or_zero handles p.bo_idx in if h == 0 then 0 else h + p.offset)
    ∷ plane_ptrs handles l

-- `tbm_surface_internal_get_info`: the pointers of the planes, where it returns 1; what else it
-- fills in are fields of the surface.
unfoldable pub get_info : Platform → (s opt map : ℕ) → Surfaces → Option (List ℕ) × Surfaces
get_info e s opt map w =
    let x = w.surfs s in
    let r =
      if map == 1 then map_bos e.back opt x.bos [] [] w.mgr else handle_bos e.back x.bos [] w.mgr in
    if not (surf_is_valid w s) then (none, w) else (
      elim r.0 [ none ↦ none | some handles ↦ some (plane_ptrs handles x.planes) ],
      set_mgr r.1 w,
    )

-- `tbm_surface_internal_unmap`
unfoldable pub surface_unmap : Platform → ℕ → Surfaces → Surfaces
surface_unmap e s w =
    if not (surf_is_valid w s) then w else set_mgr (unmap_bos e.back (w.surfs s).bos w.mgr) w

-- What the functions that only read share.
abbrev read : {A : Type 0} → A → (Surface → A) → ℕ → Surfaces → A
read d f s w = if not (surf_is_valid w s) then d else f (w.surfs s)

-- `tbm_surface_internal_get_num_bos`
unfoldable pub get_num_bos : ℕ → Surfaces → ℕ
get_num_bos = read 0 (λ x. x.num_bos)

-- `tbm_surface_internal_get_bo`
unfoldable pub get_bo : (s bo_idx : ℕ) → Surfaces → ℕ
get_bo s bo_idx w = if is_negative bo_idx then 0 else read 0 (λ x. get_or_zero x.bos bo_idx) s w

-- `tbm_surface_internal_get_size`
unfoldable pub surface_size : ℕ → Surfaces → ℕ
surface_size = read 0 (λ x. x.size)

-- `tbm_surface_internal_get_width`
unfoldable pub surface_width : ℕ → Surfaces → ℕ
surface_width = read 0 (λ x. x.width)

-- `tbm_surface_internal_get_height`
unfoldable pub surface_height : ℕ → Surfaces → ℕ
surface_height = read 0 (λ x. x.height)

-- `tbm_surface_internal_get_format`
unfoldable pub surface_format : ℕ → Surfaces → ℕ
surface_format = read 0 (λ x. x.format)

abbrev nth_plane : List Plane → ℕ → Option Plane
nth_plane [] i = none
nth_plane (p ∷ l) zero = some p
nth_plane (p ∷ l) (suc i) = nth_plane l i

-- `tbm_surface_internal_get_plane_data`: the plane, where it returns 1.
unfoldable pub get_plane_data : (s plane_idx : ℕ) → Surfaces → Option Plane
get_plane_data s i w =
    if is_negative i
    then none
    else read none (λ x. if ltb i x.num_planes then nth_plane x.planes i else none) s w

-- `tbm_surface_internal_get_plane_bo_idx`
unfoldable pub get_plane_bo_idx : (s plane_idx : ℕ) → Surfaces → ℕ
get_plane_bo_idx s i w =
    if is_negative i
    then 0
    else read 0 (λ x. elim (nth_plane x.planes i) [ none ↦ 0 | some p ↦ p.bo_idx ]) s w

-- `tbm_surface_internal_set_debug_pid`
unfoldable pub set_debug_pid : (s pid : ℕ) → Surfaces → Surfaces
set_debug_pid s pid w =
    if not (surf_is_valid w s) then w else set_surf s (record (w.surfs s) { debug_pid = pid }) w

-- `_tbm_surface_internal_get_debug_pid`
unfoldable pub get_debug_pid : ℕ → Surfaces → ℕ
get_debug_pid s w = if s == 0 then 0 else (w.surfs s).debug_pid
