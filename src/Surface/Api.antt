-- ===== src/Surface/Api.antt =====
-- src/tbm_surface.c: the functions for applications. The pointer to an information struct is not NULL.
use libtbm.Base.{ℕ, not, List, Option, none, some, ◌==◌, if◌then◌else◌, is_positive, ◌>>=◌}
use libtbm.Surface.State.{Surfaces, Platform}
use libtbm.Surface.Create.{create_with_flags}
use libtbm.Surface.Life.{surface_destroy}
use libtbm.Surface.Access.{surface_format, surface_height, surface_width, get_info, surface_unmap}

-- The codes of `tbm_surface_error_e` that these functions return.
pub data SurfaceError : Type 0 where
  error_none invalid_parameter invalid_operation : SurfaceError

-- `tbm_surface_create`
unfoldable pub api_create : Platform → (width height format : ℕ) → Surfaces → Option (ℕ × Surfaces)
api_create e width height format w =
    if not (is_positive width)
    then some (0, w)
    else if not (is_positive height)
    then some (0, w)
    else create_with_flags e width height format 0 w

-- `tbm_surface_destroy`
unfoldable pub api_destroy : Platform → ℕ → Surfaces → Option (SurfaceError × Surfaces)
api_destroy e s w =
    if s == 0
    then some (invalid_parameter, w)
    else do r ← surface_destroy e s w; some (error_none, r)

-- The end of `tbm_surface_map` and of `tbm_surface_get_info`.
abbrev told : Option (List ℕ) × Surfaces → SurfaceError × Option (List ℕ) × Surfaces
told r = (elim r.0 [ none ↦ invalid_operation | some _ ↦ error_none ], r.0, r.1)

-- `tbm_surface_map`, with the pointers of the planes.
unfoldable pub api_map :
    Platform → (s opt : ℕ) → Surfaces → SurfaceError × Option (List ℕ) × Surfaces
api_map e s opt w = if s == 0 then (invalid_parameter, none, w) else told (get_info e s opt 1 w)

-- `tbm_surface_unmap`
unfoldable pub api_unmap : Platform → ℕ → Surfaces → SurfaceError × Surfaces
api_unmap e s w = if s == 0 then (invalid_parameter, w) else (error_none, surface_unmap e s w)

-- `tbm_surface_get_info`
unfoldable pub api_get_info : Platform → ℕ → Surfaces → SurfaceError × Option (List ℕ) × Surfaces
api_get_info e s w = if s == 0 then (invalid_parameter, none, w) else told (get_info e s 0 0 w)

-- `tbm_surface_get_width`; `none` for TBM_SURFACE_ERROR_INVALID_PARAMETER.
unfoldable pub api_get_width : ℕ → Surfaces → Option ℕ
api_get_width s w = if s == 0 then none else some (surface_width s w)

-- `tbm_surface_get_height`; `none` for TBM_SURFACE_ERROR_INVALID_PARAMETER.
unfoldable pub api_get_height : ℕ → Surfaces → Option ℕ
api_get_height s w = if s == 0 then none else some (surface_height s w)

-- `tbm_surface_get_format`
unfoldable pub api_get_format : ℕ → Surfaces → ℕ
api_get_format s w = if s == 0 then 0 else surface_format s w
