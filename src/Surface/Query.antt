-- ===== src/Surface/Query.antt =====
-- src/tbm_surface_internal.c: `tbm_surface_internal_query_supported_formats`, where the formats are
-- those that the back end gives; and `tbm_surface_query_formats` of src/tbm_surface.c.
use libtbm.Base.{ℕ, not, Option, some, ◌==◌, if◌then◌else◌, ◌>>=◌}
use libtbm.Surface.State.{Surfaces, Platform}
use libtbm.Surface.Create.{open_bufmgr, give_up}
use libtbm.Surface.Api.{SurfaceError, error_none, invalid_operation}

unfoldable pub query_supported_formats : Platform → Surfaces → Option (ℕ × Surfaces)
query_supported_formats e w0 = do
  (opened, w) ← open_bufmgr e w0
  if not e.has_supported_format
      then some (0, give_up e opened w)
      else if e.supported_format_ret == 0
      then some (0, give_up e opened w)
      else some (e.supported_format_ret, w)

-- `tbm_surface_query_formats`
unfoldable pub api_query_formats : Platform → Surfaces → Option (SurfaceError × Surfaces)
api_query_formats e w0 = do
  (ret, w) ← query_supported_formats e w0
  some (if ret == 0 then invalid_operation else error_none, w)
