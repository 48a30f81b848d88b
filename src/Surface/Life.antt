-- ===== src/Surface/Life.antt =====
-- src/tbm_surface_internal.c: the references of a surface and its end.
use libtbm.Base.{
  ℕ, true, false, not, List, [], ◌∷◌, Option, none, some, ◌==◌, if◌then◌else◌, ◌>>=◌, is_positive,
  erase,
}
use libtbm.SurfaceQueue.State.{inc32, dec32}
use libtbm.Bo.State.{Manager, Backend, set_bo}
use libtbm.Bo.Life.{unref, free_all}
use libtbm.Surface.State.{Surfaces, Platform, set_surf, surf_is_valid}
use libtbm.Surface.Create.{close_bufmgr}

-- The loop over the buffer objects of a surface that goes; `none` where one is NULL, through which
-- the code writes.
unfoldable pub drop_bos : Backend → List ℕ → Manager → Option Manager
drop_bos e [] m = some m
drop_bos e (b ∷ l) m = elim (b == 0) [
  | true ↦ none
  | false ↦ drop_bos e l (unref e b (set_bo b (record (m.bos b) { surface = 0 }) m))
]

-- `_tbm_surface_internal_destroy`. The last surface takes the debug keys and the reference to the
-- buffer manager with it.
unfoldable pub destroy_surface : Platform → ℕ → Surfaces → Option Surfaces
destroy_surface e s w = do
  m ← drop_bos e.back (w.surfs s).bos (free_all (w.surfs s).user_data_list w.mgr)
  let left = erase s w.surf_list
  let r = record w { mgr = m; surf_list = left }
  some (elim left [ [] ↦ close_bufmgr e (record r { debug_key_list = [] }) | _ ∷ _ ↦ r ])

-- `tbm_surface_internal_ref`
unfoldable pub surface_ref : ℕ → Surfaces → Surfaces
surface_ref s w =
    if not (surf_is_valid w s)
    then w
    else set_surf s (record (w.surfs s) { refcnt = inc32 (w.surfs s).refcnt }) w

-- `tbm_surface_internal_unref`, and `tbm_surface_internal_destroy`, which has the same text.
unfoldable pub surface_unref : Platform → ℕ → Surfaces → Option Surfaces
surface_unref e s w =
    let n = dec32 (w.surfs s).refcnt in
    let r = set_surf s (record (w.surfs s) { refcnt = n }) w in
    if not (surf_is_valid w s)
    then some w
    else if is_positive n
    then some r
    else if n == 0
    then destroy_surface e s r
    else some r

unfoldable pub surface_destroy : Platform → ℕ → Surfaces → Option Surfaces
surface_destroy e s w = surface_unref e s w
