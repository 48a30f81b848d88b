-- ===== src/Dump/Begin.antt =====
-- src/tbm_surface_internal.c: `tbm_surface_internal_dump_start`.
use libtbm.Base.{
  ℕ, zero, suc, Bool, true, false, not, ◌&&◌, ◌+◌, ◌*◌, ◌%◌, ◌^◌, List, [], ◌∷◌, Option, none, some,
  ◌==◌, if◌then◌else◌, is_positive, ◌>>=◌,
}
use libtbm.Bo.State.{Manager, Backend}
use libtbm.Bo.Alloc.{alloc}
use libtbm.Bo.Life.{unref}
use libtbm.Surface.State.{Surfaces, Plane, Platform, set_mgr}
use libtbm.Surface.Format.{format_argb8888}
use libtbm.Surface.Api.{api_create, api_map, api_unmap, api_destroy}
use libtbm.Dump.State.{DumpBuf, Dump, Media, no_name}

-- `planes[i].stride`
abbrev pub stride_of : List Plane → ℕ → ℕ
stride_of [] i = 0
stride_of (p ∷ l) zero = p.stride
stride_of (p ∷ l) (suc i) = stride_of l i

-- A new `tbm_surface_dump_buf_info`
abbrev pub new_buf : (index bo size : ℕ) → DumpBuf
new_buf index bo size = record {
  index = index;
  bo = bo;
  size = size;
  dirty = false;
  dirty_shm = false;
  shm_stride = 0;
  shm_h = 0;
  name = no_name;
  surface = none;
  contents = [];
}

-- The loop that makes `n` buffers from the index `i` on, for the buffer manager `bufmgr`: the buffers
-- made, and whether these are all.
unfoldable pub make_bufs :
    Media → Backend → (bufmgr size n i : ℕ) → Manager → (List DumpBuf × Bool) × Manager
make_bufs f e bufmgr size zero i m = (([], true), m)
make_bufs f e bufmgr size (suc n) i m = elim (f.calloc_buf i) [
  | false ↦ (([], false), m)
  | true ↦
      let (bo, m1) = alloc e bufmgr size 0 m in
      elim (bo == 0) [
        | true ↦ (([], false), m1)
        | false ↦
            let ((l, all), m2) = make_bufs f e bufmgr size n (i + 1) m1 in
            ((new_buf i bo size ∷ l, all), m2)
      ]
]

-- The loop after `fail`
unfoldable pub unref_bufs : Backend → List DumpBuf → Manager → Manager
unref_bufs e [] m = m
unref_bufs e (b ∷ l) m = unref_bufs e l (unref e b.bo m)

-- The address in `g_surface_bufmgr`
abbrev pub surface_bufmgr : Surfaces → ℕ
surface_bufmgr w = if w.owned then w.mgr.address else 0

-- `tbm_surface_internal_dump_start` from the loop on
unfoldable pub make_dump :
    Media → Platform → (path : List ℕ) → (size count : ℕ) → Dump → Surfaces → Dump
make_dump f e path size count d w =
    let ((l, all), m) = make_bufs f e.back (surface_bufmgr w) size count 0 w.mgr in
    if all
    then record d {
      dump_info =
          some (record { path = path; dump_max = count; count = 0; link = 0; surface_list = l });
      surfaces = set_mgr m w;
    }
    else record d { surfaces = set_mgr (unref_bufs e.back l m) w }

-- `tbm_surface_internal_dump_start` once there is a surface
unfoldable pub measure :
    Media → Platform → (path : List ℕ) → (h count s : ℕ) → Dump → Surfaces → Option Dump
measure f e path h count s d w =
    let (_, ptrs, w1) = api_map e s 1 w in
    let size = stride_of (w.surfs s).planes 0 * h % 2 ^ 32 in
    elim ptrs [
      | none ↦ do r ← api_destroy e s w1; some (record d { surfaces = r.1 })
      | some _ ↦ do
        r ← api_destroy e s (api_unmap e s w1).1
        some (make_dump f e path size count d r.1)
    ]

-- `tbm_surface_internal_dump_start`; `none` for a path that is NULL, and the result `none` for a write
-- through NULL or past the end of the buffer objects of a surface.
unfoldable pub dump_start :
    Media → Platform → (path : Option (List ℕ)) → (w h count : ℕ) → Dump → Option Dump
dump_start f e none w h count d = some d
dump_start f e (some path) w h count d =
    if not (is_positive w && (is_positive h && is_positive count))
    then some d
    else elim (d.dump_info) [
      | some _ ↦ some d
      | none ↦ if not f.calloc_info then some d else do
        (s, r) ← api_create e w h format_argb8888 d.surfaces
        if s == 0 then some (record d { surfaces = r }) else measure f e path h count s d r
    ]
