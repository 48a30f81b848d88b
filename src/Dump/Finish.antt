-- ===== src/Dump/Finish.antt =====
-- src/tbm_surface_internal.c: `tbm_surface_internal_dump_end`.
use libtbm.Base.{true, false, ℕ, List, [], ◌∷◌, none, some, ◌==◌, ◌+◌, ◌/◌, if◌then◌else◌}
use libtbm.Bo.State.{Manager, Backend}
use libtbm.Bo.Lock.{map_bo, unmap_bo}
use libtbm.Bo.Life.{unref}
use libtbm.Surface.State.{Surface, Platform, set_mgr}
use libtbm.Surface.Access.{device_cpu}
use libtbm.Dump.State.{DumpBuf, Dump, File, Media}
use libtbm.Dump.File.{dump_file_raw, dump_file_png}
use libtbm.Dump.Begin.{stride_of}
use libtbm.Dump.Store.{is_rgb, is_three_planes, is_two_planes, is_packed, first_len, half_len}

-- The file of a surface whose planes lie one after the other from `p` on.
unfoldable pub surface_file :
    Media → (dir : List ℕ) → DumpBuf → Surface → (p : ℕ) → List File → List File
surface_file f dir b x p files =
    let ptr1 = p + first_len x in
    let ptr2 = ptr1 + half_len x 1 in
    if is_rgb x.format
    then dump_file_png f dir b.name p (stride_of x.planes 0 / 4) x.height files
    else if is_three_planes x.format
    then dump_file_raw f dir b.name p (first_len x) ptr1 (half_len x 1) ptr2 (half_len x 2) files
    else if is_two_planes x.format
    then dump_file_raw f dir b.name p (first_len x) ptr1 (half_len x 1) 0 0 files
    else if is_packed x.format
    then dump_file_raw f dir b.name p (first_len x) 0 0 0 0 files
    else files

-- The file of one buffer, mapped at `p`. A `dirty` buffer has the information of a surface.
unfoldable pub buf_file : Media → (dir : List ℕ) → DumpBuf → (p : ℕ) → List File → List File
buf_file f dir b p files =
    if b.dirty
    then elim (b.surface) [ none ↦ files | some x ↦ surface_file f dir b x p files ]
    else if b.dirty_shm
    then dump_file_png f dir b.name p (b.shm_stride / 4) b.shm_h files
    else files

-- The loop that makes the files and gives the buffers back.
unfoldable pub end_bufs :
    Media → Backend → (dir : List ℕ) → List DumpBuf → Manager → List File → Manager × List File
end_bufs f e dir [] m files = (m, files)
end_bufs f e dir (b ∷ l) m files =
    let (p, m1) = map_bo e b.bo device_cpu 1 m in
    elim (p == 0) [
      | true ↦ end_bufs f e dir l (unref e b.bo m1) files
      | false ↦ end_bufs f e dir l (unref e b.bo (unmap_bo e b.bo m1).1) (buf_file f dir b p files)
    ]

-- `tbm_surface_internal_dump_end`
unfoldable pub dump_end : Media → Platform → Dump → Dump
dump_end f e d = elim (d.dump_info) [
  | none ↦ d
  | some g ↦
      let (m, files) = end_bufs f e.back g.path g.surface_list d.surfaces.mgr d.files in
      record { dump_info = none; surfaces = set_mgr m d.surfaces; files = files }
]
