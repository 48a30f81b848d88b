-- ===== src/Dump/Capture.antt =====
-- src/tbm_surface_internal.c: `tbm_surface_internal_capture_buffer` and
-- `tbm_surface_internal_capture_shm_buffer`.
use libtbm.Base.{
  ℕ, not, ◌&&◌, ◌||◌, List, [], ◌∷◌, Option, none, some, ◌==◌, ◌/◌, if◌then◌else◌, is_positive,
}
use libtbm.Surface.State.{Surface, Platform}
use libtbm.Surface.Api.{api_map, api_unmap}
use libtbm.Surface.Access.{get_or_zero}
use libtbm.Surface.Data.{str_eq}
use libtbm.Dump.State.{Dump, File, Media, captured, uninitialised}
use libtbm.Dump.File.{dump_file_raw, dump_file_png}
use libtbm.Dump.Begin.{stride_of}
use libtbm.Dump.Store.{is_rgb, is_three_planes, is_two_planes, is_packed, first_len, half_len}

-- `dump_postfix`: "png" and "yuv"
abbrev pub png_postfix : List ℕ
png_postfix = 112 ∷ 110 ∷ 103 ∷ []

abbrev pub yuv_postfix : List ℕ
yuv_postfix = 121 ∷ 117 ∷ 118 ∷ []

abbrev pub postfix_of : (format : ℕ) → List ℕ
postfix_of format = if is_rgb format then png_postfix else yuv_postfix

-- The file of a surface whose planes are mapped at `ptrs`; `none` for a format without one.
unfoldable pub capture_file :
    Media → (dir name : List ℕ) → Surface → (ptrs : List ℕ) → List File → Option (List File)
capture_file f dir name x ptrs files =
    let file = captured name (postfix_of x.format) in
    let p0 = get_or_zero ptrs 0 in
    let p1 = get_or_zero ptrs 1 in
    let p2 = get_or_zero ptrs 2 in
    if is_rgb x.format
    then some (dump_file_png f dir file p0 (stride_of x.planes 0 / 4) x.height files)
    else if is_three_planes x.format
    then some (dump_file_raw f dir file p0 (first_len x) p1 (half_len x 1) p2 (half_len x 2) files)
    else if is_two_planes x.format
    then some (dump_file_raw f dir file p0 (first_len x) p1 (half_len x 1) 0 0 files)
    else if is_packed x.format
    then some (dump_file_raw f dir file p0 (first_len x) 0 0 0 0 files)
    else none

-- `tbm_surface_internal_capture_buffer`; the three texts are not NULL.
unfoldable pub capture_buffer :
    Media → Platform → (s : ℕ) → (dir name kind : List ℕ) → Dump → Dump × ℕ
capture_buffer f e s dir name kind d =
    let (_, ptrs, w1) = api_map e s 3 d.surfaces in
    let x = w1.surfs s in
    let d1 : Dump = record d { surfaces = (api_unmap e s w1).1 } in
    if s == 0 then (d, 0) else elim ptrs [
      | none ↦ (record d { surfaces = w1 }, 0)
      | some l ↦
          if not (str_eq (postfix_of x.format) kind)
          then (d1, 0)
          else if f.file_exists dir (captured name (postfix_of x.format))
          then (d1, 0)
          else elim (capture_file f dir name x l d.files) [
            | none ↦ (d1, 0)
            | some files ↦ (record d1 { files = files }, 1)
          ]
    ]

-- `tbm_surface_internal_capture_shm_buffer`; the three texts are not NULL. The test for the file comes
-- before its name is written, and the width of the picture is `stride`.
unfoldable pub capture_shm_buffer :
    Media → (ptr w h stride : ℕ) → (dir name kind : List ℕ) → Dump → Dump × ℕ
capture_shm_buffer f ptr w h stride dir name kind d =
    if (ptr == 0) || not (is_positive w && (is_positive h && is_positive stride))
    then (d, 0)
    else if not (str_eq png_postfix kind)
    then (d, 0)
    else if f.file_exists [] uninitialised
    then (d, 0)
    else (
      record d { files = dump_file_png f dir (captured name png_postfix) ptr stride h d.files },
      1,
    )
