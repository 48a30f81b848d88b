-- ===== src/Dump/Store.antt =====
-- src/tbm_surface_internal.c: `tbm_surface_internal_dump_buffer` and
-- `tbm_surface_internal_dump_shm_buffer`.
use libtbm.SurfaceQueue.State.{slt32}
use libtbm.Base.{
  ℕ, zero, suc, Bool, true, false, not, ◌&&◌, ◌||◌, ◌+◌, ◌*◌, ◌/◌, ◌%◌, ◌^◌, List, [], ◌∷◌, Option,
  none, some, ◌==◌, ltb, if◌then◌else◌, is_positive, length,
}
use libtbm.Surface.State.{Surface, Surfaces, Platform, set_mgr}
use libtbm.Surface.Api.{api_map, api_unmap}
use libtbm.Surface.Access.{device_cpu, get_or_zero}
use libtbm.Bo.Lock.{map_bo, unmap_bo}
use libtbm.Bo.State.{is_negative}
use libtbm.Surface.Format.{
  format_argb8888, format_xrgb8888, format_yvu420, format_yuv420, format_nv12, format_nv21,
  format_yuyv, format_uyvy,
}
use libtbm.Dump.State.{Span, FileName, DumpBuf, DumpInfo, Dump, picture, raw, shm_picture}
use libtbm.Dump.Begin.{stride_of}

abbrev pub nth_buf : ℕ → List DumpBuf → Option DumpBuf
nth_buf i [] = none
nth_buf zero (b ∷ l) = some b
nth_buf (suc i) (b ∷ l) = nth_buf i l

abbrev pub put_buf : ℕ → DumpBuf → List DumpBuf → List DumpBuf
put_buf i x [] = []
put_buf zero x (b ∷ l) = x ∷ l
put_buf (suc i) x (b ∷ l) = b ∷ put_buf i x l

-- The place of the next buffer in the list, from 0 on: the one after `link`, and the first one after
-- the last.
unfoldable pub next_place : DumpInfo → ℕ
next_place g = if g.link == length g.surface_list then 0 else g.link

-- The buffer at a place is replaced.
abbrev pub with_buf : ℕ → DumpBuf → DumpInfo → DumpInfo
with_buf k b g = record g { surface_list = put_buf k b g.surface_list }

-- `count++`, which starts again at 1000
abbrev pub next_count : ℕ → ℕ
next_count n = if n + 1 == 1000 then 0 else n + 1

-- What stands in the state after a buffer was filled.
abbrev pub stored : ℕ → DumpBuf → DumpInfo → DumpInfo
stored k b g = record (with_buf k b g) { count = next_count g.count; link = k + 1 }

abbrev pub is_rgb : (format : ℕ) → Bool
is_rgb f = (f == format_argb8888) || (f == format_xrgb8888)

abbrev pub is_three_planes : (format : ℕ) → Bool
is_three_planes f = (f == format_yvu420) || (f == format_yuv420)

abbrev pub is_two_planes : (format : ℕ) → Bool
is_two_planes f = (f == format_nv12) || (f == format_nv21)

abbrev pub is_packed : (format : ℕ) → Bool
is_packed f = (f == format_yuyv) || (f == format_uyvy)

-- The bytes of the first plane, and of the plane `i` with half as many rows.
abbrev pub first_len : Surface → ℕ
first_len x = stride_of x.planes 0 * x.height % 2 ^ 32

abbrev pub half_len : Surface → ℕ → ℕ
half_len x i = stride_of x.planes i * (x.height / 2) % 2 ^ 32

-- The copies that the format asks for; `none` for a format that cannot be copied.
unfoldable pub copies : Surface → (ptrs : List ℕ) → Option (List Span)
copies x ptrs =
    let first : Span = record { at = 0; from = get_or_zero ptrs 0; len = first_len x } in
    let second : Span = record {
      at = first_len x;
      from = get_or_zero ptrs 1;
      len = half_len x 1;
    } in
    let third : Span = record {
      at = first_len x + half_len x 1;
      from = get_or_zero ptrs 2;
      len = half_len x 2;
    } in
    if is_rgb x.format
    then some (record { at = 0; from = get_or_zero ptrs 0; len = x.size } ∷ [])
    else if is_three_planes x.format
    then some (first ∷ second ∷ third ∷ [])
    else if is_two_planes x.format
    then some (first ∷ second ∷ [])
    else if is_packed x.format
    then some (first ∷ [])
    else none

abbrev pub dump_name : (count s : ℕ) → (kind : List ℕ) → Surface → FileName
dump_name count s kind x =
    if is_rgb x.format
    then picture count s kind
    else raw count kind (stride_of x.planes 0) x.height x.format

module _ (e : Platform) where
  -- `tbm_surface_internal_dump_buffer` with a mapped surface and buffer, from `memset` on
  unfoldable pub fill_buffer :
      (s k : ℕ) → (kind ptrs : List ℕ) → DumpBuf → DumpInfo → Surfaces → Option DumpInfo × Surfaces
  fill_buffer s k kind ptrs b g w =
      let x = w.surfs s in
      let w1 = (api_unmap e s (set_mgr (unmap_bo e.back b.bo w.mgr).1 w)).1 in
      elim (copies x ptrs) [
        | none ↦ (some (with_buf k (record b { surface = some x; contents = [] }) g), w1)
        | some l ↦ (
          some (
              stored k
                (record b {
                  surface = some x;
                  name = dump_name g.count s kind x;
                  contents = l;
                  dirty = true;
                  dirty_shm = false;
                })
                g),
          w1,
        )
      ]

  -- `tbm_surface_internal_dump_buffer` with a mapped surface
  unfoldable pub dump_mapped :
      (s k : ℕ) → (kind ptrs : List ℕ) → DumpBuf → DumpInfo → Surfaces → Option DumpInfo × Surfaces
  dump_mapped s k kind ptrs b g w =
      let x = w.surfs s in
      let (p, m) = map_bo e.back b.bo device_cpu 2 w.mgr in
      if ltb b.size x.size
      then (some g, (api_unmap e s w).1)
      else if p == 0
      then (some (with_buf k (record b { surface = some x }) g), (api_unmap e s (set_mgr m w)).1)
      else fill_buffer s k kind ptrs b g (set_mgr m w)

  -- `tbm_surface_internal_dump_buffer`; a text is `none` for NULL.
  unfoldable pub dump_buffer : (s : ℕ) → (kind : Option (List ℕ)) → Dump → Dump
  dump_buffer s none d = d
  dump_buffer s (some kind) d = elim (d.dump_info) [
    | none ↦ d
    | some g ↦ elim (nth_buf (next_place g) g.surface_list) [
      | none ↦ d
      | some b ↦
          let (_, ptrs, w1) = api_map e s 3 d.surfaces in
          if s == 0 then d else elim ptrs [
            | none ↦ record d { surfaces = w1 }
            | some l ↦
                let (info, w2) = dump_mapped s (next_place g) kind l b g w1 in
                record d { dump_info = info; surfaces = w2 }
          ]
    ]
  ]

  -- `tbm_surface_internal_dump_shm_buffer` with the next buffer. A negative size is not above that of
  -- the buffer; the result `none` is the `memcpy` of it, which takes it for almost all of the memory.
  unfoldable pub dump_shm :
      (ptr h stride k : ℕ) → (kind : List ℕ) → DumpBuf → DumpInfo → Dump → Option Dump
  dump_shm ptr h stride k kind b g d =
      let size = stride * h % 2 ^ 32 in
      let w = d.surfaces in
      let (p, m) = map_bo e.back b.bo device_cpu 2 w.mgr in
      if slt32 b.size size
      then some d
      else if p == 0
      then some (record d { surfaces = set_mgr m w })
      else if is_negative size
      then none
      else some (record d {
        dump_info = some (
            stored k
              (record b {
                surface = none;
                name = shm_picture g.count kind;
                contents = record { at = 0; from = ptr; len = size } ∷ [];
                dirty = false;
                dirty_shm = true;
                shm_stride = stride;
                shm_h = h;
              })
              g);
        surfaces = set_mgr (unmap_bo e.back b.bo m).1 w;
      })

  -- `tbm_surface_internal_dump_shm_buffer`
  unfoldable pub dump_shm_buffer :
      (ptr w h stride : ℕ) → (kind : Option (List ℕ)) → Dump → Option Dump
  dump_shm_buffer ptr w h stride none d = some d
  dump_shm_buffer ptr w h stride (some kind) d =
      if (ptr == 0) || not (is_positive w && (is_positive h && is_positive stride))
      then some d
      else elim (d.dump_info) [
        | none ↦ some d
        | some g ↦ elim (nth_buf (next_place g) g.surface_list) [
          | none ↦ some d
          | some b ↦ dump_shm ptr h stride (next_place g) kind b g d
        ]
      ]
