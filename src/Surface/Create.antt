-- ===== src/Surface/Create.antt =====
-- src/tbm_surface_internal.c: the two ways to create a surface. A result `none` is a write where the
-- code may not write: to the buffer manager that `tbm_bufmgr_init` did not give, or past the end of
-- `bos` or `planes`, which have four elements.
use libtbm.Base.{
  ℕ, zero, suc, Bool, true, false, not, ◌&&◌, ◌||◌, ◌+◌, ◌*◌, ◌%◌, ◌^◌, List, [], ◌∷◌, ◌++◌, Option,
  none, some, ◌==◌, if◌then◌else◌, ◌>>=◌, is_positive, ltb, length,
}
use libtbm.Links.{update}
use libtbm.SurfaceQueue.State.{inc32, slt32}
use libtbm.Bo.State.{Manager, Backend, surface_bo_alloc_call, ask}
use libtbm.Bo.Alloc.{alloc, new_bo, set_surface}
use libtbm.Bo.Life.{ref, unref}
use libtbm.Bo.Init.{bufmgr_init, bufmgr_deinit}
use libtbm.Surface.State.{Plane, Surfaces, Platform, set_surf, set_mgr}
use libtbm.Surface.Table.{get_num_planes, get_bpp}

-- Before a surface is created: the manager, and whether it had to be set up.
unfoldable pub open_bufmgr : Platform → Surfaces → Option (Bool × Surfaces)
open_bufmgr e w =
    let (a, m) = bufmgr_init e.system w.mgr in
    if w.owned
    then some (false, w)
    else if a == 0
    then none
    else some (true, record w { mgr = m; owned = true; surf_list = [] })

-- `_deinit_surface_bufmgr`, where no surface is left.
unfoldable pub close_bufmgr : Platform → Surfaces → Surfaces
close_bufmgr e w = record w { mgr = bufmgr_deinit e.back w.mgr.address w.mgr; owned = false }

-- The end of both functions after an error.
abbrev pub give_up : Platform → Bool → Surfaces → Surfaces
give_up e opened w = if opened then close_bufmgr e w else w

-- `_tbm_surface_internal_query_plane_data` for the planes from `i` on.
unfoldable pub query_planes : Platform → (width height format i n : ℕ) → Option (List Plane)
query_planes e width height format i zero = some []
query_planes e width height format i (suc n) =
    if not (is_positive width && (is_positive height && is_positive format)) || not e.has_plane_data
    then none
    else do
      p ← e.plane_data width height format i
      l ← query_planes e width height format (i + 1) n
      some (p ∷ l)

-- The sum of the sizes of the planes.
unfoldable pub total_size : List Plane → ℕ
total_size [] = 0
total_size (p ∷ l) = (p.size + total_size l) % 2 ^ 32

-- `num_bos` after these planes.
unfoldable pub count_bos : ℕ → List Plane → ℕ
count_bos n [] = n
count_bos n (p ∷ l) = count_bos (if slt32 n (inc32 p.bo_idx) then inc32 p.bo_idx else n) l

-- The size of the buffer object `i`.
unfoldable pub bo_size_of : ℕ → List Plane → ℕ
bo_size_of i [] = 0
bo_size_of i (p ∷ l) = ((if p.bo_idx == i then p.size else 0) + bo_size_of i l) % 2 ^ 32

-- One buffer object of a surface, NULL after an error. A back end with `surface_bo_alloc` gives it
-- without `tbm_bo_alloc`, and `bo_cnt` is not raised.
unfoldable pub surface_bo :
    Platform → (width height format flags i size : ℕ) → Manager → ℕ × Manager
surface_bo e width height format flags i size m =
    let b = e.back.calloc_bo m in
    let p = e.surface_alloc_ret b width height format flags i m in
    let m1 = ask (surface_bo_alloc_call b width height format flags i) m in
    if not e.has_surface_bo_alloc
    then alloc e.back m.address size flags m
    else if b == 0
    then (0, m)
    else if p == 0
    then (0, m1)
    else (b, record m1 { bos = update m1.bos b (new_bo p flags); bo_list = b ∷ m1.bo_list })

-- `tbm_bo_unref` of each that is not NULL.
unfoldable pub unref_bos : Backend → List ℕ → Manager → Manager
unref_bos e [] m = m
unref_bos e (b ∷ l) m = unref_bos e l (if b == 0 then m else unref e b m)

-- `TBM_SURF_PLANE_MAX`, and the length of `bos`
abbrev pub plane_max : ℕ
plane_max = 4

-- `bos[i]` is written past the end of `bos`. What `tbm_bo_alloc` returns is written also where it is
-- NULL.
abbrev pub is_past_bos : Platform → (i b : ℕ) → Bool
is_past_bos e i b = not (ltb i plane_max) && not (e.has_surface_bo_alloc && b == 0)

-- The loop over the buffer objects from `i` on, with those that have been got. After an error these
-- are given back, and the result has no list. The result `none` is a write past the end of `bos`.
unfoldable pub get_bos :
    Platform
    → (surface width height format flags : ℕ) → List Plane
    → (n i : ℕ) → (got : List ℕ) → Manager
    → Option (Option (List ℕ) × Manager)
get_bos e surface width height format flags planes zero i got m = some (some got, m)
get_bos e surface width height format flags planes (suc n) i got m =
    let (b, m1) = surface_bo e width height format flags i (bo_size_of i planes) m in
    elim (is_past_bos e i b) [
      | true ↦ none
      | false ↦ elim (b == 0) [
        | true ↦ some (none, unref_bos e.back got m1)
        | false ↦
            get_bos e surface width height format flags planes n (i + 1) (got ++ b ∷ [])
              (set_surface b surface m1).1
      ]
    ]

-- `tbm_surface_internal_create_with_flags`
unfoldable pub create_with_flags :
    Platform → (width height format flags : ℕ) → Surfaces → Option (ℕ × Surfaces)
create_with_flags e width height format flags w0 =
    if not (is_positive width && is_positive height) then some (0, w0) else do
      (opened, w) ← open_bufmgr e w0
      let s = e.calloc_surface w
      if s == 0
          then some (0, give_up e opened w)
          else elim (query_planes e width height format 0 (get_num_planes format)) [
            | none ↦ some (0, give_up e opened w)
            | some planes ↦ do
              let n = count_bos 1 planes
              r ← get_bos e s width height format flags planes n 0 [] w.mgr
              some (elim r.0 [
                | none ↦ (0, give_up e opened (set_mgr r.1 w))
                | some bos ↦ (
                  s,
                  record (set_surf s
                      (record {
                        width = width;
                        height = height;
                        format = format;
                        bpp = get_bpp format;
                        size = total_size planes;
                        num_planes = get_num_planes format;
                        planes = planes;
                        flags = flags;
                        num_bos = n;
                        bos = bos;
                        refcnt = 1;
                        debug_pid = 0;
                        user_data_list = [];
                        debug_data_list = [];
                      })
                      (set_mgr r.1 w)) { surf_list = s ∷ w.surf_list },
                )
              ])
          ]

-- `tbm_surface_info_s`, as the caller of `tbm_surface_internal_create_with_bos` fills it in.
pub record Info : Type 0 where
  pub width : ℕ
  pub height : ℕ
  pub format : ℕ
  pub bpp : ℕ
  pub size : ℕ
  pub num_planes : ℕ
  pub planes : List Plane

-- The planes of the new surface: a size that is missing is made up, and the buffer object is the
-- only one, or the one with the plane's number.
unfoldable pub fill_planes : (height num i : ℕ) → List Plane → List Plane
fill_planes height num i [] = []
fill_planes height num i (p ∷ l) =
    record p {
      size = if ltb 0 p.size then p.size else (p.stride * height) % 2 ^ 32;
      bo_idx = if num == 1 then 0 else i;
    }
    ∷ fill_planes height num (i + 1) l

-- The loop over the caller's buffer objects; `tbm_bo_ref` gives NULL for one that is not valid.
-- After an error those that have been got are given back.
unfoldable pub take_bos :
    Backend → (surface : ℕ) → (bos got : List ℕ) → Manager → Option (List ℕ) × Manager
take_bos e surface [] got m = (some got, m)
take_bos e surface (b ∷ l) got m = elim (b == 0) [
  | true ↦ (none, unref_bos e got m)
  | false ↦
      let (r, m1) = ref b m in take_bos e surface l (got ++ r ∷ []) (set_surface b surface m1).1
]

-- `tbm_surface_internal_create_with_bos`, with as many planes and buffer objects as the numbers say.
-- More than four planes are written past the end of `planes`; where there are no more of these, there
-- are no more than four buffer objects either, since their number is 1 or that of the planes.
unfoldable pub create_with_bos : Platform → Info → (bos : List ℕ) → Surfaces → Option (ℕ × Surfaces)
create_with_bos e info bos w0 =
    let num = length bos in
    if not ((num == 1) || (info.num_planes == num)) then some (0, w0) else do
      (opened, w) ← open_bufmgr e w0
      let s = e.calloc_surface w
      if s == 0
          then some (0, give_up e opened w)
          else if ltb plane_max info.num_planes
          then none
          else (let planes = fill_planes info.height num 0 info.planes in
              let r = take_bos e.back s bos [] w.mgr in
              some (elim r.0 [
                | none ↦ (0, give_up e opened (set_mgr r.1 w))
                | some got ↦ (
                  s,
                  record (set_surf s
                      (record {
                        width = info.width;
                        height = info.height;
                        format = info.format;
                        bpp = info.bpp;
                        size = if ltb 0 info.size then info.size else total_size planes;
                        num_planes = info.num_planes;
                        planes = planes;
                        flags = 0;
                        num_bos = num;
                        bos = got;
                        refcnt = 1;
                        debug_pid = 0;
                        user_data_list = [];
                        debug_data_list = [];
                      })
                      (set_mgr r.1 w)) { surf_list = s ∷ w.surf_list },
                )
              ]))
