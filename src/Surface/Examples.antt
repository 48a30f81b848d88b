-- ===== src/Surface/Examples.antt =====
-- The theorems on surfaces at a back end that describes two planes, and a manager with one buffer
-- object and one surface.
use libtbm.Base.{
  List, ℕ, Bool, Option, ◌≡◌, ◌≤◌, ◌+◌, ◌∉◌, refl, ap, true, false, [], ◌∷◌, arith, some, none,
  ◌==◌, if◌then◌else◌, ◌>>=◌, length,
}
use libtbm.SurfaceQueue.State.{dec32}
use libtbm.Bo.State.{bo_is_valid, try_always}
use libtbm.Bo.Life.{unref}
use libtbm.Bo.Examples.{example_backend, manager}
use libtbm.Surface.Format.{format_yuyv, format_nv12}
use libtbm.Surface.Table.{get_num_planes, get_bpp}
use libtbm.Surface.Bits.{format_tables, layout_in}
use libtbm.Surface.State.{Surfaces, Platform, Plane, surf_is_valid}
use libtbm.Surface.Create.{plane_max, Info, create_with_bos, create_with_flags, surface_bo}
use libtbm.Surface.Life.{surface_unref}
use libtbm.Surface.Bos.{Fresh}
use libtbm.Surface.Counted.{SmallIndex}
use libtbm.Surface.Created.{Made, create_with_flags_cases}
use libtbm.Surface.Shared.{Taken, create_with_bos_shares}
use libtbm.Surface.Gone.{create_with_flags-surface_unref}
use libtbm.Surface.Counter.{surface_bo-unref}
use libtbm.Surface.Data.{set_debug_data, get_debug_data, str_eq, same_value, debug_value, is_prefix}
use libtbm.Surface.Debug.{Next, get_debug_data-set_debug_data}

-- A new address is larger than all.
abbrev above : List ℕ → ℕ
above [] = 1
above (x ∷ l) = x + above l

le-not-mem : (n : ℕ) (l : List ℕ) → above l ≤ n → n ∉ l
le-not-mem n [] h = refl
le-not-mem n (x ∷ l) h = ground (arith, le-not-mem n l, above-positive l)
  where
    above-positive : (k : List ℕ) → 1 ≤ above k
    above-positive [] = omega arith
    above-positive (y ∷ k) = omega (arith, above-positive k)

abbrev pub platform : Bool → Platform
platform own = record {
  system = record { calloc_bufmgr = λ _. 1; load_module = λ _. true; lock_type = try_always };
  back = record example_backend { calloc_bo = λ m. above m.bo_list };
  calloc_surface = λ w. above w.surf_list;
  has_supported_format = true;
  supported_format_ret = 1;
  has_plane_data = true;
  plane_data = λ _ _ _ i.
      some (record { size = 4096; offset = 0; stride = 64; bo_idx = if i == 0 then 0 else 1 });
  has_surface_bo_alloc = own;
  surface_alloc_ret = λ b _ _ _ _ _ _. 1000 + b;
  calloc_debug = λ _. true;
}

platform-Fresh : (own : Bool) → Fresh (platform own)
platform-Fresh own m = le-not-mem (above m.bo_list) m.bo_list (omega arith)

platform-SmallIndex : (own : Bool) → SmallIndex (platform own)
platform-SmallIndex own width height format i p h =
    let k = ap {B = ℕ} (λ (o : Option Plane). elim o [ none ↦ 0 | some q ↦ q.bo_idx ]) h in
    ground arith

abbrev pub surfaces : Surfaces
surfaces = record {
  mgr = manager try_always 0 [];
  owned = true;
  surf_list = 9 ∷ [];
  surfs = λ _. record {
    width = 8;
    height = 8;
    format = format_yuyv;
    bpp = 32;
    size = 4096;
    num_planes = 1;
    planes = [];
    flags = 0;
    num_bos = 0;
    bos = [];
    refcnt = 1;
    debug_pid = 0;
    user_data_list = [];
    debug_data_list = record { key = 1 ∷ []; value = some (2 ∷ []) } ∷ [];
  };
  debug_key_list = [];
}

create_with_flags_example :
    Made surfaces (create_with_flags (platform true) 16 16 format_nv12 0 surfaces)
unfolding manager
create_with_flags_example =
    create_with_flags_cases (platform true) 16 16 format_nv12 0 surfaces (platform-Fresh true)
      (platform-SmallIndex true) refl refl

surface_unref_example :
    (q : Surfaces) × ((do
      (s, r) ← create_with_flags (platform false) 16 16 format_nv12 0 surfaces
      surface_unref (platform false) s r)
      ≡ some q)
    × (q.surf_list ≡ 9 ∷ [])
    × (q.mgr.bo_list ≡ surfaces.mgr.bo_list)
unfolding manager
surface_unref_example =
    create_with_flags-surface_unref (platform false) 16 16 format_nv12 0 surfaces 9 []
      (platform-Fresh false) (platform-SmallIndex false) refl refl refl

surface_bo_example :
    let m = manager try_always 0 [] in
    let r = surface_bo (platform true) 16 16 format_nv12 0 0 4096 m in
    let q = unref (platform true).back r.0 r.1 in (q.bo_list ≡ m.bo_list) × (q.bo_cnt ≡ dec32 1)
unfolding manager surface_bo
surface_bo_example =
    surface_bo-unref (platform true) 16 16 format_nv12 0 0 4096 (manager try_always 0 [])
      (platform-Fresh true) refl (omega arith) (omega arith)

debug_data_example :
    let r = set_debug_data (platform true) 9 (1 ∷ []) (some (2 ∷ 3 ∷ [])) surfaces in
    (r.0 ≡ 1)
    × Next (some (2 ∷ [])) (some (2 ∷ 3 ∷ [])) (get_debug_data 9 (1 ∷ []) r.1)
    × (get_debug_data 9 (4 ∷ []) r.1 ≡ none)
unfolding manager surf_is_valid str_eq get_debug_data same_value debug_value is_prefix
debug_data_example =
    get_debug_data-set_debug_data (platform true) 9 (1 ∷ []) (4 ∷ []) (some (2 ∷ 3 ∷ [])) surfaces
      refl refl (ground arith)

format_tables_example : (get_num_planes format_yuyv ≡ 1) × (get_bpp format_yuyv ≡ 32)
unfolding layout_in
format_tables_example = format_tables format_yuyv

-- A surface on the buffer object that the manager has.
abbrev info : Info
info = record {
  width = 16;
  height = 16;
  format = format_yuyv;
  bpp = 32;
  size = 0;
  num_planes = 1;
  planes = record { size = 0; offset = 0; stride = 32; bo_idx = 0 } ∷ [];
}

create_with_bos_example :
    (r : Surfaces) × (create_with_bos (platform true) info (6 ∷ []) surfaces ≡ some (10, r))
    × (surf_is_valid r 10 ≡ true)
    × (r.surf_list ≡ 10 ∷ 9 ∷ [])
    × ((r.surfs 10).bos ≡ 6 ∷ [])
    × (length (r.surfs 10).bos ≤ plane_max)
    × ((r.surfs 10).refcnt ≡ 1)
    × Taken surfaces.mgr r.mgr (6 ∷ [])
unfolding manager bo_is_valid
create_with_bos_example =
    create_with_bos_shares (platform true) info (6 ∷ []) surfaces refl (omega arith) (omega arith)
      refl ((refl, omega arith, omega arith), tt)
