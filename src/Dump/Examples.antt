-- ===== src/Dump/Examples.antt =====
-- A dump with two buffers of 4096 bytes.
use libtbm.Surface.Life.{surface_unref, surface_destroy, drop_bos, destroy_surface}
use libtbm.Bo.Life.{unref, unlock_all, free_bo, free_all}
use libtbm.Surface.State.{surf_is_valid}
use libtbm.Surface.Access.{
  unmap_bos, surface_unmap, plane_ptrs, map_bos, handle_bos, get_or_zero, get_info,
}
use libtbm.Bo.Alloc.{set_surface, alloc}
use libtbm.Surface.Table.{get_bpp, get_num_planes}
use libtbm.Bo.Init.{shut_down, free_bos, bufmgr_deinit, bufmgr_init}
use libtbm.Surface.Create.{
  total_size, close_bufmgr, bo_size_of, surface_bo, count_bos, get_bos, query_planes, open_bufmgr,
  create_with_flags,
}
use libtbm.Surface.Api.{api_unmap, api_destroy, api_map, api_create}
use libtbm.Dump.Only.{Each}
use libtbm.Dump.Lone.{dump_start-lone}
use libtbm.Bo.Examples.{example_backend, manager}
use libtbm.Bo.State.{bo_is_valid}
use libtbm.Bo.Lock.{
  unlock_last, back_unlock, unlock_each, no_negative, back_lock, lock_counted, unlock, lock,
  unmap_bo, map_bo,
}
use libtbm.Dump.Store.{next_place, dump_shm, dump_shm_buffer}
use libtbm.Base.{
  true, Bool, none, Option, refl, ◌≡◌, List, [], ◌∷◌, ◌++◌, ℕ, some, false, arith, drop, length,
}
use libtbm.Surface.Examples.{platform, surfaces}
use libtbm.Dump.State.{Media, Dump, DumpInfo, Span}
use libtbm.Dump.Begin.{unref_bufs, make_dump, make_bufs, measure, dump_start, new_buf}
use libtbm.Dump.Window.{taken, Shot, shot_shows, dump_shots, window, dump_shots-window}

abbrev info : DumpInfo
info = record {
  path = 47 ∷ [];
  dump_max = 2;
  count = 0;
  link = 0;
  surface_list = new_buf 0 6 4096 ∷ new_buf 1 6 4096 ∷ [];
}

abbrev dump : Dump
dump = record { dump_info = some info; surfaces = surfaces; files = [] }

abbrev shot : ℕ → ℕ → Shot
shot ptr h = record { ptr = ptr; w = 8; h = h; stride = 32; kind = [] }

-- The second of these is too large.
abbrev shots : List Shot
shots = shot 500 8 ∷ shot 600 400 ∷ shot 700 16 ∷ shot 800 32 ∷ []

abbrev shots_of : Option (List (List Span × ℕ × ℕ) × Dump) → Option (List (List Span × ℕ × ℕ))
shots_of none = none
shots_of (some r) = some r.0

shots_taken :
    shots_of (dump_shots (platform false) shots dump)
    ≡ some (shot_shows (shot 500 8) ∷ shot_shows (shot 700 16) ∷ shot_shows (shot 800 32) ∷ [])
unfolding dump_shots taken dump_shm_buffer dump_shm next_place map_bo unmap_bo lock unlock
    bo_is_valid manager example_backend lock_counted back_lock no_negative unlock_each back_unlock
shots_taken = refl

dump_shots-window_example :
    (shows : List (List Span × ℕ × ℕ)) × (d' : Dump) × (dump_shots (platform false) shots dump
      ≡ some (shows, d'))
    × (window d' ≡ drop (length shows) (window dump ++ shows))
dump_shots-window_example =
    dump_shots-window (platform false) shots dump info refl (omega arith) (omega arith)
      (omega arith)

abbrev media : Media
media = record {
  calloc_info = true;
  calloc_buf = λ _. true;
  fopen_succeeds = λ _ _. true;
  file_exists = λ _ _. false;
  write_struct = true;
  info_struct = true;
  malloc_rows = true;
  malloc_row = λ _. true;
  words = λ _ _. 0;
}

-- No surface was made yet.
abbrev idle : Dump
idle = record {
  dump_info = none;
  surfaces = record surfaces { owned = false; surf_list = [] };
  files = [];
}

abbrev returns : Option Dump → Bool
returns none = false
returns (some d) = true

dump_start-returns :
    returns (dump_start media (platform false) (some (47 ∷ [])) 16 16 2 idle) ≡ true
unfolding dump_start api_create create_with_flags open_bufmgr bufmgr_init manager query_planes
    get_num_planes get_bos count_bos surface_bo alloc bo_size_of example_backend measure api_map
    get_info surf_is_valid set_surface bufmgr_deinit free_bos shut_down free_all free_bo unlock_all
    unref back_lock back_unlock lock lock_counted map_bo no_negative unlock unlock_each unlock_last
    unmap_bo bo_is_valid make_bufs make_dump unref_bufs get_or_zero handle_bos map_bos plane_ptrs
    surface_unmap unmap_bos api_destroy api_unmap close_bufmgr total_size destroy_surface drop_bos
    surface_destroy surface_unref get_bpp
dump_start-returns = refl

dump_start-lone_example :
    Each (λ r. r.dump_info ≡ none) (dump_start media (platform false) (some (47 ∷ [])) 16 16 2 idle)
dump_start-lone_example =
    dump_start-lone media (platform false) (some (47 ∷ [])) 16 16 2 idle refl refl
