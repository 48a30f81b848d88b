-- ===== src/Bo/ListExamples.antt =====
-- The theorems on the list of buffer objects at the manager of Bo/Examples.
use libtbm.Base.{true, ◌≡◌, ◌≢◌, refl, [], arith}
use libtbm.SurfaceQueue.State.{inc32}
use libtbm.Bo.State.{Manager, try_always}
use libtbm.Bo.Alloc.{alloc, import_bo}
use libtbm.Bo.Life.{ref, unref}
use libtbm.Bo.Examples.{example_backend, manager}
use libtbm.Bo.Kept.{IsKept}
use libtbm.Bo.Reach.{BoReach-IsKept, here, next, alloc_step, ref_step, unref_step}
use libtbm.Bo.Init.{System, bufmgr_init, bufmgr_deinit}
use libtbm.Bo.InitCount.{bufmgr_init-deinit}
use libtbm.Bo.Import.{import_again, Knows}

start : Manager
start = manager try_always 0 []

start-IsKept : IsKept start
unfolding start manager
start-IsKept = record {
  positive = (omega arith, tt);
  distinct = (refl, tt);
  counted = refl;
  few = omega arith;
  refs = ((omega arith, omega arith), tt);
  unique = λ a b x y e. ground arith;
}

allocated : Manager
allocated = (alloc example_backend 1 4096 0 start).1

BoReach-IsKept_example : IsKept (unref example_backend 6 (ref 6 allocated).1)
unfolding start manager allocated alloc ref example_backend
BoReach-IsKept_example =
    BoReach-IsKept {e = example_backend} {bufmgr = 1}
      (next
        (next (next here (alloc_step 4096 0 refl (omega arith) (λ a k. omega arith)))
          (ref_step 6 (omega arith)))
        (unref_step 6))
      start-IsKept

knows : Knows example_backend 5 2005
unfolding example_backend
knows = record {
  can = refl;
  gives = λ b m. refl;
  some_priv = omega arith;
  memory = λ m. omega arith;
}

import_again_example :
    let r = import_bo example_backend 1 5 start in
    let s = import_bo example_backend 1 5 r.1 in
    (r.0 ≢ 0)
    × (s.0 ≡ r.0)
    × (s.1.bo_list ≡ r.1.bo_list)
    × (s.1.bo_cnt ≡ r.1.bo_cnt)
    × ((s.1.bos r.0).ref_cnt ≡ inc32 (r.1.bos r.0).ref_cnt)
unfolding start manager
import_again_example = import_again knows 1 start start-IsKept refl

abbrev system : System
system = record { calloc_bufmgr = λ _. 3; load_module = λ _. true; lock_type = try_always }

bufmgr_init-deinit_example :
    let r = bufmgr_init system start in
    let q = bufmgr_deinit example_backend r.0 r.1 in
    (r.1.live ≡ true) × (q.live ≡ true) × (start.live ≡ true → q ≡ start)
unfolding start manager bufmgr_init
bufmgr_init-deinit_example =
    bufmgr_init-deinit example_backend system start (omega arith) (omega arith) (omega arith)
      (omega arith)
