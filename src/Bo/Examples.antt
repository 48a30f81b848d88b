-- ===== src/Bo/Examples.antt =====
-- The theorems on buffer objects at a manager with one buffer object.
use libtbm.Bo.KeyOps.{KeyOp, add_op, set_op, delete_op, run_ops, replay_ops}
use libtbm.Bo.KeyRuns.{run_ops-replay_ops}
use libtbm.Bo.Farewell.{unref_last, holds, frees, bo_frees}
use libtbm.Bo.Life.{unref}
use libtbm.Bo.Once.{once_unlocks_early, Willing}
use libtbm.Bo.UserData.{get_user_data}
use libtbm.Bo.Lock.{locked, unmap_bo, map_bo}
use libtbm.Base.{length, List, ℕ, ◌≡◌, ◌+◌, refl, true, false, [], ◌∷◌, arith}
use libtbm.Bo.State.{
  Manager, Backend, LockType, try_once, try_always, error_none, bo_is_valid, BackendCall,
  bo_lock_call,
}
use libtbm.Bo.Balance.{
  unmap_step, map_step, run_steps_balanced, MapStep, run_steps, Books, Alone, locks, unlocks,
}

unfoldable pub example_backend : Backend
example_backend = record {
  has_lock = true;
  has_unlock = true;
  lock_ret = λ _ _ _ _. 1;
  map_ret = λ _ _ _ _. 4096;
  unmap_ret = λ _ _. 1;
  during_lock = λ _ m. m;
  calloc_data = λ _. true;
  calloc_bo = λ m. 8 + length m.bo_list;
  alloc_ret = λ b _ _ _. 1000 + b;
  has_import = true;
  import_ret = λ _ key _. 2000 + key;
  has_import_fd = true;
  import_fd_ret = λ _ fd _. 3000 + fd;
  has_get_flags = false;
  flags_ret = λ _ _. 0;
  has_export = true;
  export_ret = λ b _. b;
  has_export_fd = true;
  export_fd_ret = λ b _. b;
  handle_ret = λ b _ _. 4096;
  size_ret = λ _ _. 128;
}

-- One buffer object, 6, with two items of user data, that is locked as often as `n` says.
unfoldable pub manager : LockType → (n : ℕ) → List BackendCall → Manager
manager t n c = record {
  live = true;
  address = 1;
  ref_count = 1;
  lock_type = t;
  bo_cnt = 1;
  bo_list = 6 ∷ [];
  bos = λ _. record {
    ref_cnt = 1;
    flags = 0;
    user_data_list =
        record { key = 11; data_ptr = 70; free_func = 900 }
        ∷ record { key = 12; data_ptr = 0; free_func = 900 }
        ∷ [];
    priv = 1006;
    surface = 0;
    lock_cnt = n;
    map_cnt = n;
  };
  last_result = error_none;
  calls = c;
}

backend-Alone : Alone example_backend
unfolding example_backend
backend-Alone = record { lock = refl; unlock = refl; quiet = λ b m. refl }

backend-Willing : Willing example_backend 6
unfolding example_backend
backend-Willing = record {
  locks = λ d o m. omega arith;
  maps = λ d o m. omega arith;
  unmaps = λ m. omega arith;
}

steps : List MapStep
steps = map_step 6 1 3 ∷ map_step 6 2 1 ∷ unmap_step 6 ∷ []

run_steps_example : Books 0 (run_steps example_backend steps (manager try_always 0 [])) 6
unfolding manager steps
run_steps_example =
    run_steps_balanced steps (manager try_always 0 []) backend-Alone
      (λ b. record { even = refl; room = omega arith; capped = omega arith }) 6

unref_example :
    let m = manager try_always 1 (bo_lock_call 6 1 ∷ []) in
    let r = unref example_backend 6 m in
    (bo_is_valid r 6 ≡ false)
    × (locks 6 r.calls ≡ unlocks 6 r.calls)
    × (bo_frees 6 r.calls ≡ bo_frees 6 m.calls + 1)
    × (frees 900 70 r.calls ≡ frees 900 70 m.calls + holds 900 70 (m.bos 6).user_data_list)
unfolding manager bo_is_valid
unref_example =
    unref_last example_backend 6 (manager try_always 1 (bo_lock_call 6 1 ∷ [])) 900 70 backend-Alone
      refl (refl, tt) (record { even = refl; room = omega arith; capped = omega arith }) refl
      (omega arith) (omega arith)

once_example :
    let m1 = (map_bo example_backend 6 1 3 (manager try_once 0 [])).1 in
    let m2 = (map_bo example_backend 6 1 3 m1).1 in
    let m3 = (unmap_bo example_backend 6 m2).1 in
    (locked m2 6 ≡ true) × (locked m3 6 ≡ false) × ((m3.bos 6).map_cnt ≡ 1)
unfolding manager bo_is_valid
once_example =
    once_unlocks_early backend-Alone backend-Willing 1 3 0 (manager try_once 0 []) (omega arith)
      (record { valid = refl; once = refl; locks = refl; maps = refl })

some_ops : List KeyOp
some_ops = add_op 13 901 ∷ set_op 13 70 ∷ delete_op 11 ∷ set_op 11 4 ∷ []

run_ops-replay_ops_example :
    let m = manager try_always 0 [] in
    ((run_ops example_backend 6 some_ops m).0 ≡ (replay_ops some_ops (λ k. get_user_data 6 k m)).0)
    × ((k : ℕ)
        → get_user_data 6 k (run_ops example_backend 6 some_ops m).1
          ≡ (replay_ops some_ops (λ k. get_user_data 6 k m)).1 k)
unfolding manager bo_is_valid example_backend
run_ops-replay_ops_example =
    run_ops-replay_ops example_backend 6 (λ m. refl) some_ops (manager try_always 0 []) refl
      (refl, (refl, tt))
