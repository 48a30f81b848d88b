-- ===== src/SurfaceQueue/Examples/Handles.antt =====
-- The theorems on handles and on emptying a queue, at the example queues.
use libtbm.SurfaceQueue.Contract.Farewell.{drop_all-destroys}
use libtbm.SurfaceQueue.Callbacks.{get_format, get_height, get_width, get_size}
use libtbm.SurfaceQueue.Contract.Handles.{create_lem, destroy_lem}
use libtbm.SurfaceQueue.Contract.Clear.{nothing, destroys}
use libtbm.SurfaceQueue.Examples.{
  one_dirty-IsQueue, IsQueue, example_env, new_queue, world, one_dirty,
}
use libtbm.Base.{arith, true, some, ◌≡◌, ◌≢◌, ◌↔◌, false, ◌∈◌, ℕ, refl, ◌+◌, []}
use libtbm.SurfaceQueue.State.{World, is_valid}
use libtbm.SurfaceQueue.Manage.{drop_all, destroy, create}

drop_all_example :
    ((n : ℕ)
      → n ∈ one_dirty.list
      → (one_dirty.nodes n).surface ≡ 104
      → destroys 104 (drop_all one_dirty).calls ≡ destroys 104 one_dirty.calls + 1)
    × (((a : ℕ) → a ∈ one_dirty.list → (one_dirty.nodes a).surface ≢ 104)
        → destroys 104 (drop_all one_dirty).calls ≡ destroys 104 one_dirty.calls)
drop_all_example = drop_all-destroys 104 one_dirty-IsQueue (omega arith)

destroy_example :
    let w' = destroy (world one_dirty) 9 in
    (is_valid w' 9 ≡ false)
    × ((k : ℕ) → 9 ≢ k → (is_valid w' k ≡ is_valid (world one_dirty) k) × (w'.queues k ≡ one_dirty))
    × ((w'.bufmgr ≡ false) ↔ (w'.handles ≡ []))
unfolding is_valid
destroy_example = destroy_lem (world one_dirty) 9 (refl, tt) refl

empty_world : World
empty_world = record { bufmgr = false; handles = []; queues = λ _. new_queue; dump_queue = false }

create_example :
    (h : ℕ) × (w' : World) × (create example_env empty_world 3 64 32 875713112 0 ≡ some (h, w'))
    × (is_valid w' h ≡ true)
    × IsQueue (w'.queues h) nothing
    × (get_size w' h ≡ 3)
    × (get_width w' h ≡ 64)
    × (get_height w' h ≡ 32)
    × (get_format w' h ≡ 875713112)
unfolding empty_world
create_example = create_lem example_env empty_world 3 64 32 875713112 0 refl (omega arith) refl refl
