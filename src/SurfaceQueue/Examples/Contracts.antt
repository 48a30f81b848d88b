-- ===== src/SurfaceQueue/Examples/Contracts.antt =====
-- The theorems on src/tbm_surface_queue.c at the example queues.
use libtbm.SurfaceQueue.Contract.Refused.{refused_unchanged}
use libtbm.SurfaceQueue.Contract.Ready.{can_acquire_lem}
use libtbm.SurfaceQueue.Transfer.{can_acquire, acquire}
use libtbm.SurfaceQueue.State.{World, is_valid}
use libtbm.SurfaceQueue.Contract.Resize.{Resized, set_size_shrinks}
use libtbm.SurfaceQueue.Contract.Limits.{dequeue_beyond_size, dequeue_within_size}
use libtbm.SurfaceQueue.Contract.Fifo.{
  enqueue_acquire_fifo, acquire_times, surfaces_of, enqueue_each,
}
use libtbm.SurfaceQueue.Contract.Stale.{release_over_crosses}
use libtbm.SurfaceQueue.Contract.Growth.{dequeue_new, asked, Grants}
use libtbm.SurfaceQueue.Contract.Acquire.{acquire-cons}
use libtbm.SurfaceQueue.Contract.Dequeue.{dequeue_full, dequeue-cons}
use libtbm.SurfaceQueue.Contract.Keeps.{Keeps}
use libtbm.Links.{list_inithead, list_addtail, list_del}
use libtbm.SurfaceQueue.Contract.Release.{release-out}
use libtbm.Base.{
  has, ◌⊎◌, ◌↔◌, ap, length, ◌∷◌, ◌+◌, [], ◌++◌, ◌∙◌, sym, inr, sym, ◌∙◌, arith, ◌<◌, ◌≤◌, false, ℕ,
  [], inr, some,
}
use libtbm.SurfaceQueue.Transfer.{
  enqueue_on_queue, dequeue_on_queue, acquire_on_queue, release_on_queue,
}
use libtbm.SurfaceQueue.Examples.{
  world, filled_view, both_held_view, new_queue-IsQueue, one_held-IsOut, one_held-IsQueue,
  shrunk-IsOut, shrunk-IsQueue, both_held-IsQueue, IsOut, View, free_head, one_dirty-IsQueue,
  filled-lists, dirty_head, filled-names, one_dirty_view, moved, one_held_view, filled-IsQueue,
  IsQueue, node_create, attach, queue_init, push_back, impl_init, ◌≡◌, true, example_env, one_free,
  filled, node_pop, queue_of, new_queue, one_held, both_held, one_dirty, shrunk,
}
use libtbm.SurfaceQueue.State.{
  Error, already_exist, invalid_queue, error_none, invalid_surface, Queue,
}
use libtbm.Base.{◌∷◌, ◌+◌, [], ◌++◌, ◌∙◌, sym, inr, refl}
use libtbm.Links.{list_del, list_addtail, list_inithead}
use libtbm.SurfaceQueue.State.{error_none}
use libtbm.SurfaceQueue.Nodes.{node_pop, push_back, attach, node_create, queue_init}
use libtbm.SurfaceQueue.Impl.{impl_init}
use libtbm.SurfaceQueue.Manage.{queue_of}
use libtbm.SurfaceQueue.Contract.Enqueue.{enqueue-out}

fifo_example :
    (q1 q2 : Queue) × (v2 : View) × (enqueue_each (surfaces_of both_held (4 ∷ 5 ∷ [])) both_held
      ≡ some q1)
    × (acquire_times (length (both_held_view.at dirty_head ++ (4 ∷ 5 ∷ []))) q1
        ≡ some (surfaces_of both_held (both_held_view.at dirty_head ++ (4 ∷ 5 ∷ [])), q2))
    × IsQueue q2 v2
    × (v2.at dirty_head ≡ [])
unfolding both_held one_held node_pop
fifo_example =
    enqueue_acquire_fifo (4 ∷ 5 ∷ []) both_held-IsQueue filled-lists.1 (refl, (refl, tt))
      ((ap (has 4) filled-lists.0, refl), ((ap (has 5) filled-lists.0, refl), tt))

enqueue_example :
    (q' : Queue) × (enqueue_on_queue 104 one_held ≡ some (error_none, q'))
    × IsQueue q' (moved one_held_view dirty_head (4 ∷ []) 4 dirty_head)
    × Keeps one_held q'
unfolding one_held node_pop
enqueue_example = enqueue-out one_held-IsQueue filled-lists.1 one_held-IsOut

acquire_example :
    (q' : Queue) × (acquire_on_queue true one_dirty
      ≡ some (error_none, (one_dirty.nodes 5).surface, q'))
    × IsQueue q' (moved one_dirty_view dirty_head [] 5 0)
    × Keeps one_dirty q'
acquire_example = acquire-cons one_dirty-IsQueue true refl

release_example :
    (q' : Queue) × (release_on_queue 104 one_held ≡ some (error_none, q'))
    × IsQueue q' (moved one_held_view free_head (5 ∷ 4 ∷ []) 4 free_head)
    × Keeps one_held q'
unfolding one_held node_pop
release_example =
    release-out one_held-IsQueue one_held-IsOut (omega (arith, filled-lists.3, filled-lists.4))
      (omega (arith, filled-lists.4))

dequeue_example :
    (q' : Queue) × (dequeue_on_queue example_env filled
      ≡ some (error_none, (filled.nodes 4).surface, q'))
    × IsQueue q' one_held_view
    × Keeps filled q'
dequeue_example = dequeue-cons filled-IsQueue example_env filled-lists.1 refl

dequeue_full_example : dequeue_on_queue example_env both_held ≡ some (invalid_queue, 0, both_held)
unfolding both_held one_held node_pop
dequeue_full_example =
    dequeue_full both_held-IsQueue example_env filled-lists.1 refl
      (filled-lists.3 ∙ sym filled-lists.4)

refused_unchanged_example :
    (enqueue_on_queue 105 one_dirty ≡ some (already_exist, one_dirty))
    × (release_on_queue 105 one_dirty ≡ some (invalid_surface, one_dirty))
unfolding one_dirty both_held one_held node_pop push_back
refused_unchanged_example =
    refused_unchanged one_dirty-IsQueue 105 (inr (5, filled-names.1, inr refl))

new_queue-Grants : Grants example_env new_queue
unfolding new_queue queue_of impl_init queue_init
new_queue-Grants = record {
  given = omega arith;
  unused = λ a m. absurd (ground arith);
  memory = refl;
  room = omega arith;
}

dequeue_new_example :
    (n : ℕ) × (q' : Queue) × (v' : View) × (dequeue_on_queue example_env new_queue
      ≡ some (error_none, asked example_env new_queue, q'))
    × IsQueue q' v'
    × IsOut q' v' n (asked example_env new_queue)
    × (v'.at free_head ≡ [])
    × (v'.at dirty_head ≡ [])
    × (q'.num_attached ≡ new_queue.num_attached + 1)
    × (q'.queue_size ≡ new_queue.queue_size)
unfolding new_queue queue_of impl_init queue_init
dequeue_new_example =
    dequeue_new new_queue-IsQueue example_env new_queue-Grants (omega arith) refl refl

dequeue_within_size_example :
    (code : Error) × (s : ℕ) × (q' : Queue) × (dequeue_on_queue example_env new_queue
      ≡ some (code, s, q'))
    × (q'.num_attached ≤ new_queue.queue_size)
    × (q'.queue_size ≡ new_queue.queue_size)
    × (((new_queue.num_attached < new_queue.queue_size)
          × (code ≡ error_none)
          × (s ≡ asked example_env new_queue)
          × (q'.num_attached ≡ new_queue.num_attached + 1))
        ⊎ ((new_queue.num_attached ≡ new_queue.queue_size)
            × (code ≡ invalid_queue)
            × (q' ≡ new_queue)))
unfolding new_queue queue_of impl_init queue_init
dequeue_within_size_example =
    dequeue_within_size new_queue-IsQueue example_env new_queue-Grants refl refl (omega arith)

shrunk-Grants : Grants example_env shrunk
unfolding shrunk one_dirty both_held one_held filled one_free new_queue queue_of impl_init
    queue_init attach node_create push_back node_pop
shrunk-Grants = record {
  given = omega arith;
  unused = λ a m. ground arith;
  memory = refl;
  room = omega arith;
}

dequeue_beyond_size_example :
    (q' : Queue) × (dequeue_on_queue example_env shrunk
      ≡ some (error_none, asked example_env shrunk, q'))
    × (q'.queue_size < q'.num_attached)
    × (q'.num_attached ≡ shrunk.num_attached + 1)
unfolding shrunk one_dirty both_held one_held node_pop push_back
dequeue_beyond_size_example =
    dequeue_beyond_size shrunk-IsQueue example_env shrunk-Grants filled-lists.1 refl
      (omega (arith, filled-lists.3))

stale_links : (shrunk.links.prev 4 ≡ free_head) × (shrunk.links.next 4 ≡ 5)
unfolding shrunk one_dirty both_held one_held filled one_free new_queue queue_of impl_init
    queue_init attach node_create push_back node_pop list_del list_addtail list_inithead
stale_links = (refl, refl)

release_over_crosses_example :
    (q0 q1 q2 : Queue) × (release_on_queue 104 shrunk ≡ some (error_none, q0))
    × (dequeue_on_queue example_env q0 ≡ some (error_none, (shrunk.nodes 5).surface, q1))
    × (acquire_on_queue false q1 ≡ some (error_none, (shrunk.nodes 5).surface, q2))
unfolding shrunk one_dirty both_held one_held node_pop push_back
release_over_crosses_example =
    release_over_crosses shrunk-IsQueue shrunk-IsOut (omega (arith, filled-lists.3)) filled-lists.1
      stale_links.0 stale_links.1 refl example_env

can_acquire_example :
    let w = world one_dirty in
    let c = can_acquire example_env w 9 false in
    (c.1 ≡ w) × ((c.0 ≡ true) ↔ ((s : ℕ) × (w' : World) × (acquire w 9 ≡ some (error_none, s, w'))))
unfolding is_valid
can_acquire_example = can_acquire_lem example_env (world one_dirty) 9 refl one_dirty-IsQueue

-- Both surfaces are free again, and were given back in the opposite order.
one_back : Queue
one_back = push_back free_head 5 both_held

reordered : Queue
reordered = push_back free_head 4 one_back

reordered_view : View
reordered_view =
    moved (moved both_held_view free_head (5 ∷ []) 5 free_head) free_head (5 ∷ 4 ∷ []) 4 free_head

set_size_example : Resized filled filled_view 1
set_size_example =
    set_size_shrinks 1 filled-IsQueue (omega arith) (omega arith) (omega (arith, filled-lists.4))
