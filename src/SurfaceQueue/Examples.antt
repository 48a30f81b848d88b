-- ===== src/SurfaceQueue/Examples.antt =====
-- Concrete queues and an environment, for runs of the operations of src/tbm_surface_queue.c.
mod Contracts
mod Handles
mod Runs
use libtbm.SurfaceQueue.Impl.{impl_init}
use libtbm.Base.{has, ap, arith, false, ◌+◌, ℕ, [], ◌∷◌, ◌≡◌, refl, true}
use libtbm.SurfaceQueue.State.{Env, Queue, World, default_impl, free_head, dirty_head}
use libtbm.SurfaceQueue.Nodes.{node_create, queue_init, attach, node_pop, push_back}
use libtbm.SurfaceQueue.Manage.{queue_of}
use libtbm.SurfaceQueue.Invariant.{
  IsOut, attach-IsQueue, dirty_mem, free_mem, node_pop-IsQueue, push_back-IsQueue, View, IsQueue,
  moved,
}
use libtbm.SurfaceQueue.Contract.Clear.{nothing, queue_of-IsQueue}

-- Memory is always there, each new surface is named after the node that it will get, and nobody else
-- touches the queues.
abbrev pub example_env : Env
example_env = record {
  calloc_node = λ _. true;
  calloc_notify = λ _. true;
  calloc_queue = λ _. 9;
  calloc_data = λ _. true;
  bufmgr_init = λ _. true;
  alloc_surface = λ _ _ q. 200 + q.next_node;
  create_surface = λ _ _ _ _ q. 100 + q.next_node;
  during_notify = λ _ w. w;
  during_wait = λ _ w. w;
}

-- A queue for two surfaces, as it is created.
unfoldable pub new_queue : Queue
new_queue = queue_of 2 64 32 875713112 0 default_impl

unfoldable pub one_free : Queue
one_free = attach example_env 104 new_queue

-- Both surfaces are attached and free.
unfoldable pub filled : Queue
filled = attach example_env 105 one_free

-- The user holds the first of them.
unfoldable pub one_held : Queue
one_held = node_pop free_head 4 filled

unfoldable pub both_held : Queue
both_held = node_pop free_head 5 one_held

-- The user holds the first, and the second waits to be acquired.
unfoldable pub one_dirty : Queue
one_dirty = push_back dirty_head 5 both_held

-- The same after a smaller size has been set.
unfoldable pub shrunk : Queue
shrunk = record one_dirty { queue_size = 1 }

-- One queue with the handle 9.
abbrev pub world : Queue → World
world q = record { bufmgr = true; handles = 9 ∷ []; queues = λ _. q; dump_queue = false }

-- The abstract states of these queues.
abbrev pub one_free_view : View
one_free_view = moved nothing free_head (4 ∷ []) 4 free_head

abbrev pub filled_view : View
filled_view = moved one_free_view free_head (4 ∷ 5 ∷ []) 5 free_head

abbrev pub one_held_view : View
one_held_view = moved filled_view free_head (5 ∷ []) 4 0

abbrev pub both_held_view : View
both_held_view = moved one_held_view free_head [] 5 0

abbrev pub one_dirty_view : View
one_dirty_view = moved both_held_view dirty_head (5 ∷ []) 5 dirty_head

pub new_queue-IsQueue : IsQueue new_queue nothing
unfolding new_queue
new_queue-IsQueue = queue_of-IsQueue 2 64 32 875713112 0 default_impl

pub one_free-IsQueue : IsQueue one_free one_free_view
unfolding one_free new_queue queue_of impl_init queue_init
one_free-IsQueue =
    attach-IsQueue new_queue-IsQueue 104 (omega arith) (λ a m. absurd (ground arith)) (omega arith)
      example_env refl

pub filled-IsQueue : IsQueue filled filled_view
unfolding filled one_free new_queue queue_of impl_init queue_init attach node_create push_back
filled-IsQueue =
    attach-IsQueue one_free-IsQueue 105 (omega arith) (λ a m. ground arith) (omega arith)
      example_env refl

-- The surfaces of the two nodes.
pub filled-names : ((filled.nodes 4).surface ≡ 104) × ((filled.nodes 5).surface ≡ 105)
unfolding filled one_free new_queue queue_of impl_init queue_init attach node_create push_back
filled-names = (refl, refl)

pub filled-lists :
    (filled.list ≡ 4 ∷ 5 ∷ [])
    × (filled.impl ≡ default_impl)
    × (filled.next_node ≡ 6)
    × (filled.num_attached ≡ 2)
    × (filled.queue_size ≡ 2)
unfolding filled one_free new_queue queue_of impl_init queue_init attach node_create push_back
filled-lists = (refl, refl, refl, refl, refl)

pub one_held-IsQueue : IsQueue one_held one_held_view
unfolding one_held
one_held-IsQueue = node_pop-IsQueue filled-IsQueue free_head (free_mem filled.impl) refl

pub both_held-IsQueue : IsQueue both_held both_held_view
unfolding both_held
both_held-IsQueue = node_pop-IsQueue one_held-IsQueue free_head (free_mem one_held.impl) refl

pub one_dirty-IsQueue : IsQueue one_dirty one_dirty_view
unfolding one_dirty both_held one_held node_pop
one_dirty-IsQueue =
    push_back-IsQueue both_held-IsQueue dirty_head (dirty_mem both_held.impl) 5
      (ap (has 5) filled-lists.0) refl

pub shrunk-IsQueue : IsQueue shrunk one_dirty_view
unfolding shrunk
shrunk-IsQueue =
    let i = one_dirty-IsQueue in
    record {
      rings = i.rings;
      nodes = i.nodes;
      fresh = i.fresh;
      beyond = i.beyond;
      distinct = i.distinct;
      attached = i.attached;
      few = i.few;
      surfaces = i.surfaces;
      unique = i.unique;
    }

-- Which surfaces the user holds.
pub one_held-IsOut : IsOut one_held one_held_view 4 104
unfolding one_held node_pop
one_held-IsOut = record { known = ap (has 4) filled-lists.0; out = refl; names = filled-names.0 }

pub shrunk-IsOut : IsOut shrunk one_dirty_view 4 104
unfolding shrunk one_dirty both_held one_held node_pop push_back
shrunk-IsOut = record { known = ap (has 4) filled-lists.0; out = refl; names = filled-names.0 }
