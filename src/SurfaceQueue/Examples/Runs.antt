-- ===== src/SurfaceQueue/Examples/Runs.antt =====
-- Runs of the public functions of src/tbm_surface_queue.c, from a handle to a handle.
use libtbm.Links.{list_inithead, list_addtail, list_del, list_is_empty}
use libtbm.SurfaceQueue.Notify.{notify_emit, trace_emit}
use libtbm.SurfaceQueue.Nodes.{
  queue_init, attach, node_create, enqueue_node, acquire_node, release_node, detach, delete_node,
  node_delete, get_node, find_in, find_attached, is_empty, push_back, node_pop, pop_front,
}
use libtbm.SurfaceQueue.Impl.{
  impl_init, sequence_init, impl_dequeue, sequence_dequeue, dequeue_node, need_attach,
  default_need_attach, sequence_need_attach, impl_enqueue, sequence_enqueue, flush_sequence,
}
use libtbm.Base.{refl, ◌≡◌, ℕ, List, [], ◌∷◌, false, Option, some, ◌>>=◌}
use libtbm.SurfaceQueue.State.{unknown_surface, is_valid, Error, World}
use libtbm.SurfaceQueue.Transfer.{
  dequeue_on_queue, enqueue_on_queue, release_on_queue, acquire_on_queue, enqueue, dequeue, acquire,
  release,
}
use libtbm.SurfaceQueue.Manage.{
  create_with, queue_of, set_size_on_queue, detach_free, create, sequence_create, set_size,
}
use libtbm.SurfaceQueue.Examples.{example_env, new_queue}

start : World
start = record { bufmgr = false; handles = []; queues = λ _. new_queue; dump_queue = false }

-- Two surfaces go from the producer to the consumer and come in order.
round_trip : Option (List ℕ)
round_trip = do
  (h, w0) ← create example_env start 2 64 32 875713112 0
  (e1, s, w1) ← dequeue example_env w0 h
  (e2, t, w2) ← dequeue example_env w1 h
  (e3, w3) ← enqueue w2 h t
  (e4, w4) ← enqueue w3 h s
  (e5, a, w5) ← acquire w4 h
  (e6, b, w6) ← acquire w5 h
  (e7, w7) ← release w6 h a
  (e8, c, w8) ← dequeue example_env w7 h
  some (s ∷ t ∷ a ∷ b ∷ c ∷ [])

round_trip_run : round_trip ≡ some (104 ∷ 105 ∷ 105 ∷ 104 ∷ 105 ∷ [])
unfolding round_trip start create sequence_create create_with queue_of impl_init sequence_init
    queue_init is_valid dequeue dequeue_on_queue impl_dequeue sequence_dequeue dequeue_node
    need_attach default_need_attach sequence_need_attach attach node_create enqueue enqueue_on_queue
    impl_enqueue sequence_enqueue flush_sequence enqueue_node acquire acquire_on_queue acquire_node
    release release_on_queue release_node detach delete_node node_delete set_size set_size_on_queue
    detach_free get_node find_in find_attached is_empty push_back node_pop pop_front notify_emit
    trace_emit list_inithead list_addtail list_del list_is_empty
round_trip_run = refl

-- A size below the number of surfaces attached, then a release: the surface that waits for the
-- consumer is handed to the producer as well.
shared_surface : Option (List ℕ)
shared_surface = do
  (h, w0) ← create example_env start 2 64 32 875713112 0
  (e1, s, w1) ← dequeue example_env w0 h
  (e2, t, w2) ← dequeue example_env w1 h
  (e3, w3) ← release w2 h s
  (e4, w4) ← release w3 h t
  (e5, a, w5) ← dequeue example_env w4 h
  (e6, b, w6) ← dequeue example_env w5 h
  (e7, w7) ← enqueue w6 h b
  (e8, w8) ← set_size w7 h 1 false
  (e9, w9) ← release w8 h a
  (e10, c, w10) ← dequeue example_env w9 h
  (e11, d, w11) ← acquire w10 h
  some (b ∷ c ∷ d ∷ [])

shared_surface_run : shared_surface ≡ some (105 ∷ 105 ∷ 105 ∷ [])
unfolding shared_surface start create sequence_create create_with queue_of impl_init sequence_init
    queue_init is_valid dequeue dequeue_on_queue impl_dequeue sequence_dequeue dequeue_node
    need_attach default_need_attach sequence_need_attach attach node_create enqueue enqueue_on_queue
    impl_enqueue sequence_enqueue flush_sequence enqueue_node acquire acquire_on_queue acquire_node
    release release_on_queue release_node detach delete_node node_delete set_size set_size_on_queue
    detach_free get_node find_in find_attached is_empty push_back node_pop pop_front notify_emit
    trace_emit list_inithead list_addtail list_del list_is_empty
shared_surface_run = refl

-- A sequence queue hands surfaces over in the order in which they were dequeued, and says of the one
-- that was enqueued too early that it is unknown.
in_sequence : Option (Error × List ℕ)
in_sequence = do
  (h, w0) ← sequence_create example_env start 2 64 32 875713112 0
  (e1, s, w1) ← dequeue example_env w0 h
  (e2, t, w2) ← dequeue example_env w1 h
  (e3, w3) ← enqueue w2 h t
  (e4, w4) ← enqueue w3 h s
  (e5, a, w5) ← acquire w4 h
  (e6, b, w6) ← acquire w5 h
  some (e3, s ∷ t ∷ a ∷ b ∷ [])

in_sequence_run : in_sequence ≡ some (unknown_surface, 104 ∷ 105 ∷ 104 ∷ 105 ∷ [])
unfolding in_sequence start create sequence_create create_with queue_of impl_init sequence_init
    queue_init is_valid dequeue dequeue_on_queue impl_dequeue sequence_dequeue dequeue_node
    need_attach default_need_attach sequence_need_attach attach node_create enqueue enqueue_on_queue
    impl_enqueue sequence_enqueue flush_sequence enqueue_node acquire acquire_on_queue acquire_node
    release release_on_queue release_node detach delete_node node_delete set_size set_size_on_queue
    detach_free get_node find_in find_attached is_empty push_back node_pop pop_front notify_emit
    trace_emit list_inithead list_addtail list_del list_is_empty
in_sequence_run = refl
