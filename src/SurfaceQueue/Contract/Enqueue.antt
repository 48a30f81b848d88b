-- ===== src/SurfaceQueue/Contract/Enqueue.antt =====
-- `tbm_surface_queue_enqueue` on a default queue.
use libtbm.Base.{inr, inl, ◌⊎◌, ◌≢◌, ◌∈◌, ℕ, ◌≡◌, [], ◌∷◌, ◌++◌, ◌==◌, arith, some, false}
use libtbm.SurfaceQueue.State.{
  already_exist, Queue, error_none, node_enqueue, trace_enqueue, signal_dirty, default_impl,
  dirty_head, free_head,
}
use libtbm.SurfaceQueue.Nodes.{push_back, enqueue_node}
use libtbm.SurfaceQueue.Impl.{impl_enqueue}
use libtbm.SurfaceQueue.Transfer.{enqueue_on_queue}
use libtbm.SurfaceQueue.Invariant.{
  View, IsQueue, IsOut, moved, dirty_mem, push_back-IsQueue, IsQueue-set_type, IsQueue-calls,
  notify_emit-IsQueue, trace_emit-IsQueue, get_node-out, get_node-free, get_node-dirty,
  get_node-none, is_empty-append, update_self, node_pos,
}
use libtbm.SurfaceQueue.Contract.Keeps.{
  Keeps, Keeps-relabel, push_back-Keeps, Keeps-notify_emit, Keeps-trace_emit,
}

impl_enqueue-default :
    (n : ℕ) (q : Queue) → q.impl ≡ default_impl → impl_enqueue n q ≡ some (push_back dirty_head n q)
unfolding impl_enqueue enqueue_node
impl_enqueue-default n q d = ground arith

module _ {q : Queue} {v : View} (i : IsQueue q v) where
  -- On a default queue in order, enqueueing a surface whose node is on no list succeeds, puts the
  -- node at the end of the dirty list, moves nothing else and keeps the queue in order.
  pub enqueue-out :
      {n s : ℕ}
      → q.impl ≡ default_impl
      → IsOut q v n s
      → (q' : Queue) × (enqueue_on_queue s q ≡ some (error_none, q'))
        × IsQueue q' (moved v dirty_head (v.at dirty_head ++ n ∷ []) n dirty_head)
        × Keeps q q'
  unfolding enqueue_on_queue
  enqueue-out {n} {s} d o =
      let r : Queue = push_back dirty_head n q in
      let pushed = push_back-IsQueue i dirty_head (dirty_mem q.impl) n o.known o.out in
      let ne : (n == 0) ≡ false = ground (arith, node_pos i n o.known) in
      let full =
        is_empty-append pushed dirty_head (dirty_mem r.impl) (v.at dirty_head) n
          (update_self v.at dirty_head _) in
      let emitted = notify_emit-IsQueue q.acquirable_noti (
        trace_emit-IsQueue q.trace_noti s trace_enqueue
          (IsQueue-calls (signal_dirty ∷ r.calls) (IsQueue-set_type n node_enqueue pushed))) in
      (
        _,
        rw (get_node-out i o, ne, impl_enqueue-default n q d, full),
        emitted,
        Keeps-notify_emit q.acquirable_noti (
            Keeps-trace_emit q.trace_noti s trace_enqueue
              (Keeps-relabel n node_enqueue _ (push_back-Keeps dirty_head n q))),
      )

  -- On a queue in order, enqueueing a surface that is not attached, is free, or is dirty already
  -- reports TBM_SURFACE_QUEUE_ERROR_ALREADY_EXIST and changes nothing.
  pub enqueue_refused :
      (s : ℕ)
      → ((a : ℕ) → a ∈ q.list → (q.nodes a).surface ≢ s)
        ⊎ ((n : ℕ) × ((q.nodes n).surface ≡ s) × ((n ∈ v.at free_head) ⊎ (n ∈ v.at dirty_head)))
      → enqueue_on_queue s q ≡ some (already_exist, q)
  unfolding enqueue_on_queue
  enqueue_refused s (inl u) = rw (get_node-none i s u)
  enqueue_refused s (inr (n, e, inl m)) = rw (get_node-free i n s m e) (ground arith)
  enqueue_refused s (inr (n, e, inr m)) = rw (get_node-dirty i n s m e) (ground arith)
