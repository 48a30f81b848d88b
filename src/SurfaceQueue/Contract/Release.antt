-- ===== src/SurfaceQueue/Contract/Release.antt =====
-- `tbm_surface_queue_release`: back to the free list, or detached where the queue has shrunk.
use libtbm.SurfaceQueue.Contract.Keeps.{
  push_back-Keeps, Keeps-relabel, Keeps-trace_emit, Keeps-notify_emit, Keeps,
}
use libtbm.SurfaceQueue.Nodes.{push_back, delete_node, release_node, detach}
use libtbm.SurfaceQueue.Transfer.{release_on_queue}
use libtbm.SurfaceQueue.Invariant.{
  IsQueue-set_type, IsQueue-calls, trace_emit-IsQueue, notify_emit-IsQueue, update_self,
  is_empty-append, free_mem, get_node-out, push_back-IsQueue, get_node-dirty, get_node-free,
  node_pos, get_node-none, moved, IsOut, IsQueue, View,
}
use libtbm.SurfaceQueue.State.{
  node_release, signal_free, trace_release, slt32, invalid_surface, dec32, dirty_head, error_none,
  free_head, Queue,
}
use libtbm.Base.{
  true, inr, [], false, inl, ◌==◌, ◌∷◌, ◌++◌, ◌⊎◌, some, ◌≢◌, ◌∈◌, ℕ, ◌≡◌, ◌≤◌, ◌<◌, ◌^◌, arith,
}

module _ {q : Queue} {v : View} (i : IsQueue q v) where
  -- On a queue in order with at most queue_size surfaces attached, and queue_size below 2^31,
  -- releasing a surface whose node is on no list succeeds, puts the node at the end of the free
  -- list, moves nothing else and keeps the queue in order.
  pub release-out :
      {n s : ℕ}
      → IsOut q v n s
      → q.num_attached ≤ q.queue_size
      → q.queue_size < 2 ^ 31
      → (q' : Queue) × (release_on_queue s q ≡ some (error_none, q'))
        × IsQueue q' (moved v free_head (v.at free_head ++ n ∷ []) n free_head)
        × Keeps q q'
  unfolding release_on_queue release_node
  release-out {n} {s} o fits small =
      let r : Queue = push_back free_head n q in
      let pushed = push_back-IsQueue i free_head (free_mem q.impl) n o.known o.out in
      let ne : (n == 0) ≡ false = ground (arith, node_pos i n o.known) in
      let room : slt32 q.queue_size q.num_attached ≡ false = ground arith in
      let full =
        is_empty-append pushed free_head (free_mem r.impl) (v.at free_head) n
          (update_self v.at free_head _) in
      (
        _,
        rw (get_node-out i o, ne, room, full),
        notify_emit-IsQueue q.dequeuable_noti (
            trace_emit-IsQueue q.trace_noti s trace_release
              (IsQueue-calls (signal_free ∷ r.calls) (IsQueue-set_type n node_release pushed))),
        Keeps-notify_emit q.dequeuable_noti (
            Keeps-trace_emit q.trace_noti s trace_release
              (Keeps-relabel n node_release _ (push_back-Keeps free_head n q))),
      )

  -- On a queue in order, releasing a surface that is not attached, is free, or is dirty reports
  -- TBM_SURFACE_QUEUE_ERROR_INVALID_SURFACE and changes nothing.
  pub release_refused :
      (s : ℕ)
      → ((a : ℕ) → a ∈ q.list → (q.nodes a).surface ≢ s)
        ⊎ ((n : ℕ) × ((q.nodes n).surface ≡ s) × ((n ∈ v.at free_head) ⊎ (n ∈ v.at dirty_head)))
      → release_on_queue s q ≡ some (invalid_surface, q)
  unfolding release_on_queue
  release_refused s (inl u) = rw (get_node-none i s u)
  release_refused s (inr (n, e, inl m)) = rw (get_node-free i n s m e) (ground arith)
  release_refused s (inr (n, e, inr m)) = rw (get_node-dirty i n s m e) (ground arith)

  -- Where more surfaces are attached than the queue may hold, the node is deleted instead.
  pub release-over :
      {n s : ℕ}
      → IsOut q v n s
      → q.queue_size < q.num_attached
      → release_on_queue s q
        ≡ some (
          error_none,
          record (delete_node n q) { num_attached = dec32 (delete_node n q).num_attached },
        )
  unfolding release_on_queue detach
  release-over {n} {s} o over =
      let ne : (n == 0) ≡ false = ground (arith, node_pos i n o.known) in
      let room : slt32 q.queue_size q.num_attached ≡ true = ground (arith, i.attached, i.few) in
      rw (get_node-out i o, ne, room)
