-- ===== src/SurfaceQueue/Contract/Dequeue.antt =====
-- `tbm_surface_queue_dequeue` on a default queue: the first free surface, or a new one.
use libtbm.SurfaceQueue.Nodes.{node_pop, set_type}
use libtbm.SurfaceQueue.Contract.Keeps.{
  Keeps-relabel, Keeps-trace_emit, Keeps-notify_emit, node_pop-Keeps, Keeps,
}
use libtbm.SurfaceQueue.Notify.{trace_emit, notify_emit}
use libtbm.SurfaceQueue.Transfer.{dequeue_on_queue}
use libtbm.SurfaceQueue.Invariant.{
  node_pop-IsQueue, IsQueue-set_type, trace_emit-IsQueue, notify_emit-IsQueue, node_pos,
  pop_front-cons, free_mem, is_empty-cons, is_empty-nil, moved, IsQueue, View,
}
use libtbm.SurfaceQueue.State.{
  node_dequeue, trace_dequeue, error_none, invalid_queue, Notify, free_head, default_impl, Env,
  Queue,
}
use libtbm.SurfaceQueue.Impl.{
  sequence_need_attach, default_need_attach, need_attach, dequeue_node, impl_dequeue,
}
use libtbm.Base.{All_of_mem, All, subst, ◌∈◌, false, ◌==◌, some, [], ◌∷◌, List, ℕ, ◌≡◌, arith}

pub impl_dequeue-default :
    (e : Env) (q : Queue) → q.impl ≡ default_impl → impl_dequeue e q ≡ dequeue_node e q
unfolding impl_dequeue
impl_dequeue-default e q d = ground arith

need_attach_full : (e : Env) (q : Queue) → q.num_attached ≡ q.queue_size → need_attach e q ≡ q
unfolding need_attach default_need_attach sequence_need_attach
need_attach_full e q full = ground arith

module _ {q : Queue} {v : View} (i : IsQueue q v) where
  -- Handing out the first free node.
  dequeue_popped :
      {n : ℕ} {xs : List ℕ} (o : List Notify) (t : List Notify)
      → v.at free_head ≡ n ∷ xs
      → let s = (q.nodes n).surface in
        let q' =
          notify_emit o
            (trace_emit t s trace_dequeue (set_type n node_dequeue (node_pop free_head n q))) in
        ((n == 0) ≡ false) × ((s == 0) ≡ false) × IsQueue q' (moved v free_head xs n 0) × Keeps q q'
  dequeue_popped {n} {xs} o t c =
      let known : n ∈ q.list =
        (subst (All (λ a. a ∈ q.list)) c (i.rings free_head (free_mem q.impl)).known).0 in
      let some_surface = All_of_mem _ n q.list i.surfaces known in
      (
        ground (arith, node_pos i n known),
        ground arith,
        notify_emit-IsQueue o (
            trace_emit-IsQueue t _ trace_dequeue
              (IsQueue-set_type n node_dequeue (node_pop-IsQueue i free_head (free_mem q.impl) c))),
        Keeps-notify_emit o (
            Keeps-trace_emit t _ trace_dequeue
              (Keeps-relabel n node_dequeue _ (node_pop-Keeps free_head n q))),
      )

module _ {q : Queue} {v : View} (i : IsQueue q v) where
  -- On a default queue in order whose free list is not empty, dequeue succeeds with the surface of
  -- its first node, takes that node off and keeps the queue in order.
  pub dequeue-cons :
      {n : ℕ} {xs : List ℕ} (e : Env)
      → q.impl ≡ default_impl
      → v.at free_head ≡ n ∷ xs
      → (q' : Queue) × (dequeue_on_queue e q ≡ some (error_none, (q.nodes n).surface, q'))
        × IsQueue q' (moved v free_head xs n 0)
        × Keeps q q'
  unfolding dequeue_on_queue dequeue_node
  dequeue-cons {n} {xs} e d c =
      let p = dequeue_popped i q.dequeue_noti q.trace_noti c in
      let se = (node_pop-Keeps free_head n q).names n in
      (
        _,
        rw (
          impl_dequeue-default e q d,
          is_empty-cons i free_head (free_mem q.impl) c,
          is_empty-cons i free_head (free_mem q.impl) c,
          pop_front-cons i free_head (free_mem q.impl) c,
          p.0,
          se,
          p.1,
        ),
        p.2,
        p.3,
      )

  -- On a default queue in order without free surfaces and with exactly queue_size surfaces
  -- attached, dequeue reports TBM_SURFACE_QUEUE_ERROR_INVALID_QUEUE and changes nothing.
  pub dequeue_full :
      (e : Env)
      → q.impl ≡ default_impl
      → v.at free_head ≡ []
      → q.num_attached ≡ q.queue_size
      → dequeue_on_queue e q ≡ some (invalid_queue, 0, q)
  unfolding dequeue_on_queue dequeue_node
  dequeue_full e d c full = rw (
    impl_dequeue-default e q d,
    is_empty-nil i free_head (free_mem q.impl) c,
    need_attach_full e q full,
    is_empty-nil i free_head (free_mem q.impl) c,
  )

  -- Where asking for a surface has filled the free list, its first node is handed out.
  pub dequeue-attached :
      (e : Env) {v' : View} {n : ℕ} {xs : List ℕ}
      → q.impl ≡ default_impl
      → v.at free_head ≡ []
      → IsQueue (need_attach e q) v'
      → v'.at free_head ≡ n ∷ xs
      → (q' : Queue) × (dequeue_on_queue e q
          ≡ some (error_none, ((need_attach e q).nodes n).surface, q'))
        × IsQueue q' (moved v' free_head xs n 0)
        × Keeps (need_attach e q) q'
  unfolding dequeue_on_queue dequeue_node
  dequeue-attached e {v'} {n} d c i' c' =
      let q1 = need_attach e q in
      let p = dequeue_popped i' q.dequeue_noti q.trace_noti c' in
      let se = (node_pop-Keeps free_head n q1).names n in
      (
        _,
        rw (
          impl_dequeue-default e q d,
          is_empty-nil i free_head (free_mem q.impl) c,
          is_empty-cons i' free_head (free_mem q1.impl) c',
          pop_front-cons i' free_head (free_mem q1.impl) c',
          p.0,
          se,
          p.1,
        ),
        p.2,
        p.3,
      )
