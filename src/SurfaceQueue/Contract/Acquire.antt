-- ===== src/SurfaceQueue/Contract/Acquire.antt =====
-- `tbm_surface_queue_acquire`, and acquiring until nothing is left.
use libtbm.SurfaceQueue.Notify.{trace_emit}
use libtbm.Base.{
  All, ℕ, ◌≡◌, subst, List, [], ◌∷◌, ◌==◌, arith, Bool, true, false, if◌then◌else◌, some, ◌∈◌,
  All_of_mem,
}
use libtbm.SurfaceQueue.State.{
  call, Queue, error_none, invalid_queue, node_acquire, trace_acquire, dump_buffer, dirty_head,
}
use libtbm.SurfaceQueue.Nodes.{set_type, acquire_node, node_pop}
use libtbm.SurfaceQueue.Transfer.{acquire_on_queue}
use libtbm.SurfaceQueue.Invariant.{
  IsQueue-set_type, IsQueue-calls, View, IsQueue, moved, dirty_mem, node_pop-IsQueue,
  trace_emit-IsQueue, node_pos, is_empty-nil, is_empty-cons, pop_front-cons,
}
use libtbm.SurfaceQueue.Contract.Keeps.{
  Keeps-calls, Keeps-trans, Keeps, Keeps-relabel, node_pop-Keeps, Keeps-trace_emit,
}

dump-IsQueue :
    {q : Queue} {v : View} (dump : Bool) (s : ℕ)
    → IsQueue q v
    → IsQueue (if dump then call (dump_buffer s) q else q) v
dump-IsQueue true s i = IsQueue-calls _ i
dump-IsQueue false s i = i

dump-Keeps :
    {q r : Queue} (dump : Bool) (s : ℕ)
    → Keeps q r
    → Keeps q (if dump then call (dump_buffer s) r else r)
dump-Keeps {r} true s k = Keeps-trans k (Keeps-calls r _)
dump-Keeps false s k = k

module _ {q : Queue} {v : View} (i : IsQueue q v) where
  -- On a queue in order whose dirty list is not empty, acquire succeeds with the surface of its
  -- first node, takes that node off and keeps the queue in order.
  pub acquire-cons :
      {n : ℕ} {xs : List ℕ} (dump : Bool)
      → v.at dirty_head ≡ n ∷ xs
      → (q' : Queue) × (acquire_on_queue dump q ≡ some (error_none, (q.nodes n).surface, q'))
        × IsQueue q' (moved v dirty_head xs n 0)
        × Keeps q q'
  unfolding acquire_on_queue acquire_node
  acquire-cons {n} {xs} dump c =
      let x = i.rings dirty_head (dirty_mem q.impl) in
      let known : n ∈ q.list = (subst (All (λ a. a ∈ q.list)) c x.known).0 in
      let ne : (n == 0) ≡ false = ground (arith, node_pos i n known) in
      let some_surface = All_of_mem _ n q.list i.surfaces known in
      let popped = node_pop-Keeps dirty_head n q in
      let se : ((node_pop dirty_head n q).nodes n).surface ≡ (q.nodes n).surface = popped.names n in
      let s = (q.nodes n).surface in
      let nz : (s == 0) ≡ false = ground arith in
      let r : Queue = set_type n node_acquire (node_pop dirty_head n q) in
      (
        trace_emit q.trace_noti s trace_acquire (if dump then call (dump_buffer s) r else r),
        rw (
          is_empty-cons i dirty_head (dirty_mem q.impl) c,
          pop_front-cons i dirty_head (dirty_mem q.impl) c,
          ne,
          se,
          nz,
        ),
        trace_emit-IsQueue q.trace_noti s trace_acquire (
            dump-IsQueue dump s (
              IsQueue-set_type n node_acquire
                (node_pop-IsQueue i dirty_head (dirty_mem q.impl) c))),
        Keeps-trace_emit q.trace_noti s trace_acquire
            (dump-Keeps dump s (Keeps-relabel n node_acquire _ popped)),
      )

  -- With nothing to acquire the call fails, and the queue stays as it was.
  pub acquire-nil :
      (dump : Bool) → v.at dirty_head ≡ [] → acquire_on_queue dump q ≡ some (invalid_queue, 0, q)
  unfolding acquire_on_queue acquire_node
  acquire-nil dump c = rw (is_empty-nil i dirty_head (dirty_mem q.impl) c)
