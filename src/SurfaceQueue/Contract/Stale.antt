-- ===== src/SurfaceQueue/Contract/Stale.antt =====
-- A node's `item_link` after the node has left its list. It still points to its old neighbours, and
-- `_queue_node_delete` deletes it once more.
use libtbm.SurfaceQueue.Contract.Keeps.{
  Keeps-refl, Keeps-trace_emit, Keeps-notify_emit, trace_emit-links, notify_emit-links,
}
use libtbm.Links.Ring.{Ring}
use libtbm.SurfaceQueue.Contract.Dequeue.{impl_dequeue-default}
use libtbm.SurfaceQueue.Notify.{trace_emit, notify_emit}
use libtbm.SurfaceQueue.Impl.{dequeue_node}
use libtbm.SurfaceQueue.Contract.Release.{release-over}
use libtbm.Links.{Links, list_is_empty, list_del}
use libtbm.SurfaceQueue.Transfer.{acquire_on_queue, dequeue_on_queue, release_on_queue}
use libtbm.SurfaceQueue.Nodes.{
  acquire_node, set_type, node_pop, pop_front, is_empty, node_delete, delete_node,
}
use libtbm.SurfaceQueue.Invariant.{dirty_mem, Holds, node_pos, IsOut, IsQueue, View}
use libtbm.SurfaceQueue.State.{
  node_acquire, trace_acquire, Node, is_node, node_dequeue, trace_dequeue, error_none, dec32, Env,
  dirty_head, free_head, default_impl, Queue,
}
use libtbm.Base.{
  sym, ◌∙◌, ap, All_of_mem, subst, true, false, ◌==◌, ◌≢◌, ◌∷◌, List, some, ℕ, ◌≡◌, ◌<◌, refl,
  arith,
}

delete_node-parts :
    (n : ℕ) (q : Queue)
    → ((delete_node n q).links ≡ list_del n q.links)
      × ((delete_node n q).impl ≡ q.impl)
      × ((delete_node n q).nodes ≡ q.nodes)
unfolding delete_node node_delete
delete_node-parts n q = ground arith

-- `list_del` of a node that follows `p` and precedes `b`, by its own pointers.
pub list_del-at :
    (m : Links) (n p b : ℕ)
    → m.prev n ≡ p
    → m.next n ≡ b
    → n ≢ p
    → ((list_del n m).next p ≡ b)
      × ((list_del n m).prev b ≡ p)
      × ((a : ℕ) → p ≢ a → (list_del n m).next a ≡ m.next a)
unfolding list_del
list_del-at m n p b e f d = (ground arith, ground arith, λ a g. ground arith)

-- The walk-free part of a dequeue and of an acquire: what the head points to is handed out.
pub dequeue_head_lem :
    (e : Env) (q : Queue) (b : ℕ)
    → q.impl ≡ default_impl
    → q.links.next free_head ≡ b
    → 3 < b
    → (q.nodes b).surface ≢ 0
    → dequeue_on_queue e q
      ≡ some (
        error_none,
        (q.nodes b).surface,
        notify_emit q.dequeue_noti (
            trace_emit q.trace_noti
              (q.nodes b).surface
              trace_dequeue
              (set_type b node_dequeue (node_pop free_head b q))),
      )
unfolding dequeue_on_queue dequeue_node is_empty list_is_empty pop_front node_pop
dequeue_head_lem e q b d first above nz =
    let filled : (b == free_head) ≡ false = ground arith in
    let node : is_node b ≡ true = ground arith in
    let ne : (b == 0) ≡ false = ground arith in
    let nz' : ((q.nodes b).surface == 0) ≡ false = ground arith in
    rw (impl_dequeue-default e q d, first, filled, first, filled, node, ne, nz')

acquire_head_lem :
    (q : Queue) (b : ℕ)
    → q.links.next dirty_head ≡ b
    → 3 < b
    → (q.nodes b).surface ≢ 0
    → (q' : Queue) × (acquire_on_queue false q ≡ some (error_none, (q.nodes b).surface, q'))
unfolding acquire_on_queue acquire_node is_empty list_is_empty pop_front node_pop
acquire_head_lem q b first above nz =
    let filled : (b == dirty_head) ≡ false = ground arith in
    let node : is_node b ≡ true = ground arith in
    let ne : (b == 0) ≡ false = ground arith in
    let nz' : ((q.nodes b).surface == 0) ≡ false = ground arith in
    (
      trace_emit q.trace_noti (q.nodes b).surface trace_acquire
          (set_type b node_acquire (node_pop dirty_head b q)),
      rw (first, filled, node, ne, nz'),
    )

module _ {q : Queue} {v : View} (i : IsQueue q v) {n s b : ℕ} {xs : List ℕ} (o : IsOut q v n s)
    (over : q.queue_size < q.num_attached) (d : q.impl ≡ default_impl)
    (after_head : q.links.prev n ≡ free_head) (before : q.links.next n ≡ b)
    (waits : v.at dirty_head ≡ b ∷ xs) where
  detached : Queue
  detached = record (delete_node n q) { num_attached = dec32 (delete_node n q).num_attached }

  b_above : (3 < b) × ((q.nodes b).surface ≢ 0)
  b_above =
      let x =
        subst (Holds q.links q.list v.place dirty_head) waits
          (i.rings dirty_head (dirty_mem q.impl)) in
      (node_pos i b x.known.0, All_of_mem _ b q.list i.surfaces x.known.0)

  dirty_first : q.links.next dirty_head ≡ b
  dirty_first =
      (subst (Ring q.links dirty_head) waits (i.rings dirty_head (dirty_mem q.impl)).ring).seg.0

  record Crossed (r : Queue) : Type 0 where
    free_first : r.links.next free_head ≡ b
    free_back : r.links.prev b ≡ free_head
    dirty_too : r.links.next dirty_head ≡ b
    impl : r.impl ≡ default_impl
    nodes : r.nodes ≡ q.nodes

  detached-Crossed : Crossed detached
  unfolding detached
  detached-Crossed =
      let p = delete_node-parts n q in
      let above = node_pos i n o.known in
      let l = list_del-at q.links n free_head b after_head before (λ e. omega arith) in
      record {
        free_first = ap (λ m. m.next free_head) p.0 ∙ l.0;
        free_back = ap (λ m. m.prev b) p.0 ∙ l.1;
        dirty_too = ap (λ m. m.next dirty_head) p.0 ∙ (l.2 dirty_head (ground arith) ∙ dirty_first);
        impl = p.1 ∙ d;
        nodes = p.2;
      }

  -- Once the free list leads to `b` as well, the next dequeue hands out its surface, and the next
  -- acquire hands it out again.
  Crossed-twice :
      (e : Env) (r : Queue)
      → Crossed r
      → (q1 q2 : Queue) × (dequeue_on_queue e r ≡ some (error_none, (q.nodes b).surface, q1))
        × (acquire_on_queue false q1 ≡ some (error_none, (q.nodes b).surface, q2))
  unfolding node_pop
  Crossed-twice e r c =
      let same : (r.nodes b).surface ≡ (q.nodes b).surface =
        ap (λ (f : ℕ → Node). (f b).surface) c.nodes in
      let nz : (r.nodes b).surface ≢ 0 = λ z. b_above.1 (sym same ∙ z) in
      let s1 = (r.nodes b).surface in
      let q0 = set_type b node_dequeue (node_pop free_head b r) in
      let q1 = notify_emit r.dequeue_noti (trace_emit r.trace_noti s1 trace_dequeue q0) in
      let l =
        list_del-at r.links b free_head (r.links.next b) c.free_back refl
          (λ z. omega (arith, b_above.0)) in
      let links : q1.links ≡ list_del b r.links =
        notify_emit-links r.dequeue_noti _ ∙ trace_emit-links r.trace_noti s1 trace_dequeue q0 in
      let k =
        Keeps-notify_emit r.dequeue_noti
          (Keeps-trace_emit r.trace_noti s1 trace_dequeue (Keeps-refl q0)) in
      let named : (q1.nodes b).surface ≡ s1 = k.names b ∙ ground arith in
      let again =
        acquire_head_lem q1 b
          (ap (λ m. m.next dirty_head) links ∙ (l.2 dirty_head (ground arith) ∙ c.dirty_too))
          b_above.0 (λ z. nz (sym named ∙ z)) in
      (
        q1,
        again.0,
        dequeue_head_lem e r b c.impl c.free_first b_above.0 nz
            ∙ ap (λ t. some (error_none, t, q1)) same,
        again.1 ∙ ap (λ t. some (error_none, t, again.0)) (named ∙ same),
      )

  -- On a default queue in order with more than queue_size surfaces attached, let the node of a
  -- surface that the user holds still point back to the head of the free list and on to a node that
  -- is first on the dirty list. Then releasing the surface succeeds, and the next dequeue and the
  -- acquire after it both hand out the surface of that dirty node.
  pub release_over_crosses :
      (e : Env)
      → (q0 q1 q2 : Queue) × (release_on_queue s q ≡ some (error_none, q0))
        × (dequeue_on_queue e q0 ≡ some (error_none, (q.nodes b).surface, q1))
        × (acquire_on_queue false q1 ≡ some (error_none, (q.nodes b).surface, q2))
  unfolding detached
  release_over_crosses e =
      let (q1, q2, first, second) = Crossed-twice e detached detached-Crossed in
      (detached, q1, q2, release-over i o over, first, second)
