-- ===== src/SurfaceQueue/Impl.antt =====
-- src/tbm_surface_queue.c: `_tbm_surface_queue_dequeue` and the two implementations behind
-- `tbm_surface_queue_interface`; a NULL entry of a table is the general function.
use libtbm.Base.{ℕ, zero, suc, true, false, Option, none, some, ◌==◌, if◌then◌else◌, ◌>>=◌}
use libtbm.SurfaceQueue.State.{
  Queue, Env, default_impl, sequence_impl, call, surface_ref, surface_unref, create_with_flags,
  call_alloc, free_head, dequeue_head, is_node,
}
use libtbm.SurfaceQueue.Nodes.{
  rounds, is_empty, pop_front, node_pop, push_back, attach, queue_init, set_priv, enqueue_node,
}

-- `__tbm_queue_default_need_attach`: at most one new surface, taken from the user's callback if
-- there is one.
unfoldable pub default_need_attach : Env → Queue → Queue
default_need_attach e q =
    if q.queue_size == q.num_attached then q else if q.alloc_cb == 0 then created else allocated
  where
    created : Queue
    created =
        let s = e.create_surface q.width q.height q.format q.flags q in
        let r = call (create_with_flags q.width q.height q.format q.flags) q in
        if s == 0 then r else call (surface_unref s) (attach e s r)

    allocated : Queue
    allocated =
        let s = e.alloc_surface q.alloc_cb q.alloc_cb_data q in
        let r = call (call_alloc q.alloc_cb q.alloc_cb_data) q in
        if s == 0 then r else call (surface_unref s) (attach e s (call (surface_ref s) r))

-- `__tbm_queue_sequence_need_attach`, which has the same text.
unfoldable pub sequence_need_attach : Env → Queue → Queue
sequence_need_attach e q = default_need_attach e q

unfoldable pub need_attach : Env → Queue → Queue
need_attach e q = elim q.impl [
  | default_impl ↦ default_need_attach e q
  | sequence_impl ↦ sequence_need_attach e q
]

-- `_tbm_surface_queue_dequeue`: the node, or NULL.
unfoldable pub dequeue_node : Env → Queue → Option (ℕ × Queue)
dequeue_node e q =
    let q' = if is_empty free_head q then need_attach e q else q in
    if is_empty free_head q' then some (0, q') else pop_front free_head q'

-- The loop of `__tbm_queue_sequence_enqueue`. `next` is read before the body runs, as
-- `LIST_FOR_EACH_ENTRY_SAFE` does.
unfoldable pub flush_sequence : ℕ → (node next : ℕ) → Queue → Option Queue
flush_sequence zero n next q = none
flush_sequence (suc k) n next q = elim (n == dequeue_head) [
  | true ↦ some q
  | false ↦ elim (is_node n) [
    | false ↦ none
    | true ↦ elim ((q.nodes n).priv_flags == 0) [
      | false ↦ some q
      | true ↦
          let q' = enqueue_node n true (node_pop dequeue_head n q) in
          flush_sequence k next (q'.links.next next) q'
    ]
  ]
]

-- `__tbm_queue_sequence_enqueue`
unfoldable pub sequence_enqueue : ℕ → Queue → Option Queue
sequence_enqueue n q =
    let r = set_priv n 0 q in
    let first = r.links.next dequeue_head in flush_sequence (rounds r) first (r.links.next first) r

-- `__tbm_queue_sequence_dequeue`
unfoldable pub sequence_dequeue : Env → Queue → Option (ℕ × Queue)
sequence_dequeue e q = do
  (n, q') ← dequeue_node e q
  some (if n == 0 then (n, q') else (n, set_priv n 1 (push_back dequeue_head n q')))

-- `__tbm_queue_sequence_init`
unfoldable pub sequence_init : Queue → Queue
sequence_init q = queue_init dequeue_head q

-- `__tbm_queue_sequence_reset`
unfoldable pub sequence_reset : Queue → Queue
sequence_reset q = queue_init dequeue_head q

unfoldable pub impl_init : Queue → Queue
impl_init q = elim q.impl [ default_impl ↦ q | sequence_impl ↦ sequence_init q ]

unfoldable pub impl_reset : Queue → Queue
impl_reset q = elim q.impl [ default_impl ↦ q | sequence_impl ↦ sequence_reset q ]

unfoldable pub impl_enqueue : ℕ → Queue → Option Queue
impl_enqueue n q = elim q.impl [
  | default_impl ↦ some (enqueue_node n true q)
  | sequence_impl ↦ sequence_enqueue n q
]

unfoldable pub impl_dequeue : Env → Queue → Option (ℕ × Queue)
impl_dequeue e q = elim q.impl [
  | default_impl ↦ dequeue_node e q
  | sequence_impl ↦ sequence_dequeue e q
]
