-- ===== src/SurfaceQueue/Contract/Growth.antt =====
-- How a default queue gets its surfaces: one at a time, when a dequeue finds nothing free.
use libtbm.SurfaceQueue.Contract.Dequeue.{dequeue-attached}
use libtbm.SurfaceQueue.Transfer.{dequeue_on_queue}
use libtbm.SurfaceQueue.Invariant.{
  update_ne, free_mem, IsOut, update_self, attach-IsQueue, moved, IsQueue-calls, IsQueue, View,
}
use libtbm.SurfaceQueue.Impl.{sequence_need_attach, default_need_attach, need_attach}
use libtbm.SurfaceQueue.Nodes.{push_back, node_create, attach}
use libtbm.SurfaceQueue.State.{
  dirty_head, error_none, default_impl, free_head, call_alloc, surface_ref, create_with_flags,
  surface_unref, inc32, call, Env, Queue,
}
use libtbm.Base.{
  All, sym, subst, some, ap, ◌∙◌, [], ◌∷◌, ◌++◌, inr, inl, length, Bool-cases, ◌==◌, true,
  if◌then◌else◌, ◌∈◌, ℕ, ◌≡◌, ◌≢◌, ◌<◌, ◌^◌, ◌+◌, arith,
}

-- The surface that is asked for: of the user's callback if there is one.
abbrev pub asked : Env → Queue → ℕ
asked e q =
    if q.alloc_cb == 0
    then e.create_surface q.width q.height q.format q.flags q
    else e.alloc_surface q.alloc_cb q.alloc_cb_data q

-- The queue when it has come.
abbrev pub granted : Env → Queue → Queue
granted e q =
    if q.alloc_cb == 0
    then call (create_with_flags q.width q.height q.format q.flags) q
    else call (surface_ref (asked e q)) (call (call_alloc q.alloc_cb q.alloc_cb_data) q)

-- The environment gives a surface that is not attached yet, and memory for its node.
pub record Grants (e : Env) (q : Queue) : Type 0 where
  pub given : asked e q ≢ 0
  pub unused : (a : ℕ) → a ∈ q.list → (q.nodes a).surface ≢ asked e q
  pub memory : e.calloc_node (granted e q) ≡ true
  pub room : length q.list + 1 < 2 ^ 31

need_attach-eq :
    (e : Env) (q : Queue)
    → q.num_attached ≢ q.queue_size
    → asked e q ≢ 0
    → need_attach e q ≡ call (surface_unref (asked e q)) (attach e (asked e q) (granted e q))
unfolding need_attach default_need_attach sequence_need_attach
need_attach-eq e q w g = ground arith

attach-names :
    (e : Env) (s : ℕ) (q : Queue)
    → e.calloc_node q ≡ true
    → 3 < q.next_node
    → (((attach e s q).nodes q.next_node).surface ≡ s)
      × ((attach e s q).num_attached ≡ inc32 q.num_attached)
      × ((attach e s q).queue_size ≡ q.queue_size)
unfolding attach node_create push_back
attach-names e s q got fresh = ground arith

granted-IsQueue : {q : Queue} {v : View} (e : Env) → IsQueue q v → IsQueue (granted e q) v
granted-IsQueue {q} e i = elim (Bool-cases (q.alloc_cb == 0)) [
  | inl a ↦ rw a (IsQueue-calls _ i)
  | inr a ↦ rw a (IsQueue-calls _ i)
]

module _ {q : Queue} {v : View} (i : IsQueue q v) (e : Env) (g : Grants e q)
    (wanted : q.num_attached ≢ q.queue_size) where
  new_node : ℕ
  new_node = (granted e q).next_node

  grown : View
  unfolding new_node
  grown = moved v free_head (v.at free_head ++ new_node ∷ []) new_node free_head

  need_attach-IsQueue : IsQueue (need_attach e q) grown
  unfolding grown new_node
  need_attach-IsQueue = rw (need_attach-eq e q wanted g.given) (
      IsQueue-calls _ (
        attach-IsQueue (granted-IsQueue e i) (asked e q) g.given (ground (arith, g.unused))
          (ground arith) e g.memory))

  grown-free : v.at free_head ≡ [] → grown.at free_head ≡ new_node ∷ []
  unfolding grown new_node
  grown-free c = update_self v.at free_head _ ∙ ap (λ xs. xs ++ (granted e q).next_node ∷ []) c

  need_attach-names :
      (((need_attach e q).nodes new_node).surface ≡ asked e q)
      × ((need_attach e q).num_attached ≡ q.num_attached + 1)
      × ((need_attach e q).queue_size ≡ q.queue_size)
  unfolding new_node
  need_attach-names =
      let names = attach-names e (asked e q) (granted e q) g.memory (ground (arith, i.fresh)) in
      let few = i.few in
      let counted = i.attached in rw (need_attach-eq e q wanted g.given) (ground arith)

  -- On a default queue in order without free surfaces, where not exactly queue_size surfaces are
  -- attached and the environment grants a new one, dequeue hands out that surface, whose node is then
  -- on no list; the queue is in order, the dirty list is as before, the free list is empty, one more
  -- surface is attached, and queue_size is as before.
  pub dequeue_new :
      q.impl ≡ default_impl
      → v.at free_head ≡ []
      → (n : ℕ) × (q' : Queue) × (v' : View) × (dequeue_on_queue e q
          ≡ some (error_none, asked e q, q'))
        × IsQueue q' v'
        × IsOut q' v' n (asked e q)
        × (v'.at free_head ≡ [])
        × (v'.at dirty_head ≡ v.at dirty_head)
        × (q'.num_attached ≡ q.num_attached + 1)
        × (q'.queue_size ≡ q.queue_size)
  unfolding grown
  dequeue_new d c =
      let names = need_attach-names in
      let (q', runs, ok, keeps) = dequeue-attached i e d c need_attach-IsQueue (grown-free c) in
      (
        new_node,
        q',
        moved grown free_head [] new_node 0,
        runs ∙ ap (λ s. some (error_none, s, q')) names.0,
        ok,
        record {
          known =
              subst (λ l. new_node ∈ l) (sym keeps.list)
                (subst (All (λ a. a ∈ (need_attach e q).list)) (grown-free c)
                  (need_attach-IsQueue.rings free_head (free_mem (need_attach e q).impl)).known).0;
          out = update_self grown.place new_node 0;
          names = keeps.names new_node ∙ names.0;
        },
        update_self grown.at free_head [],
        update_ne grown.at free_head dirty_head [] (ground arith)
            ∙ update_ne v.at free_head dirty_head (v.at free_head ++ new_node ∷ []) (ground arith),
        keeps.num_attached ∙ names.1,
        keeps.queue_size ∙ names.2,
      )
