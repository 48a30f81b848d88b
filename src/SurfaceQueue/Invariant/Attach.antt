-- ===== src/SurfaceQueue/Invariant/Attach.antt =====
-- `_tbm_surface_queue_attach` on a queue in order: a new node at the end of the free list.
use libtbm.Base.{
  ℕ, ◌+◌, ◌<◌, ◌^◌, ◌≡◌, ◌≢◌, [], ◌∷◌, ◌++◌, ◌∈◌, ◌==◌, arith, All-mono, All-mono_mem, All-append,
  All_of_mem, not-mem_of_All, Distinct-append_one, length, length-append, has-append, true, false,
}
use libtbm.Links.{set_next, set_prev, update}
use libtbm.SurfaceQueue.State.{Queue, Env, node_none, free_head, inc32}
use libtbm.SurfaceQueue.Nodes.{node_create, attach, push_back}
use libtbm.SurfaceQueue.Invariant.Defs.{
  View, Holds-frame, IsQueue, IsQueue-relabel, head_pos, free_mem,
}
use libtbm.SurfaceQueue.Invariant.Moves.{moved, push_back-IsQueue}

-- The queue once the new node is on `list`, before it goes to the free list.
joined : ℕ → Queue → Queue
joined s q = record q {
  nodes = update q.nodes q.next_node (record { surface = s; type = node_none; priv_flags = 0 });
  links = set_next q.next_node 0 (set_prev q.next_node 0 q.links);
  next_node = q.next_node + 1;
  list = q.list ++ q.next_node ∷ [];
  num_attached = inc32 q.num_attached;
}

module _ {q : Queue} {v : View} (i : IsQueue q v) (s : ℕ) where
  below_next : (a : ℕ) → a ∈ q.list → a < q.next_node
  below_next a m = (All_of_mem _ a q.list i.nodes m).1

  module _ (some_surface : s ≢ 0) (unused : (a : ℕ) → a ∈ q.list → (q.nodes a).surface ≢ s)
      (room : length q.list + 1 < 2 ^ 31) where
    joined_unique :
        (a b : ℕ)
        → a ∈ (joined s q).list
        → b ∈ (joined s q).list
        → ((joined s q).nodes a).surface ≡ ((joined s q).nodes b).surface
        → a ≡ b
    unfolding joined
    joined_unique a b ma mb e = ground (
      arith,
      has-append a q.list (q.next_node ∷ []),
      has-append b q.list (q.next_node ∷ []),
      i.unique a b,
      below_next a,
      below_next b,
      unused a,
      unused b,
    )

    joined-IsQueue : IsQueue (joined s q) v
    unfolding joined
    joined-IsQueue = record {
      rings = λ h m.
          Holds-frame _ _ _ (i.rings h m)
            (λ a e.
              let above = head_pos q.impl h m in
              let n : q.next_node ≢ a = λ r. omega (arith, i.beyond a (omega (arith, r))) in
              ((ground arith, ground arith), e))
            (λ a m'. ground (arith, has-append a q.list (q.next_node ∷ [])));
      nodes =
          All-append _ q.list (q.next_node ∷ []) (All-mono _ _ q.list (λ a e. omega arith) i.nodes)
            ((i.fresh, omega arith), tt);
      fresh = omega (arith, i.fresh);
      beyond = λ a le. i.beyond a (omega arith);
      distinct = Distinct-append_one q.list q.next_node i.distinct (
          not-mem_of_All (λ n. (3 < n) × (n < q.next_node)) q.next_node q.list i.nodes
            (λ e. omega arith));
      attached = omega (arith, i.attached, length-append q.list (q.next_node ∷ []));
      few = omega (arith, length-append q.list (q.next_node ∷ []));
      surfaces =
          All-append _ q.list (q.next_node ∷ [])
            (All-mono_mem _ _ q.list (λ a m e. ground (arith, below_next a m)) i.surfaces)
            (ground arith, tt);
      unique = joined_unique;
    }

    next_known : q.next_node ∈ (joined s q).list
    unfolding joined
    next_known = ground (arith, has-append q.next_node q.list (q.next_node ∷ []))

    -- With memory for the node, the surface goes to the end of the free list.
    pub attach-IsQueue :
        (e : Env)
        → e.calloc_node q ≡ true
        → IsQueue
            (attach e s q)
            (moved v free_head (v.at free_head ++ q.next_node ∷ []) q.next_node free_head)
    unfolding attach node_create joined push_back
    attach-IsQueue e got =
        let ne : (q.next_node == 0) ≡ false = ground (arith, i.fresh) in
        rw (got, ne, attach, node_create)
          (IsQueue-relabel _ _ (λ a. ground arith)
            (push_back-IsQueue joined-IsQueue free_head (free_mem q.impl) q.next_node next_known
              (i.beyond q.next_node (omega arith))))
