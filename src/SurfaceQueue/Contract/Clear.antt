-- ===== src/SurfaceQueue/Contract/Clear.antt =====
-- `_tbm_surface_queue_init`, and emptying a queue: `reset`, `flush` and a flushing `set_size`.
use libtbm.SurfaceQueue.Notify.{notify_emit}
use libtbm.SurfaceQueue.Impl.{impl_reset, sequence_init, impl_init}
use libtbm.SurfaceQueue.Nodes.{queue_init, node_delete, delete_node}
use libtbm.SurfaceQueue.State.{
  signal_free, call, Node, surface_destroy, Call, Notify, default_impl, sequence_impl, free_head,
  dirty_head, is_node, Impl, Queue,
}
use libtbm.SurfaceQueue.Invariant.{head_pos, IsQueue, heads, View}
use libtbm.SurfaceQueue.Manage.{queue_of, drop_all, delete_nodes}
use libtbm.Links.{list_inithead}
use libtbm.Base.{◌+◌, ap, ◌≢◌, ◌==◌, ◌∈◌, ◌∷◌, if◌then◌else◌, List, [], ℕ, ◌≡◌, ◌<◌, refl, arith}

-- No node on any list.
abbrev pub nothing : View
nothing = record { at = λ _. []; place = λ a. if is_node a then 0 else a }

-- What deleting nodes does not touch.
record SameShell (q q' : Queue) : Type 0 where
  impl : q'.impl ≡ q.impl
  next_node : q'.next_node ≡ q.next_node
  nodes : q'.nodes ≡ q.nodes
  queue_size : q'.queue_size ≡ q.queue_size
  free_cb : q'.free_cb ≡ q.free_cb
  alloc_cb_data : q'.alloc_cb_data ≡ q.alloc_cb_data

delete_node-SameShell : (n : ℕ) (q : Queue) → SameShell q (delete_node n q)
unfolding delete_node node_delete
delete_node-SameShell n q = ground arith

-- A queue without nodes whose heads point to themselves is in order.
empty-IsQueue :
    (q : Queue)
    → ((h : ℕ) → h ∈ heads q.impl → (q.links.next h ≡ h) × (q.links.prev h ≡ h))
    → 3 < q.next_node
    → IsQueue (record q { list = []; num_attached = 0 }) nothing
empty-IsQueue q loops fresh = record {
  rings = λ h m.
      let above = head_pos q.impl h m in
      record {
        ring = record { seg = loops h m; distinct = (refl, tt) };
        head = ground arith;
        placed = tt;
        known = tt;
      };
  nodes = tt;
  fresh = fresh;
  beyond = λ a le. ground arith;
  distinct = tt;
  attached = refl;
  few = omega arith;
  surfaces = tt;
  unique = λ a b ma mb e. absurd (ground arith);
}

-- The two heads that every queue has, and the third that a sequence queue has.
abbrev two_heads : Queue → Queue
two_heads q = queue_init dirty_head (queue_init free_head q)

-- A new queue of either kind is in order and has no surface.
pub queue_of-IsQueue :
    (queue_size width height format flags : ℕ) (i : Impl)
    → IsQueue (queue_of queue_size width height format flags i) nothing
unfolding queue_of impl_init sequence_init queue_init list_inithead
queue_of-IsQueue queue_size width height format flags default_impl =
    empty-IsQueue (queue_of queue_size width height format flags default_impl) (λ h m. ground arith)
      (omega arith)
queue_of-IsQueue queue_size width height format flags sequence_impl =
    empty-IsQueue (queue_of queue_size width height format flags sequence_impl)
      (λ h m. ground arith) (omega arith)

-- The state in which a queue is left once the callbacks have run.
settled : (l : List Notify) (q : Queue) → Queue
settled l q = notify_emit l (call signal_free (impl_reset (drop_all q)))

-- How often the calls ask for this surface to be destroyed.
abbrev pub destroys : ℕ → List Call → ℕ
destroys s [] = 0
destroys s (surface_destroy t ∷ c) = (if t == s then 1 else 0) + destroys s c
destroys s (x ∷ c) = destroys s c

unfoldable pub named : Queue → ℕ → List ℕ → ℕ
named q s [] = 0
named q s (n ∷ l) = (if (q.nodes n).surface == s then 1 else 0) + named q s l

delete_node-destroys :
    (n s : ℕ) (q : Queue)
    → s ≢ 0
    → destroys s (delete_node n q).calls
      ≡ (if (q.nodes n).surface == s then 1 else 0) + destroys s q.calls
unfolding delete_node node_delete
delete_node-destroys n s q nz = ground arith

named-nodes : (q r : Queue) (s : ℕ) (l : List ℕ) → r.nodes ≡ q.nodes → named r s l ≡ named q s l
unfolding named
named-nodes q r s [] e = refl
named-nodes q r s (n ∷ l) e =
    ground (arith, ap (λ (f : ℕ → Node). (f n).surface) e, named-nodes q r s l e)

pub delete_nodes-destroys :
    (l : List ℕ) (s : ℕ) (q : Queue)
    → s ≢ 0
    → destroys s (delete_nodes l q).calls ≡ named q s l + destroys s q.calls
unfolding delete_nodes named
delete_nodes-destroys [] s q nz = omega arith
delete_nodes-destroys (n ∷ l) s q nz = omega (
  arith,
  delete_nodes-destroys l s (delete_node n q) nz,
  delete_node-destroys n s q nz,
  named-nodes q (delete_node n q) s l (delete_node-SameShell n q).nodes,
)
