-- ===== src/SurfaceQueue/Nodes.antt =====
-- src/tbm_surface_queue.c: the nodes and the three lists that hold them, up to
-- `_tbm_surface_queue_release`. A result `none` stands for a walk that leaves the memory of the
-- queue: `container_of` on the head of another list, or a list that never returns to its head.
use Prim.Native.Nat.{bit_and}
use libtbm.Base.{
  ℕ, zero, suc, ◌+◌, Bool, true, false, not, List, [], ◌∷◌, ◌++◌, Option, none, some, ◌==◌,
  if◌then◌else◌, ◌>>=◌, length, erase,
}
use libtbm.Links.{
  update, set_next, set_prev, list_inithead, list_add, list_addtail, list_del, list_is_empty,
}
use libtbm.SurfaceQueue.State.{
  Node, NodeType, node_none, Queue, Env, call, surface_ref, surface_destroy, call_free, type_code,
  free_head, dirty_head, is_node, inc32, dec32,
}

-- `FREE_QUEUE`, `DIRTY_QUEUE`, `NODE_LIST`
abbrev pub free_queue : ℕ
free_queue = 1

abbrev pub dirty_queue : ℕ
dirty_queue = 2

abbrev pub node_list : ℕ
node_list = 4

abbrev pub set_node : ℕ → Node → Queue → Queue
set_node n v q = record q { nodes = update q.nodes n v }

abbrev pub set_type : ℕ → NodeType → Queue → Queue
set_type n t q = set_node n (record (q.nodes n) { type = t }) q

abbrev pub set_priv : ℕ → ℕ → Queue → Queue
set_priv n v q = set_node n (record (q.nodes n) { priv_flags = v }) q

-- `_queue_node_create`: the zeroed node and its address, NULL if there is no memory.
unfoldable pub node_create : Env → Queue → ℕ × Queue
node_create e q = if e.calloc_node q then (q.next_node, made) else (0, q)
  where
    made : Queue
    made = record q {
      nodes = update q.nodes q.next_node (record { surface = 0; type = node_none; priv_flags = 0 });
      links = set_next q.next_node 0 (set_prev q.next_node 0 q.links);
      next_node = q.next_node + 1;
    }

-- `_queue_node_delete`: both links are deleted, also an `item_link` that is on no list any more.
unfoldable pub node_delete : ℕ → Queue → Queue
node_delete n q = record q { links = list_del n q.links; list = erase n q.list }

-- `_queue_is_empty`
unfoldable pub is_empty : ℕ → Queue → Bool
is_empty head q = list_is_empty head q.links

-- `_queue_node_push_back`
unfoldable pub push_back : ℕ → ℕ → Queue → Queue
push_back head n q = record q {
  links = list_addtail n head q.links;
  count = update q.count head (inc32 (q.count head));
}

-- `_queue_node_push_front`
unfoldable pub push_front : ℕ → ℕ → Queue → Queue
push_front head n q = record q {
  links = list_add n head q.links;
  count = update q.count head (inc32 (q.count head));
}

-- `_queue_node_pop`
unfoldable pub node_pop : ℕ → ℕ → Queue → Queue
node_pop head n q = record q {
  links = list_del n q.links;
  count = update q.count head (dec32 (q.count head));
}

-- `_queue_node_pop_front`
unfoldable pub pop_front : ℕ → Queue → Option (ℕ × Queue)
pop_front head q =
    let n = q.links.next head in if is_node n then some (n, node_pop head n q) else none

-- `LIST_FOR_EACH_ENTRY` over a queue, for the node with this surface; 0 if there is none.
unfoldable pub find_in : Queue → (surface head : ℕ) → ℕ → ℕ → Option ℕ
find_in q surface head zero cur = none
find_in q surface head (suc k) cur = elim (cur == head) [
  | true ↦ some 0
  | false ↦ elim (is_node cur) [
    | false ↦ none
    | true ↦ elim ((q.nodes cur).surface == surface) [
      | true ↦ some cur
      | false ↦ find_in q surface head k (q.links.next cur)
    ]
  ]
]

-- The same over `list`.
unfoldable pub find_attached : Queue → ℕ → List ℕ → ℕ
find_attached q surface [] = 0
find_attached q surface (n ∷ l) =
    if (q.nodes n).surface == surface then n else find_attached q surface l

-- The rounds given to a walk: a well-formed list holds attached nodes only, each once.
abbrev pub rounds : Queue → ℕ
rounds q = suc (length q.list)

abbrev walk : Queue → ℕ → ℕ → Option ℕ
walk q surface head = find_in q surface head (rounds q) (q.links.next head)

-- `_queue_get_node`: the node, NULL if there is none, and `*out_type`.
unfoldable pub get_node : Queue → (type surface : ℕ) → Option (ℕ × ℕ)
get_node q type surface = do
  f ← if bit_and mask free_queue == 0 then some 0 else walk q surface free_head
  if not (f == 0) then some (f, free_queue) else do
    d ← if bit_and mask dirty_queue == 0 then some 0 else walk q surface dirty_head
    if not (d == 0)
        then some (d, dirty_queue)
        else (let n : ℕ =
              if bit_and mask node_list == 0 then 0 else find_attached q surface q.list in
            some (n, if n == 0 then 0 else node_list))
  where
    mask : ℕ
    mask = if type == 0 then 7 else type

-- `_queue_delete_node`
unfoldable pub delete_node : ℕ → Queue → Queue
delete_node n q = node_delete n (if s == 0 then q else call (surface_destroy s) given_back)
  where
    s : ℕ
    s = (q.nodes n).surface

    given_back : Queue
    given_back = if q.free_cb == 0 then q else call (call_free q.free_cb q.alloc_cb_data s) q

-- `_queue_init`
unfoldable pub queue_init : ℕ → Queue → Queue
queue_init head q = record q { links = list_inithead head q.links; count = update q.count head 0 }

-- `_tbm_surface_queue_get_node_count`
unfoldable pub get_node_count : Queue → NodeType → List ℕ → ℕ
get_node_count q t [] = 0
get_node_count q t (n ∷ l) =
    (if type_code (q.nodes n).type == type_code t then 1 else 0) + get_node_count q t l

-- `_tbm_surface_queue_attach`
unfoldable pub attach : Env → ℕ → Queue → Queue
attach e surface q =
    let (n, q') = node_create e q in
    if n == 0
    then q'
    else (let r = call (surface_ref surface) q' in
        let named = set_node n (record (r.nodes n) { surface = surface }) r in
        push_back free_head n
          (record named { list = named.list ++ n ∷ []; num_attached = inc32 named.num_attached }))

-- `_tbm_surface_queue_detach`
unfoldable pub detach : ℕ → Queue → Option Queue
detach surface q = do
  (n, type) ← get_node q 0 surface
  some (
      if n == 0
      then q
      else let d = delete_node n q in record d { num_attached = dec32 d.num_attached })

-- `_tbm_surface_queue_enqueue`
unfoldable pub enqueue_node : ℕ → Bool → Queue → Queue
enqueue_node n back q = if back then push_back dirty_head n q else push_front dirty_head n q

-- `_tbm_surface_queue_acquire`: the node, or NULL.
unfoldable pub acquire_node : Queue → Option (ℕ × Queue)
acquire_node q = if is_empty dirty_head q then some (0, q) else pop_front dirty_head q

-- `_tbm_surface_queue_release`
unfoldable pub release_node : ℕ → Bool → Queue → Queue
release_node n back q = if back then push_back free_head n q else push_front free_head n q
