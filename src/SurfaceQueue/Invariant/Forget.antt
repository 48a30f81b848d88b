-- ===== src/SurfaceQueue/Invariant/Forget.antt =====
-- A queue in order of which a node that is on no list is detached.
use libtbm.Base.{
  Bool-cases, inl, inr, false, ◌==◌, some, some, ℕ, ◌+◌, ◌≡◌, ◌≢◌, refl, List, ◌∷◌, ◌∈◌, ◌∉◌, arith,
  All-erase, All_of_mem, All-mem-erase, not-mem_of_All, Distinct-erase, length, length-erase,
  mem_of_erase, erase,
}
use libtbm.SurfaceQueue.State.{Queue, Call, dec32, free_head}
use libtbm.SurfaceQueue.Nodes.{detach, delete_node, node_delete, node_pop}
use libtbm.SurfaceQueue.Invariant.Defs.{View, IsQueue, head_pos, free_mem}
use libtbm.SurfaceQueue.Invariant.Moves.{moved, node_pop-IsQueue, update_self}
use libtbm.SurfaceQueue.Invariant.Search.{get_node-free, node_pos}

abbrev pub forget : ℕ → Queue → Queue
forget n q = record q { list = erase n q.list; num_attached = dec32 q.num_attached }

pub forget-IsQueue :
    {q : Queue} {v : View} (n : ℕ)
    → IsQueue q v
    → n ∈ q.list
    → v.place n ≡ 0
    → IsQueue (forget n q) v
forget-IsQueue {q} {v} n i k z =
    let len = length-erase n q.list k in
    record {
      rings = λ h m.
          let x = i.rings h m in
          let above = head_pos q.impl h m in
          let out : n ∉ v.at h = not-mem_of_All _ n (v.at h) x.placed (λ e. omega (arith, e, z)) in
          record {
            ring = x.ring;
            head = x.head;
            placed = x.placed;
            known = All-mem-erase n (v.at h) q.list out x.known;
          };
      nodes = All-erase _ n q.list i.nodes;
      fresh = i.fresh;
      beyond = i.beyond;
      distinct = Distinct-erase n q.list i.distinct;
      attached = omega (arith, i.attached, i.few);
      few = omega (arith, i.few);
      surfaces = All-erase _ n q.list i.surfaces;
      unique = λ a b x y e. i.unique a b (mem_of_erase a n q.list x) (mem_of_erase b n q.list y) e;
    }

-- Neither the counts of the lists nor queue_size matter.
pub IsQueue-count :
    {q : Queue} {v : View} (queue_size : ℕ) (count : ℕ → ℕ) (calls : List Call)
    → IsQueue q v
    → IsQueue (record q { queue_size = queue_size; count = count; calls = calls }) v
IsQueue-count queue_size count calls i = record {
  rings = i.rings;
  nodes = i.nodes;
  fresh = i.fresh;
  beyond = i.beyond;
  distinct = i.distinct;
  attached = i.attached;
  few = i.few;
  surfaces = i.surfaces;
  unique = i.unique;
}

-- Detaching the surface of the first free node leaves the rest of the free list.
pub detach-first :
    {q : Queue} {v : View} {n : ℕ} {xs : List ℕ}
    → IsQueue q v
    → v.at free_head ≡ n ∷ xs
    → (q' : Queue) × (detach (q.nodes n).surface q ≡ some q')
      × IsQueue q' (moved v free_head xs n 0)
      × (q'.num_attached + 1 ≡ q.num_attached)
      × (q'.queue_size ≡ q.queue_size)
      × (length q'.list + 1 ≡ length q.list)
unfolding detach delete_node node_delete node_pop
detach-first {q} {v} {n} {xs} i c =
    let x = i.rings free_head (free_mem q.impl) in
    let k : n ∈ q.list = All_of_mem _ n (v.at free_head) x.known (rw c (ground arith)) in
    let f = get_node-free i n (q.nodes n).surface (rw c (ground arith)) refl in
    let ne : (n == 0) ≡ false = ground (arith, node_pos i n k) in
    let s : ((q.nodes n).surface == 0) ≡ false =
      ground (arith, All_of_mem (λ a. (q.nodes a).surface ≢ 0) n q.list i.surfaces k) in
    let popped = node_pop-IsQueue i free_head (free_mem q.impl) c in
    let gone = forget-IsQueue n popped k (update_self v.place n 0) in
    let len = length-erase n q.list k in
    elim (Bool-cases (q.free_cb == 0)) [
      | inl b ↦
          rw (f, ne, s, b)
            (
              _,
              refl,
              IsQueue-count q.queue_size q.count _ gone,
              omega (arith, i.attached, i.few),
              refl,
              len,
            )
      | inr b ↦
          rw (f, ne, s, b)
            (
              _,
              refl,
              IsQueue-count q.queue_size q.count _ gone,
              omega (arith, i.attached, i.few),
              refl,
              len,
            )
    ]
