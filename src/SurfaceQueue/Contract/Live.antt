-- ===== src/SurfaceQueue/Contract/Live.antt =====
-- Deleting the nodes of a queue one after the other: what the pointers of each lead to.
use libtbm.Base.{
  ap, true, false, ℕ, ◌==◌, ◌≡◌, refl, sym, ◌∙◌, subst, ◌⊎◌, inl, inr, List, [], ◌∷◌, ◌++◌, ◌∈◌,
  All, All_of_mem, Distinct, ℕ_discrete, erase, mem_of_erase, not-mem-erase, has-append, length,
  arith,
}
use libtbm.Links.{list_del}
use libtbm.Links.Ring.{prev-mem_append, next-mem_append}
use libtbm.SurfaceQueue.State.{Queue}
use libtbm.SurfaceQueue.Nodes.{delete_node, node_delete, node_pop}
use libtbm.SurfaceQueue.Invariant.{
  View, IsQueue, Holds, heads, moved, forget-IsQueue, node_pop_mid-IsQueue, update_self, update_ne,
}

-- The memory at `a` is a head, or the link of a node that is attached and so was not freed. NULL is
-- neither.
abbrev pub IsLive : Queue → ℕ → Type 0
IsLive q a = (a ∈ heads q.impl) ⊎ (a ∈ q.list)

-- `_queue_delete_node` of these nodes in turn: when the item_link of each is deleted, both its
-- pointers lead to memory that is live then.
abbrev pub DeletesLive : List ℕ → Queue → Type 0
DeletesLive [] q = Unit
DeletesLive (n ∷ l) q =
    IsLive q (q.links.prev n) × IsLive q (q.links.next n) × DeletesLive l (delete_node n q)

-- Every attached node is on a list: the user holds no surface.
abbrev pub NoneHeld : Queue → View → Type 0
NoneHeld q v = (n : ℕ) → n ∈ q.list → (h : ℕ) × (h ∈ heads q.impl) × (n ∈ v.at h)

-- A queue in order but for `num_attached`, which the deletion of nodes does not lower.
abbrev counted : Queue → Queue
counted q = record q { num_attached = length q.list }

pub IsQueue-attached :
    {q : Queue} {v : View} (r : Queue)
    → r.links ≡ q.links
    → r.list ≡ q.list
    → r.nodes ≡ q.nodes
    → r.next_node ≡ q.next_node
    → r.impl ≡ q.impl
    → r.num_attached ≡ length r.list
    → IsQueue q v
    → IsQueue r v
IsQueue-attached {q} {v} r k l d x p num i = record {
  rings =
      subst (λ z. (h : ℕ) → h ∈ heads z → Holds r.links r.list v.place h (v.at h)) (sym p)
        (subst (λ z. (h : ℕ) → h ∈ heads q.impl → Holds z r.list v.place h (v.at h)) (sym k)
          (subst (λ z. (h : ℕ) → h ∈ heads q.impl → Holds q.links z v.place h (v.at h)) (sym l)
            i.rings));
  nodes = rw (l, x) i.nodes;
  fresh = rw x i.fresh;
  beyond = rw x i.beyond;
  distinct = rw l i.distinct;
  attached = num;
  few = rw l i.few;
  surfaces = rw (l, d) i.surfaces;
  unique = rw (l, d) i.unique;
}

split : (n : ℕ) (l : List ℕ) → n ∈ l → (ys : List ℕ) × (zs : List ℕ) × (l ≡ ys ++ n ∷ zs)
split n [] m = absurd (ground arith)
split n (x ∷ l) m = elim (ℕ_discrete x n) [
  | yes e ↦ ([], l, subst (λ a. x ∷ l ≡ a ∷ l) e refl)
  | no d ↦
      let (ys, zs, e) = split n l (ground arith) in (x ∷ ys, zs, subst (λ k. x ∷ l ≡ x ∷ k) e refl)
]

-- What `_queue_delete_node` changes.
pub record Deleted (n : ℕ) (q r : Queue) : Type 0 where
  pub links : r.links ≡ list_del n q.links
  pub list : r.list ≡ erase n q.list
  pub nodes : r.nodes ≡ q.nodes
  pub next_node : r.next_node ≡ q.next_node
  pub impl : r.impl ≡ q.impl

pub delete_node-Deleted : (n : ℕ) (q : Queue) → Deleted n q (delete_node n q)
unfolding delete_node node_delete
delete_node-Deleted n q = ground arith

delete_node-IsQueue :
    (q : Queue) {v : View} (n h : ℕ) (ys zs : List ℕ)
    → IsQueue (counted q) v
    → h ∈ heads q.impl
    → n ∈ q.list
    → v.at h ≡ ys ++ n ∷ zs
    → IsQueue (counted (delete_node n q)) (moved v h (ys ++ zs) n 0)
unfolding node_pop
delete_node-IsQueue q {v} n h ys zs i m k c =
    let d = delete_node-Deleted n q in
    let popped = node_pop_mid-IsQueue i h m n ys zs c in
    let gone = forget-IsQueue n popped k (update_self v.place n 0) in
    IsQueue-attached (counted (delete_node n q)) d.links d.list d.nodes d.next_node d.impl refl gone

live :
    (q : Queue) (h a : ℕ) (l : List ℕ)
    → h ∈ heads q.impl
    → All (λ n. n ∈ q.list) l
    → a ∈ (h ∷ l)
    → IsLive q a
live q h a l m known k = elim (ℕ_discrete h a) [
  | yes e ↦ inl (subst (λ x. x ∈ heads q.impl) e m)
  | no d ↦ inr (All_of_mem _ a l known (ground arith))
]

All-left : (P : ℕ → Type 0) (ys zs : List ℕ) → All P (ys ++ zs) → All P ys × All P zs
All-left P [] zs h = (tt, h)
All-left P (y ∷ ys) zs h = let r = All-left P ys zs h.1 in ((h.0, r.0), r.1)

NoneHeld-next :
    (q : Queue) (v : View) (n h : ℕ) (ys zs : List ℕ)
    → Distinct q.list
    → v.at h ≡ ys ++ n ∷ zs
    → NoneHeld q v
    → NoneHeld (delete_node n q) (moved v h (ys ++ zs) n 0)
NoneHeld-next q v n h ys zs d c held a k =
    let e = delete_node-Deleted n q in
    let k1 : a ∈ erase n q.list = subst (λ l. a ∈ l) e.list k in
    let (h', m, on) = held a (mem_of_erase a n q.list k1) in
    let gone = not-mem-erase n q.list d in
    let apart : (n == a) ≡ false = elim (ℕ_discrete n a) [
      | yes same ↦ absurd (ground (arith, subst (λ x. x ∈ erase n q.list) (sym same) k1, gone))
      | no ne ↦ ground arith
    ] in
    elim (ℕ_discrete h h') [
      | yes same ↦
          let on1 : a ∈ (ys ++ n ∷ zs) = subst (λ l. a ∈ l) (ap v.at (sym same) ∙ c) on in
          (
            h,
            subst (λ i. h ∈ heads i) (sym e.impl) (subst (λ x. x ∈ heads q.impl) (sym same) m),
            subst (λ l. a ∈ l) (sym (update_self v.at h (ys ++ zs)))
                (ground (arith, has-append a ys (n ∷ zs), has-append a ys zs)),
          )
      | no ne ↦ (
        h',
        subst (λ i. h' ∈ heads i) (sym e.impl) m,
        subst (λ l. a ∈ l) (sym (update_ne v.at h h' (ys ++ zs) ne)) on,
      )
    ]

deletes_live :
    (l : List ℕ) (q : Queue) {v : View}
    → q.list ≡ l
    → IsQueue (counted q) v
    → NoneHeld q v
    → DeletesLive l q
deletes_live [] q e i held = tt
deletes_live (n ∷ l) q {v} e i held =
    let k : n ∈ q.list = rw e (ground arith) in
    let (h, m, on) = held n k in
    let (ys, zs, c) = split n (v.at h) on in
    let x = subst (Holds q.links q.list v.place h) c (i.rings h m) in
    let (before, after) = All-left (λ a. a ∈ q.list) ys (n ∷ zs) x.known in
    let d = delete_node-Deleted n q in
    let same : (n == n) ≡ true = ground arith in
    (
      live q h (q.links.prev n) ys m before (prev-mem_append q.links h ys n zs h x.ring.seg),
      live q h (q.links.next n) zs m after.1 (next-mem_append q.links h ys n zs h x.ring.seg),
      deletes_live l (delete_node n q) (d.list ∙ rw (e, same) refl)
          (delete_node-IsQueue q n h ys zs i m k c) (NoneHeld-next q v n h ys zs i.distinct c held),
    )

-- On a queue in order of which the user holds no surface, the nodes are deleted in live memory.
pub delete_nodes-DeletesLive :
    {q : Queue} {v : View} → IsQueue q v → NoneHeld q v → DeletesLive q.list q
delete_nodes-DeletesLive {q} i held =
    deletes_live q.list q refl (IsQueue-attached (counted q) refl refl refl refl refl refl i) held
