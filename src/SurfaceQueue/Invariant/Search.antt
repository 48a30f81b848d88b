-- ===== src/SurfaceQueue/Invariant/Search.antt =====
-- `_queue_get_node` on a queue whose links are in order.
use libtbm.Base.{
  ℕ, zero, suc, ◌<◌, ◌≡◌, ◌≢◌, refl, List, [], ◌∷◌, some, ◌∈◌, ◌∉◌, arith, All, All-mono,
  All_of_mem, length, length-le_of_mem, sym, subst, ◌∙◌,
}
use libtbm.Links.Ring.{Seg}
use libtbm.SurfaceQueue.State.{Queue, free_head, dirty_head}
use libtbm.SurfaceQueue.Nodes.{
  find_in, find_attached, get_node, node_list, free_queue, dirty_queue, rounds,
}
use libtbm.SurfaceQueue.Invariant.Defs.{View, IsQueue, IsOut, heads, free_mem, dirty_mem}

find_in-Seg :
    (q : Queue) (s h p : ℕ) (xs : List ℕ) (k : ℕ)
    → Seg q.links p xs h
    → h ∉ xs
    → All (λ n. 3 < n) xs
    → length xs < k
    → find_in q s h k (q.links.next p) ≡ some (find_attached q s xs)
unfolding find_in find_attached
find_in-Seg q s h p xs zero g d n f = absurd (omega arith)
find_in-Seg q s h p [] (suc k) g d n f = ground arith
find_in-Seg q s h p (x ∷ xs) (suc k) g d n f =
    ground (arith, find_in-Seg q s h x xs k g.2 (ground arith) n.1 (omega arith))

pub find_attached-mem :
    (q : Queue) (s n : ℕ) (xs : List ℕ)
    → n ∈ xs
    → (q.nodes n).surface ≡ s
    → ((a : ℕ) → a ∈ xs → (q.nodes a).surface ≡ s → a ≡ n)
    → find_attached q s xs ≡ n
unfolding find_attached
find_attached-mem q s n [] m e u = absurd (ground arith)
find_attached-mem q s n (x ∷ xs) m e u =
    ground (arith, u x, find_attached-mem q s n xs _ e (λ a i. u a (ground arith)))

pub find_attached-none :
    (q : Queue) (s : ℕ) (xs : List ℕ)
    → ((a : ℕ) → a ∈ xs → (q.nodes a).surface ≢ s)
    → find_attached q s xs ≡ 0
unfolding find_attached
find_attached-none q s [] u = refl
find_attached-none q s (x ∷ xs) u =
    ground (arith, u x, find_attached-none q s xs (λ a i. u a (ground arith)))

module _ {q : Queue} {v : View} (i : IsQueue q v) where
  nodes_above : (l : List ℕ) → All (λ n. n ∈ q.list) l → All (λ n. 3 < n) l
  nodes_above l = All-mono _ _ l (λ a m. (All_of_mem _ a q.list i.nodes m).0)

  -- A walk along a list ends within `rounds`.
  find_in-at :
      (s h : ℕ)
      → h ∈ heads q.impl
      → find_in q s h (rounds q) (q.links.next h) ≡ some (find_attached q s (v.at h))
  find_in-at s h m =
      let x = i.rings h m in
      find_in-Seg q s h h (v.at h) _ x.ring.seg x.ring.distinct.0 (nodes_above (v.at h) x.known)
        (omega (arith, length-le_of_mem (v.at h) q.list x.ring.distinct.1 x.known))

  -- A node that is placed elsewhere is not found on a list.
  not_at :
      (n s h : ℕ)
      → h ∈ heads q.impl
      → n ∈ q.list
      → (q.nodes n).surface ≡ s
      → v.place n ≢ h
      → find_attached q s (v.at h) ≡ 0
  not_at n s h m k e p = find_attached-none q s (v.at h) λ a ia ea.
      let x = i.rings h m in
      let same = i.unique a n (All_of_mem _ a (v.at h) x.known ia) k (ea ∙ sym e) in
      p (subst (λ b. v.place b ≡ h) same (All_of_mem _ a (v.at h) x.placed ia))

  found_at :
      (n s h : ℕ)
      → h ∈ heads q.impl
      → n ∈ v.at h
      → (q.nodes n).surface ≡ s
      → find_attached q s (v.at h) ≡ n
  found_at n s h m k e =
      let x = i.rings h m in
      find_attached-mem q s n (v.at h) k e λ a ia ea.
        i.unique a n (All_of_mem _ a (v.at h) x.known ia) (All_of_mem _ n (v.at h) x.known k)
          (ea ∙ sym e)

  pub node_pos : (n : ℕ) → n ∈ q.list → 3 < n
  node_pos n m = (All_of_mem _ n q.list i.nodes m).0

  -- A surface that the user holds is found on `list` alone.
  pub get_node-out : {n s : ℕ} → IsOut q v n s → get_node q 0 s ≡ some (n, node_list)
  unfolding get_node
  get_node-out {n} {s} o = ground (
    arith,
    find_in-at s free_head (free_mem q.impl),
    find_in-at s dirty_head (dirty_mem q.impl),
    not_at n s free_head (free_mem q.impl) o.known o.names (omega (arith, o.out)),
    not_at n s dirty_head (dirty_mem q.impl) o.known o.names (omega (arith, o.out)),
    node_pos n o.known,
    find_attached-mem q s n q.list o.known o.names
        (λ a ia ea. i.unique a n ia o.known (ea ∙ sym o.names)),
  )

  pub get_node-free :
      (n s : ℕ)
      → n ∈ v.at free_head
      → (q.nodes n).surface ≡ s
      → get_node q 0 s ≡ some (n, free_queue)
  unfolding get_node
  get_node-free n s m e = ground (
    arith,
    find_in-at s free_head (free_mem q.impl),
    found_at n s free_head (free_mem q.impl) m e,
    node_pos n (All_of_mem _ n (v.at free_head) (i.rings free_head (free_mem q.impl)).known m),
  )

  pub get_node-dirty :
      (n s : ℕ)
      → n ∈ v.at dirty_head
      → (q.nodes n).surface ≡ s
      → get_node q 0 s ≡ some (n, dirty_queue)
  unfolding get_node
  get_node-dirty n s m e =
      let x = i.rings dirty_head (dirty_mem q.impl) in
      let k = All_of_mem _ n (v.at dirty_head) x.known m in
      let p = All_of_mem _ n (v.at dirty_head) x.placed m in
      ground (
        arith,
        find_in-at s free_head (free_mem q.impl),
        find_in-at s dirty_head (dirty_mem q.impl),
        not_at n s free_head (free_mem q.impl) k e (omega (arith, p)),
        found_at n s dirty_head (dirty_mem q.impl) m e,
        node_pos n k,
      )

  pub get_node-none :
      (s : ℕ) → ((a : ℕ) → a ∈ q.list → (q.nodes a).surface ≢ s) → get_node q 0 s ≡ some (0, 0)
  unfolding get_node
  get_node-none s u = ground (
    arith,
    find_in-at s free_head (free_mem q.impl),
    find_in-at s dirty_head (dirty_mem q.impl),
    find_attached-none q s (v.at free_head) (λ a m.
        u a (All_of_mem _ a (v.at free_head) (i.rings free_head (free_mem q.impl)).known m)),
    find_attached-none q s (v.at dirty_head) (λ a m.
        u a (All_of_mem _ a (v.at dirty_head) (i.rings dirty_head (dirty_mem q.impl)).known m)),
    find_attached-none q s q.list u,
  )
