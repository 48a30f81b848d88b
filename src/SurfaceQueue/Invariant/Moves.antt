-- ===== src/SurfaceQueue/Invariant/Moves.antt =====
-- Putting a node at the end of a list and taking the first one off, on a queue in order.
use libtbm.Base.{
  ℕ, ◌<◌, ◌≡◌, ◌≢◌, sym, ap, subst, List, [], ◌∷◌, ◌++◌, ◌∈◌, ◌∉◌, arith, All, All-mono, All-append,
  All_of_mem, not-mem_of_All, has-append, Distinct, ℕ_discrete, some, true, false, ◌∙◌,
}
use libtbm.Links.{Links, update}
use libtbm.Links.Ring.{
  Ring, Same, list_addtail-Ring, list_addtail-Same, list_del-Ring, list_del-Same,
  list_is_empty-cons, list_is_empty-nil,
}
use libtbm.SurfaceQueue.State.{Queue}
use libtbm.SurfaceQueue.Nodes.{push_back, node_pop, pop_front, is_empty}
use libtbm.SurfaceQueue.Invariant.Defs.{View, Holds, Holds-frame, IsQueue, heads, head_pos}

-- The list of `h` becomes `xs`, and `n` is now placed at `p`.
abbrev pub moved : View → (h : ℕ) → List ℕ → (n p : ℕ) → View
moved v h xs n p = record { at = update v.at h xs; place = update v.place n p }

pub update_self {ℓ} : {A : Type ℓ} (f : ℕ → A) (p : ℕ) (x : A) → update f p x p ≡ x
update_self f p x = ground arith

pub update_ne {ℓ} : {A : Type ℓ} (f : ℕ → A) (p q : ℕ) (x : A) → p ≢ q → update f p x q ≡ f q
update_ne f p q x h = ground arith

-- Lists other than the one that changes.
pub rings_moved :
    {m m' : Links} {l : List ℕ} {v : View} (hs : List ℕ) (h n p : ℕ) (xs : List ℕ)
    → ((h' : ℕ) → h' ∈ hs → Holds m l v.place h' (v.at h'))
    → Holds m' l (update v.place n p) h xs
    → ((h' a : ℕ) → h' ∈ hs → h ≢ h' → v.place a ≡ h' → Same m m' a × (n ≢ a))
    → (h' : ℕ) → h' ∈ hs
    → Holds m' l (moved v h xs n p).place h' ((moved v h xs n p).at h')
rings_moved {m} {m'} {l} {v} hs h n p xs old new apart h' mem = elim (ℕ_discrete h h') [
  | yes e ↦
      subst (λ k. Holds m' l (update v.place n p) k (update v.at h xs k)) e
        (subst (Holds m' l (update v.place n p) h) (sym (update_self v.at h xs)) new)
  | no d ↦ subst (Holds m' l (update v.place n p) h') (sym (update_ne v.at h h' xs d)) (
      Holds-frame m' l _ (old h' mem)
        (λ a e. let s = apart h' a mem d e in (s.0, update_ne v.place n a p s.1 ∙ e)) (λ a k. k))
]

All-without {κ} :
    (P : ℕ → Type κ) (ys : List ℕ) (x : ℕ) (zs : List ℕ) → All P (ys ++ x ∷ zs) → All P (ys ++ zs)
All-without P [] x zs h = h.1
All-without P (y ∷ ys) x zs h = (h.0, All-without P ys x zs h.1)

not-mem_without : (ys : List ℕ) (x : ℕ) (zs : List ℕ) → Distinct (ys ++ x ∷ zs) → x ∉ (ys ++ zs)
not-mem_without [] x zs d = d.0
not-mem_without (y ∷ ys) x zs d =
    ground (arith, has-append y ys (x ∷ zs), not-mem_without ys x zs d.1)

module _ {q : Queue} {v : View} (i : IsQueue q v) (h : ℕ) (m : h ∈ heads q.impl) where
  below : (n : ℕ) → n ∈ q.list → n < q.next_node
  below n k = (All_of_mem _ n q.list i.nodes k).1

  node_above : (n : ℕ) → n ∈ q.list → 3 < n
  node_above n k = (All_of_mem _ n q.list i.nodes k).0

  push_back-Holds :
      (n : ℕ)
      → n ∈ q.list
      → v.place n ≡ 0
      → Holds (push_back h n q).links q.list (update v.place n h) h (v.at h ++ n ∷ [])
  unfolding push_back
  push_back-Holds n k z =
      let x = i.rings h m in
      let above = head_pos q.impl h m in
      let out : n ∉ v.at h = not-mem_of_All _ n (v.at h) x.placed (λ e. omega arith) in
      let same : h ≢ n = λ e. omega (arith, x.head, z, ap v.place e) in
      record {
        ring = list_addtail-Ring n x.ring (ground arith);
        head = update_ne v.place n h h (λ e. same (sym e)) ∙ x.head;
        placed =
            All-append _ (v.at h) (n ∷ []) (All-mono _ _ (v.at h) (λ a e. ground arith) x.placed)
              (update_self v.place n h, tt);
        known = All-append _ (v.at h) (n ∷ []) x.known (k, tt);
      }

  pub push_back-IsQueue :
      (n : ℕ)
      → n ∈ q.list
      → v.place n ≡ 0
      → IsQueue (push_back h n q) (moved v h (v.at h ++ n ∷ []) n h)
  unfolding push_back
  push_back-IsQueue n k z =
      let x = i.rings h m in
      record {
        rings = rings_moved (heads q.impl) h n h _ i.rings (push_back-Holds n k z) λ h' a m' d e.
            let above = head_pos q.impl h' m' in
            let n_ne : n ≢ a = λ r. omega (arith, ap v.place r) in
            let h_ne : h ≢ a = λ r. d (sym x.head ∙ (ap v.place r ∙ e)) in
            let out : a ∉ v.at h = not-mem_of_All _ a (v.at h) x.placed (λ r. d (sym r ∙ e)) in
            (list_addtail-Same n x.ring a (ground arith), n_ne);
        nodes = i.nodes;
        fresh = i.fresh;
        beyond = λ a le. update_ne v.place n a h (λ e. omega (arith, below n k)) ∙ i.beyond a le;
        distinct = i.distinct;
        attached = i.attached;
        few = i.few;
        surfaces = i.surfaces;
        unique = i.unique;
      }

  -- Deleting a node at any position leaves the rest of the list; the node is then nowhere.
  pub node_pop_mid-IsQueue :
      (n : ℕ) (ys xs : List ℕ)
      → v.at h ≡ ys ++ n ∷ xs
      → IsQueue (node_pop h n q) (moved v h (ys ++ xs) n 0)
  unfolding node_pop
  node_pop_mid-IsQueue n ys xs c =
      let x = subst (Holds q.links q.list v.place h) c (i.rings h m) in
      let above = head_pos q.impl h m in
      let k : n ∈ (ys ++ n ∷ xs) = ground (arith, has-append n ys (n ∷ xs)) in
      let here = All_of_mem _ n (ys ++ n ∷ xs) x.placed k in
      let known = All_of_mem _ n (ys ++ n ∷ xs) x.known k in
      let out = not-mem_without ys n xs x.ring.distinct.1 in
      record {
        rings =
            rings_moved (heads q.impl) h n 0 (ys ++ xs) i.rings
              (record {
                ring = list_del-Ring ys n xs x.ring;
                head =
                    update_ne v.place n h 0 (λ e. omega (arith, above, node_above n known))
                    ∙ x.head;
                placed = placed_without (ys ++ xs) out (All-without _ ys n xs x.placed);
                known = All-without _ ys n xs x.known;
              })
              λ h' a m' d e.
                let n_ne : n ≢ a = λ r. d (sym here ∙ (ap v.place r ∙ e)) in
                let h_ne : h ≢ a = λ r. d (sym x.head ∙ (ap v.place r ∙ e)) in
                let away : a ∉ (ys ++ n ∷ xs) =
                  not-mem_of_All _ a (ys ++ n ∷ xs) x.placed (λ r. d (sym r ∙ e)) in
                (list_del-Same ys n xs x.ring a (ground arith), n_ne);
        nodes = i.nodes;
        fresh = i.fresh;
        beyond =
            λ a le. update_ne v.place n a 0 (λ e. omega (arith, below n known)) ∙ i.beyond a le;
        distinct = i.distinct;
        attached = i.attached;
        few = i.few;
        surfaces = i.surfaces;
        unique = i.unique;
      }
    where
      placed_without :
          (l : List ℕ) → n ∉ l → All (λ a. v.place a ≡ h) l → All (λ a. update v.place n 0 a ≡ h) l
      placed_without [] o p = tt
      placed_without (b ∷ l) o p =
          (update_ne v.place n b 0 (ground arith) ∙ p.0, placed_without l (ground arith) p.1)

  -- Deleting the first node leaves the rest of the list.
  pub node_pop-IsQueue :
      {n : ℕ} {xs : List ℕ} → v.at h ≡ n ∷ xs → IsQueue (node_pop h n q) (moved v h xs n 0)
  node_pop-IsQueue {n} {xs} c = node_pop_mid-IsQueue n [] xs c

  pub is_empty-nil : v.at h ≡ [] → is_empty h q ≡ true
  unfolding is_empty
  is_empty-nil c = list_is_empty-nil (subst (Ring q.links h) c (i.rings h m).ring)

  pub is_empty-cons : {n : ℕ} {xs : List ℕ} → v.at h ≡ n ∷ xs → is_empty h q ≡ false
  unfolding is_empty
  is_empty-cons c = list_is_empty-cons (subst (Ring q.links h) c (i.rings h m).ring)

  pub pop_front-cons :
      {n : ℕ} {xs : List ℕ} → v.at h ≡ n ∷ xs → pop_front h q ≡ some (n, node_pop h n q)
  unfolding pop_front
  pop_front-cons {n} {xs} c =
      let x = subst (Holds q.links q.list v.place h) c (i.rings h m) in
      let first = x.ring.seg.0 in
      let above = (All_of_mem _ n q.list i.nodes x.known.0).0 in rw first (ground arith)

  pub is_empty-append : (xs : List ℕ) (n : ℕ) → v.at h ≡ xs ++ n ∷ [] → is_empty h q ≡ false
  is_empty-append [] n c = is_empty-cons c
  is_empty-append (x ∷ xs) n c = is_empty-cons c
