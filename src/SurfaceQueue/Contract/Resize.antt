-- ===== src/SurfaceQueue/Contract/Resize.antt =====
-- `tbm_surface_queue_set_size` without flush: free surfaces are detached, the first ones first.
use libtbm.Base.{
  length-le_of_mem, ℕ, zero, suc, ◌+◌, ◌-◌, ◌<◌, ◌^◌, ◌≡◌, refl, sym, ◌∙◌, ap, subst, true, false,
  Bool-cases, inl, inr, ◌==◌, List, [], ◌∷◌, arith, some, length, Option,
}
use libtbm.Links.{Links}
use libtbm.Links.Ring.{Seg}
use libtbm.SurfaceQueue.State.{Queue, free_head, dirty_head, is_node, slt32, sub32, dec32}
use libtbm.SurfaceQueue.Nodes.{rounds}
use libtbm.SurfaceQueue.Manage.{detach_free, set_size_on_queue}
use libtbm.SurfaceQueue.Invariant.{
  IsQueue-count, View, IsQueue, Holds, moved, free_mem, update_self, update_ne, detach-first,
  node_pos,
}

-- The list without its first `n` elements.
abbrev pub drop : ℕ → List ℕ → List ℕ
drop zero l = l
drop (suc n) [] = []
drop (suc n) (x ∷ l) = drop n l

-- The first `n` free surfaces are detached, and nothing else happens to the queue.
pub record Shrunk (q : Queue) (v : View) (n : ℕ) (q' : Queue) (v' : View) : Type 0 where
  pub order : IsQueue q' v'
  pub free : v'.at free_head ≡ drop n (v.at free_head)
  pub dirty : v'.at dirty_head ≡ v.at dirty_head
  pub attached :
      q'.num_attached + length (v.at free_head) ≡ q.num_attached + length (v'.at free_head)

abbrev ShrinksTo : (q : Queue) (v : View) (n : ℕ) → Option Queue → Type 0
ShrinksTo q v n o =
    (q' : Queue) × (v' : View) × (o ≡ some q') × (q'.queue_size ≡ q.queue_size) × Shrunk q v n q' v'

first_free :
    {q : Queue} {v : View} → IsQueue q v → Holds q.links q.list v.place free_head (v.at free_head)
first_free {q} i = i.rings free_head (free_mem q.impl)

abbrev first : List ℕ → ℕ → ℕ
first [] h = h
first (y ∷ ys) h = y

Seg-first : (m : Links) (p : ℕ) (ys : List ℕ) (h : ℕ) → Seg m p ys h → m.next p ≡ first ys h
Seg-first m p [] h s = s.0
Seg-first m p (y ∷ ys) h s = s.0

-- The walk stands at the first free node.
at_first :
    {q : Queue} {v : View} {n a : ℕ} {xs : List ℕ}
    → IsQueue q v
    → v.at free_head ≡ a ∷ xs
    → n ≡ q.links.next free_head
    → ((n == free_head) ≡ false) × (is_node n ≡ true) × (n ≡ a)
at_first {q} {v} {n} {a} i c e =
    let x = subst (Holds q.links q.list v.place free_head) c (first_free i) in
    let pos = node_pos i a x.known.0 in
    let same : n ≡ a = e ∙ x.ring.seg.0 in
    (ground (arith, pos, same), ground (arith, pos, same), same)

Shrunk-once :
    {q q1 : Queue} {v : View} {a : ℕ} {xs : List ℕ}
    → IsQueue q v
    → v.at free_head ≡ a ∷ xs
    → IsQueue q1 (moved v free_head xs a 0)
    → q1.num_attached + 1 ≡ q.num_attached
    → Shrunk q v 1 q1 (moved v free_head xs a 0)
Shrunk-once {q} {q1} {v} {a} {xs} i c i1 num = record {
  order = i1;
  free = rw c (update_self v.at free_head xs);
  dirty = update_ne v.at free_head dirty_head xs (omega arith);
  attached = rw c (omega (arith, num));
}

Shrunk-next :
    {q q1 q2 : Queue} {v v2 : View} {a m : ℕ} {xs : List ℕ}
    → IsQueue q v
    → v.at free_head ≡ a ∷ xs
    → q1.num_attached + 1 ≡ q.num_attached
    → Shrunk q1 (moved v free_head xs a 0) m q2 v2
    → Shrunk q v (suc m) q2 v2
Shrunk-next {q} {q1} {q2} {v} {v2} {a} {m} {xs} i c num h = record {
  order = h.order;
  free = rw c h.free;
  dirty = h.dirty ∙ update_ne v.at free_head dirty_head xs (omega arith);
  attached = rw c (omega (arith, num, h.attached));
}

detach_free_lem :
    (k need n next : ℕ) (q : Queue) (v : View) (xs : List ℕ)
    → IsQueue q v
    → v.at free_head ≡ xs
    → length xs < k
    → n ≡ q.links.next free_head
    → next ≡ q.links.next n
    → suc need < 2 ^ 31
    → ShrinksTo q v (suc need) (detach_free k (suc need) n next q)
unfolding detach_free
detach_free_lem zero need n next q v xs i c room e f small = absurd (omega (arith, room))
detach_free_lem (suc k) need n next q v [] i c room e f small =
    let x = subst (Holds q.links q.list v.place free_head) c (first_free i) in
    let y : (n == free_head) ≡ true = ground (arith, e, x.ring.seg.0) in
    rw (detach_free, y)
      (q, v, refl, refl, record { order = i; free = rw c refl; dirty = refl; attached = refl })
detach_free_lem (suc k) zero n next q v (a ∷ xs) i c room e f small =
    let (y, z, same) = at_first i c e in
    let (q1, d, i1, num, size, len) = detach-first i c in
    rw (detach_free, y, z, same, d) (q1, _, refl, size, Shrunk-once i c i1 num)
detach_free_lem (suc k) (suc need) n next q v (a ∷ xs) i c room e f small =
    let (y, z, same) = at_first i c e in
    let (q1, d, i1, num, size, len) = detach-first i c in
    let nz : (dec32 (suc (suc need)) == 0) ≡ false = ground arith in
    let less : dec32 (suc (suc need)) ≡ suc need = omega arith in
    let c1 = update_self v.at free_head xs in
    let x = subst (Holds q.links q.list v.place free_head) c (first_free i) in
    let x1 = subst (Holds q1.links q1.list _ free_head) c1 (first_free i1) in
    let e1 : next ≡ q1.links.next free_head =
      f
      ∙ (ap q.links.next same
          ∙ (Seg-first q.links a xs free_head x.ring.seg.2
              ∙ sym (Seg-first q1.links free_head xs free_head x1.ring.seg))) in
    let (q2, v2, o, s2, h) =
      detach_free_lem k need next (q1.links.next next) q1 _ xs i1 c1 (omega (arith, room)) e1 refl
        (omega (arith, small)) in
    rw (detach_free, y, z, same, d, nz, less) (q2, v2, o, s2 ∙ size, Shrunk-next i c num h)

difference : (m n : ℕ) → m < n → (d : ℕ) × (m + suc d ≡ n)
difference m n l = (n - suc m, omega arith)

-- `tbm_surface_queue_set_size` ends, and as many free surfaces as the queue has grown too large by
-- are detached.
abbrev pub Resized : (q : Queue) (v : View) (queue_size : ℕ) → Type 0
Resized q v queue_size =
    (q' : Queue) × (v' : View) × (set_size_on_queue queue_size false q ≡ some q')
    × (q'.queue_size ≡ queue_size)
    × Shrunk q v (q.queue_size - queue_size) q' v'

Shrunk-size :
    {q : Queue} {v : View} (size need : ℕ)
    → slt32 size q.queue_size ≡ true
    → sub32 q.queue_size size ≡ suc need
    → q.queue_size - size ≡ suc need
    → (q' : Queue) (v' : View)
    → let n = q.links.next free_head in
      detach_free (rounds q) (suc need) n (q.links.next n) q ≡ some q'
      → Shrunk q v (suc need) q' v'
      → Resized q v size
unfolding set_size_on_queue
Shrunk-size size need b more diff q' v' o h =
    rw (b, more, o, diff)
      (
        _,
        v',
        refl,
        refl,
        record {
          order = IsQueue-count size q'.count q'.calls h.order;
          free = h.free;
          dirty = h.dirty;
          attached = h.attached;
        },
      )

-- On a queue in order whose size is below 2^31, and for a new size that is positive and below 2^31,
-- tbm_surface_queue_set_size without flush ends: it detaches as many of the first free surfaces as
-- the old size is larger than the new one, or all of them where there are fewer, counts them off
-- num_attached, leaves the dirty list, keeps the queue in order, and sets the new size.
pub set_size_shrinks :
    {q : Queue} {v : View} (queue_size : ℕ)
    → IsQueue q v
    → 0 < queue_size
    → queue_size < 2 ^ 31
    → q.queue_size < 2 ^ 31
    → Resized q v queue_size
unfolding set_size_on_queue
set_size_shrinks {q} {v} size i pos small1 small2 = elim (Bool-cases (slt32 size q.queue_size)) [
  | inr b ↦
      let z : q.queue_size - size ≡ 0 = ground arith in
      rw (b, z)
        (
          _,
          v,
          refl,
          refl,
          record {
            order = IsQueue-count size q.count q.calls i;
            free = refl;
            dirty = refl;
            attached = refl;
          },
        )
  | inl b ↦
      let (need, e) = difference size q.queue_size (ground arith) in
      let more : sub32 q.queue_size size ≡ suc need = omega (arith, e) in
      let diff : q.queue_size - size ≡ suc need = omega (arith, e) in
      let n = q.links.next free_head in
      let x = first_free i in
      let room : length (v.at free_head) < rounds q =
        omega (arith, length-le_of_mem (v.at free_head) q.list x.ring.distinct.1 x.known) in
      let (q', v', o, k, h) =
        detach_free_lem (rounds q) need n (q.links.next n) q v (v.at free_head) i refl room refl
          refl (omega (arith, e)) in
      Shrunk-size size need b more diff q' v' o h
]
