-- ===== src/SurfaceQueue/Contract/Fifo.antt =====
-- The queue as a first-in first-out channel: runs of several operations.
use libtbm.SurfaceQueue.Transfer.{enqueue_on_queue, acquire_on_queue}
use libtbm.SurfaceQueue.Contract.Enqueue.{enqueue-out}
use libtbm.SurfaceQueue.Contract.Acquire.{acquire-cons}
use libtbm.SurfaceQueue.Invariant.{update_ne, update_self, IsQueue, View}
use libtbm.SurfaceQueue.Contract.Keeps.{Keeps-trans, Keeps-refl, Keeps}
use libtbm.SurfaceQueue.State.{default_impl, dirty_head, Queue}
use mathlib.Core.Path.{ap₂}
use mathlib.Core.Bool.{false≢true}
use mathlib.Core.List.{append-nil, append_assoc}
use libtbm.Base.{
  subst, All-mono_mem, ◌>>=◌, ◌++◌, sym, ◌∙◌, ap, false, length, Distinct, ◌∈◌, All, Option, map,
  List, [], ◌∷◌, some, zero, suc, ℕ, ◌≡◌, refl,
}

-- `acquire` as often as the number says, and the surfaces that come.
unfoldable pub acquire_times : ℕ → Queue → Option (List ℕ × Queue)
acquire_times zero q = some ([], q)
acquire_times (suc k) q = do
  (err, s, q1) ← acquire_on_queue false q
  (ss, q2) ← acquire_times k q1
  some (s ∷ ss, q2)

-- `enqueue` of each surface in turn.
unfoldable pub enqueue_each : List ℕ → Queue → Option Queue
enqueue_each [] q = some q
enqueue_each (s ∷ ss) q = do (err, q1) ← enqueue_on_queue s q; enqueue_each ss q1

unfoldable pub surfaces_of : Queue → List ℕ → List ℕ
surfaces_of q = map (λ n. (q.nodes n).surface)

surfaces_of-Keeps : {q q' : Queue} (l : List ℕ) → Keeps q q' → surfaces_of q' l ≡ surfaces_of q l
unfolding surfaces_of
surfaces_of-Keeps [] k = refl
surfaces_of-Keeps (n ∷ l) k = ap₂ ◌∷◌ (k.names n) (surfaces_of-Keeps l k)

-- As many acquires as there are dirty surfaces hand them out in order, and leave none.
acquire_all :
    (l : List ℕ) {q : Queue} {v : View}
    → IsQueue q v
    → v.at dirty_head ≡ l
    → (q' : Queue) × (v' : View) × (acquire_times (length l) q ≡ some (surfaces_of q l, q'))
      × IsQueue q' v'
      × (v'.at dirty_head ≡ [])
      × Keeps q q'
unfolding acquire_times surfaces_of
acquire_all [] {q} {v} i c = (q, v, refl, i, c, Keeps-refl q)
acquire_all (n ∷ l) {q} {v} i c =
    let (q1, runs, i1, k1) = acquire-cons i false c in
    let (q2, v2, runs2, i2, c2, k2) = acquire_all l i1 (update_self v.at dirty_head l) in
    (
      q2,
      v2,
      rw (runs, runs2) (ap (λ ss. some ((q.nodes n).surface ∷ ss, q2)) (surfaces_of-Keeps l k1)),
      i2,
      c2,
      Keeps-trans k1 k2,
    )

-- The nodes of `ns` are on no list.
abbrev pub AllOut : Queue → View → List ℕ → Type 0
AllOut q v ns = All (λ n. (n ∈ q.list) × (v.place n ≡ 0)) ns

-- Enqueueing surfaces that the user holds puts them behind the dirty ones, in order.
enqueue_all :
    (ns : List ℕ) {q : Queue} {v : View}
    → IsQueue q v
    → q.impl ≡ default_impl
    → Distinct ns
    → AllOut q v ns
    → (q' : Queue) × (v' : View) × (enqueue_each (surfaces_of q ns) q ≡ some q')
      × IsQueue q' v'
      × (v'.at dirty_head ≡ v.at dirty_head ++ ns)
      × Keeps q q'
unfolding enqueue_each surfaces_of
enqueue_all [] {q} {v} i d u o = (q, v, refl, i, sym (append-nil _), Keeps-refl q)
enqueue_all (n ∷ ns) {q} {v} i d u o =
    let (q1, runs, i1, k1) =
      enqueue-out i d (record { known = o.0.0; out = o.0.1; names = refl }) in
    let (q2, v2, runs2, i2, c2, k2) = enqueue_all ns i1 (k1.impl ∙ d) u.1 (
      All-mono_mem _ _ ns
        (λ a m r. (
          subst (λ l. a ∈ l) (sym k1.list) r.0,
          update_ne v.place n a dirty_head
                (λ e. false≢true (sym u.0 ∙ subst (λ b. b ∈ ns) (sym e) m))
              ∙ r.1,
        ))
        o.1) in
    (
      q2,
      v2,
      rw (runs, ← surfaces_of-Keeps ns k1) runs2,
      i2,
      c2
          ∙ (ap (λ xs. xs ++ ns) (update_self v.at dirty_head _)
              ∙ append_assoc (v.at dirty_head) (n ∷ []) ns),
      Keeps-trans k1 k2,
    )

-- On a default queue in order, enqueueing the surfaces of distinct nodes that are on no list, and
-- then acquiring as often as there were dirty surfaces and new ones, hands out the dirty surfaces
-- and then the new ones, in that order, and leaves a queue in order without dirty surfaces.
pub enqueue_acquire_fifo :
    {q : Queue} {v : View} (ns : List ℕ)
    → IsQueue q v
    → q.impl ≡ default_impl
    → Distinct ns
    → AllOut q v ns
    → (q1 q2 : Queue) × (v2 : View) × (enqueue_each (surfaces_of q ns) q ≡ some q1)
      × (acquire_times (length (v.at dirty_head ++ ns)) q1
          ≡ some (surfaces_of q (v.at dirty_head ++ ns), q2))
      × IsQueue q2 v2
      × (v2.at dirty_head ≡ [])
enqueue_acquire_fifo {q} {v} ns i d u o =
    let (q1, v1, runs1, i1, c1, k1) = enqueue_all ns i d u o in
    let (q2, v2, runs2, i2, c2, k2) = acquire_all (v.at dirty_head ++ ns) i1 c1 in
    (
      q1,
      q2,
      v2,
      runs1,
      runs2 ∙ ap (λ ss. some (ss, q2)) (surfaces_of-Keeps (v.at dirty_head ++ ns) k1),
      i2,
      c2,
    )
