-- ===== src/SurfaceQueue/Contract/Farewell.antt =====
-- Which surfaces are destroyed when a queue is emptied.
use libtbm.SurfaceQueue.Invariant.{IsQueue, View}
use libtbm.SurfaceQueue.State.{Queue}
use libtbm.SurfaceQueue.Nodes.{queue_init}
use libtbm.SurfaceQueue.Manage.{drop_all}
use libtbm.SurfaceQueue.Contract.Clear.{delete_nodes-destroys, destroys, named}
use mathlib.Core.Bool.{false≢true}
use libtbm.Base.{
  ◌∙◌, sym, [], ◌∷◌, subst, ◌+◌, ℕ_discrete, ◌∷◌, ◌≢◌, Distinct, ◌∈◌, List, ℕ, ◌≡◌, refl, arith,
}

named-none :
    (q : Queue) (s : ℕ) (l : List ℕ) → ((a : ℕ) → a ∈ l → (q.nodes a).surface ≢ s) → named q s l ≡ 0
unfolding named
named-none q s [] u = refl
named-none q s (x ∷ l) u = ground (arith, u x, named-none q s l (λ a m. u a (ground arith)))

named-one :
    (q : Queue) (n : ℕ) (l : List ℕ)
    → Distinct l
    → n ∈ l
    → ((a : ℕ) → a ∈ l → (q.nodes a).surface ≡ (q.nodes n).surface → a ≡ n)
    → named q (q.nodes n).surface l ≡ 1
unfolding named
named-one q n [] d m u = absurd (ground arith)
named-one q n (x ∷ l) d m u = elim (ℕ_discrete x n) [
  | yes e ↦
      let rest = named-none q (q.nodes n).surface l (λ a k r.
        let same = u a (ground arith) r in
        false≢true (sym d.0 ∙ subst (λ b. b ∈ l) (same ∙ sym e) k)) in
      ground arith
  | no ne ↦ ground (arith, u x, named-one q n l d.1 (ground arith) (λ a k. u a (ground arith)))
]

-- Emptying a queue in order, as reset and flush do, asks once more for the destruction of each
-- attached surface, and not once more for that of a surface that is not attached.
pub drop_all-destroys :
    {q : Queue} {v : View} (s : ℕ)
    → IsQueue q v
    → s ≢ 0
    → ((n : ℕ)
        → n ∈ q.list
        → (q.nodes n).surface ≡ s
        → destroys s (drop_all q).calls ≡ destroys s q.calls + 1)
      × (((a : ℕ) → a ∈ q.list → (q.nodes a).surface ≢ s)
          → destroys s (drop_all q).calls ≡ destroys s q.calls)
unfolding drop_all queue_init
drop_all-destroys {q} s i nz = (
  λ n m e.
      let one = named-one q n q.list i.distinct m (λ a k r. i.unique a n k m r) in
      omega (arith, delete_nodes-destroys q.list s q nz, subst (λ t. named q t q.list ≡ 1) e one),
  λ u. omega (arith, delete_nodes-destroys q.list s q nz, named-none q s q.list u),
)
