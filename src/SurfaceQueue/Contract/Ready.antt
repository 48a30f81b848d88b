-- ===== src/SurfaceQueue/Contract/Ready.antt =====
-- `tbm_surface_queue_can_acquire`, which does not wait, and the acquire after it.
use libtbm.Base.{ℕ, ◌≡◌, ◌↔◌, refl, true, false, some, List, [], ◌∷◌, ◌⊎◌, inl, inr}
use libtbm.SurfaceQueue.State.{World, Env, error_none, is_valid, dirty_head}
use libtbm.SurfaceQueue.Transfer.{can_acquire, acquire}
use libtbm.SurfaceQueue.Invariant.{IsQueue, View, is_empty-nil, is_empty-cons, dirty_mem}
use libtbm.SurfaceQueue.Contract.Acquire.{acquire-cons, acquire-nil}

List-cases : (l : List ℕ) → (l ≡ []) ⊎ ((n : ℕ) × (xs : List ℕ) × (l ≡ n ∷ xs))
List-cases [] = inl refl
List-cases (n ∷ xs) = inr (n, xs, refl)

-- On a valid handle whose queue is in order, tbm_surface_queue_can_acquire without waiting changes
-- nothing, and returns 1 exactly when tbm_surface_queue_acquire would succeed.
pub can_acquire_lem :
    (e : Env) (w : World) (h : ℕ) {v : View}
    → is_valid w h ≡ true
    → IsQueue (w.queues h) v
    → let c = can_acquire e w h false in
      (c.1 ≡ w)
      × ((c.0 ≡ true) ↔ ((s : ℕ) × (w' : World) × (acquire w h ≡ some (error_none, s, w'))))
unfolding can_acquire acquire
can_acquire_lem e w h {v} valid i =
    let q = w.queues h in
    elim (List-cases (v.at dirty_head)) [
      | inl c ↦
          rw (valid, is_empty-nil i dirty_head (dirty_mem q.impl) c, acquire-nil i w.dump_queue c)
            (refl, (λ x. cc, λ x. cc))
      | inr (n, xs, c) ↦
          let (q', runs, i', k) = acquire-cons i w.dump_queue c in
          rw (valid, is_empty-cons i dirty_head (dirty_mem q.impl) c, runs)
            (refl, (λ x. (_, _, refl), λ x. refl))
    ]
