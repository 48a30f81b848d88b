-- ===== src/SurfaceQueue/Contract/Refused.antt =====
-- `tbm_surface_queue_enqueue` and `tbm_surface_queue_release` of a surface that the user does not have.
use libtbm.Base.{ℕ, ◌≡◌, ◌≢◌, ◌⊎◌, ◌∈◌, some}
use libtbm.SurfaceQueue.State.{Queue, already_exist, invalid_surface, dirty_head, free_head}
use libtbm.SurfaceQueue.Transfer.{enqueue_on_queue, release_on_queue}
use libtbm.SurfaceQueue.Invariant.{View, IsQueue}
use libtbm.SurfaceQueue.Contract.Enqueue.{enqueue_refused}
use libtbm.SurfaceQueue.Contract.Release.{release_refused}

-- On a queue in order, for a surface that is not attached, is free, or is dirty, enqueueing reports
-- TBM_SURFACE_QUEUE_ERROR_ALREADY_EXIST, releasing reports TBM_SURFACE_QUEUE_ERROR_INVALID_SURFACE,
-- and neither changes anything.
pub refused_unchanged :
    {q : Queue} {v : View} (i : IsQueue q v) (s : ℕ)
    → ((a : ℕ) → a ∈ q.list → (q.nodes a).surface ≢ s)
      ⊎ ((n : ℕ) × ((q.nodes n).surface ≡ s) × ((n ∈ v.at free_head) ⊎ (n ∈ v.at dirty_head)))
    → (enqueue_on_queue s q ≡ some (already_exist, q))
      × (release_on_queue s q ≡ some (invalid_surface, q))
refused_unchanged i s h = (enqueue_refused i s h, release_refused i s h)
