-- ===== src/SurfaceQueue/Contract/Limits.antt =====
-- How many surfaces a queue attaches.
use libtbm.SurfaceQueue.Transfer.{dequeue_on_queue}
use libtbm.SurfaceQueue.Contract.Dequeue.{dequeue_full}
use libtbm.SurfaceQueue.Contract.Growth.{dequeue_new, asked, Grants}
use libtbm.SurfaceQueue.Invariant.{IsQueue, View}
use libtbm.SurfaceQueue.State.{
  Error, error_none, invalid_queue, free_head, default_impl, Env, Queue,
}
use libtbm.Base.{ℕ, ◌+◌, ◌⊎◌, inl, inr, [], some, refl, ◌≡◌, ◌==◌, ◌<◌, ◌≤◌, Bool-cases, arith}

module _ {q : Queue} {v : View} (i : IsQueue q v) (e : Env) (g : Grants e q)
    (d : q.impl ≡ default_impl) (c : v.at free_head ≡ []) where
  -- On a default queue in order without free surfaces and with at most queue_size surfaces
  -- attached, where the environment grants a new surface whenever it is asked, dequeue returns, and
  -- leaves at most queue_size surfaces attached. Where fewer were attached, it succeeds with the new
  -- surface and attaches one more; where queue_size were, it reports
  -- TBM_SURFACE_QUEUE_ERROR_INVALID_QUEUE and changes nothing.
  pub dequeue_within_size :
      q.num_attached ≤ q.queue_size
      → (code : Error) × (s : ℕ) × (q' : Queue) × (dequeue_on_queue e q ≡ some (code, s, q'))
        × (q'.num_attached ≤ q.queue_size)
        × (q'.queue_size ≡ q.queue_size)
        × (((q.num_attached < q.queue_size)
              × (code ≡ error_none)
              × (s ≡ asked e q)
              × (q'.num_attached ≡ q.num_attached + 1))
            ⊎ ((q.num_attached ≡ q.queue_size) × (code ≡ invalid_queue) × (q' ≡ q)))
  dequeue_within_size le = elim (Bool-cases (q.num_attached == q.queue_size)) [
    | inl y ↦
        let full : q.num_attached ≡ q.queue_size = ground (arith, y) in
        (invalid_queue, 0, q, dequeue_full i e d c full, le, refl, inr (full, refl, refl))
    | inr y ↦
        let less : q.num_attached < q.queue_size = ground (arith, y, le) in
        let (n, q', v', runs, i', o, f, x, more, size) =
          dequeue_new i e g (omega (arith, less)) d c in
        (
          error_none,
          asked e q,
          q',
          runs,
          omega (arith, more, less),
          size,
          inl (less, refl, refl, more),
        )
  ]

  -- On a default queue in order without free surfaces and with more than queue_size surfaces
  -- attached, a dequeue for which the environment grants a new surface succeeds with it and
  -- attaches one more surface all the same.
  pub dequeue_beyond_size :
      q.queue_size < q.num_attached
      → (q' : Queue) × (dequeue_on_queue e q ≡ some (error_none, asked e q, q'))
        × (q'.queue_size < q'.num_attached)
        × (q'.num_attached ≡ q.num_attached + 1)
  dequeue_beyond_size lt =
      let (n, q', v', runs, i', o, f, x, more, size) = dequeue_new i e g (omega (arith, lt)) d c in
      (q', runs, ground arith, more)
