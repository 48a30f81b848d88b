-- ===== src/SurfaceQueue/Contract/Calls.antt =====
-- The lists of callbacks.
use libtbm.Base.{ℕ, ◌≡◌, ◌≢◌, refl, ap, true, false, List, [], ◌∷◌, ◌++◌, ◌==◌, arith, All}
use libtbm.SurfaceQueue.State.{Queue, Notify, call_notify}
use libtbm.SurfaceQueue.Notify.{notify_eq, notify_add, notify_remove, notify_emit}

notify_remove-append :
    (l : List Notify) (cb d : ℕ)
    → All (λ n. notify_eq n cb d ≡ false) l
    → notify_remove (l ++ record { cb = cb; data_ptr = d } ∷ []) cb d ≡ l
unfolding notify_remove
notify_remove-append [] cb d u = ground arith
notify_remove-append (n ∷ l) cb d u = rw u.0 (ap (λ r. n ∷ r) (notify_remove-append l cb d u.1))

notify_emit-append :
    (l : List Notify) (n : Notify) (q : Queue)
    → (notify_emit (l ++ n ∷ []) q).calls ≡ call_notify n ∷ (notify_emit l q).calls
unfolding notify_emit
notify_emit-append [] n q = refl
notify_emit-append (x ∷ l) n q = notify_emit-append l n _

-- For a callback that is not NULL and is not in the list with the same data, with memory for the
-- item, _notify_remove after _notify_add gives the list back, and emitting the longer list runs the
-- new callback once, after all that emitting the list runs.
pub notify_add_lem :
    (l : List Notify) (cb d : ℕ) (q : Queue)
    → cb ≢ 0
    → All (λ n. notify_eq n cb d ≡ false) l
    → let r = notify_add true l cb d in
      (notify_remove r cb d ≡ l)
      × ((notify_emit r q).calls
          ≡ call_notify (record { cb = cb; data_ptr = d }) ∷ (notify_emit l q).calls)
unfolding notify_add
notify_add_lem l cb d q nz u =
    let z : (cb == 0) ≡ false = ground arith in
    rw z (notify_remove-append l cb d u, notify_emit-append l _ q)
