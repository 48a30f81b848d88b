-- ===== src/SurfaceQueue/Notify.antt =====
-- src/tbm_surface_queue.c: the lists of callbacks, `_notify_*` and `_trace_*`. A callback that runs is
-- recorded in `calls`; it does not call back into the queue.
use libtbm.Base.{ℕ, Bool, ◌&&◌, List, [], ◌∷◌, ◌++◌, ◌==◌, if◌then◌else◌}
use libtbm.SurfaceQueue.State.{Notify, Queue, Trace, call, call_notify, call_trace}

abbrev pub notify_eq : Notify → ℕ → ℕ → Bool
notify_eq n cb data_ptr = n.cb == cb && n.data_ptr == data_ptr

-- `_notify_add`; `got` says whether `calloc` gives the item.
unfoldable pub notify_add : Bool → List Notify → ℕ → ℕ → List Notify
notify_add got l cb data_ptr =
    if cb == 0 then l else if got then l ++ record { cb = cb; data_ptr = data_ptr } ∷ [] else l

-- `_notify_remove`: the first item with this callback and this data.
unfoldable pub notify_remove : List Notify → ℕ → ℕ → List Notify
notify_remove [] cb data_ptr = []
notify_remove (n ∷ l) cb data_ptr =
    if notify_eq n cb data_ptr then l else n ∷ notify_remove l cb data_ptr

-- `_notify_remove_all`
unfoldable pub notify_remove_all : List Notify → List Notify
notify_remove_all [] = []
notify_remove_all (n ∷ l) = notify_remove_all l

-- `_notify_emit`: each callback once, in the order of the list.
unfoldable pub notify_emit : List Notify → Queue → Queue
notify_emit [] q = q
notify_emit (n ∷ l) q = notify_emit l (call (call_notify n) q)

-- `_trace_add`
unfoldable pub trace_add : Bool → List Notify → ℕ → ℕ → List Notify
trace_add got l cb data_ptr =
    if cb == 0 then l else if got then l ++ record { cb = cb; data_ptr = data_ptr } ∷ [] else l

-- `_trace_remove`
unfoldable pub trace_remove : List Notify → ℕ → ℕ → List Notify
trace_remove [] cb data_ptr = []
trace_remove (n ∷ l) cb data_ptr =
    if notify_eq n cb data_ptr then l else n ∷ trace_remove l cb data_ptr

-- `_trace_remove_all`
unfoldable pub trace_remove_all : List Notify → List Notify
trace_remove_all [] = []
trace_remove_all (n ∷ l) = trace_remove_all l

-- `_trace_emit`
unfoldable pub trace_emit : List Notify → ℕ → Trace → Queue → Queue
trace_emit [] s t q = q
trace_emit (n ∷ l) s t q = trace_emit l s t (call (call_trace n s t) q)
