-- ===== src/SurfaceQueue/Callbacks.antt =====
-- src/tbm_surface_queue.c: registering and removing callbacks, and the four getters.
use libtbm.Base.{ℕ, not, if◌then◌else◌}
use libtbm.SurfaceQueue.State.{Queue, World, Env, Error, error_none, invalid_queue, put, is_valid}
use libtbm.SurfaceQueue.Notify.{notify_add, notify_remove, trace_add, trace_remove}

-- What all of these share: nothing happens to a handle that is not valid.
unfoldable pub on_valid : World → ℕ → (Queue → Queue) → Error × World
on_valid w h f =
    if not (is_valid w h) then (invalid_queue, w) else (error_none, put w h (f (w.queues h)))

-- `tbm_surface_queue_add_destroy_cb`
unfoldable pub add_destroy_cb : Env → World → ℕ → (cb data_ptr : ℕ) → Error × World
add_destroy_cb e w h cb data_ptr =
    on_valid w h
      λ q. record q { destroy_noti = notify_add (e.calloc_notify q) q.destroy_noti cb data_ptr }

-- `tbm_surface_queue_remove_destroy_cb`
unfoldable pub remove_destroy_cb : World → ℕ → (cb data_ptr : ℕ) → Error × World
remove_destroy_cb w h cb data_ptr =
    on_valid w h λ q. record q { destroy_noti = notify_remove q.destroy_noti cb data_ptr }

-- `tbm_surface_queue_add_dequeuable_cb`
unfoldable pub add_dequeuable_cb : Env → World → ℕ → (cb data_ptr : ℕ) → Error × World
add_dequeuable_cb e w h cb data_ptr =
    on_valid w h λ q. record q {
      dequeuable_noti = notify_add (e.calloc_notify q) q.dequeuable_noti cb data_ptr;
    }

-- `tbm_surface_queue_remove_dequeuable_cb`
unfoldable pub remove_dequeuable_cb : World → ℕ → (cb data_ptr : ℕ) → Error × World
remove_dequeuable_cb w h cb data_ptr =
    on_valid w h λ q. record q { dequeuable_noti = notify_remove q.dequeuable_noti cb data_ptr }

-- `tbm_surface_queue_add_dequeue_cb`
unfoldable pub add_dequeue_cb : Env → World → ℕ → (cb data_ptr : ℕ) → Error × World
add_dequeue_cb e w h cb data_ptr =
    on_valid w h
      λ q. record q { dequeue_noti = notify_add (e.calloc_notify q) q.dequeue_noti cb data_ptr }

-- `tbm_surface_queue_remove_dequeue_cb`
unfoldable pub remove_dequeue_cb : World → ℕ → (cb data_ptr : ℕ) → Error × World
remove_dequeue_cb w h cb data_ptr =
    on_valid w h λ q. record q { dequeue_noti = notify_remove q.dequeue_noti cb data_ptr }

-- `tbm_surface_queue_add_can_dequeue_cb`
unfoldable pub add_can_dequeue_cb : Env → World → ℕ → (cb data_ptr : ℕ) → Error × World
add_can_dequeue_cb e w h cb data_ptr = on_valid w h λ q. record q {
  can_dequeue_noti = notify_add (e.calloc_notify q) q.can_dequeue_noti cb data_ptr;
}

-- `tbm_surface_queue_remove_can_dequeue_cb`
unfoldable pub remove_can_dequeue_cb : World → ℕ → (cb data_ptr : ℕ) → Error × World
remove_can_dequeue_cb w h cb data_ptr =
    on_valid w h λ q. record q { can_dequeue_noti = notify_remove q.can_dequeue_noti cb data_ptr }

-- `tbm_surface_queue_add_acquirable_cb`
unfoldable pub add_acquirable_cb : Env → World → ℕ → (cb data_ptr : ℕ) → Error × World
add_acquirable_cb e w h cb data_ptr =
    on_valid w h λ q. record q {
      acquirable_noti = notify_add (e.calloc_notify q) q.acquirable_noti cb data_ptr;
    }

-- `tbm_surface_queue_remove_acquirable_cb`
unfoldable pub remove_acquirable_cb : World → ℕ → (cb data_ptr : ℕ) → Error × World
remove_acquirable_cb w h cb data_ptr =
    on_valid w h λ q. record q { acquirable_noti = notify_remove q.acquirable_noti cb data_ptr }

-- `tbm_surface_queue_add_trace_cb`
unfoldable pub add_trace_cb : Env → World → ℕ → (cb data_ptr : ℕ) → Error × World
add_trace_cb e w h cb data_ptr =
    on_valid w h
      λ q. record q { trace_noti = trace_add (e.calloc_notify q) q.trace_noti cb data_ptr }

-- `tbm_surface_queue_remove_trace_cb`
unfoldable pub remove_trace_cb : World → ℕ → (cb data_ptr : ℕ) → Error × World
remove_trace_cb w h cb data_ptr =
    on_valid w h λ q. record q { trace_noti = trace_remove q.trace_noti cb data_ptr }

-- `tbm_surface_queue_add_reset_cb`
unfoldable pub add_reset_cb : Env → World → ℕ → (cb data_ptr : ℕ) → Error × World
add_reset_cb e w h cb data_ptr =
    on_valid w h
      λ q. record q { reset_noti = notify_add (e.calloc_notify q) q.reset_noti cb data_ptr }

-- `tbm_surface_queue_remove_reset_cb`
unfoldable pub remove_reset_cb : World → ℕ → (cb data_ptr : ℕ) → Error × World
remove_reset_cb w h cb data_ptr =
    on_valid w h λ q. record q { reset_noti = notify_remove q.reset_noti cb data_ptr }

-- `tbm_surface_queue_set_alloc_cb`
unfoldable pub set_alloc_cb : World → ℕ → (alloc_cb free_cb data_ptr : ℕ) → Error × World
set_alloc_cb w h alloc_cb free_cb data_ptr =
    on_valid w h λ q. record q { alloc_cb = alloc_cb; free_cb = free_cb; alloc_cb_data = data_ptr }

-- `tbm_surface_queue_get_width`
unfoldable pub get_width : World → ℕ → ℕ
get_width w h = if not (is_valid w h) then 0 else (w.queues h).width

-- `tbm_surface_queue_get_height`
unfoldable pub get_height : World → ℕ → ℕ
get_height w h = if not (is_valid w h) then 0 else (w.queues h).height

-- `tbm_surface_queue_get_format`
unfoldable pub get_format : World → ℕ → ℕ
get_format w h = if not (is_valid w h) then 0 else (w.queues h).format

-- `tbm_surface_queue_get_size`
unfoldable pub get_size : World → ℕ → ℕ
get_size w h = if not (is_valid w h) then 0 else (w.queues h).queue_size
