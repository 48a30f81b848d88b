-- ===== src/SurfaceQueue/Transfer.antt =====
-- src/tbm_surface_queue.c: the four moves of a surface, and the two tests before them. `on_queue`
-- functions are what runs between the lock and the unlock of one queue, with the callbacks that follow.
use libtbm.Base.{
  ℕ, Bool, true, false, not, ◌||◌, ◌&&◌, Option, some, ◌==◌, if◌then◌else◌, ◌>>=◌, ltb,
}
use libtbm.SurfaceQueue.State.{
  Queue, World, Env, Error, error_none, invalid_surface, invalid_queue, already_exist,
  unknown_surface, node_dequeue, node_enqueue, node_acquire, node_release, trace_dequeue,
  trace_enqueue, trace_acquire, trace_release, call, put, signal_free, signal_dirty, dump_buffer,
  is_valid, free_head, dirty_head, slt32,
}
use libtbm.SurfaceQueue.Notify.{notify_emit, trace_emit}
use libtbm.SurfaceQueue.Nodes.{
  get_node, node_list, is_empty, set_type, get_node_count, detach, release_node, acquire_node,
}
use libtbm.SurfaceQueue.Impl.{impl_enqueue, impl_dequeue, need_attach}

-- `tbm_surface_queue_enqueue`
unfoldable pub enqueue_on_queue : ℕ → Queue → Option (Error × Queue)
enqueue_on_queue surface q = do
  (n, type) ← get_node q 0 surface
  if (n == 0) || not (type == node_list) then some (already_exist, q) else do
    q1 ← impl_enqueue n q
    if is_empty dirty_head q1
        then some (unknown_surface, q1)
        else (let q2 = call signal_dirty (set_type n node_enqueue q1) in
            some (
              error_none,
              notify_emit q.acquirable_noti (trace_emit q.trace_noti surface trace_enqueue q2),
            ))

unfoldable pub enqueue : World → ℕ → ℕ → Option (Error × World)
enqueue w h surface =
    if not (is_valid w h)
    then some (invalid_queue, w)
    else if surface == 0
    then some (invalid_surface, w)
    else do
      (e, q) ←
          enqueue_on_queue surface
            (if w.dump_queue then call (dump_buffer surface) (w.queues h) else w.queues h)
      some (e, put w h q)

-- `tbm_surface_queue_dequeue`; the result holds `*surface`, NULL after an error. The pointer
-- `surface` is not NULL: the code writes through it before it tests it.
unfoldable pub dequeue_on_queue : Env → Queue → Option (Error × ℕ × Queue)
dequeue_on_queue e q = do
  (n, q1) ← impl_dequeue e q
  let s = (q1.nodes n).surface
  if (n == 0) || (s == 0)
      then some (invalid_queue, 0, q1)
      else (let q2 = set_type n node_dequeue q1 in
          some (
            error_none,
            s,
            notify_emit q.dequeue_noti (trace_emit q.trace_noti s trace_dequeue q2),
          ))

unfoldable pub dequeue : Env → World → ℕ → Option (Error × ℕ × World)
dequeue e w h =
    if not (is_valid w h)
    then some (invalid_queue, 0, w)
    else do (err, s, q) ← dequeue_on_queue e (w.queues h); some (err, s, put w h q)

-- `tbm_surface_queue_release`. No implementation has a `need_detach` or a `release` of its own.
unfoldable pub release_on_queue : ℕ → Queue → Option (Error × Queue)
release_on_queue surface q = do
  (n, type) ← get_node q 0 surface
  if (n == 0) || not (type == node_list)
      then some (invalid_surface, q)
      else if slt32 q.queue_size q.num_attached
      then (do q1 ← detach surface q; some (error_none, q1))
      else (let q1 = release_node n true q in
          if is_empty free_head q1
          then some (invalid_surface, q1)
          else (let q2 = call signal_free (set_type n node_release q1) in
              some (
                error_none,
                notify_emit q.dequeuable_noti (trace_emit q.trace_noti surface trace_release q2),
              )))

unfoldable pub release : World → ℕ → ℕ → Option (Error × World)
release w h surface =
    if not (is_valid w h)
    then some (invalid_queue, w)
    else if surface == 0
    then some (invalid_surface, w)
    else do (e, q) ← release_on_queue surface (w.queues h); some (e, put w h q)

-- `tbm_surface_queue_acquire`; no implementation has an `acquire` of its own.
unfoldable pub acquire_on_queue : Bool → Queue → Option (Error × ℕ × Queue)
acquire_on_queue dump q = do
  (n, q1) ← acquire_node q
  let s = (q1.nodes n).surface
  if (n == 0) || (s == 0)
      then some (invalid_queue, 0, q1)
      else (let q2 = set_type n node_acquire q1 in
          let q3 = if dump then call (dump_buffer s) q2 else q2 in
          some (error_none, s, trace_emit q.trace_noti s trace_acquire q3))

unfoldable pub acquire : World → ℕ → Option (Error × ℕ × World)
acquire w h =
    if not (is_valid w h)
    then some (invalid_queue, 0, w)
    else do (err, s, q) ← acquire_on_queue w.dump_queue (w.queues h); some (err, s, put w h q)

-- `tbm_surface_queue_can_dequeue`. The queue is tested again after the callbacks, after a surface
-- has been asked for, and after a wait.
unfoldable pub can_dequeue : Env → World → ℕ → Bool → Bool × World
can_dequeue e w h wait =
    if not (is_valid w h)
    then (false, w)
    else (let q0 = w.queues h in
        let w1 = e.during_notify h (put w h (notify_emit q0.can_dequeue_noti q0)) in
        if not (is_valid w1 h)
        then (false, w1)
        else (let q1 = w1.queues h in
            let w2 = if is_empty free_head q1 then put w1 h (need_attach e q1) else w1 in
            if is_empty free_head q1 && not (is_valid w2 h)
            then (false, w2)
            else (let q2 = w2.queues h in
                if not (is_empty free_head q2)
                then (true, w2)
                else if wait && ltb 0 (get_node_count q2 node_acquire q2.list)
                then (let w3 = e.during_wait h w2 in (is_valid w3 h, w3))
                else (false, w2))))

-- `tbm_surface_queue_can_acquire`
unfoldable pub can_acquire : Env → World → ℕ → Bool → Bool × World
can_acquire e w h wait =
    if not (is_valid w h)
    then (false, w)
    else (let q = w.queues h in
        if not (is_empty dirty_head q)
        then (true, w)
        else if wait && ltb 0 (get_node_count q node_dequeue q.list)
        then (let w1 = e.during_wait h w in (is_valid w1 h, w1))
        else (false, w))
