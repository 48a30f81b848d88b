-- ===== src/SurfaceQueue/Manage.antt =====
-- src/tbm_surface_queue.c: creation, destruction, and what empties or resizes a queue.
use libtbm.Base.{
  ℕ, zero, suc, Bool, true, false, not, ◌&&◌, ◌||◌, List, [], ◌∷◌, map, Option, none, some, ◌==◌,
  if◌then◌else◌, ◌>>=◌, is_positive, length, erase,
}
use libtbm.SurfaceQueue.State.{
  Queue, World, Env, Impl, default_impl, sequence_impl, Error, error_none, invalid_queue,
  invalid_parameter, call, put, signal_free, is_valid, node_none, free_head, dirty_head, is_node,
  slt32, sub32, dec32,
}
use libtbm.SurfaceQueue.Notify.{notify_emit, notify_remove_all, trace_remove_all}
use libtbm.SurfaceQueue.Nodes.{rounds, delete_node, queue_init, detach}
use libtbm.SurfaceQueue.Impl.{impl_init, impl_reset}

-- `LIST_FOR_EACH_ENTRY_SAFE` over `list` with `_queue_delete_node`.
unfoldable pub delete_nodes : List ℕ → Queue → Queue
delete_nodes [] q = q
delete_nodes (n ∷ l) q = delete_nodes l (delete_node n q)

-- "Reset queue": what `reset`, `flush` and a flushing `set_size` do to the nodes.
unfoldable pub drop_all : Queue → Queue
drop_all q =
    let q1 = queue_init dirty_head (queue_init free_head (delete_nodes q.list q)) in
    record q1 { list = []; num_attached = 0 }

-- `tbm_surface_queue_reset`
unfoldable pub reset : World → ℕ → (width height format : ℕ) → Error × World
reset w h width height format =
    if not (is_valid w h)
    then (invalid_queue, w)
    else (let q = w.queues h in
        if width == q.width && (height == q.height && format == q.format)
        then (error_none, w)
        else (let q1 = drop_all (record q { width = width; height = height; format = format }) in
            (error_none, put w h (notify_emit q.reset_noti (call signal_free (impl_reset q1))))))

-- `tbm_surface_queue_notify_reset`
unfoldable pub notify_reset : World → ℕ → Error × World
notify_reset w h =
    if not (is_valid w h)
    then (invalid_queue, w)
    else (let q = w.queues h in (error_none, put w h (notify_emit q.reset_noti q)))

-- `tbm_surface_queue_flush`
unfoldable pub flush : World → ℕ → Error × World
flush w h =
    if not (is_valid w h)
    then (invalid_queue, w)
    else (let q = w.queues h in
        if q.num_attached == 0 then (error_none, w) else (
          error_none,
          put w h (notify_emit q.reset_noti (call signal_free (impl_reset (drop_all q)))),
        ))

-- The loop of `tbm_surface_queue_set_size` over `free_queue`.
unfoldable pub detach_free : ℕ → (need_del node next : ℕ) → Queue → Option Queue
detach_free zero need_del n next q = none
detach_free (suc k) need_del n next q = elim (n == free_head) [
  | true ↦ some q
  | false ↦ elim (is_node n) [
    | false ↦ none
    | true ↦ elim (detach (q.nodes n).surface q) [
      | none ↦ none
      | some q' ↦ elim (dec32 need_del == 0) [
        | true ↦ some q'
        | false ↦ detach_free k (dec32 need_del) next (q'.links.next next) q'
      ]
    ]
  ]
]

-- `tbm_surface_queue_set_size` on a valid queue, with and without `flush`.
unfoldable pub set_size_on_queue : ℕ → Bool → Queue → Option Queue
set_size_on_queue queue_size true q =
    let q1 = record (drop_all q) { queue_size = queue_size } in
    some (notify_emit q.reset_noti (call signal_free (impl_reset q1)))
set_size_on_queue queue_size false q = do
  let first = q.links.next free_head
  q1 ←
      if slt32 queue_size q.queue_size
      then detach_free (rounds q) (sub32 q.queue_size queue_size) first (q.links.next first) q
      else some q
  some (record q1 { queue_size = queue_size })

unfoldable pub set_size : World → ℕ → (queue_size : ℕ) → Bool → Option (Error × World)
set_size w h queue_size flush =
    if not (is_valid w h)
    then some (invalid_queue, w)
    else if not (is_positive queue_size)
    then some (invalid_parameter, w)
    else if (w.queues h).queue_size == queue_size && not flush
    then some (error_none, w)
    else do q ← set_size_on_queue queue_size flush (w.queues h); some (error_none, put w h q)

-- `tbm_surface_queue_get_surfaces`: `surfaces[0 .. *num - 1]`, and `*num`.
unfoldable pub get_surfaces : World → ℕ → Error × List ℕ × ℕ
get_surfaces w h =
    if not (is_valid w h)
    then (invalid_queue, [], 0)
    else (let q = w.queues h in (error_none, map (λ n. (q.nodes n).surface) q.list, length q.list))

-- `tbm_surface_queue_destroy`: what becomes of the queue's own memory before it is freed.
unfoldable pub tear_down : Queue → Queue
tear_down q =
    let q1 = delete_nodes q.list q in
    let q2 = notify_emit q1.destroy_noti q1 in
    record q2 {
      destroy_noti = notify_remove_all q2.destroy_noti;
      dequeuable_noti = notify_remove_all q2.dequeuable_noti;
      dequeue_noti = notify_remove_all q2.dequeue_noti;
      can_dequeue_noti = notify_remove_all q2.can_dequeue_noti;
      acquirable_noti = notify_remove_all q2.acquirable_noti;
      reset_noti = notify_remove_all q2.reset_noti;
      trace_noti = trace_remove_all q2.trace_noti;
    }

-- The last queue takes the buffer manager with it.
unfoldable pub destroy : World → ℕ → World
destroy w h =
    if not (is_valid w h)
    then w
    else (let left = erase h w.handles in
        record (put w h (tear_down (w.queues h))) {
          handles = left;
          bufmgr = elim left [ [] ↦ false | _ ∷ _ ↦ w.bufmgr ];
        })

-- `_tbm_surface_queue_init`, on memory that `calloc` has zeroed.
unfoldable pub queue_of : (queue_size width height format flags : ℕ) → Impl → Queue
queue_of queue_size width height format flags impl =
    impl_init (queue_init dirty_head (queue_init free_head zeroed))
  where
    zeroed : Queue
    zeroed = record {
      width = width;
      height = height;
      format = format;
      queue_size = queue_size;
      num_attached = 0;
      links = record { next = λ _. 0; prev = λ _. 0 };
      count = λ _. 0;
      list = [];
      nodes = λ _. record { surface = 0; type = node_none; priv_flags = 0 };
      next_node = 4;
      destroy_noti = [];
      dequeuable_noti = [];
      dequeue_noti = [];
      can_dequeue_noti = [];
      acquirable_noti = [];
      reset_noti = [];
      trace_noti = [];
      impl = impl;
      flags = flags;
      alloc_cb = 0;
      free_cb = 0;
      alloc_cb_data = 0;
      calls = [];
    }

-- The body that `tbm_surface_queue_create` and `tbm_surface_queue_sequence_create` share; `none` if
-- there is no buffer manager, whose list the code then writes to all the same.
unfoldable pub create_with :
    Env → World → (queue_size width height format flags : ℕ) → Impl → Option (ℕ × World)
create_with e w queue_size width height format flags impl =
    if not
      (is_positive queue_size && (is_positive width && (is_positive height && is_positive format)))
    then some (0, w)
    else (let h = e.calloc_queue w in
        if h == 0
        then some (0, w)
        else if not (e.calloc_data w)
        then some (0, w)
        else if not (w.bufmgr || e.bufmgr_init w)
        then none
        else some (
          h,
          record (put w h (queue_of queue_size width height format flags impl)) {
            bufmgr = true;
            handles = h ∷ w.handles;
          },
        ))

-- `tbm_surface_queue_create`
unfoldable pub create :
    Env → World → (queue_size width height format flags : ℕ) → Option (ℕ × World)
create e w queue_size width height format flags =
    create_with e w queue_size width height format flags default_impl

-- `tbm_surface_queue_sequence_create`
unfoldable pub sequence_create :
    Env → World → (queue_size width height format flags : ℕ) → Option (ℕ × World)
sequence_create e w queue_size width height format flags =
    create_with e w queue_size width height format flags sequence_impl
