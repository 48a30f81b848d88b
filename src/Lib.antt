-- ===== src/Lib.antt =====
-- A model of libtbm, the Tizen buffer manager: its surface queue, which passes surfaces between a
-- producer and a consumer, the intrusive list that it stands on, the buffer objects, from allocation
-- and import to the last reference, the surfaces that consist of buffer objects, the fences of the
-- kernel, and the helpers that pass on descriptors of the DRM device.
--
-- Parts
--   Base, Base/Tests, Base/Lists: Boolean tests on numbers, and lists of numbers as sets.
--   Links: src/list.h, one function for each of list_inithead, list_add, list_addtail,
--     list_replace, list_del, list_delinit and LIST_IS_EMPTY. Links/Ring says what a well-formed list
--     is and what each operation makes of it, Links/Steps what a sequence of them makes of it.
--   SurfaceQueue: src/tbm_surface_queue.c and src/tbm_surface_queue.h.
--     State: the structs and enums, the globals, the environment, _tbm_surface_queue_is_valid.
--     Notify: _notify_* and _trace_*.
--     Nodes: _queue_* and the five _tbm_surface_queue_* functions that move nodes.
--     Impl: tbm_queue_default_impl and tbm_queue_sequence_impl.
--     Transfer: tbm_surface_queue_enqueue, _dequeue, _release, _acquire, _can_dequeue, _can_acquire.
--     Manage: tbm_surface_queue_create, _sequence_create, _destroy, _reset, _notify_reset, _flush,
--       _set_size, _get_surfaces.
--     Callbacks: tbm_surface_queue_add_*_cb, _remove_*_cb, _set_alloc_cb and the four getters.
--     Invariant: what it means that a queue is in order, and what each change of links does to that.
--     Contract: the theorems on the operations. Examples: concrete queues and runs.
--   Bo: src/tbm_bufmgr.c and src/tbm_bufmgr_int.h.
--     State: struct _tbm_bo and struct _tbm_bufmgr, the back end, _tbm_bo_is_valid.
--     Lock: _tbm_bo_lock, _tbm_bo_unlock, tbm_bo_map, tbm_bo_unmap, tbm_bo_locked.
--     UserData: user_data_lookup, user_data_delete and tbm_bo_add_, _set_, _get_, _delete_user_data.
--     Life: tbm_bo_ref and tbm_bo_unref.
--     Alloc: tbm_bo_alloc, _import, _import_fd, _export, _export_fd, _get_handle, _size, _get_flags,
--       _swap, and _tbm_bo_set_surface.
--     Init: tbm_bufmgr_init, tbm_bufmgr_deinit, tbm_bufmgr_get_capability, and tbm_backend_init of
--       src/tbm_bufmgr_backend.c.
--     InitCount: tbm_bufmgr_deinit undoes tbm_bufmgr_init. Kept, Steps, Reach: what holds of the list
--       of buffer objects whatever is done to it, with the operations as the steps of a relation.
--       Import: importing a key twice.
--     Private: the other functions of src/tbm_bufmgr_backend.c.
--     Keys, KeyOps, KeyRuns: operations on user data. Balance, Farewell, Once: the other theorems.
--     Examples, ListExamples: a manager with one buffer object.
--   Surface: src/tbm_surface_internal.c, src/tbm_surface.h, src/tbm_surface.c and
--     src/tbm_bufmgr_int.h.
--     Format: the format codes. Table: tbm_surface_internal_get_num_planes and _get_bpp. Documented:
--       what the comments on the formats say. Bits: the comparison.
--     State: struct _tbm_surface, the list of surfaces, and the validity test of a surface.
--     Create: tbm_surface_internal_create_with_flags and _create_with_bos.
--     Life: tbm_surface_internal_ref, _unref, _destroy and _tbm_surface_internal_destroy.
--     Access: tbm_surface_internal_get_info, _unmap, _get_num_bos, _get_bo, _get_size, _get_width,
--       _get_height, _get_format, _get_plane_data, _get_plane_bo_idx, _set_debug_pid.
--     Api: the functions of src/tbm_surface.c. Query: the query of supported formats.
--     Data: tbm_surface_internal_add_, _set_, _get_ and _delete_user_data, _set_debug_data, and
--       _tbm_surface_internal_get_debug_data.
--     GivenBack, Bos, Counted, Created, Gone, Counter, Shared, Debug: the theorems.
--       Examples: a manager with one surface.
--   Dump: the dumps and captures of src/tbm_surface_internal.c.
--     State: tbm_surface_dump_info and tbm_surface_dump_buf_info. File: the two functions that write
--       files. Begin: tbm_surface_internal_dump_start. Store: _dump_buffer and _dump_shm_buffer.
--     Finish: _dump_end. Capture: _capture_buffer and _capture_shm_buffer.
--     Ring, Window, Only, Lone: the theorems. Examples: a dump with two buffers.
--   Sync: src/tbm_sync.c. Wait, Name: the theorems. Examples: a driver.
--   DrmHelper: src/tbm_drm_helper_client.c and src/tbm_drm_helper_server.c.
--     Decimal: what snprintf and sscanf do with "%d". RoundTrip: reading what was printed.
--     Fd: tbm_drm_helper_set_fd, _unset_fd, _get_fd, _get_master_fd, _set_tbm_master_fd,
--       _unset_tbm_master_fd. Passed: the theorems.
--     Server: _send_server_auth_info, tbm_drm_helper_wl_auth_server_init and _deinit, and the binding
--       of the global. ServerLog, ServerLife: the theorems.
--     Client: tbm_drm_helper_get_auth_info and its handlers. ClientLog: what it holds in the end.
--     Exchange: the client and the server together. Examples: a device and a connection.
--
-- How the parts interact
--   A node of a queue is linked twice: by `link` into `list`, which holds every attached node, and by
--   `item_link` into the free queue, the dirty queue or, for a sequence queue, dequeue_list, or, while
--   the user has the surface, into none. Transfer and Manage change these lists through Nodes, and
--   Nodes through Links. The callbacks of Notify run at the end of an operation. A surface gets its
--   buffer objects through Bo.Alloc, or from the back end where that has surface_bo_alloc, refers to
--   them by address, maps them through Bo.Lock and gives them back through Bo.Life. The first surface
--   sets the buffer manager up, and the last one gives its reference up. A dump measures a surface, and
--   takes its buffer objects from the manager in g_surface_bufmgr. What the authentication server
--   sends for a client's request are the events that the client's second round trip dispatches.
--
-- State
--   A queue is a record `Queue` with the fields of struct _tbm_surface_queue, of its impl_data, and
--   the memory that its nodes lie in. The memory of the `item_link`s is two functions from addresses
--   to addresses. Address 0 is NULL, 1, 2 and 3 are the heads of the free queue, the dirty queue and
--   dequeue_list, and nodes have addresses from 4 on. Each queue has addresses of its own. calloc
--   never gives an address twice. What is written to a node after free changes that cell and nothing
--   else, so reads and writes through stale pointers are visible in the model. `list`, the list of
--   handles and the lists of callbacks, from which a node is taken once at most, are sequences.
--   A global state is a `World`, with the handles of surf_queue_list in order. Calls of code outside
--   the file and condition variables signalled are recorded in the field `calls`, newest first.
--   An `int` is the 32-bit pattern that holds it, with its wrap-around and its signed order written
--   out.
--
--   The buffer manager is a record `Manager`, with `live` for a gBufMgr that is not NULL, the buffer
--   objects as a function from addresses, and the calls of the back end and of free_func in `calls`,
--   newest first. Its lock type is one of three, as tbm_bufmgr_init sets it. A user data list is a
--   sequence of items, the newest first.
--
--   A dump is a record `Dump` with g_dump_info, the surfaces, and the files written. The nodes of
--   surface_list are numbered from 1 on, and 0 is its head. What a buffer object holds is the list of
--   spans of memory that were copied to it. The time in the name of a file is left out.
--
--   Surfaces are a record `Surfaces`: the buffer manager, `owned` for a g_surface_bufmgr that is not
--   NULL, the list of surfaces, the surfaces as a function from addresses, and debug_key_list. Their
--   arrays of planes and buffer objects are sequences of as many as are in use. A text is the list of
--   its bytes. A result `none` of an operation on surfaces is a write through NULL, or past the end of
--   `bos` or `planes`, which have four elements. A result `none` of
--   tbm_surface_internal_dump_shm_buffer is a copy of a negative number of bytes.
--
-- Parameters
--   `Env` holds what the code outside decides: whether calloc succeeds, the surfaces that alloc_cb and
--   tbm_surface_internal_create_with_flags give, whether tbm_bufmgr_init succeeds, and what other code
--   does to the world while can_dequeue runs its callbacks and while can_dequeue and can_acquire wait.
--   `Backend` holds the same for buffer objects: which functions the back end has and what they
--   return, whether there is memory, and what other threads do while _tbm_bo_lock has the mutex
--   released. `System` says whether tbm_bufmgr_init gets memory and a module, and which lock type
--   BUFMGR_LOCK_TYPE names. `Platform` adds what the back end says of planes, its surface_bo_alloc, and
--   the memory for surfaces and debug data. Memory for copies of texts, but those of the
--   authentication client, and for debug_key_list is taken to be there.
--   `Driver` is the sync driver: what each call of ioctl returns. `Os` is the environment and the
--   descriptors of a process, `Drm` the device, `Wayland` and `Connection` are libwayland on the side
--   of the server and of the client, with the events that a round trip dispatches. `Media` is the file
--   system, libpng, and the memory that a dump reads.
--
-- Fuel
--   A walk along `item_link`s gets `rounds q` rounds, one more than there are attached nodes. On a
--   queue in order each list holds attached nodes only, each once, so that a walk ends in time. The
--   result `none` is for links that are not in order: a walk that comes to the head of another list,
--   where the code would read a head as if it were a node, or one that does not end.
--   The loop of tbm_sync_fence_wait gets a number of attempts; it needs one more than the driver
--   interrupts. A number of 32 bits has at most 10 decimal digits.
--
-- In order
--   `IsQueue q v` says that the links of q form the lists that the view v names, that these consist
--   of attached nodes, that num_attached counts the nodes, and that no two nodes have one surface. The
--   view also names, for each address, the list that it is on, 0 for a node that is on none.
--
-- What C does not define
--   LIST_DEL through NULL or through pointers to a node that was freed is, in the model, a write to the
--   cell with that address. Contract/Live defines what it is that the nodes of a queue are deleted, one
--   after the other, through pointers to heads and to nodes that are still attached.
--
-- Not modelled
--   The mutexes: an operation is one step, and only the waits and the callbacks of can_dequeue let
--   other code in between. Other callbacks do not call back into the queue. Logging and tracing.
--   What tbm_surface_internal_get_info lets other threads do between two mappings.
--   In src/tbm_bufmgr.c: loading and checking modules, the displays that are bound, the switches for
--   debug output, the printed lists, and what tbm_bufmgr_deinit does with surfaces that are left.
--   In src/tbm_surface_internal.c and src/tbm_surface.c: the names of formats for log lines, and
--   set_last_result, which only some builds have.
--   In src/tbm_bufmgr_backend.c: tbm_backend_free, which only frees. The back ends are other packages.
--   In src/tbm_drm_helper_client.c: globals that are announced only during the second round trip.
--   What the functions for dumps and captures leave to libpng: the bytes around the rows.
pub mod Base
pub mod Links
pub mod Bo
pub mod Surface
pub mod Dump
pub mod SurfaceQueue
pub mod Sync
pub mod DrmHelper
