-- ===== src/SurfaceQueue/State.antt =====
-- src/tbm_surface_queue.c and tbm_surface_queue.h: the data of a surface queue and of the module.
use libtbm.Base.{ℕ, ◌+◌, ◌-◌, ◌%◌, ◌^◌, Bool, not, ◌&&◌, List, ◌∷◌, ltb, ◌==◌, has}
use libtbm.Links.{Links, update}

-- Addresses. 0 is NULL; 1, 2 and 3 are the heads of `free_queue`, `dirty_queue` and, for a sequence
-- queue, `dequeue_list`; from 4 on, a number is a `queue_node` and the `item_link` in it.
abbrev pub free_head : ℕ
free_head = 1

abbrev pub dirty_head : ℕ
dirty_head = 2

abbrev pub dequeue_head : ℕ
dequeue_head = 3

-- `container_of` gives a node here only.
abbrev pub is_node : ℕ → Bool
is_node a = ltb 3 a

-- `int` arithmetic on 32-bit patterns.
abbrev pub inc32 : ℕ → ℕ
inc32 n = (n + 1) % 2 ^ 32

abbrev pub dec32 : ℕ → ℕ
dec32 n = (n + 2 ^ 32 - 1) % 2 ^ 32

abbrev pub sub32 : ℕ → ℕ → ℕ
sub32 a b = (a + 2 ^ 32 - b) % 2 ^ 32

-- `a < b` as signed numbers.
abbrev pub slt32 : ℕ → ℕ → Bool
slt32 a b = ltb ((a + 2 ^ 31) % 2 ^ 32) ((b + 2 ^ 31) % 2 ^ 32)

-- `Queue_Node_Type`
pub data NodeType : Type 0 where
  node_none node_dequeue node_enqueue node_acquire node_release : NodeType

abbrev pub type_code : NodeType → ℕ
type_code node_none = 0
type_code node_dequeue = 1
type_code node_enqueue = 2
type_code node_acquire = 3
type_code node_release = 4

-- `tbm_surface_queue_error_e`
pub data Error : Type 0 where
  error_none invalid_surface invalid_queue empty invalid_parameter : Error
  surface_alloc_failed already_exist unknown_surface : Error

-- `tbm_surface_queue_trace`
pub data Trace : Type 0 where
  trace_none trace_dequeue trace_enqueue trace_acquire trace_release : Trace

-- `queue_node` without its two links.
pub record Node : Type 0 where
  pub surface : ℕ
  pub type : NodeType
  pub priv_flags : ℕ

-- `queue_notify` and `queue_trace`; a callback is known by its address.
pub record Notify : Type 0 where
  pub cb : ℕ
  pub data_ptr : ℕ

-- What the queue asks of code outside this file, as it happens.
pub data Call : Type 0 where
  surface_ref surface_unref surface_destroy dump_buffer : ℕ → Call
  create_with_flags : (width height format flags : ℕ) → Call
  call_alloc : (cb data_ptr : ℕ) → Call
  call_free : (cb data_ptr surface : ℕ) → Call
  call_notify : Notify → Call
  call_trace : Notify → ℕ → Trace → Call
  signal_free signal_dirty : Call

-- `tbm_queue_default_impl` and `tbm_queue_sequence_impl`
pub data Impl : Type 0 where
  default_impl sequence_impl : Impl

-- `struct _tbm_surface_queue` with its `impl_data`, and the memory that its nodes lie in.
pub record Queue : Type 0 where
  pub width : ℕ
  pub height : ℕ
  pub format : ℕ
  pub queue_size : ℕ
  pub num_attached : ℕ
  pub links : Links  -- the heads and every `item_link`
  pub count : ℕ → ℕ  -- `queue.count` of each head
  pub list : List ℕ  -- the nodes on `list`, by their `link`
  pub nodes : ℕ → Node
  pub next_node : ℕ  -- the address that `calloc` gives next; none is given twice
  pub destroy_noti : List Notify
  pub dequeuable_noti : List Notify
  pub dequeue_noti : List Notify
  pub can_dequeue_noti : List Notify
  pub acquirable_noti : List Notify
  pub reset_noti : List Notify
  pub trace_noti : List Notify
  pub impl : Impl
  pub flags : ℕ
  pub alloc_cb : ℕ
  pub free_cb : ℕ
  pub alloc_cb_data : ℕ
  pub calls : List Call  -- newest first

abbrev pub call : Call → Queue → Queue
call c q = record q { calls = c ∷ q.calls }

-- The globals: `g_surf_queue_bufmgr`, its `surf_queue_list`, and `b_dump_queue`.
pub record World : Type 0 where
  pub bufmgr : Bool
  pub handles : List ℕ
  pub queues : ℕ → Queue
  pub dump_queue : Bool

abbrev pub put : World → ℕ → Queue → World
put w h q = record w { queues = update w.queues h q }

-- Code outside this file. A callback and another thread run where the locks are released.
pub record Env : Type 0 where
  pub calloc_node : Queue → Bool  -- whether `_queue_node_create` gets its memory
  pub calloc_notify : Queue → Bool  -- the same for a callback's item
  pub calloc_queue : World → ℕ  -- the new handle, or NULL
  pub calloc_data : World → Bool
  pub bufmgr_init : World → Bool  -- whether `tbm_bufmgr_init` gives a buffer manager
  pub alloc_surface : ℕ → ℕ → Queue → ℕ  -- the user's `alloc_cb`
  pub create_surface : ℕ → ℕ → ℕ → ℕ → Queue → ℕ  -- `tbm_surface_internal_create_with_flags`
  pub during_notify : ℕ → World → World  -- what else happens while callbacks run
  pub during_wait : ℕ → World → World  -- what other threads do during `pthread_cond_wait`

-- `_tbm_surface_queue_is_valid`
unfoldable pub is_valid : World → ℕ → Bool
is_valid w h = not (h == 0) && (w.bufmgr && has h w.handles)
