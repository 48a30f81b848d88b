-- ===== src/SurfaceQueue/Contract.antt =====
-- src/tbm_surface_queue.c: what the operations promise on a queue whose links are in order.
pub mod Keeps
pub mod Enqueue
pub mod Acquire
pub mod Release
pub mod Resize
pub mod Dequeue
pub mod Growth
pub mod Live
pub mod Clear
pub mod Farewell
pub mod Stale
pub mod Freed
pub mod Fifo
pub mod Limits
pub mod Handles
pub mod Ready
pub mod Refused
pub mod Calls
