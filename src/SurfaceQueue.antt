-- ===== src/SurfaceQueue.antt =====
-- src/tbm_surface_queue.c: queues of surfaces between a producer and a consumer.
pub mod State
pub mod Notify
pub mod Nodes
pub mod Impl
pub mod Transfer
pub mod Manage
pub mod Callbacks
pub mod Invariant
pub mod Contract
pub mod Examples
