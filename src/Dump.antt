-- ===== src/Dump.antt =====
-- src/tbm_surface_internal.c: the dumps of surfaces into a ring of buffer objects, from
-- `tbm_surface_internal_dump_start` to `tbm_surface_internal_dump_end`, and the captures.
pub mod State
pub mod File
pub mod Begin
pub mod Store
pub mod Finish
pub mod Capture
pub mod Ring
pub mod Window
pub mod Only
pub mod Lone
mod Examples
