-- ===== src/Surface.antt =====
-- src/tbm_surface_internal.c and src/tbm_surface.c: surfaces, which consist of buffer objects.
pub mod Format
pub mod Table
pub mod Documented
pub mod Bits
pub mod State
pub mod Create
pub mod Life
pub mod Access
pub mod Data
pub mod Api
pub mod Query
pub mod GivenBack
pub mod Bos
pub mod Counted
pub mod Created
pub mod Gone
pub mod Debug
pub mod Counter
pub mod Shared
pub mod Examples
