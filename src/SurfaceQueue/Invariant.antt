-- ===== src/SurfaceQueue/Invariant.antt =====
-- What holds of a surface queue while its links are in order, and of which lists it then consists.
mod Defs
mod Moves
mod Attach
mod Search
mod Forget
pub use Defs.*
pub use Moves.*
pub use Attach.*
pub use Search.*
pub use Forget.*
