-- ===== src/DrmHelper.antt =====
-- src/tbm_drm_helper_client.c and src/tbm_drm_helper_server.c: how descriptors of the DRM device are
-- passed on.
pub mod Decimal
pub mod Fd
pub mod RoundTrip
pub mod Passed
pub mod Server
pub mod ServerLog
pub mod ServerLife
pub mod Client
pub mod ClientLog
pub mod Exchange
mod Examples
