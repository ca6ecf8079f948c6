-- ===== src/Router.antt =====
-- linuxrouter/router.go: routers on a Linux host.
pub mod Types
pub mod Equal
pub mod Names
pub mod Validate
pub mod Render
pub mod Patch
pub mod Status
pub mod Client
