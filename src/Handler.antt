-- ===== src/Handler.antt =====
-- The request handlers, handler/: for one origin, and for many tenants.
pub mod Range
pub mod Directives
pub mod Path
pub mod Writer
pub mod Cdn
pub mod Fetching
pub mod Requests
pub mod Tenants
pub mod Serving
pub mod Config
