-- ===== src/Server.antt =====
-- internal/server: the WebDAV handlers, one child module for each part.
pub mod Range
pub mod Config
mod Samples
pub mod Breaker
pub mod Fetch
pub mod Logs
pub mod Routing
pub mod Stream
pub mod Links
pub mod Listing
pub mod Sweep
pub mod Browser
pub mod Setup
pub mod Actions
pub mod Access
pub mod Recording
