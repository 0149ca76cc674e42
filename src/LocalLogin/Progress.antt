-- ===== src/LocalLogin/Progress.antt =====
-- How a page that is loading gets back to the user: what each reply does to the requests that it
-- waits for.
pub mod Gauge
pub mod Ceremonies
pub mod Handlers
pub mod Acts
pub mod Ends
