-- ===== src/LocalLogin/Redirect.antt =====
-- Where the page goes: `finish` and what leads to it.
pub mod Kept
pub mod Handlers
pub mod Flow
pub mod Granted
