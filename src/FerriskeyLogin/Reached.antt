-- ===== src/FerriskeyLogin/Reached.antt =====
-- What holds of every page that comes about.
pub mod Sound
pub mod Ends
pub mod Location
pub mod Abandon
