-- ===== src/FerriskeyLogin/Refines.antt =====
-- The page refines the protocol.
pub mod Views
pub mod Replies
pub mod Start
pub mod Moves
