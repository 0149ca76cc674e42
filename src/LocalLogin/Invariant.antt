-- ===== src/LocalLogin/Invariant.antt =====
-- What holds of the local login page between two events.
pub mod Defs
pub mod Ui
pub mod Ceremonies
pub mod Forms
pub mod Buttons
pub mod Moves
