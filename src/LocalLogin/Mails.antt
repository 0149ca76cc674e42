-- ===== src/LocalLogin/Mails.antt =====
-- Which of the user's clicks make the server mail a code.
pub mod Kept
pub mod Handlers
pub mod Asked
pub mod Unasked
