-- ===== src/FerriskeyLogin.antt =====
-- crates/oxidt-auth/src/topcoat/ferriskey_login.js: the login page before a FerrisKey server. It is
-- cut at each `await` as the local login page is, and shares the requests, the WebAuthn options and
-- the base64url of that page's script, of which its own are copies.
pub mod State
pub mod Ui
pub mod Ceremony
pub mod Forms
pub mod Run
pub mod Protocol
pub mod Refines
pub mod Reached
pub mod Recovery
pub mod Password
mod Examples
