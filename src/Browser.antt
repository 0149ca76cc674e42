-- ===== src/Browser.antt =====
-- What both login scripts of crates/oxidt-auth/src/topcoat share with the browser: JSON values as
-- the scripts test them, `fetch` replies, and the WebAuthn options and assertions.
pub mod Http
pub mod Webauthn
