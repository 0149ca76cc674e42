-- ===== src/LocalLogin.antt =====
-- crates/oxidt-auth/src/topcoat/local_login.js. An async function is cut at each `await`: what runs
-- before it is an operation on the page, which leaves a `Task` pending, and what runs after it is
-- an operation that takes the reply. `Run` puts the pieces together as the steps of a page.
pub mod State
pub mod Ui
pub mod Ceremony
pub mod Flow
pub mod Forms
pub mod Actions
pub mod Run
pub mod Stale
pub mod Invariant
pub mod Abandon
pub mod Stuck
pub mod Outcomes
pub mod Redirect
pub mod Mounting
pub mod Progress
pub mod Mails
mod Examples
