-- ===== src/Editor.antt =====
-- crates/oxidt-markdown-editor/scripts: the slash commands, the live preview, the textarea that the
-- editor stands in for, and the custom element.
pub mod Document
pub mod Slash
pub mod Mount
pub mod Controls
pub mod Wiring
pub mod Life
pub mod Element
pub mod Preview
mod Examples
