-- ===== src/Editor/Preview.antt =====
-- scripts/markdown-editor.js, the live preview: `decorations`, which styles and hides the syntax on
-- the lines that are not edited, and `blocks`, which replaces tables and diagrams.
pub mod Ranges
pub mod Nodes
pub mod Blocks
pub mod Hide
pub mod Every
pub mod Visible
pub mod Breaks
pub mod Walk
pub mod Cache
pub mod Widgets
mod Examples
