-- ===== src/Editor/Document.antt =====
-- What the editor's code reads of CodeMirror: the document by lines, the selection, and the syntax
-- tree that the Markdown parser gives. CodeMirror and the parser are not part of the repository, so
-- a document is an argument and `IsDocument` states what CodeMirror documents of its `Text`.
use oxidt_kit.Kit.{ℕ, suc, ◌≤◌, ◌<◌, ◌≡◌, Bool, false, Text}

-- `lineAt`: the ends of a line, without its line break, and its text.
pub record Line : Type 0 where
  pub from : ℕ
  pub to : ℕ
  pub text : Text

pub record Document : Type 0 where
  pub length : ℕ
  pub line_at : ℕ → Line
  pub slice : ℕ → ℕ → Text  -- sliceDoc
  pub is_break : ℕ → Bool  -- whether a line break stands at a position

-- At every position of the document `lineAt` gives the line around it; lines follow one another
-- with one line break between them, and hold none.
pub record IsDocument (d : Document) : Type 0 where
  pub from-le : (i : ℕ) → i ≤ d.length → (d.line_at i).from ≤ i
  pub le-to : (i : ℕ) → i ≤ d.length → i ≤ (d.line_at i).to
  pub to-le : (i : ℕ) → i ≤ d.length → (d.line_at i).to ≤ d.length
  pub same_line :
      (i j : ℕ)
      → i ≤ d.length
      → (d.line_at i).from ≤ j
      → j ≤ (d.line_at i).to
      → d.line_at j ≡ d.line_at i
  pub next_line :
      (i : ℕ)
      → i ≤ d.length
      → suc (d.line_at i).to ≤ d.length
      → (d.line_at (suc (d.line_at i).to)).from ≡ suc (d.line_at i).to
  pub unbroken :
      (i j : ℕ)
      → i ≤ d.length
      → (d.line_at i).from ≤ j
      → j < (d.line_at i).to
      → d.is_break j ≡ false

-- A range of the selection, or of lines.
pub record Range : Type 0 where
  pub from : ℕ
  pub to : ℕ

-- The names of the nodes that the code tells apart.
pub data Name : Type 0 where
  image url link link_mark list_mark bullet_list header_mark : Name
  atx_heading : ℕ → Name
  strong_emphasis emphasis strikethrough inline_code : Name
  html_block html_tag fenced_code code_block code_mark code_info code_text : Name
  table table_header table_row table_cell other : Name
