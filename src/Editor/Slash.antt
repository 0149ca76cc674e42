-- ===== src/Editor/Slash.antt =====
-- scripts/slash-commands.js: the commands, the completion source, and what a command inserts.
pub mod Menu
pub mod Exact
pub mod Labels
use oxidt_kit.Kit.{
  ℕ, suc, ◌+◌, ◌-◌, ◌==◌, leb, not, ◌&&◌, ◌||◌, Bool, true, false, Text, String, nonempty,
  nonempty_string, codes, starts_with, length, Option, none, some, List, [], ◌∷◌, ◌++◌, map,
  if◌then◌else◌,
}
use text.Mathlib.Text.{◌==◌ as str_eq}
use oxidt_kit.Browser.Http.{Value, string}
use oxidt_kit.Editor.Document.{
  Line, Document, Range, Name, fenced_code, code_block, html_block, inline_code,
}

-- An entry of `defaults`; the fourth item of an entry may be missing.
pub record Default : Type 0 where
  pub name : String
  pub detail : String
  pub insert : Text
  pub cursor : Option ℕ

abbrev entry : String → String → String → Default
entry n d i = record { name = n; detail = d; insert = codes i; cursor = none }

abbrev entry_at : String → String → String → ℕ → Default
entry_at n d i c = record { name = n; detail = d; insert = codes i; cursor = some c }

abbrev pub defaults : List Default
defaults =
    entry "heading-1" "Heading 1" "# "
    ∷ entry "heading-2" "Heading 2" "## "
    ∷ entry "heading-3" "Heading 3" "### "
    ∷ entry "bullet-list" "Bullet list" "- "
    ∷ entry "numbered-list" "Numbered list" "1. "
    ∷ entry "task-list" "Task list" "- [ ] "
    ∷ entry "quote" "Quote" "> "
    ∷ entry_at "code" "Code block" "```\n\n```" 4
    ∷ entry_at "diagram" "Mermaid diagram" "```mermaid\nflowchart LR\n    A --> B\n```" 10
    ∷ []

pub record Command : Type 0 where
  pub label : Text
  pub detail : String
  pub insert : Text
  pub cursor : ℕ

-- `labels[name]`, of an object that was parsed from JSON.
abbrev pub property : String → List (String × Value) → Option Value
property k [] = none
property k ((j, v) ∷ m) = if str_eq j k then some v else property k m

-- `typeof v === "string" && v ? v : detail`.
abbrev pub shown_label : Option Value → String → String
shown_label (some (string s)) d = if nonempty_string s then s else d
shown_label _ d = d

abbrev pub cursor_or : Option ℕ → Text → ℕ
cursor_or none t = length t
cursor_or (some c) t = c

unfoldable pub command : List (String × Value) → Default → Command
command labels d = record {
  label = b'/' ∷ codes d.name;
  detail = shown_label (property d.name labels) d.detail;
  insert = d.insert;
  cursor = cursor_or d.cursor d.insert;
}

-- The commands of `slashCommands`.
unfoldable pub commands : List (String × Value) → List Command
unfolding command
commands labels = map (command labels) defaults

-- `/^\/[a-z0-9-]*$/`.
abbrev pub is_slug : ℕ → Bool
is_slug c = (leb b'a' c && leb c b'z') || (leb b'0' c && leb c b'9') || (c == b'-')

abbrev pub all_slug : Text → Bool
all_slug [] = true
all_slug (c ∷ t) = is_slug c && all_slug t

abbrev pub is_slash_word : Text → Bool
is_slash_word [] = false
is_slash_word (c ∷ t) = (c == b'/') && all_slug t

-- What the completion source sees: the state, and the names of the nodes around the position,
-- innermost first.
pub record Context : Type 0 where
  pub read_only : Bool
  pub editable : Bool
  pub main : Range
  pub other_ranges : List Range
  pub doc : Document
  pub enclosing : ℕ → List Name
  pub pos : ℕ

abbrev pub is_literal : Name → Bool
is_literal fenced_code = true
is_literal code_block = true
is_literal html_block = true
is_literal inline_code = true
is_literal _ = false

-- The loop over `node.parent`.
abbrev pub in_literal : List Name → Bool
in_literal [] = false
in_literal (n ∷ ns) = is_literal n || in_literal ns

unfoldable pub matching : Text → List Command → List Command
matching t [] = []
matching t (c ∷ cs) = let rest = matching t cs in if starts_with c.label t then c ∷ rest else rest

pub record Completions : Type 0 where
  pub from : ℕ
  pub options : List Command

-- The selection is one cursor in an editor that takes edits.
abbrev pub takes_command : Context → Bool
takes_command x =
    not (x.read_only || not x.editable || nonempty x.other_ranges || not (x.main.from == x.main.to))

unfoldable pub slash_source : List Command → Context → Option Completions
unfolding matching
slash_source cs x =
    let line = x.doc.line_at x.pos in
    let options = matching line.text cs in
    if not (takes_command x)
    then none
    else if not (x.pos == line.to) || not (is_slash_word line.text)
    then none
    else if in_literal (x.enclosing x.pos)
    then none
    else if nonempty options
    then some (record { from = line.from; options = options })
    else none

-- A transaction that replaces `from` to `to` by a text and puts the cursor at `anchor`.
pub record Transaction : Type 0 where
  pub from : ℕ
  pub to : ℕ
  pub insert : Text
  pub anchor : ℕ

-- `apply`, for an editor that may be read-only.
unfoldable pub apply : Command → Context → ℕ → ℕ → Option Transaction
apply c x from to =
    if x.read_only || not x.editable
    then none
    else some (record { from = from; to = to; insert = c.insert; anchor = from + c.cursor })
