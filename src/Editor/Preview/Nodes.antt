-- ===== src/Editor/Preview/Nodes.antt =====
-- `decorations`: what is done on entering a node of the syntax tree. The walk over the tree is the
-- parser's.
use native.Mathlib.Decide.{ℕ_discrete}
use oxidt_kit.Kit.{
  ℕ, suc, ◌+◌, ◌==◌, min, leb, not, ◌&&◌, ◌||◌, Bool, true, false, Text, codes, trim, text_eq,
  Option, none, some, List, [], ◌∷◌, ◌++◌, map, length, if◌then◌else◌,
}
use oxidt_kit.Editor.Document.{
  Document, Range, Name, image, url, link, link_mark, list_mark, bullet_list, header_mark,
  atx_heading, strong_emphasis, emphasis, strikethrough, inline_code, html_block, html_tag,
  fenced_code, code_block, code_mark, code_info, code_text, table,
}
use oxidt_kit.Editor.Preview.Ranges.{editing, hide, line_starts}

-- A child of a node; its own children are not looked at.
pub record Child : Type 0 where
  pub name : Name
  pub from : ℕ
  pub to : ℕ

pub record Node : Type 0 where
  pub name : Name
  pub from : ℕ
  pub to : ℕ
  pub children : List Child
  pub grandparent : Option Name  -- node.parent?.parent

unfoldable pub Name-discrete : Discrete Name
Name-discrete = hlevel ℕ_discrete

abbrev pub is_name : Name → Name → Bool
is_name a b = elim (Name-discrete a b) [ yes _ ↦ true | no _ ↦ false ]

-- `getChildren` and `getChild`.
abbrev pub get_children : Name → List Child → List Child
get_children n [] = []
get_children n (c ∷ cs) =
    let rest = get_children n cs in if is_name c.name n then c ∷ rest else rest

abbrev pub first : {A : Type 0} → List A → Option A
first [] = none
first (c ∷ cs) = some c

abbrev pub last : {A : Type 0} → List A → Option A
last [] = none
last (c ∷ []) = some c
last (c ∷ d ∷ cs) = last (d ∷ cs)

abbrev pub slice_of : Document → Child → Text
slice_of d c = d.slice c.from c.to

abbrev pub concat : Document → List Child → Text
concat d [] = []
concat d (c ∷ cs) = slice_of d c ++ concat d cs

-- `diagramSource`.
unfoldable pub diagram_source : Document → List Child → Option Text
diagram_source d cs = elim (first (get_children code_info cs)) [
  | none ↦ none
  | some info ↦
      if not (text_eq (trim (slice_of d info)) (codes "mermaid"))
        || not (length (get_children code_mark cs) == 2)
      then none
      else some (concat d (get_children code_text cs))
]

-- The classes of marks and lines: `md-h1` to `md-h6`, `md-strong`, ...
pub data Class : Type 0 where
  h : ℕ → Class
  strong em strike code_span md_link code_line : Class

pub data Widget : Type 0 where
  image_widget : Text → Text → Widget  -- src, alt
  bullet : Widget

-- `Decoration.mark`, `.replace({})`, `.replace({ widget })`, and a class for the line at a position.
pub data Decoration : Type 0 where
  mark : Class → ℕ → ℕ → Decoration
  hidden : Range → Decoration
  widget : Widget → ℕ → ℕ → Decoration
  line_class : Class → ℕ → Decoration

-- What `enter` leaves: the decorations, and whether the children are visited.
pub record Entered : Type 0 where
  pub decorations : List Decoration
  pub descends : Bool

module _ (d : Document) (active : List Range) where
  unfoldable pub mark_range : Class → ℕ → ℕ → List Decoration
  mark_range c from to = if leb to from then [] else mark c from to ∷ []

  abbrev pub hide_range : ℕ → ℕ → List Decoration
  hide_range from to = map hidden (hide d active from to)

  abbrev pub lines : ℕ → ℕ → Class → List Decoration
  lines from to c = map (line_class c) (line_starts d from to)

  abbrev pub bracket : List Child → Option Child
  bracket [] = none
  bracket (c ∷ cs) =
      let rest = bracket cs in
      if is_name c.name link_mark && text_eq (slice_of d c) (codes "]") then some c else rest

  abbrev pub entered : List Decoration → Bool → Entered
  entered ds b = record { decorations = ds; descends = b }

  abbrev pub image_with : Node → Option Child → Option Child → List Decoration
  image_with n (some u) (some close) =
      if editing active n.from n.to
      then []
      else widget (image_widget (slice_of d u) (d.slice (n.from + 2) close.from)) n.from n.to ∷ []
  image_with n _ _ = []

  -- The closing mark, where it is not the opening one too.
  abbrev pub closing : Child → Child → List Decoration
  closing open' close =
      if not (close.from == open'.from) && is_name close.name header_mark
      then hide_range close.from close.to
      else []

  -- `node.firstChild` and `node.lastChild` are dereferenced: a node without children throws.
  abbrev pub heading_with : ℕ → Node → Option Child → Option Child → Option Entered
  heading_with level n (some open') (some close) = some (
      entered
        (lines n.from n.to (h level)
          ++ (hide_range open'.from (min (suc open'.to) n.to) ++ closing open' close))
        true)
  heading_with level n _ _ = none

  abbrev pub inline_with : Class → Bool → Node → Option Child → Option Child → Option Entered
  inline_with c descends n (some open') (some close) = some (
      entered
        (mark_range c n.from n.to
          ++ (hide_range open'.from open'.to ++ hide_range close.from close.to))
        descends)
  inline_with c descends n _ _ = none

  abbrev pub from_bracket : ℕ → Option Child → List Decoration
  from_bracket to none = []
  from_bracket to (some c) = hide_range c.from to

  abbrev pub siblings : List Child → List Child
  siblings [] = []
  siblings (c ∷ cs) = cs

  abbrev pub link_syntax : Node → List Decoration
  link_syntax n =
      if editing active n.from n.to
      then []
      else hide_range n.from (suc n.from) ++ from_bracket n.to (bracket (siblings n.children))

  abbrev pub is_bullet_list : Option Name → Bool
  is_bullet_list none = false
  is_bullet_list (some a) = is_name a bullet_list

  abbrev pub hide_fences : List Child → List Decoration
  hide_fences [] = []
  hide_fences (c ∷ cs) =
      (if is_name c.name code_mark || is_name c.name code_info then hide_range c.from c.to else [])
      ++ hide_fences cs

  abbrev pub is_some : Option Text → Bool
  is_some none = false
  is_some (some t) = true

  -- A diagram whose block is being edited shows all its syntax.
  abbrev pub code_syntax : Bool → Node → List Decoration
  code_syntax fenced n =
      if fenced && is_some (diagram_source d n.children) && editing active n.from n.to
      then []
      else hide_fences n.children

  unfoldable pub enter_name : Name → Node → Option Entered
  enter_name image n =
      some (entered (image_with n (first (get_children url n.children)) (bracket n.children)) false)
  enter_name html_block n = some (entered [] false)
  enter_name html_tag n = some (entered [] false)
  enter_name table n = some (entered [] false)
  enter_name (atx_heading level) n = heading_with level n (first n.children) (last n.children)
  enter_name strong_emphasis n = inline_with strong true n (first n.children) (last n.children)
  enter_name emphasis n = inline_with em true n (first n.children) (last n.children)
  enter_name strikethrough n = inline_with strike true n (first n.children) (last n.children)
  enter_name inline_code n = inline_with code_span false n (first n.children) (last n.children)
  enter_name link n = some (entered (mark_range md_link n.from n.to ++ link_syntax n) true)
  enter_name list_mark n = some (
      entered
        (if is_bullet_list n.grandparent && not (editing active n.from n.to)
          then widget bullet n.from n.to ∷ []
          else [])
        true)
  enter_name fenced_code n =
      some (entered (lines n.from n.to code_line ++ code_syntax true n) false)
  enter_name code_block n =
      some (entered (lines n.from n.to code_line ++ code_syntax false n) false)
  enter_name _ n = some (entered [] true)

  -- The callback of `decorations`; `none` where it throws.
  unfoldable pub enter : Node → Option Entered
  unfolding enter_name mark_range
  enter n = enter_name n.name n
