-- ===== src/Editor/Preview/Every.antt =====
-- What holds of the parts of decorations holds of all that a node gives.
use oxidt_kit.Kit.{
  ℕ, suc, ◌+◌, ◌≡◌, ◌==◌, min, not, ◌&&◌, ◌||◌, Bool, true, false, Option, none, some, List, [],
  ◌∷◌, ◌++◌, map, leb, All, All-append, refl, if◌then◌else◌,
}
use oxidt_kit.Editor.Document.{
  Document, Range, Name, image, url, link, list_mark, header_mark, atx_heading, strong_emphasis,
  emphasis, strikethrough, inline_code, fenced_code, code_block, code_mark, code_info,
}
use oxidt_kit.Editor.Preview.Ranges.{editing, line_starts}
use oxidt_kit.Editor.Preview.Nodes.{
  Child, Node, is_name, get_children, first, last, Class, Decoration, mark, widget, Widget,
  slice_of, image_widget, line_class, Entered, mark_range, hide_range, lines, bracket, image_with,
  closing, heading_with, inline_with, from_bracket, siblings, link_syntax, hide_fences, code_syntax,
  enter_name, enter, bullet, is_bullet_list,
}

-- Of the result of a node that throws, nothing is asked.
abbrev pub Entry : (P : Decoration → Type 0) → Option Entered → Type 0
Entry P none = Unit {0}
Entry P (some e) = All P e.decorations

-- `Within` is asked of the positions up to which syntax is hidden, and `Replaced` of the nodes that a
-- widget replaces.
pub record Rules (d : Document) (active : List Range) (P : Decoration → Type 0)
    (Within : ℕ → Type 0) (Replaced : Node → Type 0) : Type 0 where
  pub on_line : (c : Class) (pos : ℕ) → P (line_class c pos)
  pub on_mark : (c : Class) (from to : ℕ) → P (mark c from to)
  pub on_hide : (from to : ℕ) → Within to → All P (hide_range d active from to)
  pub on_widget :
      (x : Widget) (n : Node)
      → Replaced n
      → editing active n.from n.to ≡ false
      → P (widget x n.from n.to)
  pub on_min : (a b : ℕ) → Within b → Within (min a b)

-- The positions up to which a node's syntax may be hidden.
abbrev pub Hides : (Within : ℕ → Type 0) → Node → Type 0
Hides Within n = Within n.to × Within (suc n.from) × All (λ (c : Child). Within c.to) n.children

-- The nodes that a widget may replace.
abbrev pub Replaces : (Replaced : Node → Type 0) → Name → Node → Type 0
Replaces Replaced image n = Replaced n
Replaces Replaced list_mark n = Replaced n
Replaces Replaced _ n = Unit {0}

abbrev OptionAll : (Within : ℕ → Type 0) → Option Child → Type 0
OptionAll Within none = Unit {0}
OptionAll Within (some c) = Within c.to

module _ {d : Document} {active : List Range} {P : Decoration → Type 0} {Within : ℕ → Type 0}
    {Replaced : Node → Type 0} (law : Rules d active P Within Replaced) where
  first-Within : (cs : List Child) → All (λ c. Within c.to) cs → OptionAll Within (first cs)
  first-Within [] h = tt
  first-Within (c ∷ cs) h = h.0

  last-Within : (cs : List Child) → All (λ c. Within c.to) cs → OptionAll Within (last cs)
  last-Within [] h = tt
  last-Within (c ∷ []) h = h.0
  last-Within (c ∷ e ∷ cs) h = last-Within (e ∷ cs) h.1

  lines-All : (c : Class) (ps : List ℕ) → All P (map (line_class c) ps)
  lines-All c [] = tt
  lines-All c (p ∷ ps) = (law.on_line c p, lines-All c ps)

  if-All : (b : Bool) (xs ys : List Decoration) → All P xs → All P ys → All P (if b then xs else ys)
  if-All true xs ys h g = h
  if-All false xs ys h g = g

  mark_range-All : (c : Class) (from to : ℕ) → All P (mark_range d active c from to)
  unfolding mark_range
  mark_range-All c from to =
      if-All (leb to from) [] (mark c from to ∷ []) tt (law.on_mark c from to, tt)

  hide_fences-All : (cs : List Child) → All (λ c. Within c.to) cs → All P (hide_fences d active cs)
  hide_fences-All [] h = tt
  hide_fences-All (c ∷ cs) h =
      All-append P _ (hide_fences d active cs)
        (if-All (is_name c.name code_mark || is_name c.name code_info) _ []
          (law.on_hide c.from c.to h.0) tt)
        (hide_fences-All cs h.1)

  unless-All :
      (x : Widget) (n : Node) (b : Bool)
      → Replaced n
      → (b ≡ false → editing active n.from n.to ≡ false)
      → All P (if b then [] else widget x n.from n.to ∷ [])
  unless-All x n true r h = tt
  unless-All x n false r h = (law.on_widget x n r (h refl), tt)

  image_with-All :
      (n : Node) (u close : Option Child) → Replaced n → All P (image_with d active n u close)
  image_with-All n none close r = tt
  image_with-All n (some u) none r = tt
  image_with-All n (some u) (some close) r =
      unless-All (image_widget (slice_of d u) (d.slice (n.from + 2) close.from)) n
        (editing active n.from n.to) r (λ e. e)

  closing-All : (open' close : Child) → Within close.to → All P (closing d active open' close)
  closing-All open' close h =
      if-All (not (close.from == open'.from) && is_name close.name header_mark) _ []
        (law.on_hide close.from close.to h) tt

  heading_with-All :
      (level : ℕ) (n : Node) (o c : Option Child)
      → Within n.to
      → OptionAll Within c
      → Entry P (heading_with d active level n o c)
  heading_with-All level n none c h g = tt
  heading_with-All level n (some o) none h g = tt
  heading_with-All level n (some o) (some c) h g =
      All-append P (lines d active n.from n.to _) _ (lines-All _ (line_starts d n.from n.to)) (
        All-append P (hide_range d active o.from (min (suc o.to) n.to)) _
          (law.on_hide o.from (min (suc o.to) n.to) (law.on_min (suc o.to) n.to h))
          (closing-All o c g))

  inline_with-All :
      (c : Class) (b : Bool) (n : Node) (o e : Option Child)
      → OptionAll Within o
      → OptionAll Within e
      → Entry P (inline_with d active c b n o e)
  inline_with-All c b n none e h g = tt
  inline_with-All c b n (some o) none h g = tt
  inline_with-All c b n (some o) (some e) h g =
      All-append P (mark_range d active c n.from n.to) _ (mark_range-All c n.from n.to) (
        All-append P (hide_range d active o.from o.to) _ (law.on_hide o.from o.to h)
          (law.on_hide e.from e.to g))

  from_bracket-All : (to : ℕ) (c : Option Child) → Within to → All P (from_bracket d active to c)
  from_bracket-All to none h = tt
  from_bracket-All to (some c) h = law.on_hide c.from to h

  link_syntax-All : (n : Node) → Within n.to → Within (suc n.from) → All P (link_syntax d active n)
  link_syntax-All n h g = if-All (editing active n.from n.to) [] _ tt (
      All-append P (hide_range d active n.from (suc n.from)) _ (law.on_hide n.from (suc n.from) g)
        (from_bracket-All n.to (bracket d active (siblings d active n.children)) h))

  code_syntax-All :
      (fenced : Bool) (n : Node)
      → All (λ (c : Child). Within c.to) n.children
      → All P (code_syntax d active fenced n)
  code_syntax-All fenced n h = if-All _ [] _ tt (hide_fences-All n.children h)

  bullet-All :
      (n : Node) (listed : Bool)
      → Replaced n
      → All P (
          if listed && not (editing active n.from n.to) then widget bullet n.from n.to ∷ [] else [])
  bullet-All n false r = tt
  bullet-All n true r = listed-All (editing active n.from n.to) refl
    where
      listed-All :
          (b : Bool)
          → editing active n.from n.to ≡ b
          → All P (if true && not b then widget bullet n.from n.to ∷ [] else [])
      listed-All true e = tt
      listed-All false e = (law.on_widget bullet n r e, tt)

  inline-All :
      (c : Class) (b : Bool) (n : Node)
      → All (λ (c : Child). Within c.to) n.children
      → Entry P (inline_with d active c b n (first n.children) (last n.children))
  inline-All c b n h =
      inline_with-All c b n (first n.children) (last n.children) (first-Within n.children h)
        (last-Within n.children h)

  code-All :
      (c : Class) (fenced : Bool) (n : Node)
      → All (λ (c : Child). Within c.to) n.children
      → All P (lines d active n.from n.to c ++ code_syntax d active fenced n)
  code-All c fenced n h =
      All-append P (lines d active n.from n.to c) _ (lines-All c (line_starts d n.from n.to))
        (code_syntax-All fenced n h)

  enter_name-Entry :
      (name : Name) (n : Node)
      → Hides Within n
      → Replaces Replaced name n
      → Entry P (enter_name d active name n)
  unfolding enter_name
  enter_name-Entry image n h r =
      image_with-All n (first (get_children url n.children)) (bracket d active n.children) r
  enter_name-Entry (atx_heading level) n h r =
      heading_with-All level n (first n.children) (last n.children) h.0 (last-Within n.children h.2)
  enter_name-Entry strong_emphasis n h r = inline-All _ true n h.2
  enter_name-Entry emphasis n h r = inline-All _ true n h.2
  enter_name-Entry strikethrough n h r = inline-All _ true n h.2
  enter_name-Entry inline_code n h r = inline-All _ false n h.2
  enter_name-Entry link n h r =
      All-append P (mark_range d active _ n.from n.to) _ (mark_range-All _ n.from n.to)
        (link_syntax-All n h.0 h.1)
  enter_name-Entry list_mark n h r = bullet-All n (is_bullet_list d active n.grandparent) r
  enter_name-Entry fenced_code n h r = code-All _ true n h.2
  enter_name-Entry code_block n h r = code-All _ false n h.2
  enter_name-Entry _ n h r = tt

  -- Every decoration of a node, where its parts are as the rules ask.
  pub enter-Entry :
      (n : Node) → Hides Within n → Replaces Replaced n.name n → Entry P (enter d active n)
  unfolding enter
  enter-Entry n h r = enter_name-Entry n.name n h r
