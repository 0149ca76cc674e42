-- ===== src/Editor/Preview/Walk/Again.antt =====
-- What the callback answers when a node is met again.
use mathlib.Core.Option.{some-injective}
use oxidt_kit.Kit.{
  ℕ, ◌≡◌, ◌==◌, refl, ap, sym, ◌∙◌, not, ◌&&◌, ◌||◌, Bool, true, false, Option, none, some, List,
  ◌∷◌, if◌then◌else◌, arith,
}
use oxidt_kit.Editor.Document.{
  Document, Range, Name, image, atx_heading, strong_emphasis, emphasis, strikethrough, inline_code,
  table,
}
use oxidt_kit.Editor.Preview.Nodes.{
  Name-discrete, Child, Node, first, last, Class, Entered, heading_with, inline_with, enter_name,
  enter,
}
use oxidt_kit.Editor.Preview.Walk.{NodeId, has_id, is_opaque, Walk, put_all, put_entered, visit}
use oxidt_kit.Editor.Preview.Walk.Once.{put_all_lem}

abbrev pub is_table : Name → Bool
is_table table = true
is_table _ = false

-- Whether the children are visited, where a node does not throw.
abbrev Descends : Bool → Option Entered → Type 0
Descends b none = Unit {0}
Descends b (some e) = e.descends ≡ b

same_name : {a : Name} (x : Dec (a ≡ a)) → elim x [ yes _ ↦ true | no _ ↦ false ] ≡ true
same_name (yes e) = refl
same_name (no n) = absurd (n refl)

same_position : (from : ℕ) → (from == from) ≡ true
same_position from = ground arith

module _ (d : Document) (active : List Range) where
  heading-Descends :
      (level : ℕ) (n : Node) (o c : Option Child)
      → Descends true (heading_with d active level n o c)
  heading-Descends level n none c = tt
  heading-Descends level n (some o) none = tt
  heading-Descends level n (some o) (some c) = refl

  inline-Descends :
      (k : Class) (b : Bool) (n : Node) (o c : Option Child)
      → Descends b (inline_with d active k b n o c)
  inline-Descends k b n none c = tt
  inline-Descends k b n (some o) none = tt
  inline-Descends k b n (some o) (some c) = refl

  enter_name-Descends :
      (name : Name) (n : Node)
      → Descends (not (is_opaque name) && not (is_table name)) (enter_name d active name n)
  unfolding enter_name
  enter_name-Descends (atx_heading level) n =
      heading-Descends level n (first n.children) (last n.children)
  enter_name-Descends strong_emphasis n =
      inline-Descends _ true n (first n.children) (last n.children)
  enter_name-Descends emphasis n = inline-Descends _ true n (first n.children) (last n.children)
  enter_name-Descends strikethrough n =
      inline-Descends _ true n (first n.children) (last n.children)
  enter_name-Descends inline_code n = inline-Descends _ false n (first n.children) (last n.children)
  enter_name-Descends _ n = refl

  put-Descends :
      (c : Bool) (o : Option Entered) (v w : Walk) (b : Bool)
      → Descends c o
      → put_entered d active o v ≡ some (w, b)
      → (w.visited ≡ v.visited) × (b ≡ c)
  put-Descends c none v w b h e = absurd (ground arith)
  put-Descends c (some entered) v w b h e =
      let same = some-injective (put_all entered.decorations v, entered.descends) (w, b) e in
      (
        ap (λ (x : Walk × Bool). x.0.visited) (sym same)
            ∙ ap (λ (x : Walk). x.visited) (put_all_lem entered.decorations v),
        ap (λ (x : Walk × Bool). x.1) (sym same) ∙ h,
      )

  head-has_id :
      (name : Name) (from : ℕ) (ids : List NodeId) → has_id name from ((name, from) ∷ ids) ≡ true
  head-has_id name from ids =
      ap (λ b. (b && from == from) || has_id name from ids) (same_name (Name-discrete name name))
      ∙ ap (λ b. b || has_id name from ids) (same_position from)

  opaque-table :
      (name : Name)
      → not (is_opaque name) ≡ ((not (is_opaque name) && not (is_table name)) || is_table name)
  opaque-table table = refl
  opaque-table image = refl
  opaque-table _ = refl

  -- A node that is met again in another range changes nothing, and its children are visited just
  -- when they were visited the first time, but for a table: its children are not visited the first
  -- time, and are visited when it is met again.
  pub visit-again :
      (n : Node) (w v : Walk) (b : Bool)
      → has_id n.name n.from w.visited ≡ false
      → visit d active n w ≡ some (v, b)
      → visit d active n v ≡ some (v, b || is_table n.name)
  unfolding visit enter
  visit-again n w v b new e =
      ap
        (λ s.
          if s
          then some (v, not (is_opaque n.name))
          else put_entered d active (enter d active n) (marked v))
        seen
      ∙ ap (λ x. some (v, x)) (opaque-table n.name ∙ ap (λ x. x || is_table n.name) (sym entry.1))
    where
      marked : Walk → Walk
      marked x = record x { visited = (n.name, n.from) ∷ x.visited }

      entry :
          (v.visited ≡ (n.name, n.from) ∷ w.visited)
          × (b ≡ (not (is_opaque n.name) && not (is_table n.name)))
      entry =
          put-Descends (not (is_opaque n.name) && not (is_table n.name)) (enter d active n)
            (marked w) v b (enter_name-Descends n.name n) (rw new at e)

      seen : has_id n.name n.from v.visited ≡ true
      seen = ap (has_id n.name n.from) entry.0 ∙ head-has_id n.name n.from w.visited
