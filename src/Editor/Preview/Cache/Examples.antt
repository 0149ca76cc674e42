-- ===== src/Editor/Preview/Cache/Examples.antt =====
-- Updates of a preview that shows its document, and the focus.
use native.Mathlib.Omega.{arith}
use oxidt_kit.Kit.{ℕ, refl, ◌≡◌, Bool, true, false, [], ◌∷◌, ◌+◌}
use oxidt_kit.Editor.Preview.Cache.{
  Content, Change, IsChange, set_focus, ViewUpdate, IsViewUpdate, transact, live_update,
}
use oxidt_kit.Editor.Preview.Cache.Current.{transact-current, live_update-current}

abbrev at_rest : Content ℕ ℕ ℕ
at_rest = record { doc = 4; selection = 2; tree = 1 }

-- Only the focus changes.
abbrev idle : Change ℕ ℕ ℕ
idle = record {
  start = at_rest;
  next = at_rest;
  doc_changed = false;
  selection_set = false;
  same_tree = true;
}

idle-IsChange : IsChange idle
idle-IsChange = record { doc = λ d. refl; selection = λ d s. refl; tree = λ t. refl }

abbrev shown : Content ℕ ℕ ℕ → Bool → ℕ × Bool
shown c focused = (c.doc, focused)

transact-current_example :
    (transact shown idle (set_focus true ∷ []) (false, (4, false))).1
    ≡ shown at_rest (transact shown idle (set_focus true ∷ []) (false, (4, false))).0
transact-current_example =
    transact-current shown idle (set_focus true ∷ []) (false, (4, false)) idle-IsChange refl

abbrev scrolled : ViewUpdate ℕ ℕ ℕ ℕ
scrolled = record {
  change = idle;
  had_focus = true;
  has_focus = true;
  focus_changed = false;
  were_visible = 0;
  visible_ranges = 9;
  viewport_changed = true;
}

scrolled-IsViewUpdate : IsViewUpdate scrolled
scrolled-IsViewUpdate = record {
  change = idle-IsChange;
  focus = λ f. refl;
  viewport = λ v. absurd (ground arith);
}

abbrev seen : Content ℕ ℕ ℕ → Bool → ℕ → ℕ
seen c focused ranges = c.doc + ranges

live_update-current_example : live_update seen scrolled 4 ≡ seen at_rest true 9
live_update-current_example = live_update-current seen scrolled 4 scrolled-IsViewUpdate refl
