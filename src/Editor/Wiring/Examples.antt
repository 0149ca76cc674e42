-- ===== src/Editor/Wiring/Examples.antt =====
-- Two editors on a page, one of them with two labels.
use oxidt_kit.Kit.{ℕ, ◌≡◌, refl, Bool, true, [], ◌∷◌}
use oxidt_kit.Editor.Wiring.{
  Page, filter, clear, mount_editor, destroy, reset_form, empty_page, mounts, resets, Reach, start,
  goes_on,
}
use oxidt_kit.Editor.Wiring.Released.{is_other, destroy-releases}

abbrev every : ℕ → Bool
every id = true

abbrev one : Page
one = mount_editor 0 2 empty_page

abbrev two : Page
two = mount_editor 1 0 one

abbrev twice_reset : Page
twice_reset = let p = reset_form every two.attached two in reset_form every p.attached p

Reach-twice_reset : Reach twice_reset
unfolding mount_editor
Reach-twice_reset =
    goes_on
      (goes_on (goes_on (goes_on start (mounts 0 2 empty_page refl)) (mounts 1 0 one refl))
        (resets every two))
      (resets every (reset_form every two.attached two))

destroy-releases_example :
    ((destroy 0 twice_reset).attached ≡ filter (is_other 0) twice_reset.attached)
    × ((destroy 0 twice_reset).timers ≡ clear (twice_reset.latest 0) twice_reset.timers)
destroy-releases_example = destroy-releases 0 Reach-twice_reset

-- The timer of the first reset still runs for the editor that is gone.
late_timer : (destroy 0 twice_reset).timers ≡ (1, 3) ∷ (1, 1) ∷ (0, 0) ∷ []
unfolding destroy reset_form mount_editor
late_timer = refl
