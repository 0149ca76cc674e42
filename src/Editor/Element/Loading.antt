-- ===== src/Editor/Element/Loading.antt =====
-- The script's own run: `installStyles` and the definition of the element.
use oxidt_kit.Kit.{ℕ, zero, suc, ◌≡◌, refl, ap, ltb, ◌&&◌, Bool, true, false, not, if◌then◌else◌}

-- A page, whose browser has custom elements or has not.
pub record Head : Type 0 where
  pub has_elements : Bool
  pub is_defined : Bool  -- customElements.get("oxidt-markdown-editor")
  pub styles : ℕ  -- elements with the id of the stylesheet

unfoldable pub install_styles : Head → Head
install_styles h = if ltb 0 h.styles then h else record h { styles = suc h.styles }

unfoldable pub load : Head → Head
unfolding install_styles
load h =
    if h.has_elements && not h.is_defined
    then (let g = install_styles h in record g { is_defined = true })
    else h

abbrev pub loads : ℕ → Head → Head
loads zero h = h
loads (suc n) h = load (loads n h)

abbrev pub fresh : Head
fresh = record { has_elements = true; is_defined = false; styles = 0 }

-- However often the script is loaded, the page has the element once and one stylesheet.
pub loads-once : (n : ℕ) → loads (suc n) fresh ≡ record fresh { is_defined = true; styles = 1 }
unfolding load install_styles
loads-once zero = refl
loads-once (suc n) = ap load (loads-once n)
