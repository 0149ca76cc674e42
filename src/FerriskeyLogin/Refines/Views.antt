-- ===== src/FerriskeyLogin/Refines/Views.antt =====
-- What the page shows does not change what the protocol sees.
use oxidt_kit.Kit.{◌≡◌, refl, ap, sym, subst, Bool, true, false, String, some, ◌∷◌, if◌then◌else◌}
use oxidt_kit.FerriskeyLogin.State.{Step, Task, Reply, Page}
use oxidt_kit.FerriskeyLogin.Ui.{show, is_email, mount_captcha, set_loading, show_error}
use oxidt_kit.FerriskeyLogin.Ceremony.{back_to}
use oxidt_kit.FerriskeyLogin.Forms.{stay}
use oxidt_kit.FerriskeyLogin.Protocol.{View, view, loaded, Answer}

pub if-view :
    (b : Bool) (x y : Page) {v : View} → view x ≡ v → view y ≡ v → view (if b then x else y) ≡ v
if-view true x y h g = h
if-view false x y h g = g

mount_captcha-view : (p : Page) → view (mount_captcha p) ≡ view p
unfolding mount_captcha
mount_captcha-view p =
    if-view p.setting.has_captcha (record p { mounts = 0 ∷ p.mounts }) p refl refl

pub show-view : (name : Step) (p : Page) → view (show name p) ≡ view p
unfolding show
show-view name p =
    let shown = record p { step = name } in
    if-view (is_email name) (mount_captcha shown) shown (mount_captcha-view shown) refl

pub set_loading-view : (on : Bool) (p : Page) → view (set_loading on p) ≡ loaded on (view p)
unfolding set_loading
set_loading-view on p = refl

pub back_to-view :
    (name : Step) (msg : String) (p : Page) → view (back_to name msg p) ≡ loaded false (view p)
unfolding show_error set_loading
back_to-view name msg p = ap (loaded false) (show-view name (show_error (some msg) p))

pub stay-view : (msg : String) (p : Page) → view (stay msg p) ≡ loaded false (view p)
unfolding show_error set_loading
stay-view msg p = refl

pub by-view :
    (t : Task) (r : Reply t) (v : View) {w x : View} → x ≡ w → Answer t r v w → Answer t r v x
by-view t r v e a = subst (Answer t r v) (sym e) a

pub if-Answer :
    (t : Task) (r : Reply t) (v : View) (b : Bool) (x y : Page)
    → (b ≡ true → Answer t r v (view x))
    → (b ≡ false → Answer t r v (view y))
    → Answer t r v (view (if b then x else y))
if-Answer t r v true x y h g = h refl
if-Answer t r v false x y h g = g refl
