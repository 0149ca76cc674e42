-- ===== src/FerriskeyLogin/Ui.antt =====
-- "UI state" and the mounting of the captcha's widget, which is the local login page's.
use oxidt_kit.Kit.{
  Bool, true, false, not, ◌||◌, String, nonempty_string, Option, none, some, ◌∷◌, if◌then◌else◌,
}
use oxidt_kit.LocalLogin.State.{Alert}
use oxidt_kit.LocalLogin.Ui.{lookup}
use oxidt_kit.FerriskeyLogin.State.{Step, Setting, Post, Task, Page}

-- `catalog[text] || text`; a catalog that does not parse is empty.
unfoldable pub tr : Setting → String → String
tr s text =
    let found = lookup text s.catalog in
    elim found [ none ↦ text | some t ↦ if nonempty_string t then t else text ]

abbrev pub is_email : Step → Bool
is_email Step.email = true
is_email _ = false

-- A `fetch` and the task that waits for it.
abbrev pub post : Post → Task → Page → Page
post b t p = record p { posts = b ∷ p.posts; tasks = t ∷ p.tasks }

abbrev pub wait : Task → Page → Page
wait t p = record p { tasks = t ∷ p.tasks }

-- `mountCaptcha`: an interval is set up, with `tries` at 0.
unfoldable pub mount_captcha : Page → Page
mount_captcha p = if p.setting.has_captcha then record p { mounts = 0 ∷ p.mounts } else p

unfoldable pub show : Step → Page → Page
unfolding mount_captcha
show name p =
    let shown = record p { step = name } in if is_email name then mount_captcha shown else shown

unfoldable pub update_terms : Page → Page
update_terms p = record p { terms_disabled = p.loading || not p.terms_checked }

unfoldable pub set_loading : Bool → Page → Page
unfolding update_terms
set_loading on p =
    update_terms (record p { loading = on; buttons_disabled = on; spinner_hidden = not on })

-- `alertBox`: a message that is null or empty hides the box and leaves its text.
abbrev pub alert_box : Setting → Option String → Alert → Alert
alert_box s none a = record a { hidden = true }
alert_box s (some m) a =
    if nonempty_string m
    then record { hidden = false; msg = tr s m }
    else record a { hidden = true }

unfoldable pub show_error : Option String → Page → Page
show_error m p = record p { error = alert_box p.setting m p.error }

unfoldable pub show_success : Option String → Page → Page
show_success m p = record p { success = alert_box p.setting m p.success }

unfoldable pub clear_alerts : Page → Page
unfolding show_error show_success
clear_alerts p = show_success none (show_error none p)
