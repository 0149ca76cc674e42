-- ===== src/LocalLogin/Ui.antt =====
-- "UI state", "Captcha" (the mounting of its widget) and the start of a request. `show` and
-- `setLoading` start the background ceremony `armConditional`, whose first part stands here too.
-- Moving the keyboard focus is left out.
use text.Mathlib.Text.{◌==◌ as str_eq}
use oxidt_kit.Kit.{
  ℕ, suc, ltb, Bool, true, false, not, ◌&&◌, ◌||◌, String, nonempty_string, Option, none, some,
  List, [], ◌∷◌, if◌then◌else◌,
}
use oxidt_kit.LocalLogin.State.{
  Step, autofill, Setting, Alert, Post, conditional_options, Task, await_options, Page,
}

abbrev pub lookup : String → List (String × String) → Option String
lookup k [] = none
lookup k ((j, v) ∷ m) = if str_eq j k then some v else lookup k m

-- `catalog[text] || text`; a catalog that does not parse is empty.
unfoldable pub tr : Setting → String → String
tr s text =
    let found = lookup text s.catalog in
    elim found [ none ↦ text | some t ↦ if nonempty_string t then t else text ]

abbrev pub is_email : Step → Bool
is_email Step.email = true
is_email _ = false

-- A `fetch` and the task that waits for it.
abbrev pub post : Post → Task → Page → Page
post b t p = record p { posts = b ∷ p.posts; tasks = t ∷ p.tasks }

abbrev pub wait : Task → Page → Page
wait t p = record p { tasks = t ∷ p.tasks }

abbrev pub destination : Page → Option String
destination p = if nonempty_string p.setting.redirect_url then some p.setting.redirect_url else none

-- `postJson("/auth/session/passkey/conditional/options", …)`.
unfoldable pub request_conditional : Task → Page → Page
request_conditional t p = post (conditional_options (destination p)) t p

-- `armConditional` up to its first `await`.
unfoldable pub arm_conditional : Page → Page
unfolding request_conditional
arm_conditional p =
    if not (is_email p.step) || p.cond_running || p.cond_disabled || p.loading
    then p
    else request_conditional (await_options autofill p.attempt) (record p { cond_running = true })

-- `mountCaptcha`: an interval is set up, with `tries` at 0.
unfoldable pub mount_captcha : Page → Page
mount_captcha p = if p.setting.has_captcha then record p { mounts = 0 ∷ p.mounts } else p

-- One round of the interval: the widget's script is there, or not yet.
pub data Mounting : Type 0 where
  scanned gave_up : Mounting
  again : ℕ → Mounting

unfoldable pub mount_round : Bool → ℕ → Mounting
mount_round true tries = scanned
mount_round false tries = if ltb 100 (suc tries) then gave_up else again (suc tries)

unfoldable pub show : Step → Page → Page
show name p =
    let shown = record p { step = name } in
    if is_email name then arm_conditional (mount_captcha shown) else shown

unfoldable pub update_terms : Page → Page
update_terms p = record p { terms_disabled = p.loading || not p.terms_checked }

-- `setLoading` but for its last line.
unfoldable pub set_controls : Bool → Page → Page
unfolding update_terms
set_controls on p =
    update_terms (record p { loading = on; buttons_disabled = on; spinner_hidden = not on })

unfoldable pub set_loading : Bool → Page → Page
unfolding set_controls
set_loading on p =
    let q = set_controls on p in if not on && is_email p.step then arm_conditional q else q

-- `alertBox`: a message that is null or empty hides the box and leaves its text.
abbrev pub alert_box : Setting → Option String → Alert → Alert
alert_box s none a = record a { hidden = true }
alert_box s (some m) a =
    if nonempty_string m
    then record { hidden = false; msg = tr s m }
    else record a { hidden = true }

unfoldable pub show_error : Option String → Page → Page
show_error m p = record p { error = alert_box p.setting m p.error }

unfoldable pub show_success : Option String → Page → Page
show_success m p = record p { success = alert_box p.setting m p.success }

unfoldable pub clear_alerts : Page → Page
unfolding show_error show_success
clear_alerts p = show_success none (show_error none p)

unfoldable pub email_error : Option String → Page → Page
email_error m p = record p { email_error = alert_box p.setting m p.email_error }

unfoldable pub offer_code : Bool → Page → Page
offer_code on p = record p { code_hidden = not on }
