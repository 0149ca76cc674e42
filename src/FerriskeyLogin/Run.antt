-- ===== src/FerriskeyLogin/Run.antt =====
-- The buttons and the wiring, and the page as a transition system: the user's clicks, submits and
-- typing, and the replies that the pending tasks get, in any order.
use oxidt_kit.Kit.{
  ℕ, suc, ◌≡◌, Bool, true, false, Text, none, some, List, [], ◌∷◌, ◌++◌, if◌then◌else◌,
}
use oxidt_kit.Browser.Http.{post_json, Response, Outcome, ok, thrown, truthy, or_default}
use oxidt_kit.LocalLogin.Run.{closed, after_round}
use oxidt_kit.FerriskeyLogin.State.{
  Step, Setting, otp_resend, accept_tos, Task, await_credential, await_verdict, await_start,
  await_captcha_token, await_captcha, await_otp, await_password, await_resend, await_terms, Reply,
  Page,
}
use oxidt_kit.FerriskeyLogin.Ui.{
  post, show, set_loading, update_terms, show_error, show_success, clear_alerts,
}
use oxidt_kit.FerriskeyLogin.Ceremony.{
  cancel_ceremony, on_credential, on_verdict, proceed_after_login,
}
use oxidt_kit.FerriskeyLogin.Forms.{
  stay, on_email_submit, on_start, on_captcha_token, on_captcha, on_otp_submit, on_otp,
  on_password_submit, on_password,
}

unfoldable pub back : Page → Page
unfolding cancel_ceremony
back p =
    let q = clear_alerts (cancel_ceremony (record p { attempt = suc p.attempt })) in
    set_loading false (show Step.email (record q { otp_field = []; password_field = [] }))

unfoldable pub use_password : Page → Page
use_password p = show Step.password (record (clear_alerts p) { password_field = [] })

unfoldable pub resend : Page → Page
resend p = post otp_resend await_resend (clear_alerts (set_loading true p))

unfoldable pub on_resend : Outcome Response → Page → Page
on_resend (thrown msg) p = stay msg p
on_resend (ok resp) p = set_loading false (
    if truthy resp.success
    then show_success (some "A new code has been sent to your email.") p
    else show_error (some (or_default resp.error "Failed to resend code")) p)

unfoldable pub tos_accept : Page → Page
tos_accept p = post accept_tos await_terms (show_error none (set_loading true p))

unfoldable pub on_terms : Outcome Response → Page → Page
on_terms (thrown msg) p = stay msg p
on_terms (ok resp) p =
    if truthy resp.success
    then proceed_after_login resp p
    else stay (or_default resp.error "Failed to accept terms") p

-- What runs when a task gets its reply.
unfoldable pub resume : (t : Task) → Reply t → Page → Page
resume (await_credential mine id) r p = on_credential mine id r p
resume (await_verdict mine) r p = on_verdict mine (post_json r) p
resume await_start r p = on_start (post_json r) p
resume (await_captcha_token i) r p = on_captcha_token i p
resume await_captcha r p = on_captcha (post_json r) p
resume await_otp r p = on_otp (post_json r) p
resume await_password r p = on_password (post_json r) p
resume await_resend r p = on_resend (post_json r) p
resume await_terms r p = on_terms (post_json r) p

pub data Action : Type 0 where
  go_back take_password resend_code accept_terms : Action

unfoldable pub act : Action → Page → Page
act go_back p = back p
act take_password p = use_password p
act resend_code p = resend p
act accept_terms p = tos_accept p

-- The state of a button: `setLoading` sets all of them, and `updateTerms` the one that accepts.
abbrev pub is_disabled : Action → Page → Bool
is_disabled accept_terms p = p.terms_disabled
is_disabled _ p = p.buttons_disabled

-- The listener for clicks.
unfoldable pub click : Action → Page → Page
click a p = if is_disabled a p then p else act a p

pub data Form : Type 0 where
  email_form otp_form password_form : Form

unfoldable pub submit : Form → Page → Page
submit email_form p = on_email_submit p
submit otp_form p = on_otp_submit p
submit password_form p = on_password_submit p

-- What the user and the captcha widget put into the fields.
pub data Input : Type 0 where
  type_email type_otp type_password : Text → Input
  tick : Bool → Input
  solve : Text → Input

unfoldable pub input : Input → Page → Page
input (type_email t) p = record p { email_field = t }
input (type_otp t) p = record p { otp_field = t }
input (type_password t) p = record p { password_field = t }
input (tick b) p = update_terms (record p { terms_checked = b })
input (solve t) p = record p { captcha_field = some t }

-- The loading of the page.
abbrev pub blank : Setting → Page
blank s = record {
  setting = s;
  loading = false;
  passkey_options = none;
  attempt = 0;
  ceremony = none;
  step = Step.email;
  buttons_disabled = false;
  terms_disabled = false;
  spinner_hidden = true;
  error = closed;
  success = closed;
  new_user_hidden = true;
  password_hidden = true;
  shown_email = [];
  email_field = [];
  otp_field = [];
  password_field = [];
  captcha_field = none;
  terms_checked = false;
  location = none;
  posts = [];
  tasks = [];
  ceremonies = 0;
  aborted = [];
  mounts = [];
}

unfoldable pub init : Setting → Page
unfolding set_loading show
init s = set_loading false (show (if s.starts_at_terms then Step.tos else Step.email) (blank s))

-- One event. Which step a button is shown on is not asked for: what is proved of every move holds
-- of the moves that the document allows.
pub data Move : Page → Page → Type 0 where
  clicks : (a : Action) (p : Page) → Move p (click a p)
  submits : (f : Form) (p : Page) → Move p (submit f p)
  inputs : (i : Input) (p : Page) → Move p (input i p)
  hides : (p : Page) → Move p (cancel_ceremony p)
  settles :
      (p : Page) (before after : List Task) (t : Task) (r : Reply t)
      → p.tasks ≡ before ++ t ∷ after
      → Move p (resume t r (record p { tasks = before ++ after }))
  rounds :
      (p : Page) (found : Bool) (before after : List ℕ) (tries : ℕ)
      → p.mounts ≡ before ++ tries ∷ after
      → Move p (record p { mounts = before ++ (after_round found tries ++ after) })

-- The reply that the event brings, if any, is one that `Q` allows.
abbrev pub Replied : (Q : (t : Task) → Reply t → Type 0) {p q : Page} → Move p q → Type 0
Replied Q (settles p before after t r e) = Q t r
Replied Q _ = Unit {0}

abbrev pub AnyReply : (t : Task) → Reply t → Type 0
AnyReply t r = Unit {0}

-- The pages that come about while the replies are those that `Q` allows.
pub data Reach (Q : (t : Task) → Reply t → Type 0) (s : Setting) : Page → Type 0 where
  start : Reach Q s (init s)
  next : {p q : Page} → Reach Q s p → (m : Move p q) → Replied Q m → Reach Q s q
