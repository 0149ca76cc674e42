-- ===== src/LocalLogin/Run.antt =====
-- The wiring, and the page as a transition system: the user's clicks, submits and typing, and the
-- replies that the pending tasks get, in any order.
use oxidt_kit.Kit.{
  ℕ, ◌≡◌, Bool, true, false, Text, Option, none, some, List, [], ◌∷◌, ◌++◌, if◌then◌else◌,
}
use oxidt_kit.Browser.Http.{post_json}
use oxidt_kit.LocalLogin.State.{
  Step, Setting, Alert, Task, await_options, await_mediation, await_release, await_credential,
  await_verdict, await_email_release, await_start, await_captcha_token, await_captcha, await_otp,
  await_password, await_code_release, await_code, await_resend, await_back_release,
  await_enroll_options, await_created, await_enrolled, await_terms, Reply, Page,
}
use oxidt_kit.LocalLogin.Ui.{
  scanned, gave_up, again, mount_round, show, set_loading, update_terms, email_error,
}
use oxidt_kit.LocalLogin.Ceremony.{
  cancel_ceremony, on_options, on_mediation, on_release, on_credential, on_verdict, passkey_action,
}
use oxidt_kit.LocalLogin.Forms.{
  on_email_submit, on_email_release, on_start, on_captcha_token, on_captcha, on_otp_submit, on_otp,
  on_password_submit, on_password,
}
use oxidt_kit.LocalLogin.Actions.{
  use_code, on_code_release, on_code, resend, on_resend, passkey_back, on_back_release, retry, back,
  offer_add, on_enroll_options, on_created, on_enrolled, offer_skip, tos_accept, on_terms,
}

-- What runs when a task gets its reply.
unfoldable pub resume : (t : Task) → Reply t → Page → Page
resume (await_options c mine) r p = on_options c mine (post_json r) p
resume (await_mediation mine raw) r p = on_mediation mine raw r p
resume (await_release c mine request current) r p = on_release c mine request p
resume (await_credential c mine id) r p = on_credential c mine id r p
resume (await_verdict c mine) r p = on_verdict c mine (post_json r) p
resume (await_email_release value current) r p = on_email_release value p
resume await_start r p = on_start (post_json r) p
resume (await_captcha_token i) r p = on_captcha_token i p
resume await_captcha r p = on_captcha (post_json r) p
resume await_otp r p = on_otp (post_json r) p
resume await_password r p = on_password (post_json r) p
resume (await_code_release current) r p = on_code_release p
resume await_code r p = on_code (post_json r) p
resume await_resend r p = on_resend (post_json r) p
resume (await_back_release current) r p = on_back_release p
resume await_enroll_options r p = on_enroll_options (post_json r) p
resume await_created r p = on_created r p
resume await_enrolled r p = on_enrolled (post_json r) p
resume await_terms r p = on_terms (post_json r) p

pub data Action : Type 0 where
  passkey use_code_instead resend_code passkey_go_back try_again go_back : Action
  add_passkey not_now accept_terms : Action

unfoldable pub act : Action → Page → Page
act passkey p = passkey_action p
act use_code_instead p = use_code p
act resend_code p = resend p
act passkey_go_back p = passkey_back p
act try_again p = retry p
act go_back p = back p
act add_passkey p = offer_add p
act not_now p = offer_skip p
act accept_terms p = tos_accept p

-- The state of a button: `setLoading` sets all of them, and `updateTerms` the one that accepts.
abbrev pub is_disabled : Action → Page → Bool
is_disabled accept_terms p = p.terms_disabled
is_disabled _ p = p.buttons_disabled

-- The listener for clicks.
unfoldable pub click : Action → Page → Page
click a p = if is_disabled a p then p else act a p

-- One round of an interval of `mountCaptcha`, by whether the widget's script is there.
unfoldable pub after_round : Bool → ℕ → List ℕ
unfolding mount_round
after_round found tries = elim (mount_round found tries) [
  | scanned ↦ []
  | gave_up ↦ []
  | again n ↦ n ∷ []
]

pub data Form : Type 0 where
  email_form otp_form password_form : Form

unfoldable pub submit : Form → Page → Page
submit email_form p = on_email_submit p
submit otp_form p = on_otp_submit p
submit password_form p = on_password_submit p

-- What the user and the captcha widget put into the fields; typing an address clears its error.
pub data Input : Type 0 where
  type_email type_otp type_password : Text → Input
  tick : Bool → Input
  solve : Text → Input

unfoldable pub input : Input → Page → Page
input (type_email t) p = email_error none (record p { email_field = t })
input (type_otp t) p = record p { otp_field = t }
input (type_password t) p = record p { password_field = t }
input (tick b) p = update_terms (record p { terms_checked = b })
input (solve t) p = record p { captcha_field = some t }

-- The loading of the page: every step's text is in place and the fieldset is enabled.
abbrev pub closed : Alert
closed = record { hidden = true; msg = "" }

abbrev pub blank : Setting → Option Bool → Page
blank s dismissed = record {
  setting = s;
  step = Step.email;
  email = [];
  loading = false;
  passkey_options = none;
  pending_redirect = none;
  offer_after_terms = false;
  attempt = 0;
  cond_running = false;
  cond_disabled = false;
  ceremony = none;
  buttons_disabled = false;
  terms_disabled = false;
  spinner_hidden = true;
  error = closed;
  success = closed;
  email_error = closed;
  new_user_hidden = true;
  code_hidden = false;
  shown_email = [];
  email_field = [];
  otp_field = [];
  password_field = [];
  captcha_field = none;
  terms_checked = false;
  prompt_dismissed = dismissed;
  location = none;
  posts = [];
  tasks = [];
  ceremonies = 0;
  aborted = [];
  mounts = [];
}

unfoldable pub init : Setting → Option Bool → Page
unfolding set_loading show
init s dismissed = set_loading false (show Step.email (blank s dismissed))

-- One event. Which step a button is shown on is not asked for: what is proved of every move holds
-- of the moves that the document allows.
pub data Move : Page → Page → Type 0 where
  clicks : (a : Action) (p : Page) → Move p (click a p)
  submits : (f : Form) (p : Page) → Move p (submit f p)
  inputs : (i : Input) (p : Page) → Move p (input i p)
  hides : (p : Page) → Move p (cancel_ceremony p)
  settles :
      (p : Page) (before after : List Task) (t : Task) (r : Reply t)
      → p.tasks ≡ before ++ t ∷ after
      → Move p (resume t r (record p { tasks = before ++ after }))
  rounds :
      (p : Page) (found : Bool) (before after : List ℕ) (tries : ℕ)
      → p.mounts ≡ before ++ tries ∷ after
      → Move p (record p { mounts = before ++ (after_round found tries ++ after) })

pub data Reach (s : Setting) : Page → Type 0 where
  start : (dismissed : Option Bool) → Reach s (init s dismissed)
  next : {p q : Page} → Reach s p → Move p q → Reach s q
