-- ===== src/LocalLogin/Redirect/Granted.antt =====
-- The URLs that the page may leave for: those that servers' replies gave.
use oxidt_kit.Kit.{◌∙◌, Bool, false, String, Option, ◌++◌}
use oxidt_kit.Browser.Http.{post_json}
use oxidt_kit.LocalLogin.State.{
  Step, Setting, Task, await_options, await_mediation, await_release, await_credential,
  await_verdict, await_email_release, await_start, await_captcha_token, await_captcha, await_otp,
  await_password, await_code_release, await_code, await_resend, await_back_release,
  await_enroll_options, await_created, await_enrolled, await_terms, Reply, Page,
}
use oxidt_kit.LocalLogin.Ui.{show, update_terms, email_error}
use oxidt_kit.LocalLogin.Ceremony.{cancel_ceremony}
use oxidt_kit.LocalLogin.Forms.{on_email_release}
use oxidt_kit.LocalLogin.Actions.{on_code_release}
use oxidt_kit.LocalLogin.Run.{
  resume, Action, passkey, use_code_instead, resend_code, passkey_go_back, try_again, go_back,
  add_passkey, not_now, accept_terms, act, is_disabled, click, Form, email_form, otp_form,
  password_form, submit, Input, type_email, type_otp, type_password, tick, solve, input, blank,
  init, Move, clicks, submits, inputs, hides, settles, rounds,
}
use oxidt_kit.LocalLogin.Redirect.Kept.{
  bound_for, show-bound, set_loading-bound, on_options-bound, on_mediation-bound, on_release-bound,
  on_credential-bound, passkey_action-bound,
}
use oxidt_kit.LocalLogin.Redirect.Handlers.{
  on_captcha_token-bound, on_captcha-bound, on_email_submit-bound, on_start-bound,
  on_otp_submit-bound, on_password_submit-bound, use_code-bound, on_code-bound, resend-bound,
  on_resend-bound, passkey_back-bound, on_back_release-bound, retry-bound, back-bound,
  offer_add-bound, tos_accept-bound, on_enroll_options-bound, on_created-bound,
}
use oxidt_kit.LocalLogin.Redirect.Flow.{
  Grants, Leads, Goes, kept, if-Goes, on_verdict-Goes, on_otp-Goes, on_password-Goes, on_terms-Goes,
  on_enrolled-Goes, offer_skip-Goes,
}

module _ (P : String → Type 0) where
  -- The replies that may send the page somewhere.
  abbrev pub Honest : (t : Task) → Reply t → Type 0
  Honest (await_verdict c mine) r = Grants P (post_json r)
  Honest await_otp r = Grants P (post_json r)
  Honest await_password r = Grants P (post_json r)
  Honest await_terms r = Grants P (post_json r)
  Honest _ r = Unit

  abbrev pub Granted : {p q : Page} → Move p q → Type 0
  Granted (settles p before after t r e) = Honest t r
  Granted _ = Unit

  pub data Run (s : Setting) : Page → Type 0 where
    begins : (dismissed : Option Bool) → Run s (init s dismissed)
    goes_on : {p q : Page} → Run s p → (m : Move p q) → Granted m → Run s q

  resume-Goes :
      (t : Task) (r : Reply t) (p : Page)
      → Honest t r
      → Goes P (bound_for p)
      → Goes P (bound_for (resume t r p))
  unfolding resume on_email_release on_code_release
  resume-Goes (await_options c mine) r p g h = kept P (on_options-bound c mine (post_json r) p) h
  resume-Goes (await_mediation mine raw) r p g h = kept P (on_mediation-bound mine raw r p) h
  resume-Goes (await_release c mine request current) r p g h =
      kept P (on_release-bound c mine request p) h
  resume-Goes (await_credential c mine id) r p g h = kept P (on_credential-bound c mine id r p) h
  resume-Goes (await_verdict c mine) r p g h = on_verdict-Goes P c mine (post_json r) p g h
  resume-Goes (await_email_release value current) r p g h = h
  resume-Goes await_start r p g h = kept P (on_start-bound (post_json r) p) h
  resume-Goes (await_captcha_token i) r p g h = kept P (on_captcha_token-bound i p) h
  resume-Goes await_captcha r p g h = kept P (on_captcha-bound (post_json r) p) h
  resume-Goes await_otp r p g h = on_otp-Goes P (post_json r) p g h
  resume-Goes await_password r p g h = on_password-Goes P (post_json r) p g h
  resume-Goes (await_code_release current) r p g h = h
  resume-Goes await_code r p g h = kept P (on_code-bound (post_json r) p) h
  resume-Goes await_resend r p g h = kept P (on_resend-bound (post_json r) p) h
  resume-Goes (await_back_release current) r p g h = kept P (on_back_release-bound p) h
  resume-Goes await_enroll_options r p g h = kept P (on_enroll_options-bound (post_json r) p) h
  resume-Goes await_created r p g h = kept P (on_created-bound r p) h
  resume-Goes await_enrolled r p g h = on_enrolled-Goes P (post_json r) p h
  resume-Goes await_terms r p g h = on_terms-Goes P (post_json r) p g h

  act-Goes : (a : Action) (p : Page) → Goes P (bound_for p) → Goes P (bound_for (act a p))
  unfolding act
  act-Goes passkey p h = kept P (passkey_action-bound p) h
  act-Goes use_code_instead p h = kept P (use_code-bound p) h
  act-Goes resend_code p h = kept P (resend-bound p) h
  act-Goes passkey_go_back p h = kept P (passkey_back-bound p) h
  act-Goes try_again p h = kept P (retry-bound p) h
  act-Goes go_back p h = kept P (back-bound p) h
  act-Goes add_passkey p h = kept P (offer_add-bound p) h
  act-Goes not_now p h = offer_skip-Goes P p h
  act-Goes accept_terms p h = kept P (tos_accept-bound p) h

  click-Goes : (a : Action) (p : Page) → Goes P (bound_for p) → Goes P (bound_for (click a p))
  unfolding click
  click-Goes a p h = if-Goes P (is_disabled a p) p _ (λ e. h) (act-Goes a p h)

  submit-Goes : (f : Form) (p : Page) → Goes P (bound_for p) → Goes P (bound_for (submit f p))
  unfolding submit
  submit-Goes email_form p h = kept P (on_email_submit-bound p) h
  submit-Goes otp_form p h = kept P (on_otp_submit-bound p) h
  submit-Goes password_form p h = kept P (on_password_submit-bound p) h

  input-Goes : (i : Input) (p : Page) → Goes P (bound_for p) → Goes P (bound_for (input i p))
  unfolding input email_error update_terms
  input-Goes (type_email t) p h = h
  input-Goes (type_otp t) p h = h
  input-Goes (type_password t) p h = h
  input-Goes (tick b) p h = h
  input-Goes (solve t) p h = h

  Move-Goes : {p q : Page} (m : Move p q) → Granted m → Goes P (bound_for p) → Goes P (bound_for q)
  unfolding cancel_ceremony
  Move-Goes (clicks a p) g h = click-Goes a p h
  Move-Goes (submits f p) g h = submit-Goes f p h
  Move-Goes (inputs i p) g h = input-Goes i p h
  Move-Goes (hides p) g h = h
  Move-Goes (settles p before after t r e) g h =
      resume-Goes t r (record p { tasks = before ++ after }) g h
  Move-Goes (rounds p found before after tries e) g h = h

  Run-Goes : {s : Setting} {p : Page} → Run s p → Goes P (bound_for p)
  unfolding init
  Run-Goes {s = s} (begins dismissed) =
      let shown = show Step.email (blank s dismissed) in
      kept P (set_loading-bound false shown ∙ show-bound Step.email (blank s dismissed)) (tt, tt)
  Run-Goes (goes_on r m g) = Move-Goes m g (Run-Goes r)

  -- The page leaves only for a URL that a server's reply gave while it said that it succeeded, a
  -- verdict on a passkey, a code, a password or the acceptance of the terms: if `P` holds of all of
  -- those, it holds of the page's location, however events are ordered. The one other location is
  -- "null", which the two buttons of the passkey offer go to where no URL waits.
  pub location-Run : {s : Setting} {p : Page} → Run s p → Leads P p.location
  location-Run r = (Run-Goes r).0
