-- ===== src/FerriskeyLogin/Refines/Moves.antt =====
-- Every event on the page is a step of the protocol.
use oxidt_kit.Kit.{
  ◌≡◌, refl, ap, sym, subst, ◌∙◌, Bool, true, false, String, trim, nonempty, some, ◌++◌,
  if◌then◌else◌,
}
use oxidt_kit.Browser.Http.{post_json}
use oxidt_kit.LocalLogin.Forms.{is_address}
use oxidt_kit.FerriskeyLogin.State.{
  Step, Task, await_credential, await_verdict, await_start, await_captcha_token, await_captcha,
  await_otp, await_password, await_resend, await_terms, Reply, Page,
}
use oxidt_kit.FerriskeyLogin.Ui.{
  show, set_loading, update_terms, show_error, show_success, clear_alerts,
}
use oxidt_kit.FerriskeyLogin.Ceremony.{cancel_ceremony}
use oxidt_kit.FerriskeyLogin.Forms.{
  on_email_submit, on_otp_submit, on_password_submit, email_value, send_email, send_otp,
  send_password,
}
use oxidt_kit.FerriskeyLogin.Run.{
  back, use_password, resend, tos_accept, resume, Action, go_back, take_password, resend_code,
  accept_terms, act, is_disabled, click, Form, email_form, otp_form, password_form, submit, Input,
  type_email, type_otp, type_password, tick, solve, input, Move, clicks, inputs, hides, settles,
  rounds, Replied,
}
use oxidt_kit.FerriskeyLogin.Protocol
use oxidt_kit.FerriskeyLogin.Protocol.{
  View, view, loaded, asking, released, next_attempt, Verdict, destination, verdict, sign_in,
  is_busy, rank, Answer, fails, proves, ignores, frees, stalls, leaves, asks, starts, starts_not,
  Act, nothing, submits, gives_up, checks, acts, answers,
}
use oxidt_kit.FerriskeyLogin.Refines.Views.{show-view, set_loading-view}
use oxidt_kit.FerriskeyLogin.Refines.Replies.{
  on_credential-Answer, on_verdict-Answer, on_otp-Answer, on_password-Answer, on_terms-Answer,
  on_resend-Answer,
}
use oxidt_kit.FerriskeyLogin.Refines.Start.{
  on_captcha_token-Answer, on_captcha-Answer, on_start-Answer,
}

pub resume-Answer : (t : Task) (r : Reply t) (p : Page) → Answer t r (view p) (view (resume t r p))
unfolding resume
resume-Answer (await_credential mine id) r p = on_credential-Answer mine id r p
resume-Answer (await_verdict mine) r p = on_verdict-Answer mine r (post_json r) p refl
resume-Answer await_start r p = on_start-Answer r (post_json r) p
resume-Answer (await_captcha_token i) r p = on_captcha_token-Answer i r p
resume-Answer await_captcha r p = on_captcha-Answer r (post_json r) p
resume-Answer await_otp r p = on_otp-Answer r (post_json r) p refl
resume-Answer await_password r p = on_password-Answer r (post_json r) p refl
resume-Answer await_resend r p = on_resend-Answer r (post_json r) p
resume-Answer await_terms r p = on_terms-Answer r (post_json r) p refl

by-view : (v : View) {w x : View} → x ≡ w → Act v w → Act v x
by-view v e a = subst (Act v) (sym e) a

if-Act :
    (v : View) (b : Bool) (x y : Page)
    → Act v (view x)
    → Act v (view y)
    → Act v (view (if b then x else y))
if-Act v true x y h g = h
if-Act v false x y h g = g

submitted-Act :
    (t : Task) (name : Step) (p : Page)
    → is_busy t ≡ true
    → Act (view p) (asking t (view (show name (set_loading true p))))
submitted-Act t name p busy =
    by-view (view p) (ap (asking t) (show-view name (set_loading true p) ∙ set_loading-view true p))
      (submits t (view p) busy)

on_email_submit-Act : (p : Page) → Act (view p) (view (on_email_submit p))
unfolding on_email_submit clear_alerts show_error show_success
on_email_submit-Act p =
    let q = clear_alerts p in
    let value = email_value p in
    let said : String = "Please enter a valid email address." in
    if-Act (view p) (is_address value) (send_email value q) (show_error (some said) q)
      (by-view (view p)
        (ap (asking await_start) (
          set_loading-view true (show Step.detecting q)
          ∙ ap (loaded true) (show-view Step.detecting q)))
        (submits await_start (view p) refl))
      (nothing (view p))

on_otp_submit-Act : (p : Page) → Act (view p) (view (on_otp_submit p))
unfolding on_otp_submit clear_alerts show_error show_success
on_otp_submit-Act p =
    let q = clear_alerts p in
    let value = trim p.otp_field in
    let said : String = "Please enter the verification code." in
    if-Act (view p) (nonempty value) (send_otp value q) (show_error (some said) q)
      (submitted-Act await_otp Step.verifying q refl) (nothing (view p))

on_password_submit-Act : (p : Page) → Act (view p) (view (on_password_submit p))
unfolding on_password_submit clear_alerts show_error show_success
on_password_submit-Act p =
    let q = clear_alerts p in
    let said : String = "Please enter your password." in
    if-Act (view p) (nonempty p.password_field) (send_password q) (show_error (some said) q)
      (submitted-Act await_password Step.verifying q refl) (nothing (view p))

submit-Act : (f : Form) (p : Page) → Act (view p) (view (submit f p))
unfolding submit
submit-Act email_form p = on_email_submit-Act p
submit-Act otp_form p = on_otp_submit-Act p
submit-Act password_form p = on_password_submit-Act p

act-Act : (a : Action) (p : Page) → Act (view p) (view (act a p))
unfolding act back use_password resend tos_accept clear_alerts show_error show_success
    cancel_ceremony set_loading
act-Act go_back p =
    by-view (view p) (ap (loaded false) (show-view Step.email _)) (gives_up (view p))
act-Act take_password p = by-view (view p) (show-view Step.password _) (nothing (view p))
act-Act resend_code p = submits await_resend (view p) refl
act-Act accept_terms p = submits await_terms (view p) refl

input-Act : (i : Input) (p : Page) → Act (view p) (view (input i p))
unfolding input update_terms
input-Act (type_email t) p = nothing (view p)
input-Act (type_otp t) p = nothing (view p)
input-Act (type_password t) p = nothing (view p)
input-Act (tick b) p = checks b (view p)
input-Act (solve t) p = nothing (view p)

-- The page does nothing but what the protocol lets it: whatever the pending requests are answered
-- with, every event on the page, the reply to a request included, is a step of the protocol with
-- the same reply, what the page shows left aside.
pub Move-Step :
    (Q : (t : Task) → Reply t → Type 0) {p q : Page} (m : Move p q)
    → Replied Q m
    → Protocol.Step Q (view p) (view q)
unfolding click cancel_ceremony
Move-Step Q (clicks a p) h =
    acts (if-Act (view p) (is_disabled a p) p (act a p) (nothing (view p)) (act-Act a p))
Move-Step Q (Move.submits f p) h = acts (submit-Act f p)
Move-Step Q (inputs i p) h = acts (input-Act i p)
Move-Step Q (hides p) h = acts (nothing (view p))
Move-Step Q (settles p before after t r e) h =
    answers (view p) _ before after t r e h
      (resume-Answer t r (record p { tasks = before ++ after }))
Move-Step Q (rounds p found before after tries e) h = acts (nothing (view p))
