-- ===== src/LocalLogin/Invariant/Forms.antt =====
-- The invariant under the forms and the captcha.
use oxidt_kit.Kit.{
  ℕ, suc, ltb, ◌≡◌, refl, not, true, false, String, nonempty, trim, Option, none, some, Text, arith,
}
use oxidt_kit.Browser.Http.{
  Response, Outcome, ok, thrown, truthy, is_true, is_not_false, or_default,
}
use oxidt_kit.Browser.Webauthn.{RawOptions}
use oxidt_kit.LocalLogin.State.{
  Step, Task, await_email_release, await_start, await_captcha_token, await_captcha, await_otp,
  await_password, Page,
}
use oxidt_kit.LocalLogin.Ui.{
  wait, show, set_loading, show_error, show_success, clear_alerts, email_error, offer_code,
}
use oxidt_kit.LocalLogin.Ceremony.{cancel_ceremony}
use oxidt_kit.LocalLogin.Forms.{
  back_to, captcha_token, captcha_with, captcha_round, on_captcha_token, complete_captcha,
  captcha_failed, reset_captcha, on_captcha, email_value, is_address, on_email_submit,
  on_email_release, start_with, on_start, on_otp_submit, on_otp, on_password_submit, cleared,
  sign_in_failed, on_password,
}
use oxidt_kit.LocalLogin.Actions.{next_attempt}
use oxidt_kit.LocalLogin.Invariant.Defs.{autofill_task, mine_of, Inv}
use oxidt_kit.LocalLogin.Invariant.Ui.{Held-cons, show-Inv, loading-Inv}
use oxidt_kit.LocalLogin.Invariant.Ceremonies.{
  if-Inv, next-Inv, proceed_after_login-Inv, trigger_passkey-Inv,
}

-- A task that is no ceremony's.
pub plain-Inv :
    (n : ℕ) (t : Task) (p : Page)
    → autofill_task t ≡ 0
    → mine_of t ≡ 0
    → Inv n 0 p
    → Inv n 0 (wait t p)
plain-Inv n t p no_autofill no_mine h =
    (omega (arith, h.0), (omega arith, h.1), h.2, Held-cons p.ceremony t p.tasks h.3)

pub back_to-Inv :
    (n : ℕ) (name : Step) (msg : String) (p : Page) → Inv n 0 p → Inv n 0 (back_to name msg p)
unfolding show_error
back_to-Inv n name msg p h = loading-Inv n 0 false _ (show-Inv n 0 name (show_error (some msg) p) h)

captcha_with-Inv :
    (n : ℕ) (i : ℕ) (o : Option Text) (p : Page) → Inv n 0 p → Inv n 0 (captcha_with i o p)
captcha_with-Inv n i none p h = plain-Inv n (await_captcha_token i) p refl refl h
captcha_with-Inv n i (some token) p h = plain-Inv n await_captcha p refl refl h

captcha_round-Inv : (n : ℕ) (i : ℕ) (p : Page) → Inv n 0 p → Inv n 0 (captcha_round i p)
unfolding captcha_round show_error
captcha_round-Inv n i p h = if-Inv n 0 (ltb i 60) _ _ (captcha_with-Inv n i (captcha_token p) p h) (
    loading-Inv n 0 false
      (show_error (some "Verification is still loading. Please wait a moment and try again.") p) h)

pub on_captcha_token-Inv : (n : ℕ) (i : ℕ) (p : Page) → Inv n 0 p → Inv n 0 (on_captcha_token i p)
unfolding on_captcha_token
on_captcha_token-Inv n i p h = captcha_round-Inv n (suc i) p h

captcha_failed-Inv : (n : ℕ) (msg : String) (p : Page) → Inv n 0 p → Inv n 0 (captcha_failed msg p)
unfolding show_error reset_captcha
captcha_failed-Inv n msg p h = loading-Inv n 0 false (reset_captcha (show_error (some msg) p)) h

pub on_captcha-Inv :
    (n : ℕ) (r : Outcome Response) (p : Page) → Inv n 0 p → Inv n 0 (on_captcha r p)
unfolding on_captcha show_error
on_captcha-Inv n (thrown msg) p h = captcha_failed-Inv n msg p h
on_captcha-Inv n (ok resp) p h =
    if-Inv n 0 (truthy resp.success) _ _
      (loading-Inv n 0 false _ (show-Inv n 0 Step.otp (show_error none p) h))
      (captcha_failed-Inv n (or_default resp.error "Verification failed") p h)

pub on_email_submit-Inv : (n : ℕ) (p : Page) → Inv n 0 p → Inv n 0 (on_email_submit p)
unfolding on_email_submit email_error clear_alerts
on_email_submit-Inv n p h =
    if-Inv n 0 (not (is_address (email_value p)))
      (email_error (some "Please enter a valid email address.") p) _ h
      (plain-Inv n (await_email_release (email_value p) _) (cancel_ceremony begun) refl refl (
        loading-Inv n 0 true (next_attempt (clear_alerts (email_error none p))) (next-Inv n 0 p h)))
  where
    begun : Page
    begun =
        let r = set_loading true (next_attempt (clear_alerts (email_error none p))) in
        record r { email = email_value p; shown_email = email_value p }

pub on_email_release-Inv :
    (n : ℕ) (value : Text) (p : Page) → Inv n 0 p → Inv n 0 (on_email_release value p)
unfolding on_email_release
on_email_release-Inv n value p h = plain-Inv n await_start p refl refl h

start_with-Inv :
    (n : ℕ) (resp : Response) (o : Option RawOptions) (p : Page)
    → Inv n 0 p
    → Inv n 0 (start_with resp o p)
start_with-Inv n resp (some raw) p h = trigger_passkey-Inv n _ (
    loading-Inv n 0 false _ (show-Inv n 0 Step.passkey (record p { passkey_options = some raw }) h))
start_with-Inv n resp none p h =
    if-Inv n 0 (truthy resp.password) _ _ (loading-Inv n 0 false _ (show-Inv n 0 Step.password p h))
      (if-Inv n 0 (truthy resp.otp_sent) _ _ (loading-Inv n 0 false _ (show-Inv n 0 Step.otp p h))
        (back_to-Inv n Step.email "Unexpected response from server" p h))

pub on_start-Inv : (n : ℕ) (r : Outcome Response) (p : Page) → Inv n 0 p → Inv n 0 (on_start r p)
unfolding on_start
on_start-Inv n (thrown msg) p h = back_to-Inv n Step.email msg p h
on_start-Inv n (ok resp) p h =
    if-Inv n 0 (is_true resp.captcha_required) (complete_captcha q) _ (captcha_round-Inv n 0 q h)
      (start_with-Inv n resp resp.public_key_options q h)
  where
    q : Page
    q =
        offer_code (is_not_false resp.otp)
          (record p { new_user_hidden = not (truthy resp.is_new_user) })

pub on_otp_submit-Inv : (n : ℕ) (p : Page) → Inv n 0 p → Inv n 0 (on_otp_submit p)
unfolding on_otp_submit show_success show_error clear_alerts
on_otp_submit-Inv n p h =
    if-Inv n 0 (nonempty (trim p.otp_field)) _
      (show_success none (show_error (some "Please enter the verification code.") p))
      (plain-Inv n await_otp (show Step.verifying (clear_alerts (set_loading true p))) refl refl (
        show-Inv n 0 Step.verifying (clear_alerts (set_loading true p)) (loading-Inv n 0 true p h)))
      h

pub on_otp-Inv : (n : ℕ) (r : Outcome Response) (p : Page) → Inv n 0 p → Inv n 0 (on_otp r p)
unfolding on_otp
on_otp-Inv n (thrown msg) p h = back_to-Inv n Step.otp msg p h
on_otp-Inv n (ok resp) p h =
    if-Inv n 0 (truthy resp.success) _ _ (proceed_after_login-Inv n 0 resp p h)
      (back_to-Inv n Step.otp (or_default resp.error "Verification failed") p h)

pub on_password_submit-Inv : (n : ℕ) (p : Page) → Inv n 0 p → Inv n 0 (on_password_submit p)
unfolding on_password_submit show_error clear_alerts
on_password_submit-Inv n p h =
    if-Inv n 0 (nonempty p.password_field) _ (show_error (some "Please enter your password.") p)
      (plain-Inv n await_password (clear_alerts (set_loading true p)) refl refl
        (loading-Inv n 0 true p h))
      h

sign_in_failed-Inv : (n : ℕ) (msg : String) (p : Page) → Inv n 0 p → Inv n 0 (sign_in_failed msg p)
unfolding show_error
sign_in_failed-Inv n msg p h = loading-Inv n 0 false (show_error (some msg) p) h

pub on_password-Inv :
    (n : ℕ) (r : Outcome Response) (p : Page) → Inv n 0 p → Inv n 0 (on_password r p)
unfolding on_password
on_password-Inv n (thrown msg) p h = sign_in_failed-Inv n msg (cleared p) h
on_password-Inv n (ok resp) p h =
    if-Inv n 0 (truthy resp.success) _ _ (proceed_after_login-Inv n 0 resp (cleared p) h)
      (sign_in_failed-Inv n (or_default resp.error "Sign-in failed") (cleared p) h)
