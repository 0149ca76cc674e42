-- ===== src/LocalLogin/Redirect/Handlers.antt =====
-- The same of the handlers of forms and buttons.
use oxidt_kit.Kit.{
  ℕ, suc, ◌≡◌, refl, ◌∙◌, ltb, not, true, false, Text, nonempty, String, Option, none, some, List,
}
use oxidt_kit.Browser.Http.{Response, Outcome, ok, thrown, truthy, is_true}
use oxidt_kit.Browser.Webauthn.{
  RawOptions, Creation, RawCreation, Challenge, Attestation, creation_options,
}
use oxidt_kit.LocalLogin.State.{
  Step, Settled, given, abort_error, not_allowed_error, other_error, Page,
}
use oxidt_kit.LocalLogin.Ui.{
  set_loading, show_error, show_success, clear_alerts, email_error, offer_code,
}
use oxidt_kit.LocalLogin.Ceremony.{cancel_ceremony}
use oxidt_kit.LocalLogin.Forms.{
  back_to, captcha_token, reset_captcha, captcha_with, captcha_round, on_captcha_token,
  complete_captcha, captcha_failed, on_captcha, email_value, is_address, on_email_submit,
  start_with, on_start, on_otp_submit, on_password_submit,
}
use oxidt_kit.LocalLogin.Actions.{
  use_code, on_code, resend, on_resend, passkey_back, on_back_release, retry, back, offer_add,
  enroll_failed, create_with, on_enroll_options, on_created, tos_accept,
}
use oxidt_kit.LocalLogin.Redirect.Kept.{
  bound_for, if-bound, show-bound, set_loading-bound, trigger_passkey-bound,
}

pub back_to-bound :
    (name : Step) (msg : String) (p : Page) → bound_for (back_to name msg p) ≡ bound_for p
unfolding show_error
back_to-bound name msg p = set_loading-bound false _ ∙ show-bound name _

captcha_failed-bound : (msg : String) (p : Page) → bound_for (captcha_failed msg p) ≡ bound_for p
unfolding show_error reset_captcha
captcha_failed-bound msg p = set_loading-bound false _

captcha_with-bound :
    (i : ℕ) (o : Option Text) (p : Page) → bound_for (captcha_with i o p) ≡ bound_for p
captcha_with-bound i none p = refl
captcha_with-bound i (some t) p = refl

captcha_round-bound : (i : ℕ) (p : Page) → bound_for (captcha_round i p) ≡ bound_for p
unfolding captcha_round show_error
captcha_round-bound i p =
    if-bound (ltb i 60) _ _ (captcha_with-bound i (captcha_token p) p) (set_loading-bound false _)

pub on_captcha_token-bound : (i : ℕ) (p : Page) → bound_for (on_captcha_token i p) ≡ bound_for p
unfolding on_captcha_token
on_captcha_token-bound i p = captcha_round-bound (suc i) p

pub on_captcha-bound : (r : Outcome Response) (p : Page) → bound_for (on_captcha r p) ≡ bound_for p
unfolding on_captcha show_error
on_captcha-bound (thrown msg) p = captcha_failed-bound msg p
on_captcha-bound (ok resp) p =
    if-bound (truthy resp.success) _ _ (set_loading-bound false _ ∙ show-bound Step.otp _)
      (captcha_failed-bound _ p)

pub on_email_submit-bound : (p : Page) → bound_for (on_email_submit p) ≡ bound_for p
unfolding on_email_submit email_error clear_alerts show_error show_success cancel_ceremony
on_email_submit-bound p =
    if-bound (not (is_address (email_value p))) _ _ refl (set_loading-bound true _)

start_with-bound :
    (resp : Response) (o : Option RawOptions) (p : Page)
    → bound_for (start_with resp o p) ≡ bound_for p
start_with-bound resp (some raw) p =
    trigger_passkey-bound _ ∙ (set_loading-bound false _ ∙ show-bound Step.passkey _)
start_with-bound resp none p =
    if-bound (truthy resp.password) _ _ (set_loading-bound false _ ∙ show-bound Step.password p) (
      if-bound (truthy resp.otp_sent) _ _ (set_loading-bound false _ ∙ show-bound Step.otp p)
        (back_to-bound Step.email "Unexpected response from server" p))

pub on_start-bound : (r : Outcome Response) (p : Page) → bound_for (on_start r p) ≡ bound_for p
unfolding on_start offer_code complete_captcha
on_start-bound (thrown msg) p = back_to-bound Step.email msg p
on_start-bound (ok resp) p =
    if-bound (is_true resp.captcha_required) _ _ (captcha_round-bound 0 _)
      (start_with-bound resp resp.public_key_options _)

pub on_otp_submit-bound : (p : Page) → bound_for (on_otp_submit p) ≡ bound_for p
unfolding on_otp_submit clear_alerts show_error show_success
on_otp_submit-bound p = if-bound _ _ _ (show-bound Step.verifying _ ∙ set_loading-bound true p) refl

pub on_password_submit-bound : (p : Page) → bound_for (on_password_submit p) ≡ bound_for p
unfolding on_password_submit clear_alerts show_error show_success
on_password_submit-bound p =
    if-bound (nonempty p.password_field) _ _ (set_loading-bound true p) refl

pub failed-bound :
    (msg : Option String) (p : Page)
    → bound_for (set_loading false (show_error msg p)) ≡ bound_for p
unfolding show_error
failed-bound msg p = set_loading-bound false _

pub use_code-bound : (p : Page) → bound_for (use_code p) ≡ bound_for p
unfolding use_code cancel_ceremony clear_alerts show_error show_success
use_code-bound p = set_loading-bound true _

pub on_code-bound : (r : Outcome Response) (p : Page) → bound_for (on_code r p) ≡ bound_for p
unfolding on_code show_error show_success
on_code-bound (thrown msg) p = set_loading-bound false _ ∙ show-bound Step.email _
on_code-bound (ok resp) p = set_loading-bound false _ ∙ show-bound Step.otp _

pub resend-bound : (p : Page) → bound_for (resend p) ≡ bound_for p
unfolding resend clear_alerts show_error show_success
resend-bound p = set_loading-bound true p

pub on_resend-bound : (r : Outcome Response) (p : Page) → bound_for (on_resend r p) ≡ bound_for p
unfolding on_resend show_error show_success
on_resend-bound (thrown msg) p = set_loading-bound false _
on_resend-bound (ok resp) p =
    set_loading-bound false _ ∙ if-bound (truthy resp.success) _ _ refl refl

pub passkey_back-bound : (p : Page) → bound_for (passkey_back p) ≡ bound_for p
unfolding passkey_back cancel_ceremony clear_alerts show_error show_success
passkey_back-bound p = refl

pub on_back_release-bound : (p : Page) → bound_for (on_back_release p) ≡ bound_for p
unfolding on_back_release
on_back_release-bound p = show-bound Step.email _ ∙ set_loading-bound false p

pub retry-bound : (p : Page) → bound_for (retry p) ≡ bound_for p
unfolding retry show_error
retry-bound p = trigger_passkey-bound _ ∙ show-bound Step.passkey _

pub back-bound : (p : Page) → bound_for (back p) ≡ bound_for p
unfolding back email_error clear_alerts show_error show_success
back-bound p = show-bound Step.email _

pub offer_add-bound : (p : Page) → bound_for (offer_add p) ≡ bound_for p
unfolding offer_add show_error
offer_add-bound p = set_loading-bound true p

pub tos_accept-bound : (p : Page) → bound_for (tos_accept p) ≡ bound_for p
unfolding tos_accept show_error
tos_accept-bound p = set_loading-bound true p

create_with-bound :
    (o : Option (Creation (List ℕ) Challenge)) (p : Page)
    → bound_for (create_with o p) ≡ bound_for p
create_with-bound none p = failed-bound _ p
create_with-bound (some request) p = refl

create_from-bound :
    (o : Option RawCreation) (p : Page)
    → bound_for (elim o [
      | none ↦ enroll_failed p.setting.no_options_error p
      | some r ↦ create_with (creation_options p.setting.atob r) p
    ])
      ≡ bound_for p
create_from-bound none p = failed-bound _ p
create_from-bound (some r) p = create_with-bound (creation_options p.setting.atob r) p

pub on_enroll_options-bound :
    (r : Outcome Response) (p : Page) → bound_for (on_enroll_options r p) ≡ bound_for p
unfolding on_enroll_options
on_enroll_options-bound (thrown msg) p = failed-bound (some msg) p
on_enroll_options-bound (ok resp) p =
    if-bound (not p.setting.can_create) _ _ (failed-bound _ p) (create_from-bound resp.creation p)

pub on_created-bound :
    (r : Settled (Attestation (List ℕ))) (p : Page) → bound_for (on_created r p) ≡ bound_for p
unfolding on_created
on_created-bound (given c) p = refl
on_created-bound abort_error p = failed-bound _ p
on_created-bound not_allowed_error p = failed-bound _ p
on_created-bound (other_error msg) p = failed-bound _ p
