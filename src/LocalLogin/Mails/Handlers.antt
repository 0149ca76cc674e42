-- ===== src/LocalLogin/Mails/Handlers.antt =====
-- The handlers of forms and buttons that ask for no code.
use oxidt_kit.Kit.{
  ℕ, suc, refl, ltb, not, true, false, Text, nonempty, trim, String, Option, none, some, List,
}
use oxidt_kit.Browser.Http.{Response, Outcome, ok, thrown, truthy, is_true, is_not_false}
use oxidt_kit.Browser.Webauthn.{
  RawOptions, Creation, RawCreation, Challenge, Attestation, creation_options,
}
use oxidt_kit.LocalLogin.State.{
  Step, Settled, given, abort_error, not_allowed_error, other_error, Page,
}
use oxidt_kit.LocalLogin.Ui.{
  show, set_loading, show_error, show_success, clear_alerts, email_error, offer_code,
}
use oxidt_kit.LocalLogin.Ceremony.{cancel_ceremony}
use oxidt_kit.LocalLogin.Forms.{
  back_to, captcha_token, reset_captcha, captcha_with, captcha_round, on_captcha_token,
  complete_captcha, captcha_failed, on_captcha, email_value, is_address, on_email_submit,
  start_with, on_start, on_otp_submit, on_password_submit,
}
use oxidt_kit.LocalLogin.Actions.{
  on_code, on_resend, passkey_back, on_back_release, retry, back, offer_add, enroll_failed,
  create_with, on_enroll_options, on_created, tos_accept,
}
use oxidt_kit.LocalLogin.Mails.Kept.{
  asked, Asks, keeps, extended, count_of, ◌⊙◌, if-asked, show-asked, set_loading-asked,
  trigger_passkey-asked,
}

pub back_to-asked : (name : Step) (msg : String) (p : Page) → Asks (asked p) (back_to name msg p)
unfolding show_error
back_to-asked name msg p = set_loading-asked false _ ⊙ show-asked name _

captcha_failed-asked : (msg : String) (p : Page) → Asks (asked p) (captcha_failed msg p)
unfolding show_error reset_captcha
captcha_failed-asked msg p = set_loading-asked false _

captcha_with-asked : (i : ℕ) (o : Option Text) (p : Page) → Asks (asked p) (captcha_with i o p)
captcha_with-asked i none p = (keeps refl)
captcha_with-asked i (some t) p = (keeps refl)

captcha_round-asked : (i : ℕ) (p : Page) → Asks (asked p) (captcha_round i p)
unfolding captcha_round show_error
captcha_round-asked i p =
    if-asked (ltb i 60) _ _ (captcha_with-asked i (captcha_token p) p) (set_loading-asked false _)

pub on_captcha_token-asked : (i : ℕ) (p : Page) → Asks (asked p) (on_captcha_token i p)
unfolding on_captcha_token
on_captcha_token-asked i p = captcha_round-asked (suc i) p

pub on_captcha-asked : (r : Outcome Response) (p : Page) → Asks (asked p) (on_captcha r p)
unfolding on_captcha show_error
on_captcha-asked (thrown msg) p = captcha_failed-asked msg p
on_captcha-asked (ok resp) p =
    if-asked (truthy resp.success) _ _ (set_loading-asked false _ ⊙ show-asked Step.otp _)
      (captcha_failed-asked _ p)

pub on_email_submit-asked : (p : Page) → Asks (asked p) (on_email_submit p)
unfolding on_email_submit email_error clear_alerts show_error show_success cancel_ceremony
on_email_submit-asked p = if-asked (not (is_address (email_value p))) _ _ (keeps refl) (
    extended
      (set_loading true (record (clear_alerts (email_error none p)) { attempt = suc p.attempt }))
      (set_loading-asked true _) refl)

start_with-asked :
    (resp : Response) (o : Option RawOptions) (p : Page) → Asks (asked p) (start_with resp o p)
start_with-asked resp (some raw) p =
    trigger_passkey-asked _ ⊙ (set_loading-asked false _ ⊙ show-asked Step.passkey _)
start_with-asked resp none p =
    if-asked (truthy resp.password) _ _ (set_loading-asked false _ ⊙ show-asked Step.password p) (
      if-asked (truthy resp.otp_sent) _ _ (set_loading-asked false _ ⊙ show-asked Step.otp p)
        (back_to-asked Step.email "Unexpected response from server" p))

pub on_start-asked : (r : Outcome Response) (p : Page) → Asks (asked p) (on_start r p)
unfolding on_start offer_code complete_captcha
on_start-asked (thrown msg) p = back_to-asked Step.email msg p
on_start-asked (ok resp) p =
    let q =
      offer_code (is_not_false resp.otp)
        (record p { new_user_hidden = not (truthy resp.is_new_user) }) in
    if-asked (is_true resp.captcha_required) (complete_captcha q) _ (captcha_round-asked 0 q)
      (start_with-asked resp resp.public_key_options _)

pub on_otp_submit-asked : (p : Page) → Asks (asked p) (on_otp_submit p)
unfolding on_otp_submit clear_alerts show_error show_success
on_otp_submit-asked p =
    if-asked (nonempty (trim p.otp_field)) _ _
      (extended (show Step.verifying (clear_alerts (set_loading true p)))
        (extended (set_loading true p) (set_loading-asked true p)
          (count_of (show-asked Step.verifying (clear_alerts (set_loading true p)))))
        refl)
      (keeps refl)

pub on_password_submit-asked : (p : Page) → Asks (asked p) (on_password_submit p)
unfolding on_password_submit clear_alerts show_error show_success
on_password_submit-asked p =
    if-asked (nonempty p.password_field) _ _
      (extended (set_loading true p) (set_loading-asked true p) refl) (keeps refl)

pub failed-asked :
    (msg : Option String) (p : Page) → Asks (asked p) (set_loading false (show_error msg p))
unfolding show_error
failed-asked msg p = set_loading-asked false _

pub on_code-asked : (r : Outcome Response) (p : Page) → Asks (asked p) (on_code r p)
unfolding on_code show_error show_success
on_code-asked (thrown msg) p = set_loading-asked false _ ⊙ show-asked Step.email _
on_code-asked (ok resp) p = set_loading-asked false _ ⊙ show-asked Step.otp _

pub on_resend-asked : (r : Outcome Response) (p : Page) → Asks (asked p) (on_resend r p)
unfolding on_resend show_error show_success
on_resend-asked (thrown msg) p = set_loading-asked false _
on_resend-asked (ok resp) p =
    set_loading-asked false _ ⊙ if-asked (truthy resp.success) _ _ (keeps refl) (keeps refl)

pub passkey_back-asked : (p : Page) → Asks (asked p) (passkey_back p)
unfolding passkey_back cancel_ceremony clear_alerts show_error show_success
passkey_back-asked p = (keeps refl)

pub on_back_release-asked : (p : Page) → Asks (asked p) (on_back_release p)
unfolding on_back_release
on_back_release-asked p = show-asked Step.email _ ⊙ set_loading-asked false p

pub retry-asked : (p : Page) → Asks (asked p) (retry p)
unfolding retry show_error
retry-asked p = trigger_passkey-asked _ ⊙ show-asked Step.passkey _

pub back-asked : (p : Page) → Asks (asked p) (back p)
unfolding back email_error clear_alerts show_error show_success
back-asked p = show-asked Step.email _

pub offer_add-asked : (p : Page) → Asks (asked p) (offer_add p)
unfolding offer_add show_error
offer_add-asked p = extended (set_loading true p) (set_loading-asked true p) refl

pub tos_accept-asked : (p : Page) → Asks (asked p) (tos_accept p)
unfolding tos_accept show_error
tos_accept-asked p = extended (set_loading true p) (set_loading-asked true p) refl

create_with-asked :
    (o : Option (Creation (List ℕ) Challenge)) (p : Page) → Asks (asked p) (create_with o p)
create_with-asked none p = failed-asked _ p
create_with-asked (some request) p = (keeps refl)

create_from-asked :
    (o : Option RawCreation) (p : Page)
    → Asks (asked p) (elim o [
      | none ↦ enroll_failed p.setting.no_options_error p
      | some r ↦ create_with (creation_options p.setting.atob r) p
    ])
create_from-asked none p = failed-asked _ p
create_from-asked (some r) p = create_with-asked (creation_options p.setting.atob r) p

pub on_enroll_options-asked :
    (r : Outcome Response) (p : Page) → Asks (asked p) (on_enroll_options r p)
unfolding on_enroll_options
on_enroll_options-asked (thrown msg) p = failed-asked (some msg) p
on_enroll_options-asked (ok resp) p =
    if-asked (not p.setting.can_create) _ _ (failed-asked _ p) (create_from-asked resp.creation p)

pub on_created-asked :
    (r : Settled (Attestation (List ℕ))) (p : Page) → Asks (asked p) (on_created r p)
unfolding on_created
on_created-asked (given c) p = (keeps refl)
on_created-asked abort_error p = failed-asked _ p
on_created-asked not_allowed_error p = failed-asked _ p
on_created-asked (other_error msg) p = failed-asked _ p
