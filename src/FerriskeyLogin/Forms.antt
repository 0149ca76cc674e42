-- ===== src/FerriskeyLogin/Forms.antt =====
-- The three forms and the captcha: `onEmailSubmit`, `onOtpSubmit`, `onPasswordSubmit`,
-- `completeCaptcha`.
use oxidt_kit.Kit.{
  ℕ, suc, ltb, true, false, not, Text, String, nonempty, nonempty_string, trim, to_lower_case,
  Option, none, some, [], if◌then◌else◌,
}
use oxidt_kit.Browser.Http.{Outcome, ok, thrown, Response, truthy, is_true, or_default}
use oxidt_kit.Browser.Webauthn.{RawOptions}
use oxidt_kit.LocalLogin.Forms.{token_of, emptied, is_address}
use oxidt_kit.FerriskeyLogin.State.{
  Step, session_start, captcha_verify, otp_verify, password_verify, await_start,
  await_captcha_token, await_captcha, await_otp, await_password, Page,
}
use oxidt_kit.FerriskeyLogin.Ui.{post, wait, show, set_loading, show_error, clear_alerts}
use oxidt_kit.FerriskeyLogin.Ceremony.{proceed_after_login, trigger_passkey, back_to}

-- `captchaToken`.
unfoldable pub captcha_token : Page → Option Text
captcha_token p = token_of p.captcha_field

-- `resetCaptcha`; the widgets, which are reset too, are not part of the page.
unfoldable pub reset_captcha : Page → Page
reset_captcha p = record p { captcha_field = emptied p.captcha_field }

-- The loop of `completeCaptcha` from round `i` on, up to its next wait, for the token it reads.
abbrev pub captcha_with : ℕ → Option Text → Page → Page
captcha_with i (some token) p = post (captcha_verify token) await_captcha p
captcha_with i none p = wait (await_captcha_token i) p

-- `showError(msg); setLoading(false)`.
abbrev pub stay : String → Page → Page
stay msg p = set_loading false (show_error (some msg) p)

unfoldable pub captcha_round : ℕ → Page → Page
unfolding captcha_token
captcha_round i p =
    if ltb i 60
    then captcha_with i (captcha_token p) p
    else stay "Verification is still loading. Please wait a moment and try again." p

-- After the `sleep` of round `i`.
unfoldable pub on_captcha_token : ℕ → Page → Page
unfolding captcha_round
on_captcha_token i p = captcha_round (suc i) p

unfoldable pub complete_captcha : Page → Page
unfolding captcha_round
complete_captcha p = captcha_round 0 p

abbrev pub captcha_failed : String → Page → Page
captcha_failed msg p = set_loading false (reset_captcha (show_error (some msg) p))

-- A token that was accepted is spent, and is taken out too.
unfoldable pub on_captcha : Outcome Response → Page → Page
on_captcha (thrown msg) p = captcha_failed msg p
on_captcha (ok resp) p =
    if truthy resp.success
    then set_loading false (show Step.otp (show_error none (reset_captcha p)))
    else captcha_failed (or_default resp.error "Verification failed") p

-- The address as it is sent.
unfoldable pub email_value : Page → Text
email_value p = to_lower_case p.setting.unicode_lower (trim p.email_field)

-- `onEmailSubmit` with an address, up to its wait.
abbrev pub send_email : Text → Page → Page
send_email value p =
    let url = p.setting.redirect_url in
    post (session_start value (if nonempty_string url then some url else none)) await_start
      (record (set_loading true (show Step.detecting p)) { shown_email = value })

unfoldable pub on_email_submit : Page → Page
on_email_submit p =
    let value = email_value p in
    let q = clear_alerts p in
    if is_address value
    then send_email value q
    else show_error (some "Please enter a valid email address.") q

-- The ways that `/auth/session/start` points to, the first that applies.
abbrev pub start_with : Response → Option RawOptions → Page → Page
start_with resp (some raw) p =
    trigger_passkey
      (set_loading false (show Step.passkey (record p { passkey_options = some raw })))
start_with resp none p =
    if truthy resp.has_password
    then set_loading false (show Step.password p)
    else if truthy resp.otp_sent
    then set_loading false (show Step.otp p)
    else back_to Step.email "Unexpected response from server" p

-- The captcha that the server asks for, where the page can mount it.
abbrev pub start_captcha : Page → Page
start_captcha p =
    let q = show Step.email p in
    if p.setting.has_captcha
    then complete_captcha q
    else stay "Verification is unavailable. Please try again later." q

unfoldable pub on_start : Outcome Response → Page → Page
unfolding complete_captcha
on_start (thrown msg) p = back_to Step.email msg p
on_start (ok resp) p =
    let q = record p {
      new_user_hidden = not (truthy resp.is_new_user);
      password_hidden = not (truthy resp.has_password);
    } in
    if is_true resp.captcha_required
    then start_captcha q
    else start_with resp resp.public_key_options q

abbrev pub send_otp : Text → Page → Page
send_otp value p = post (otp_verify value) await_otp (show Step.verifying (set_loading true p))

unfoldable pub on_otp_submit : Page → Page
on_otp_submit p =
    let value = trim p.otp_field in
    let q = clear_alerts p in
    if nonempty value
    then send_otp value q
    else show_error (some "Please enter the verification code.") q

unfoldable pub on_otp : Outcome Response → Page → Page
on_otp (thrown msg) p = back_to Step.otp msg p
on_otp (ok resp) p =
    if truthy resp.success
    then proceed_after_login resp p
    else back_to Step.otp (or_default resp.error "Verification failed") p

abbrev pub send_password : Page → Page
send_password p =
    post (password_verify p.password_field) await_password
      (show Step.verifying (set_loading true p))

unfoldable pub on_password_submit : Page → Page
on_password_submit p =
    let q = clear_alerts p in
    if nonempty p.password_field
    then send_password q
    else show_error (some "Please enter your password.") q

abbrev pub cleared : Page → Page
cleared p = record p { password_field = [] }

unfoldable pub on_password : Outcome Response → Page → Page
on_password (thrown msg) p = back_to Step.password msg (cleared p)
on_password (ok resp) p =
    if truthy resp.success
    then proceed_after_login resp (cleared p)
    else back_to Step.password (or_default resp.error "Password verification failed") (cleared p)
