-- ===== src/LocalLogin/Forms.antt =====
-- The three forms and the captcha: `onEmailSubmit`, `onOtpSubmit`, `onPasswordSubmit`,
-- `completeCaptcha`. A `return proceedAfterLogin(resp)` and a fall to the end of a handler are the
-- two ways out of each.
use oxidt_kit.Kit.{
  ℕ, suc, ltb, Bool, true, false, not, ◌&&◌, Text, String, nonempty, nonempty_string, codes,
  includes, trim, to_lower_case, Option, none, some, [], if◌then◌else◌,
}
use oxidt_kit.Browser.Http.{
  Outcome, ok, thrown, Response, truthy, is_true, is_not_false, or_default,
}
use oxidt_kit.Browser.Webauthn.{RawOptions}
use oxidt_kit.LocalLogin.State.{
  Step, session_start, captcha_verify, otp_verify, password_verify, await_email_release,
  await_start, await_captcha_token, await_captcha, await_otp, await_password, Page,
}
use oxidt_kit.LocalLogin.Ui.{
  post, wait, show, set_loading, show_error, show_success, clear_alerts, email_error, offer_code,
}
use oxidt_kit.LocalLogin.Flow.{proceed_after_login}
use oxidt_kit.LocalLogin.Ceremony.{cancel_ceremony, trigger_passkey}

-- `catch (e) { showError(e.message); show(step); setLoading(false) }`.
abbrev pub back_to : Step → String → Page → Page
back_to name msg p = set_loading false (show name (show_error (some msg) p))

-- A captcha token that is truthy.
abbrev pub token_of : Option Text → Option Text
token_of none = none
token_of (some t) = if nonempty t then some t else none

-- `captchaToken`.
unfoldable pub captcha_token : Page → Option Text
captcha_token p = token_of p.captcha_field

abbrev pub emptied : Option Text → Option Text
emptied none = none
emptied (some t) = some []

-- `resetCaptcha`; the widgets, which are reset too, are not part of the page.
unfoldable pub reset_captcha : Page → Page
reset_captcha p = record p { captcha_field = emptied p.captcha_field }

-- The loop of `completeCaptcha` from round `i` on, up to its next wait, for the token it reads.
abbrev pub captcha_with : ℕ → Option Text → Page → Page
captcha_with i (some token) p = post (captcha_verify token) await_captcha p
captcha_with i none p = wait (await_captcha_token i) p

unfoldable pub captcha_round : ℕ → Page → Page
unfolding captcha_token
captcha_round i p =
    if ltb i 60
    then captcha_with i (captcha_token p) p
    else set_loading false
        (show_error (some "Verification is still loading. Please wait a moment and try again.") p)

-- After the `sleep` of round `i`.
unfoldable pub on_captcha_token : ℕ → Page → Page
unfolding captcha_round
on_captcha_token i p = captcha_round (suc i) p

unfoldable pub complete_captcha : Page → Page
unfolding captcha_round
complete_captcha p = captcha_round 0 p

abbrev pub captcha_failed : String → Page → Page
captcha_failed msg p = set_loading false (reset_captcha (show_error (some msg) p))

unfoldable pub on_captcha : Outcome Response → Page → Page
on_captcha (thrown msg) p = captcha_failed msg p
on_captcha (ok resp) p =
    if truthy resp.success
    then set_loading false (show Step.otp (show_error none p))
    else captcha_failed (or_default resp.error "Verification failed") p

-- The address as it is sent.
unfoldable pub email_value : Page → Text
email_value p = to_lower_case p.setting.unicode_lower (trim p.email_field)

unfoldable pub is_address : Text → Bool
is_address value = nonempty value && includes value (codes "@")

-- `onEmailSubmit` up to `cancelCeremony()`.
unfoldable pub on_email_submit : Page → Page
unfolding cancel_ceremony
on_email_submit p =
    let value = email_value p in
    if not (is_address value)
    then email_error (some "Please enter a valid email address.") p
    else (let q = clear_alerts (email_error none p) in
        let r = set_loading true (record q { attempt = suc q.attempt }) in
        let s = record r { email = value; shown_email = value } in
        wait (await_email_release value s.ceremony) (cancel_ceremony s))

-- After `cancelCeremony()`.
unfoldable pub on_email_release : Text → Page → Page
on_email_release value p =
    let url = p.setting.redirect_url in
    post (session_start value (if nonempty_string url then some url else none)) await_start p

-- The ways that `/auth/session/start` points to, the first that applies.
abbrev pub start_with : Response → Option RawOptions → Page → Page
start_with resp (some raw) p =
    trigger_passkey
      (set_loading false (show Step.passkey (record p { passkey_options = some raw })))
start_with resp none p =
    if truthy resp.password
    then set_loading false (show Step.password p)
    else if truthy resp.otp_sent
    then set_loading false (show Step.otp p)
    else back_to Step.email "Unexpected response from server" p

unfoldable pub on_start : Outcome Response → Page → Page
unfolding offer_code complete_captcha
on_start (thrown msg) p = back_to Step.email msg p
on_start (ok resp) p =
    let q =
      offer_code (is_not_false resp.otp)
        (record p { new_user_hidden = not (truthy resp.is_new_user) }) in
    if is_true resp.captcha_required
    then complete_captcha q
    else start_with resp resp.public_key_options q

unfoldable pub on_otp_submit : Page → Page
on_otp_submit p =
    let value = trim p.otp_field in
    if nonempty value
    then post (otp_verify value) await_otp (show Step.verifying (clear_alerts (set_loading true p)))
    else show_success none (show_error (some "Please enter the verification code.") p)

unfoldable pub on_otp : Outcome Response → Page → Page
on_otp (thrown msg) p = back_to Step.otp msg p
on_otp (ok resp) p =
    if truthy resp.success
    then proceed_after_login resp p
    else back_to Step.otp (or_default resp.error "Verification failed") p

unfoldable pub on_password_submit : Page → Page
on_password_submit p =
    if nonempty p.password_field
    then post (password_verify p.email p.password_field) await_password
        (clear_alerts (set_loading true p))
    else show_error (some "Please enter your password.") p

abbrev pub cleared : Page → Page
cleared p = record p { password_field = [] }

abbrev pub sign_in_failed : String → Page → Page
sign_in_failed msg p = set_loading false (show_error (some msg) p)

unfoldable pub on_password : Outcome Response → Page → Page
on_password (thrown msg) p = sign_in_failed msg (cleared p)
on_password (ok resp) p =
    if truthy resp.success
    then proceed_after_login resp (cleared p)
    else sign_in_failed (or_default resp.error "Sign-in failed") (cleared p)
