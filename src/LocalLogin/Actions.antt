-- ===== src/LocalLogin/Actions.antt =====
-- `actions`: what each `data-action` button does. `passkey` stands with the ceremonies.
use Prim.Native.String
use oxidt_kit.Kit.{ℕ, suc, true, false, not, String, Option, none, some, List, [], if◌then◌else◌}
use oxidt_kit.Browser.Http.{Outcome, ok, thrown, Response, truthy, or_default}
use oxidt_kit.Browser.Webauthn.{
  RawCreation, Creation, Challenge, Attestation, creation_options, attestation_json,
}
use oxidt_kit.LocalLogin.State.{
  Step, fallback_otp, otp_resend, accept_tos, enroll_options, enroll_verify, await_code_release,
  await_code, await_resend, await_back_release, await_enroll_options, await_created, await_enrolled,
  await_terms, Settled, given, abort_error, not_allowed_error, other_error, Page,
}
use oxidt_kit.LocalLogin.Ui.{
  post, wait, show, set_loading, show_error, show_success, clear_alerts, email_error,
}
use oxidt_kit.LocalLogin.Flow.{dismiss_prompt, finish, route_if_present}
use oxidt_kit.LocalLogin.Ceremony.{cancel_ceremony, trigger_passkey}

-- `attempt++`.
abbrev pub next_attempt : Page → Page
next_attempt p = record p { attempt = suc p.attempt }

unfoldable pub use_code : Page → Page
unfolding cancel_ceremony
use_code p =
    let q = clear_alerts (set_loading true (next_attempt p)) in
    wait (await_code_release q.ceremony) (cancel_ceremony q)

unfoldable pub on_code_release : Page → Page
on_code_release p = post fallback_otp await_code p

-- The reply's `success` is not read.
unfoldable pub on_code : Outcome Response → Page → Page
on_code (thrown msg) p = set_loading false (show Step.email (show_error (some msg) p))
on_code (ok resp) p =
    let q = show_success (some "Verification code sent to your email.") p in
    set_loading false (show Step.otp (record q { password_field = []; otp_field = [] }))

unfoldable pub resend : Page → Page
resend p = post otp_resend await_resend (clear_alerts (set_loading true p))

unfoldable pub on_resend : Outcome Response → Page → Page
on_resend (thrown msg) p = set_loading false (show_error (some msg) p)
on_resend (ok resp) p = set_loading false (
    if truthy resp.success
    then show_success (some "A new code has been sent to your email.") p
    else show_error (some (or_default resp.error "Failed to resend code")) p)

unfoldable pub passkey_back : Page → Page
unfolding cancel_ceremony
passkey_back p =
    let q = clear_alerts (next_attempt p) in
    wait (await_back_release q.ceremony) (cancel_ceremony q)

unfoldable pub on_back_release : Page → Page
on_back_release p = show Step.email (set_loading false p)

unfoldable pub retry : Page → Page
retry p = trigger_passkey (show Step.passkey (show_error none p))

unfoldable pub back : Page → Page
back p =
    let q = email_error none (clear_alerts p) in
    show Step.email (record q { otp_field = []; password_field = [] })

unfoldable pub offer_add : Page → Page
offer_add p = post enroll_options await_enroll_options (show_error none (set_loading true p))

-- `catch` of `offer-add`.
abbrev pub enroll_failed : String → Page → Page
enroll_failed msg p = set_loading false (show_error (some msg) p)

abbrev pub create_with : Option (Creation (List ℕ) Challenge) → Page → Page
create_with none p = enroll_failed p.setting.atob_error p
create_with (some request) p = wait await_created p

-- `createPasskey` up to its wait; `raw` is missing where the reply has no options.
abbrev pub create_passkey : Option RawCreation → Page → Page
create_passkey raw p =
    if not p.setting.can_create
    then enroll_failed "Passkeys are not supported in this browser or context." p
    else (elim raw [
      | none ↦ enroll_failed p.setting.no_options_error p
      | some o ↦ create_with (creation_options p.setting.atob o) p
    ])

unfoldable pub on_enroll_options : Outcome Response → Page → Page
on_enroll_options (thrown msg) p = enroll_failed msg p
on_enroll_options (ok resp) p = create_passkey resp.creation p

unfoldable pub on_created : Settled (Attestation (List ℕ)) → Page → Page
on_created (given c) p = post (enroll_verify (attestation_json p.setting.btoa c)) await_enrolled p
on_created abort_error p =
    enroll_failed (String.◌++◌ "Passkey creation error: " p.setting.abort_message) p
on_created not_allowed_error p = enroll_failed "Passkey creation was cancelled or timed out." p
on_created (other_error msg) p = enroll_failed (String.◌++◌ "Passkey creation error: " msg) p

-- `location.assign(null)` goes to "null".
abbrev pub url_of : Option String → String
url_of none = "null"
url_of (some url) = url

unfoldable pub on_enrolled : Outcome Response → Page → Page
on_enrolled (thrown msg) p = enroll_failed msg p
on_enrolled (ok resp) p =
    if truthy resp.success
    then (let q = set_loading false p in finish (url_of q.pending_redirect) q)
    else enroll_failed (or_default resp.error "Passkey enrollment failed") p

unfoldable pub offer_skip : Page → Page
unfolding dismiss_prompt
offer_skip p = let q = show_error none (dismiss_prompt p) in finish (url_of q.pending_redirect) q

unfoldable pub tos_accept : Page → Page
tos_accept p = post accept_tos await_terms (show_error none (set_loading true p))

abbrev pub accepted : Response → Page → Page
accepted resp p =
    if truthy resp.success
    then route_if_present resp.redirect_url p.offer_after_terms p
    else show_error (some (or_default resp.error "Failed to accept terms")) p

unfoldable pub on_terms : Outcome Response → Page → Page
on_terms (thrown msg) p = set_loading false (show_error (some msg) p)
on_terms (ok resp) p = set_loading false (accepted resp p)
