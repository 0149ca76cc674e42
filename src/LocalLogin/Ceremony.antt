-- ===== src/LocalLogin/Ceremony.antt =====
-- "WebAuthn": the ceremony slot (`runCeremony`, `cancelCeremony`) and the three functions that run
-- a ceremony, `armConditional`, `triggerPasskey` and `actions.passkey`. They have one shape: options,
-- the release of the previous ceremony, the credential, the server's verdict, with a check of the
-- generation after each wait. What differs is `begin`, `refuse`, `give_up` and `leave`.
use Prim.Native.String
use text.Mathlib.Text.{◌==◌ as str_eq}
use oxidt_kit.Kit.{
  ℕ, suc, ◌==◌, Bool, true, false, not, ◌&&◌, ◌||◌, String, codes, includes, Option, none, some,
  List, ◌∷◌, if◌then◌else◌,
}
use oxidt_kit.Browser.Http.{Outcome, ok, thrown, Response, truthy, or_default}
use oxidt_kit.Browser.Webauthn.{RawOptions, Request, Credential, request_options, assertion_json}
use oxidt_kit.LocalLogin.State.{
  Step, Ceremony, autofill, bound, discoverable, passkey_verify, await_options, await_mediation,
  await_release, await_credential, await_verdict, Settled, given, abort_error, not_allowed_error,
  other_error, Page,
}
use oxidt_kit.LocalLogin.Ui.{
  post, wait, request_conditional, show, set_loading, show_error, email_error, offer_code,
}
use oxidt_kit.LocalLogin.Flow.{proceed_after_login}

-- The messages by which a browser's or this script's refusals say that the user cancelled.
unfoldable pub is_cancel : String → Bool
is_cancel msg = includes (codes msg) (codes "cancelled") || includes (codes msg) (codes "timed out")

-- `attempt !== mine`.
abbrev pub stale : ℕ → Page → Bool
stale mine p = not (p.attempt == mine)

abbrev pub abort : Option ℕ → List ℕ → List ℕ
abort none ids = ids
abort (some id) ids = id ∷ ids

-- `cancelCeremonyNow`, and `cancelCeremony` up to its wait.
unfoldable pub cancel_ceremony : Page → Page
cancel_ceremony p = record p { aborted = abort p.ceremony p.aborted }

-- `finally` of `armConditional`.
abbrev pub leave : Ceremony → Page → Page
leave autofill p = record p { cond_running = false }
leave _ p = p

-- The `catch` of each function, and its `finally`.
unfoldable pub give_up : Ceremony → ℕ → String → Page → Page
give_up autofill mine msg p =
    let off = not (str_eq msg "ceremony-aborted") && not (stale mine p) in
    record p { cond_disabled = off || p.cond_disabled; cond_running = false }
give_up bound mine msg p =
    if stale mine p
    then p
    else set_loading false
        (show Step.passkey_retry (show_error (if is_cancel msg then none else some msg) p))
give_up discoverable mine msg p =
    if stale mine p
    then p
    else show Step.email (if is_cancel msg then p else show_error (some msg) p)

-- `runCeremony` up to the release of the ceremony that holds the slot.
unfoldable pub run_ceremony : Ceremony → ℕ → Request → Page → Page
unfolding cancel_ceremony
run_ceremony c mine request p = wait (await_release c mine request p.ceremony) (cancel_ceremony p)

abbrev pub with_options : Ceremony → ℕ → Option Request → Page → Page
with_options c mine none p = give_up c mine p.setting.atob_error p
with_options c mine (some request) p = run_ceremony c mine request p

-- The conversion of the options, and `runCeremony`. Where the reply has no options, reading
-- `publicKey` of them throws.
unfoldable pub get_credential : Ceremony → ℕ → Option RawOptions → Bool → Page → Page
unfolding give_up run_ceremony
get_credential c mine none is_discoverable p = give_up c mine p.setting.no_options_error p
get_credential c mine (some raw) is_discoverable p =
    with_options c mine (request_options p.setting.atob raw is_discoverable) p

-- `getPasskey`.
unfoldable pub get_passkey : Ceremony → ℕ → Option RawOptions → Page → Page
unfolding get_credential
get_passkey c mine raw p =
    if p.setting.can_get
    then get_credential c mine raw false p
    else give_up c mine "Passkeys are not supported in this browser or context." p

-- The call of `getPasskeyConditional` or `getPasskey` with the reply's options.
unfoldable pub begin : Ceremony → ℕ → Option RawOptions → Page → Page
unfolding get_passkey
begin autofill mine raw p =
    if p.setting.has_mediation
    then wait (await_mediation mine raw) p
    else give_up autofill mine "conditional-unsupported" p
begin c mine raw p = get_passkey c mine raw p

-- After `conditionalOptions()`.
unfoldable pub on_options : Ceremony → ℕ → Outcome Response → Page → Page
unfolding begin
on_options c mine (thrown msg) p = give_up c mine msg p
on_options c mine (ok opts) p = if stale mine p then leave c p else begin c mine opts.options p

-- After `isConditionalMediationAvailable()`.
unfoldable pub on_mediation : ℕ → Option RawOptions → Outcome Bool → Page → Page
unfolding get_credential
on_mediation mine raw (ok true) p = get_credential autofill mine raw true p
on_mediation mine raw (ok false) p = give_up autofill mine "conditional-unsupported" p
on_mediation mine raw (thrown msg) p = give_up autofill mine msg p

-- After `cancelCeremony()` in `runCeremony`: a ceremony gone stale in the meantime never starts.
unfoldable pub on_release : Ceremony → ℕ → Request → Page → Page
unfolding give_up
on_release c mine request p =
    if stale mine p
    then give_up c mine "ceremony-aborted" p
    else wait (await_credential c mine p.ceremonies)
        (record p { ceremony = some p.ceremonies; ceremonies = suc p.ceremonies })

-- `if (ceremony === mine) ceremony = null`.
abbrev pub release_slot : ℕ → Option ℕ → Option ℕ
release_slot id none = none
release_slot id (some current) = if current == id then none else some current

unfoldable pub release : ℕ → Page → Page
release id p = record p { ceremony = release_slot id p.ceremony }

-- The assertion goes to the server.
unfoldable pub on_assertion : Ceremony → ℕ → Credential (List ℕ) → Page → Page
on_assertion c mine credential p =
    if stale mine p
    then leave c p
    else post (passkey_verify (assertion_json p.setting.btoa credential)) (await_verdict c mine)
        (show Step.verifying p)

-- After `navigator.credentials.get`, with the `finally` of `runCeremony`.
unfoldable pub on_credential : Ceremony → ℕ → ℕ → Settled (Credential (List ℕ)) → Page → Page
unfolding release on_assertion give_up
on_credential c mine id (given credential) p = on_assertion c mine credential (release id p)
on_credential c mine id abort_error p = give_up c mine "ceremony-aborted" (release id p)
on_credential c mine id not_allowed_error p =
    give_up c mine "Authentication was cancelled or timed out." (release id p)
on_credential c mine id (other_error msg) p =
    give_up c mine (String.◌++◌ "Passkey error: " msg) (release id p)

abbrev pub refusal : Ceremony → String
refusal bound = "Verification failed"
refusal _ = "Passkey verification failed"

-- Only `armConditional` shows the email step before it throws.
abbrev pub refuse : Ceremony → Page → Page
refuse autofill p = show Step.email p
refuse _ p = p

unfoldable pub on_verdict : Ceremony → ℕ → Outcome Response → Page → Page
unfolding give_up
on_verdict c mine (thrown msg) p = give_up c mine msg p
on_verdict c mine (ok resp) p =
    if stale mine p
    then leave c p
    else if truthy resp.success
    then leave c (proceed_after_login resp p)
    else give_up c mine (or_default resp.error (refusal c)) (refuse c p)

abbrev pub trigger_with : Option RawOptions → Page → Page
trigger_with none p = show Step.email (show_error (some "No passkey challenge available") p)
trigger_with (some raw) p =
    get_passkey bound (suc p.attempt) (some raw) (record p { attempt = suc p.attempt })

-- `triggerPasskey` up to its first wait.
unfoldable pub trigger_passkey : Page → Page
unfolding get_passkey
trigger_passkey p = trigger_with p.passkey_options p

-- `actions.passkey` up to its first wait.
unfoldable pub passkey_action : Page → Page
unfolding offer_code request_conditional
passkey_action p =
    let q = email_error none (show_error none p) in
    let mine = suc p.attempt in
    request_conditional (await_options discoverable mine)
      (show Step.passkey (offer_code false (record q { attempt = mine })))
