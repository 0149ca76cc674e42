-- ===== src/FerriskeyLogin/Ceremony.antt =====
-- `getPasskey`, `cancelCeremony`, `triggerPasskey` and `proceedAfterLogin`.
use text.Mathlib.Text.{◌==◌ as str_eq}
use Prim.Native.String
use oxidt_kit.Kit.{
  ℕ, suc, ◌==◌, ◌||◌, not, Bool, false, String, nonempty_string, Option, none, some, List,
  if◌then◌else◌,
}
use oxidt_kit.Browser.Http.{Response, Outcome, ok, thrown, truthy, is_true, or_default}
use oxidt_kit.Browser.Webauthn.{RawOptions, Request, Credential, request_options, assertion_json}
use oxidt_kit.LocalLogin.State.{Settled, given, abort_error, not_allowed_error, other_error}
use oxidt_kit.LocalLogin.Ceremony.{is_cancel, abort, release_slot}
use oxidt_kit.FerriskeyLogin.State.{Step, passkey_verify, await_credential, await_verdict, Page}
use oxidt_kit.FerriskeyLogin.Ui.{post, wait, show, set_loading, show_error}

-- A reply without a URL, or with an empty one, goes nowhere.
abbrev pub leave_for : Option String → Page → Page
leave_for none p = p
leave_for (some url) p =
    if nonempty_string url
    then (let q = show Step.success p in record q { location = some url })
    else p

unfoldable pub proceed_after_login : Response → Page → Page
proceed_after_login resp p =
    if is_true resp.needs_tos_acceptance
    then set_loading false (show Step.tos p)
    else leave_for resp.redirect_url p

-- `attempt !== mine`.
abbrev pub stale : ℕ → Page → Bool
stale mine p = not (p.attempt == mine)

unfoldable pub cancel_ceremony : Page → Page
cancel_ceremony p = record p { aborted = abort p.ceremony p.aborted }

-- The first `catch` of `triggerPasskey`.
unfoldable pub ceremony_failed : ℕ → String → Page → Page
ceremony_failed mine msg p =
    if stale mine p || str_eq msg "ceremony-aborted"
    then p
    else (let said =
          if is_cancel msg
          then "Passkey authentication was cancelled."
          else String.◌++◌ "Passkey authentication failed: " msg in
        show_error (some said) p)

-- `navigator.credentials.get`, with the controller in the slot.
abbrev pub get_credential : ℕ → Option Request → Page → Page
get_credential mine none p = ceremony_failed mine p.setting.atob_error p
get_credential mine (some request) p =
    wait (await_credential mine p.ceremonies)
      (record p { ceremony = some p.ceremonies; ceremonies = suc p.ceremonies })

abbrev pub with_options : ℕ → Option RawOptions → Page → Page
with_options mine none p = ceremony_failed mine p.setting.no_options_error p
with_options mine (some raw) p = get_credential mine (request_options p.setting.atob raw false) p

-- `getPasskey` up to its wait.
unfoldable pub get_passkey : ℕ → Option RawOptions → Page → Page
unfolding ceremony_failed
get_passkey mine raw p =
    if p.setting.can_get
    then with_options mine raw p
    else ceremony_failed mine "Passkeys are not supported in this browser or context." p

-- `triggerPasskey` up to its first wait.
unfoldable pub trigger_passkey : Page → Page
unfolding get_passkey
trigger_passkey p =
    get_passkey (suc p.attempt) p.passkey_options (record p { attempt = suc p.attempt })

-- `if (ceremony === controller) ceremony = null`.
unfoldable pub release : ℕ → Page → Page
release id p = record p { ceremony = release_slot id p.ceremony }

-- The assertion goes to the server.
unfoldable pub on_assertion : ℕ → Credential (List ℕ) → Page → Page
on_assertion mine c p =
    if stale mine p
    then p
    else post (passkey_verify (assertion_json p.setting.btoa c)) (await_verdict mine)
        (show Step.verifying p)

-- After `navigator.credentials.get`, with the `finally` of `getPasskey`.
unfoldable pub on_credential : ℕ → ℕ → Settled (Credential (List ℕ)) → Page → Page
unfolding release on_assertion ceremony_failed
on_credential mine id (given c) p = on_assertion mine c (release id p)
on_credential mine id abort_error p = ceremony_failed mine "ceremony-aborted" (release id p)
on_credential mine id not_allowed_error p =
    ceremony_failed mine "Authentication was cancelled or timed out." (release id p)
on_credential mine id (other_error msg) p =
    ceremony_failed mine (String.◌++◌ "Passkey error: " msg) (release id p)

-- `showError(msg); show(name); setLoading(false)`.
abbrev pub back_to : Step → String → Page → Page
back_to name msg p = set_loading false (show name (show_error (some msg) p))

-- After `/auth/session/passkey/verify`.
unfoldable pub on_verdict : ℕ → Outcome Response → Page → Page
on_verdict mine (thrown msg) p = if stale mine p then p else back_to Step.passkey msg p
on_verdict mine (ok resp) p =
    if stale mine p
    then p
    else if truthy resp.success
    then proceed_after_login resp p
    else back_to Step.passkey (or_default resp.error "Verification failed") p
