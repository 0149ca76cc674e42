-- ===== src/LocalLogin/Examples.antt =====
-- Runs of the login page, and its theorems at concrete pages.
use oxidt_kit.Kit.{
  ℕ, String, List, ◌≤◌, ◌≡◌, refl, true, false, codes, none, some, [], ◌∷◌, arith, Bool, take,
}
use oxidt_kit.Browser.Http.{
  post_json, rejected, parsed, Response, truthy, undefined, boolean, ok, thrown,
}
use oxidt_kit.Browser.Webauthn.{RawOptions, Credential, bare}
use oxidt_kit.LocalLogin.State.{
  Step, Setting, Task, autofill, await_options, await_credential, await_verdict, await_password,
  given, await_back_release, abort_error, timed_out, Page,
}
use oxidt_kit.LocalLogin.Ui.{
  show, set_loading, arm_conditional, mount_captcha, show_error, email_error, clear_alerts,
  show_success,
}
use oxidt_kit.LocalLogin.Ceremony.{passkey_action}
use oxidt_kit.LocalLogin.Run.{
  input, type_password, submit, password_form, Move, settles, inputs, submits, resume, passkey,
  use_code_instead, resend_code, passkey_go_back, click, act, init, clicks, start, next,
}
use oxidt_kit.LocalLogin.Redirect.Flow.{Leads}
use oxidt_kit.LocalLogin.Redirect.Granted.{begins, goes_on, location-Run}
use oxidt_kit.LocalLogin.Forms.{on_password_submit}
use oxidt_kit.LocalLogin.Actions.{resend, use_code}
use oxidt_kit.LocalLogin.Progress.Ends as Progress
use oxidt_kit.LocalLogin.Progress.Ends.{Awaits, Run-Awaits}
use oxidt_kit.LocalLogin.Mails.Kept.{mails}
use oxidt_kit.LocalLogin.Mails.Unasked
use oxidt_kit.LocalLogin.Mails.Unasked.{mails_asked}
use oxidt_kit.LocalLogin.Stuck.{shown, verdict_lost}
use oxidt_kit.LocalLogin.Stale.{rest_of, resume_stale}
use oxidt_kit.LocalLogin.Invariant.Defs.{Inv}
use oxidt_kit.LocalLogin.Invariant.Moves.{Reach-Inv}
use oxidt_kit.LocalLogin.Abandon.{starts_passkey, now, resume_abandoned, back_release_unguarded}
use oxidt_kit.LocalLogin.Mounting.{mount_rounds, any, ended, mounting_ends}
use oxidt_kit.LocalLogin.Outcomes.{
  password, code, handle, Recovered, handle-Recovered, password_field-await_password,
}

-- A browser that has everything. Its base64 is not used here.
abbrev browser : Setting
browser = record {
  redirect_url = "/home";
  has_captcha = false;
  catalog = ("Sign-in failed", "Anmeldung fehlgeschlagen") ∷ [];
  can_create = true;
  can_get = true;
  has_mediation = true;
  atob = some;
  btoa = λ bytes. bytes;
  atob_error = "InvalidCharacterError";
  abort_message = "aborted";
  no_options_error = "undefined";
  unicode_lower = λ t. t;
}

abbrev first_page : Page
first_page = init browser none

-- The user asks for a passkey while the autofill still waits for its options.
abbrev asked : Page
asked = click passkey first_page

asked_generation : (asked.attempt ≡ 1) × (asked.step ≡ Step.passkey) × (asked.cond_running ≡ true)
unfolding click act init show set_loading arm_conditional mount_captcha passkey_action email_error
    show_error
asked_generation = (refl, refl, refl)

Reach-Inv_example : Inv 0 0 asked
Reach-Inv_example = Reach-Inv (next (start none) (clicks passkey first_page))

resume_stale_example :
    rest_of (resume (await_credential autofill 0 4) abort_error asked) ≡ rest_of asked
unfolding click act init show set_loading arm_conditional mount_captcha passkey_action email_error
    show_error
resume_stale_example =
    resume_stale (await_credential autofill 0 4) abort_error asked 0 refl
      (λ e. absurd (omega (arith, e)))

resume_abandoned_example :
    rest_of (resume (await_options autofill 0) rejected asked) ≡ rest_of asked
unfolding init show set_loading arm_conditional mount_captcha
resume_abandoned_example =
    resume_abandoned {s = browser} (await_options autofill 0) [] [] 0 rejected (start none) refl
      refl (starts_passkey refl) now

abbrev options : RawOptions
options = bare (record { challenge = none; allow_credentials = none })

back_release_unguarded_test :
    let q = click use_code_instead (click passkey_go_back asked) in
    let r = resume (await_back_release none) timed_out q in
    (q.loading ≡ true)
    × (q.buttons_disabled ≡ true)
    × (r.attempt ≡ q.attempt)
    × (r.step ≡ Step.email)
    × (r.loading ≡ false)
    × (r.buttons_disabled ≡ false)
unfolding click act init show set_loading arm_conditional mount_captcha passkey_action email_error
    show_error
back_release_unguarded_test = back_release_unguarded none timed_out asked refl

abbrev silent_refusal : Response
silent_refusal = record {
  success = boolean false;
  error = none;
  redirect_url = none;
  needs_tos_acceptance = undefined;
  offer_passkey = undefined;
  is_new_user = undefined;
  captcha_required = undefined;
  otp = undefined;
  otp_sent = undefined;
  password = undefined;
  has_password = undefined;
  public_key_options = none;
  options = none;
  creation = none;
}

-- The user wants a code instead, which disables the buttons, and the request fails.
abbrev waiting : Page
waiting = click use_code_instead asked

waiting_loads : (waiting.loading ≡ true) × (waiting.buttons_disabled ≡ true)
unfolding click act init show set_loading arm_conditional mount_captcha passkey_action email_error
    show_error use_code clear_alerts
waiting_loads = (refl, refl)

handle-Recovered_example :
    Recovered Step.email "offline" waiting (handle code (thrown "offline") waiting)
handle-Recovered_example = handle-Recovered code (thrown "offline") "offline" waiting refl

password_refused_test :
    Recovered asked.step "Sign-in failed" asked (handle password (ok silent_refusal) asked)
password_refused_test =
    handle-Recovered password (ok silent_refusal) "Sign-in failed" asked (unfold truthy in refl)

password_field-await_password_test :
    (resume await_password
      (parsed silent_refusal)
      (record asked { password_field = codes "hunter2" })).password_field
    ≡ []
password_field-await_password_test =
    password_field-await_password (parsed silent_refusal)
      (record asked { password_field = codes "hunter2" })

-- A sign-in by password that the server grants.
abbrev granted_home : Response
granted_home = record silent_refusal { success = boolean true; redirect_url = some "/home" }

abbrev with_password : Page
with_password = input (type_password (codes "pw")) first_page

abbrev asked_password : Page
asked_password = submit password_form with_password

abbrev IsHome : String → Type 0
IsHome url = url ≡ "/home"

abbrev rest_tasks : List Task
rest_tasks = await_options autofill 0 ∷ []

abbrev signed_in : Page
signed_in =
    resume await_password (parsed granted_home) (record asked_password { tasks = rest_tasks })

waits : asked_password.tasks ≡ await_password ∷ rest_tasks
unfolding input submit init show set_loading arm_conditional mount_captcha on_password_submit
    email_error show_error clear_alerts show_success
waits = refl

abbrev signs_in : Move asked_password signed_in
signs_in = settles asked_password [] rest_tasks await_password (parsed granted_home) waits

location-Run_example : Leads IsHome signed_in.location
unfolding post_json
location-Run_example = location-Run IsHome (
    goes_on
      (goes_on (goes_on (begins none) (inputs (type_password (codes "pw")) first_page) tt)
        (submits password_form with_password) tt)
      signs_in (λ success. refl))

-- The script is there in the third round.
abbrev tenth : List Bool → List Bool
tenth bs = false ∷ false ∷ true ∷ false ∷ false ∷ false ∷ false ∷ false ∷ false ∷ false ∷ bs

abbrev findings : List Bool
findings = tenth (tenth (tenth (tenth (tenth (tenth (tenth (tenth (tenth (tenth (tenth []))))))))))

mounting_ends_test : mount_rounds findings 0 ≡ ended (any (take 101 findings))
mounting_ends_test = mounting_ends findings (omega arith)

-- The password is sent, and nothing has come back yet.
asked_password-waits : (asked_password.loading ≡ true) × (asked_password.location ≡ none)
unfolding input submit init show set_loading arm_conditional mount_captcha on_password_submit
    email_error show_error clear_alerts show_success
asked_password-waits = (refl, refl)

Run-Awaits_example : Awaits asked_password
Run-Awaits_example =
    Run-Awaits browser
      (Progress.goes_on
        (Progress.goes_on (Progress.begins none) (inputs (type_password (codes "pw")) first_page)
          tt)
        (submits password_form with_password) tt)
      asked_password-waits.0 asked_password-waits.1

abbrev key : Credential (List ℕ)
key = record {
  id = codes "k";
  raw_id = 1 ∷ [];
  kind = codes "public-key";
  authenticator_data = 2 ∷ [];
  client_data_json = 3 ∷ [];
  signature = 4 ∷ [];
  user_handle = none;
}

verdict_lost_example :
    let q = resume (await_credential autofill 0 4) (given key) first_page in
    let w = resume (await_verdict autofill 0) rejected (record q { tasks = first_page.tasks }) in
    (q.tasks ≡ await_verdict autofill 0 ∷ first_page.tasks)
    × (shown w ≡ (
      Step.verifying, first_page.error, first_page.success, first_page.loading, first_page.location,
      first_page.tasks,
    ))
unfolding post_json init show set_loading arm_conditional mount_captcha
verdict_lost_example = verdict_lost 0 4 key rejected _ first_page refl refl

-- The user asks for a new code.
mails_asked_example : mails (click resend_code first_page).posts ≤ 1
mails_asked_example =
    mails_asked {s = browser}
      (Unasked.goes_on 0 (Unasked.begins none) (clicks resend_code first_page))

sent : mails (click resend_code first_page).posts ≡ 1
unfolding click act init show set_loading arm_conditional mount_captcha resend clear_alerts
    show_error show_success
sent = refl
