-- ===== src/FerriskeyLogin/Examples.antt =====
-- Runs of the FerrisKey login page, and its theorems at concrete pages.
use mathlib.Core.Option
use oxidt_kit.Kit.{
  String, ◌≡◌, refl, sym, true, false, trim, to_lower_case, codes, includes, none, some, [], ◌∷◌,
  arith,
}
use oxidt_kit.Browser.Http.{
  rejected, parsed, Response, boolean, undefined, post_json, truthy, is_true,
}
use oxidt_kit.Browser.Webauthn.{bare, request_options, convert_challenge, unwrap}
use oxidt_kit.LocalLogin.State.{abort_error}
use oxidt_kit.LocalLogin.Forms.{is_address}
use oxidt_kit.FerriskeyLogin.State.{
  Step, Setting, Task, await_credential, await_start, await_otp, await_password, Reply, Page,
}
use oxidt_kit.FerriskeyLogin.Ui.{
  show, mount_captcha, set_loading, clear_alerts, show_error, show_success,
}
use oxidt_kit.FerriskeyLogin.Ceremony.{proceed_after_login, get_passkey, trigger_passkey}
use oxidt_kit.FerriskeyLogin.Forms.{
  email_value, on_email_submit, on_start, on_password_submit, on_password,
}
use oxidt_kit.FerriskeyLogin.Run.{
  resume, back, use_password, go_back, click, email_form, password_form, submit, type_email,
  type_password, input, init, Move, submits, inputs, settles, AnyReply, Reach, start, next,
}
use oxidt_kit.FerriskeyLogin.Protocol
use oxidt_kit.FerriskeyLogin.Protocol.{Verdict, view}
use oxidt_kit.FerriskeyLogin.Protocol.Invariant.{IsSound}
use oxidt_kit.FerriskeyLogin.Protocol.Redirect.{LeadsTo}
use oxidt_kit.FerriskeyLogin.Refines.Moves.{Move-Step}
use oxidt_kit.FerriskeyLogin.Reached.Sound.{Reach-IsSound}
use oxidt_kit.FerriskeyLogin.Reached.Location.{location-LeadsTo}
use oxidt_kit.FerriskeyLogin.Reached.Ends.{Awaits, loading-Awaits}
use oxidt_kit.FerriskeyLogin.Reached.Abandon.{now, rest_of, back-abandons}
use oxidt_kit.FerriskeyLogin.Password.{password-cleared}
use oxidt_kit.FerriskeyLogin.Recovery.{Recovered, resume-Recovered}

-- A browser that has everything. Its base64 is not used here.
abbrev browser : Setting
browser = record {
  redirect_url = "/home";
  has_captcha = false;
  starts_at_terms = false;
  catalog = ("Network error", "Netzwerkfehler") ∷ [];
  can_get = true;
  atob = some;
  btoa = λ bytes. bytes;
  atob_error = "InvalidCharacterError";
  no_options_error = "undefined";
  unicode_lower = λ t. t;
}

abbrev first_page : Page
first_page = init browser

abbrev typed : Page
typed = input (type_email (codes "a@b")) first_page

-- The address is sent.
abbrev asked : Page
asked = submit email_form typed

Reach-asked : {Q : (t : Task) → Reply t → Type 0} → Reach Q browser asked
Reach-asked =
    next (next start (inputs (type_email (codes "a@b")) first_page) tt) (submits email_form typed)
      tt

abbrev with_passkey : Response
with_passkey = record {
  success = undefined;
  error = none;
  redirect_url = none;
  needs_tos_acceptance = undefined;
  offer_passkey = undefined;
  is_new_user = undefined;
  captcha_required = undefined;
  otp = undefined;
  otp_sent = undefined;
  password = undefined;
  has_password = undefined;
  public_key_options = some (bare (record { challenge = none; allow_credentials = none }));
  options = none;
  creation = none;
}

asked-waits : (asked.tasks ≡ await_start ∷ []) × (asked.loading ≡ true) × (asked.location ≡ none)
unfolding submit input init on_email_submit email_value is_address show set_loading clear_alerts
    show_error show_success mount_captcha to_lower_case trim includes
asked-waits = (refl, refl, refl)

-- The server offers a passkey, and its ceremony starts.
abbrev offered : Page
offered = resume await_start (parsed with_passkey) (record asked { tasks = [] })

abbrev offers : Move asked offered
offers = settles asked [] [] await_start (parsed with_passkey) asked-waits.0

offered-waits :
    (offered.tasks ≡ await_credential 1 0 ∷ [])
    × (offered.buttons_disabled ≡ false)
    × (offered.ceremony ≡ some 0)
unfolding resume post_json on_start is_true truthy trigger_passkey get_passkey request_options
    Option.bind convert_challenge unwrap submit input init on_email_submit email_value is_address
    show set_loading clear_alerts show_error show_success mount_captcha to_lower_case trim includes
offered-waits = (refl, refl, refl)

Move-Step_example : Protocol.Step AnyReply (view asked) (view offered)
Move-Step_example = Move-Step AnyReply offers tt

Reach-IsSound_example : IsSound (view offered)
Reach-IsSound_example = Reach-IsSound AnyReply browser (next Reach-asked offers tt)

loading-Awaits_example : Awaits asked
loading-Awaits_example = loading-Awaits browser Reach-asked asked-waits.1 asked-waits.2

back-abandons_example :
    rest_of (resume (await_credential 1 0) abort_error (click go_back offered))
    ≡ rest_of (click go_back offered)
back-abandons_example =
    back-abandons {s = browser} (await_credential 1 0) [] [] 1 abort_error
      (next Reach-asked offers tt) offered-waits.1 offered-waits.0 refl now

resume-Recovered_example :
    Recovered Step.otp "Network error" asked (resume await_otp rejected asked)
resume-Recovered_example =
    resume-Recovered await_otp rejected "Network error" asked (unfold post_json in refl) refl

-- A sign-in by password that the server grants.
abbrev granted_home : Response
granted_home = record with_passkey {
  success = boolean true;
  redirect_url = some "/home";
  public_key_options = none;
}

abbrev with_password : Page
with_password = input (type_password (codes "pw")) first_page

abbrev asked_password : Page
asked_password = submit password_form with_password

abbrev signed_in : Page
signed_in = resume await_password (parsed granted_home) (record asked_password { tasks = [] })

password-waits : asked_password.tasks ≡ await_password ∷ []
unfolding input submit init show set_loading on_password_submit show_error clear_alerts show_success
password-waits = refl

abbrev signs_in : Move asked_password signed_in
signs_in = settles asked_password [] [] await_password (parsed granted_home) password-waits

abbrev IsHome : String → Type 0
IsHome url = url ≡ "/home"

to-same : (a b : String) → Verdict.to a ≡ Verdict.to b → a ≡ b
to-same a b e = ground arith

granted-IsHome : LeadsTo IsHome await_password (parsed granted_home)
unfolding post_json truthy is_true
granted-IsHome url e = to-same url "/home" (sym e)

left-home : signed_in.location ≡ some "/home"
unfolding input submit init show set_loading on_password_submit show_error clear_alerts show_success
    resume post_json on_password truthy is_true proceed_after_login
left-home = refl

location-LeadsTo_example : IsHome "/home"
location-LeadsTo_example =
    location-LeadsTo browser "/home"
      (next
        (next (next start (inputs (type_password (codes "pw")) first_page) tt)
          (submits password_form with_password) tt)
        signs_in granted-IsHome)
      left-home

password-cleared_example :
    ((resume await_password rejected asked_password).password_field ≡ [])
    × ((back asked_password).password_field ≡ [])
    × ((use_password asked_password).password_field ≡ [])
password-cleared_example = password-cleared rejected asked_password
