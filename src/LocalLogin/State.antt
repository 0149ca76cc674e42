-- ===== src/LocalLogin/State.antt =====
-- The state of the local login page: the script's variables, what it shows, and what is pending.
use oxidt_kit.Kit.{ℕ, Bool, Text, String, Option, List}
use oxidt_kit.Browser.Http.{Fetched, Outcome}
use oxidt_kit.Browser.Webauthn.{RawOptions, Request, Credential, Attestation}

-- `data-step`.
pub data Step : Type 0 where
  email passkey passkey_retry verifying otp password tos offer success : Step

-- The three functions that run a passkey ceremony: `armConditional` (the email field's autofill),
-- `triggerPasskey` (the address is known) and `actions.passkey` (the credential names the account).
pub data Ceremony : Type 0 where
  autofill bound discoverable : Ceremony

-- The constants of the page and of its browser. `atob` throws where it gives `none`, with the
-- message `atob_error`; `unicode_lower` is `toLowerCase` outside ASCII.
pub record Setting : Type 0 where
  pub redirect_url : String
  pub has_captcha : Bool
  pub catalog : List (String × String)
  pub can_create : Bool  -- navigator.credentials && navigator.credentials.create
  pub can_get : Bool  -- navigator.credentials && navigator.credentials.get
  pub has_mediation : Bool  -- PublicKeyCredential.isConditionalMediationAvailable
  pub atob : Text → Option (List ℕ)
  pub btoa : List ℕ → Text
  pub atob_error : String
  pub abort_message : String  -- `e.message` of an AbortError of `create`
  pub no_options_error : String  -- of `raw.publicKey` where the reply has no options
  pub unicode_lower : Text → Text

-- An alert box: `hidden` and the text of its `[data-msg]`.
pub record Alert : Type 0 where
  pub hidden : Bool
  pub msg : String

-- A request body with its URL, `/auth/...`.
pub data Post : Type 0 where
  conditional_options : Option String → Post  -- session/passkey/conditional/options
  passkey_verify : Credential Text → Post  -- session/passkey/verify
  session_start : Text → Option String → Post  -- session/start
  captcha_verify : Text → Post  -- session/captcha/verify
  otp_verify : Text → Post  -- session/otp/verify
  password_verify : Text → Text → Post  -- session/password/verify
  fallback_otp : Post  -- session/passkey-fallback-otp
  otp_resend : Post  -- session/otp/resend
  accept_tos : Post  -- session/accept-tos
  enroll_options : Post  -- passkey/enroll/options
  enroll_verify : Attestation Text → Post  -- passkey/enroll/verify

-- What a suspended function waits for, with its local variables: the `mine` of a ceremony, the
-- ceremony that `cancelCeremony` waits for, the round of the captcha loop.
pub data Task : Type 0 where
  await_options : Ceremony → ℕ → Task
  await_mediation : ℕ → Option RawOptions → Task
  await_release : Ceremony → ℕ → Request → Option ℕ → Task
  await_credential : Ceremony → ℕ → ℕ → Task
  await_verdict : Ceremony → ℕ → Task
  await_email_release : Text → Option ℕ → Task
  await_start : Task
  await_captcha_token : ℕ → Task
  await_captcha : Task
  await_otp : Task
  await_password : Task
  await_code_release : Option ℕ → Task
  await_code : Task
  await_resend : Task
  await_back_release : Option ℕ → Task
  await_enroll_options : Task
  await_created : Task
  await_enrolled : Task
  await_terms : Task

-- How `navigator.credentials.get` or `create` settles: `e.name` and `e.message` of a rejection.
pub data Settled (A : Type 0) : Type 0 where
  given : A → Settled A
  abort_error : Settled A
  not_allowed_error : Settled A
  other_error : String → Settled A

-- Why `cancelCeremony` went on: the ceremony was released, or two seconds passed.
pub data Released : Type 0 where
  released timed_out : Released

abbrev pub Reply : Task → Type 0
Reply (await_options c mine) = Fetched
Reply (await_mediation mine raw) = Outcome Bool
Reply (await_release c mine request current) = Released
Reply (await_credential c mine id) = Settled (Credential (List ℕ))
Reply (await_verdict c mine) = Fetched
Reply (await_email_release value current) = Released
Reply await_start = Fetched
Reply (await_captcha_token i) = Unit {0}
Reply await_captcha = Fetched
Reply await_otp = Fetched
Reply await_password = Fetched
Reply (await_code_release current) = Released
Reply await_code = Fetched
Reply await_resend = Fetched
Reply (await_back_release current) = Released
Reply await_enroll_options = Fetched
Reply await_created = Settled (Attestation (List ℕ))
Reply await_enrolled = Fetched
Reply await_terms = Fetched

pub record Page : Type 0 where
  pub setting : Setting
  -- the script's variables
  pub step : Step
  pub email : Text
  pub loading : Bool
  pub passkey_options : Option RawOptions
  pub pending_redirect : Option String
  pub offer_after_terms : Bool
  pub attempt : ℕ
  pub cond_running : Bool
  pub cond_disabled : Bool
  pub ceremony : Option ℕ
  -- the document
  pub buttons_disabled : Bool
  pub terms_disabled : Bool  -- [data-action="tos-accept"]
  pub spinner_hidden : Bool
  pub error : Alert
  pub success : Alert
  pub email_error : Alert
  pub new_user_hidden : Bool
  pub code_hidden : Bool  -- [data-action="use-code"]
  pub shown_email : Text
  pub email_field : Text
  pub otp_field : Text
  pub password_field : Text
  pub captcha_field : Option Text  -- the token input, where the widget has added it
  pub terms_checked : Bool
  -- the browser
  pub prompt_dismissed : Option Bool  -- localStorage; `none` where it throws
  pub location : Option String
  pub posts : List Post  -- newest first
  pub tasks : List Task
  pub ceremonies : ℕ  -- how many were started; the next one's identity
  pub aborted : List ℕ
  pub mounts : List ℕ  -- `tries` of each running interval of `mountCaptcha`
