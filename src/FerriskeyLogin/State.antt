-- ===== src/FerriskeyLogin/State.antt =====
-- The state of the FerrisKey login page: the script's variables, what it shows, what is pending.
use oxidt_kit.Kit.{ℕ, Bool, Text, String, Option, List}
use oxidt_kit.Browser.Http.{Fetched}
use oxidt_kit.Browser.Webauthn.{RawOptions, Credential}
use oxidt_kit.LocalLogin.State.{Alert, Settled}

-- `data-step`.
pub data Step : Type 0 where
  email detecting passkey password otp tos verifying success : Step

-- The constants of the page and of its browser. `atob` throws where it gives `none`, with the
-- message `atob_error`; `unicode_lower` is `toLowerCase` outside ASCII.
pub record Setting : Type 0 where
  pub redirect_url : String
  pub has_captcha : Bool
  pub starts_at_terms : Bool  -- data-start
  pub catalog : List (String × String)
  pub can_get : Bool  -- navigator.credentials && navigator.credentials.get
  pub atob : Text → Option (List ℕ)
  pub btoa : List ℕ → Text
  pub atob_error : String
  pub no_options_error : String  -- of `raw.publicKey` where there are no options
  pub unicode_lower : Text → Text

-- A request body with its URL, `/auth/session/...`.
pub data Post : Type 0 where
  passkey_verify : Credential Text → Post  -- passkey/verify
  session_start : Text → Option String → Post  -- start
  captcha_verify : Text → Post  -- captcha/verify
  otp_verify : Text → Post  -- otp/verify
  password_verify : Text → Post  -- password/verify
  otp_resend : Post  -- otp/resend
  accept_tos : Post  -- accept-tos

-- What a suspended function waits for, with its local variables: the generation and the identity of
-- a ceremony, the round of the captcha loop.
pub data Task : Type 0 where
  await_credential : ℕ → ℕ → Task
  await_verdict : ℕ → Task
  await_start : Task
  await_captcha_token : ℕ → Task
  await_captcha : Task
  await_otp : Task
  await_password : Task
  await_resend : Task
  await_terms : Task

abbrev pub Reply : Task → Type 0
Reply (await_credential mine id) = Settled (Credential (List ℕ))
Reply (await_verdict mine) = Fetched
Reply await_start = Fetched
Reply (await_captcha_token i) = Unit {0}
Reply await_captcha = Fetched
Reply await_otp = Fetched
Reply await_password = Fetched
Reply await_resend = Fetched
Reply await_terms = Fetched

pub record Page : Type 0 where
  pub setting : Setting
  -- the script's variables
  pub loading : Bool
  pub passkey_options : Option RawOptions
  pub attempt : ℕ
  pub ceremony : Option ℕ
  -- the document
  pub step : Step  -- the step that is not hidden
  pub buttons_disabled : Bool
  pub terms_disabled : Bool  -- [data-action="tos-accept"]
  pub spinner_hidden : Bool
  pub error : Alert
  pub success : Alert
  pub new_user_hidden : Bool
  pub password_hidden : Bool  -- [data-action="use-password"]
  pub shown_email : Text
  pub email_field : Text
  pub otp_field : Text
  pub password_field : Text
  pub captcha_field : Option Text  -- the token input, where the widget has added it
  pub terms_checked : Bool
  -- the browser
  pub location : Option String
  pub posts : List Post  -- newest first
  pub tasks : List Task
  pub ceremonies : ℕ  -- how many were started; the next one's identity
  pub aborted : List ℕ
  pub mounts : List ℕ  -- `tries` of each running interval of `mountCaptcha`
