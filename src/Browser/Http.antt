-- ===== src/Browser/Http.antt =====
-- `postJson`, and the values of a JSON reply as JavaScript reads them.
use oxidt_kit.Kit.{
  ℕ, Bool, true, false, not, Option, none, some, String, nonempty_string, ◌==◌, if◌then◌else◌,
}
use oxidt_kit.Browser.Webauthn.{RawOptions, RawCreation}

-- A property of a parsed reply: absent, or one of the JSON values. Objects and arrays are alike.
pub data Value : Type 0 where
  undefined null object : Value
  boolean : Bool → Value
  number : ℕ → Value
  string : String → Value

-- `!!v`.
unfoldable pub truthy : Value → Bool
truthy undefined = false
truthy null = false
truthy object = true
truthy (boolean b) = b
truthy (number n) = not (n == 0)
truthy (string s) = nonempty_string s

-- `v === true`.
unfoldable pub is_true : Value → Bool
is_true (boolean b) = b
is_true _ = false

-- `v !== false`.
unfoldable pub is_not_false : Value → Bool
is_not_false (boolean b) = b
is_not_false _ = true

-- The properties that the scripts read. The two texts are strings where the server sends them.
pub record Response : Type 0 where
  pub success : Value
  pub error : Option String
  pub redirect_url : Option String
  pub needs_tos_acceptance : Value
  pub offer_passkey : Value
  pub is_new_user : Value
  pub captcha_required : Value
  pub otp : Value
  pub otp_sent : Value
  pub password : Value
  pub has_password : Value
  pub public_key_options : Option RawOptions
  pub options : Option RawOptions
  pub creation : Option RawCreation  -- `options` of an enrollment

-- An optional string that is truthy, and `s || default`.
abbrev pub present : Option String → Bool
present none = false
present (some s) = nonempty_string s

abbrev pub or_default : Option String → String → String
or_default none d = d
or_default (some s) d = if nonempty_string s then s else d

-- What comes of a `fetch`: it rejects, the status is not ok (with the body's text, or none when
-- that could not be read), the body is no JSON, or the parsed reply.
pub data Fetched : Type 0 where
  rejected : Fetched
  not_ok : Option String → Fetched
  no_json : Fetched
  parsed : Response → Fetched

-- The value of an awaited call, or the message of the `Error` that it throws.
pub data Outcome {ℓ} (A : Type ℓ) : Type ℓ where
  ok : A → Outcome A
  thrown : String → Outcome A

unfoldable pub post_json : Fetched → Outcome Response
post_json rejected = thrown "Network error"
post_json (not_ok body) = thrown (or_default body "Request failed")
post_json no_json = thrown "Failed to parse JSON"
post_json (parsed r) = ok r
