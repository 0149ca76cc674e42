-- ===== src/LocalLogin/Mails/Kept.antt =====
-- The requests for a code by mail, and what makes none.
use oxidt_kit.LocalLogin.Progress.Gauge.{counted}
use oxidt_kit.Kit.{
  not, ◌&&◌, [], ◌∷◌, ℕ, suc, ◌≡◌, refl, ◌∙◌, Bool, true, false, String, Option, none, some, List,
  if◌then◌else◌,
}
use oxidt_kit.Browser.Http.{Response, Outcome, ok, thrown}
use oxidt_kit.Browser.Webauthn.{RawOptions, Request, Credential, request_options, assertion_json}
use oxidt_kit.LocalLogin.State.{
  Post, fallback_otp, otp_resend, Task, await_code_release, await_options, await_mediation,
  await_credential, await_verdict, passkey_verify, Step, Ceremony, autofill, bound, discoverable,
  Settled, given, abort_error, not_allowed_error, other_error, Page,
}
use oxidt_kit.LocalLogin.Ui.{
  post, wait, update_terms, show, set_loading, set_controls, arm_conditional, mount_captcha,
  request_conditional, show_error, email_error, offer_code, is_email,
}
use oxidt_kit.LocalLogin.Ceremony.{
  stale, leave, give_up, cancel_ceremony, run_ceremony, with_options, get_credential, get_passkey,
  begin, on_options, on_mediation, on_release, release, on_assertion, on_credential, trigger_with,
  trigger_passkey, passkey_action, is_cancel, refuse,
}

abbrev pub is_mail : Post → Bool
is_mail fallback_otp = true
is_mail otp_resend = true
is_mail _ = false

abbrev pub is_release : Task → Bool
is_release (await_code_release current) = true
is_release _ = false

-- The requests that were made, and the tasks that will make one.
abbrev pub mails : List Post → ℕ
mails [] = 0
mails (b ∷ bs) = counted (is_mail b) (mails bs)

abbrev pub releases : List Task → ℕ
releases [] = 0
releases (t ∷ ts) = counted (is_release t) (releases ts)

abbrev pub asked : Page → ℕ × ℕ
asked p = (mails p.posts, releases p.tasks)

-- A page that has asked for as many codes.
pub data Asks (m : ℕ × ℕ) (q : Page) : Type 0 where
  keeps : asked q ≡ m → Asks m q

pub count_of : {m : ℕ × ℕ} {q : Page} → Asks m q → asked q ≡ m
count_of (keeps h) = h

pub extended : {m : ℕ × ℕ} (q : Page) {r : Page} → Asks m q → asked r ≡ asked q → Asks m r
extended q h e = keeps (e ∙ count_of h)

infixr 40 ◌⊙◌
pub ◌⊙◌ : {m : ℕ × ℕ} {q r : Page} → Asks (asked q) r → Asks m q → Asks m r
keeps g ⊙ keeps h = keeps (g ∙ h)

pub if-asked :
    (b : Bool) (x y : Page) {m : ℕ × ℕ} → Asks m x → Asks m y → Asks m (if b then x else y)
if-asked true x y h g = h
if-asked false x y h g = g

arm-asked : (p : Page) → Asks (asked p) (arm_conditional p)
unfolding arm_conditional request_conditional
arm-asked p =
    if-asked _ p
      (request_conditional (await_options autofill p.attempt) (record p { cond_running = true }))
      (keeps refl) (keeps refl)

mount-asked : (p : Page) → Asks (asked p) (mount_captcha p)
unfolding mount_captcha
mount-asked p = if-asked p.setting.has_captcha _ p (keeps refl) (keeps refl)

pub show-asked : (name : Step) (p : Page) → Asks (asked p) (show name p)
unfolding show
show-asked name p = if-asked (is_email name) _ _ (arm-asked _ ⊙ mount-asked _) (keeps refl)

pub set_loading-asked : (on : Bool) (p : Page) → Asks (asked p) (set_loading on p)
unfolding set_loading set_controls update_terms
set_loading-asked on p =
    let q = set_controls on p in
    if-asked (not on && is_email p.step) (arm_conditional q) q (arm-asked q) (keeps refl)

pub leave-asked : (c : Ceremony) (p : Page) → Asks (asked p) (leave c p)
leave-asked autofill p = (keeps refl)
leave-asked bound p = (keeps refl)
leave-asked discoverable p = (keeps refl)

pub refuse-asked : (c : Ceremony) (p : Page) → Asks (asked p) (refuse c p)
refuse-asked autofill p = show-asked Step.email p
refuse-asked bound p = (keeps refl)
refuse-asked discoverable p = (keeps refl)

pub give_up-asked :
    (c : Ceremony) (mine : ℕ) (msg : String) (p : Page) → Asks (asked p) (give_up c mine msg p)
unfolding give_up show_error
give_up-asked autofill mine msg p = (keeps refl)
give_up-asked bound mine msg p =
    if-asked (stale mine p) p _ (keeps refl)
      (set_loading-asked false _ ⊙ show-asked Step.passkey_retry _)
give_up-asked discoverable mine msg p =
    if-asked (stale mine p) p _ (keeps refl)
      (show-asked Step.email _ ⊙ if-asked (is_cancel msg) p _ (keeps refl) (keeps refl))

with_options-asked :
    (c : Ceremony) (mine : ℕ) (o : Option Request) (p : Page)
    → Asks (asked p) (with_options c mine o p)
unfolding run_ceremony cancel_ceremony
with_options-asked c mine none p = give_up-asked c mine p.setting.atob_error p
with_options-asked c mine (some request) p = (keeps refl)

get_credential-asked :
    (c : Ceremony) (mine : ℕ) (raw : Option RawOptions) (b : Bool) (p : Page)
    → Asks (asked p) (get_credential c mine raw b p)
unfolding get_credential
get_credential-asked c mine none b p = give_up-asked c mine p.setting.no_options_error p
get_credential-asked c mine (some raw) b p =
    with_options-asked c mine (request_options p.setting.atob raw b) p

get_passkey-asked :
    (c : Ceremony) (mine : ℕ) (raw : Option RawOptions) (p : Page)
    → Asks (asked p) (get_passkey c mine raw p)
unfolding get_passkey
get_passkey-asked c mine raw p =
    if-asked p.setting.can_get _ _ (get_credential-asked c mine raw false p)
      (give_up-asked c mine _ p)

begin-asked :
    (c : Ceremony) (mine : ℕ) (raw : Option RawOptions) (p : Page)
    → Asks (asked p) (begin c mine raw p)
unfolding begin
begin-asked autofill mine raw p =
    if-asked p.setting.has_mediation (wait (await_mediation mine raw) p) _ (keeps refl)
      (give_up-asked autofill mine "conditional-unsupported" p)
begin-asked bound mine raw p = get_passkey-asked bound mine raw p
begin-asked discoverable mine raw p = get_passkey-asked discoverable mine raw p

pub on_options-asked :
    (c : Ceremony) (mine : ℕ) (r : Outcome Response) (p : Page)
    → Asks (asked p) (on_options c mine r p)
unfolding on_options
on_options-asked c mine (thrown msg) p = give_up-asked c mine msg p
on_options-asked c mine (ok opts) p =
    if-asked (stale mine p) _ _ (leave-asked c p) (begin-asked c mine opts.options p)

pub on_mediation-asked :
    (mine : ℕ) (raw : Option RawOptions) (r : Outcome Bool) (p : Page)
    → Asks (asked p) (on_mediation mine raw r p)
unfolding on_mediation
on_mediation-asked mine raw (ok true) p = get_credential-asked autofill mine raw true p
on_mediation-asked mine raw (ok false) p = give_up-asked autofill mine "conditional-unsupported" p
on_mediation-asked mine raw (thrown msg) p = give_up-asked autofill mine msg p

pub on_release-asked :
    (c : Ceremony) (mine : ℕ) (request : Request) (p : Page)
    → Asks (asked p) (on_release c mine request p)
unfolding on_release
on_release-asked c mine request p =
    if-asked (stale mine p) _
      (wait (await_credential c mine p.ceremonies)
        (record p { ceremony = some p.ceremonies; ceremonies = suc p.ceremonies }))
      (give_up-asked c mine _ p) (keeps refl)

on_assertion-asked :
    (c : Ceremony) (mine : ℕ) (a : Credential (List ℕ)) (p : Page)
    → Asks (asked p) (on_assertion c mine a p)
unfolding on_assertion
on_assertion-asked c mine a p =
    if-asked (stale mine p) _
      (post (passkey_verify (assertion_json p.setting.btoa a)) (await_verdict c mine)
        (show Step.verifying p))
      (leave-asked c p) (keeps (count_of (show-asked Step.verifying p)))

pub on_credential-asked :
    (c : Ceremony) (mine id : ℕ) (r : Settled (Credential (List ℕ))) (p : Page)
    → Asks (asked p) (on_credential c mine id r p)
unfolding on_credential release
on_credential-asked c mine id (given a) p = on_assertion-asked c mine a (release id p)
on_credential-asked c mine id abort_error p = give_up-asked c mine _ (release id p)
on_credential-asked c mine id not_allowed_error p = give_up-asked c mine _ (release id p)
on_credential-asked c mine id (other_error msg) p = give_up-asked c mine _ (release id p)

trigger_with-asked : (o : Option RawOptions) (p : Page) → Asks (asked p) (trigger_with o p)
unfolding show_error
trigger_with-asked none p = show-asked Step.email _
trigger_with-asked (some raw) p =
    get_passkey-asked bound (suc p.attempt) (some raw) (record p { attempt = suc p.attempt })

pub trigger_passkey-asked : (p : Page) → Asks (asked p) (trigger_passkey p)
unfolding trigger_passkey
trigger_passkey-asked p = trigger_with-asked p.passkey_options p

pub passkey_action-asked : (p : Page) → Asks (asked p) (passkey_action p)
unfolding passkey_action request_conditional offer_code show_error email_error
passkey_action-asked p =
    let q = email_error none (show_error none p) in
    keeps
      (count_of (show-asked Step.passkey (offer_code false (record q { attempt = suc p.attempt }))))
