-- ===== src/LocalLogin/Redirect/Kept.antt =====
-- What leaves the page's location and the redirect that waits for an enrolment alone.
use oxidt_kit.Kit.{
  ℕ, suc, ◌≡◌, refl, ◌∙◌, Bool, true, false, String, Option, none, some, List, if◌then◌else◌,
}
use oxidt_kit.Browser.Http.{Response, Outcome, ok, thrown}
use oxidt_kit.Browser.Webauthn.{RawOptions, Request, Credential, request_options}
use oxidt_kit.LocalLogin.State.{
  Step, Ceremony, autofill, bound, discoverable, Settled, given, abort_error, not_allowed_error,
  other_error, Page,
}
use oxidt_kit.LocalLogin.Ui.{
  show, set_loading, set_controls, arm_conditional, mount_captcha, request_conditional, show_error,
  email_error, offer_code, is_email,
}
use oxidt_kit.LocalLogin.Ceremony.{
  stale, leave, give_up, cancel_ceremony, run_ceremony, with_options, get_credential, get_passkey,
  begin, on_options, on_mediation, on_release, release, on_assertion, on_credential, trigger_with,
  trigger_passkey, passkey_action, is_cancel, refuse,
}

abbrev pub bound_for : Page → Option String × Option String
bound_for p = (p.location, p.pending_redirect)

pub if-bound :
    (b : Bool) (x y : Page) {t : Option String × Option String}
    → bound_for x ≡ t
    → bound_for y ≡ t
    → bound_for (if b then x else y) ≡ t
if-bound true x y h g = h
if-bound false x y h g = g

arm-bound : (p : Page) → bound_for (arm_conditional p) ≡ bound_for p
unfolding arm_conditional request_conditional
arm-bound p = if-bound _ p _ refl refl

mount-bound : (p : Page) → bound_for (mount_captcha p) ≡ bound_for p
unfolding mount_captcha
mount-bound p = if-bound p.setting.has_captcha _ p refl refl

pub show-bound : (name : Step) (p : Page) → bound_for (show name p) ≡ bound_for p
unfolding show
show-bound name p = if-bound (is_email name) _ _ (arm-bound _ ∙ mount-bound _) refl

pub set_loading-bound : (on : Bool) (p : Page) → bound_for (set_loading on p) ≡ bound_for p
unfolding set_loading set_controls
set_loading-bound on p = if-bound _ _ _ (arm-bound _) refl

pub leave-bound : (c : Ceremony) (p : Page) → bound_for (leave c p) ≡ bound_for p
leave-bound autofill p = refl
leave-bound bound p = refl
leave-bound discoverable p = refl

pub refuse-bound : (c : Ceremony) (p : Page) → bound_for (refuse c p) ≡ bound_for p
refuse-bound autofill p = show-bound Step.email p
refuse-bound bound p = refl
refuse-bound discoverable p = refl

pub give_up-bound :
    (c : Ceremony) (mine : ℕ) (msg : String) (p : Page)
    → bound_for (give_up c mine msg p) ≡ bound_for p
unfolding give_up show_error
give_up-bound autofill mine msg p = refl
give_up-bound bound mine msg p =
    if-bound (stale mine p) p _ refl (set_loading-bound false _ ∙ show-bound Step.passkey_retry _)
give_up-bound discoverable mine msg p =
    if-bound (stale mine p) p _ refl
      (show-bound Step.email _ ∙ if-bound (is_cancel msg) p _ refl refl)

with_options-bound :
    (c : Ceremony) (mine : ℕ) (o : Option Request) (p : Page)
    → bound_for (with_options c mine o p) ≡ bound_for p
unfolding run_ceremony cancel_ceremony
with_options-bound c mine none p = give_up-bound c mine p.setting.atob_error p
with_options-bound c mine (some request) p = refl

get_credential-bound :
    (c : Ceremony) (mine : ℕ) (raw : Option RawOptions) (b : Bool) (p : Page)
    → bound_for (get_credential c mine raw b p) ≡ bound_for p
unfolding get_credential
get_credential-bound c mine none b p = give_up-bound c mine p.setting.no_options_error p
get_credential-bound c mine (some raw) b p =
    with_options-bound c mine (request_options p.setting.atob raw b) p

get_passkey-bound :
    (c : Ceremony) (mine : ℕ) (raw : Option RawOptions) (p : Page)
    → bound_for (get_passkey c mine raw p) ≡ bound_for p
unfolding get_passkey
get_passkey-bound c mine raw p =
    if-bound p.setting.can_get _ _ (get_credential-bound c mine raw false p)
      (give_up-bound c mine _ p)

begin-bound :
    (c : Ceremony) (mine : ℕ) (raw : Option RawOptions) (p : Page)
    → bound_for (begin c mine raw p) ≡ bound_for p
unfolding begin
begin-bound autofill mine raw p =
    if-bound p.setting.has_mediation _ _ refl
      (give_up-bound autofill mine "conditional-unsupported" p)
begin-bound bound mine raw p = get_passkey-bound bound mine raw p
begin-bound discoverable mine raw p = get_passkey-bound discoverable mine raw p

pub on_options-bound :
    (c : Ceremony) (mine : ℕ) (r : Outcome Response) (p : Page)
    → bound_for (on_options c mine r p) ≡ bound_for p
unfolding on_options
on_options-bound c mine (thrown msg) p = give_up-bound c mine msg p
on_options-bound c mine (ok opts) p =
    if-bound (stale mine p) _ _ (leave-bound c p) (begin-bound c mine opts.options p)

pub on_mediation-bound :
    (mine : ℕ) (raw : Option RawOptions) (r : Outcome Bool) (p : Page)
    → bound_for (on_mediation mine raw r p) ≡ bound_for p
unfolding on_mediation
on_mediation-bound mine raw (ok true) p = get_credential-bound autofill mine raw true p
on_mediation-bound mine raw (ok false) p = give_up-bound autofill mine "conditional-unsupported" p
on_mediation-bound mine raw (thrown msg) p = give_up-bound autofill mine msg p

pub on_release-bound :
    (c : Ceremony) (mine : ℕ) (request : Request) (p : Page)
    → bound_for (on_release c mine request p) ≡ bound_for p
unfolding on_release
on_release-bound c mine request p = if-bound (stale mine p) _ _ (give_up-bound c mine _ p) refl

on_assertion-bound :
    (c : Ceremony) (mine : ℕ) (a : Credential (List ℕ)) (p : Page)
    → bound_for (on_assertion c mine a p) ≡ bound_for p
unfolding on_assertion
on_assertion-bound c mine a p =
    if-bound (stale mine p) _ _ (leave-bound c p) (show-bound Step.verifying p)

pub on_credential-bound :
    (c : Ceremony) (mine id : ℕ) (r : Settled (Credential (List ℕ))) (p : Page)
    → bound_for (on_credential c mine id r p) ≡ bound_for p
unfolding on_credential release
on_credential-bound c mine id (given a) p = on_assertion-bound c mine a (release id p)
on_credential-bound c mine id abort_error p = give_up-bound c mine _ (release id p)
on_credential-bound c mine id not_allowed_error p = give_up-bound c mine _ (release id p)
on_credential-bound c mine id (other_error msg) p = give_up-bound c mine _ (release id p)

trigger_with-bound : (o : Option RawOptions) (p : Page) → bound_for (trigger_with o p) ≡ bound_for p
unfolding show_error
trigger_with-bound none p = show-bound Step.email _
trigger_with-bound (some raw) p =
    get_passkey-bound bound (suc p.attempt) (some raw) (record p { attempt = suc p.attempt })

pub trigger_passkey-bound : (p : Page) → bound_for (trigger_passkey p) ≡ bound_for p
unfolding trigger_passkey
trigger_passkey-bound p = trigger_with-bound p.passkey_options p

pub passkey_action-bound : (p : Page) → bound_for (passkey_action p) ≡ bound_for p
unfolding passkey_action request_conditional offer_code show_error email_error
passkey_action-bound p = show-bound Step.passkey _
