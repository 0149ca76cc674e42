-- ===== src/LocalLogin/Progress/Ceremonies.antt =====
-- What the ceremonies' handlers, and those that go on after a sign-in, do to the gauge.
use oxidt_kit.Kit.{
  ℕ, suc, ◌≡◌, refl, ◌∙◌, not, ◌&&◌, Bool, true, false, String, nonempty_string, Option, none, some,
  List,
}
use oxidt_kit.Browser.Http.{Response, Outcome, ok, thrown, truthy, is_true, or_default}
use oxidt_kit.Browser.Webauthn.{RawOptions, Request, Credential, request_options, assertion_json}
use oxidt_kit.LocalLogin.State.{
  Step, Ceremony, autofill, bound, discoverable, Settled, given, abort_error, not_allowed_error,
  other_error, passkey_verify, await_mediation, await_credential, await_verdict, Page,
}
use oxidt_kit.LocalLogin.Ui.{
  post, wait, show, show_error, email_error, offer_code, request_conditional,
}
use oxidt_kit.LocalLogin.Flow.{
  prompt_dismissed, finish, route_after_terms, route_if_present, proceed_after_login,
}
use oxidt_kit.LocalLogin.Ceremony.{
  stale, leave, give_up, cancel_ceremony, run_ceremony, with_options, get_credential, get_passkey,
  begin, on_options, on_mediation, on_release, release, on_assertion, on_credential, on_verdict,
  refusal, refuse, trigger_with, trigger_passkey, passkey_action, is_cancel,
}
use oxidt_kit.LocalLogin.Progress.Gauge.{
  Gauge, gauge, IsFinished, free, left, Turn, keeps, finishes, if-gauge, if-Turn, if-IsFinished,
  show-gauge, off-IsFinished, Turn-along,
}

leave-gauge : (c : Ceremony) (p : Page) → gauge (leave c p) ≡ gauge p
leave-gauge autofill p = refl
leave-gauge bound p = refl
leave-gauge discoverable p = refl

leave-Turn : {g : Gauge} (c : Ceremony) (p : Page) → Turn g p → Turn g (leave c p)
leave-Turn c p (keeps e) = keeps (leave-gauge c p ∙ e)
leave-Turn autofill p (finishes (free e)) = finishes (free e)
leave-Turn autofill p (finishes (left url e)) = finishes (left url e)
leave-Turn bound p (finishes h) = finishes h
leave-Turn discoverable p (finishes h) = finishes h

refuse-gauge : (c : Ceremony) (p : Page) → gauge (refuse c p) ≡ gauge p
refuse-gauge autofill p = show-gauge Step.email p
refuse-gauge bound p = refl
refuse-gauge discoverable p = refl

give_up-Turn :
    (c : Ceremony) (mine : ℕ) (msg : String) (p : Page) → Turn (gauge p) (give_up c mine msg p)
unfolding give_up show_error
give_up-Turn autofill mine msg p = keeps refl
give_up-Turn bound mine msg p =
    if-Turn (stale mine p) p _ (keeps refl) (finishes (off-IsFinished _))
give_up-Turn discoverable mine msg p = if-Turn (stale mine p) p _ (keeps refl) (
    keeps
      (show-gauge Step.email _ ∙ if-gauge (is_cancel msg) p (show_error (some msg) p) refl refl))

with_options-Turn :
    (c : Ceremony) (mine : ℕ) (o : Option Request) (p : Page)
    → Turn (gauge p) (with_options c mine o p)
unfolding run_ceremony cancel_ceremony
with_options-Turn c mine none p = give_up-Turn c mine p.setting.atob_error p
with_options-Turn c mine (some request) p = keeps refl

get_credential-Turn :
    (c : Ceremony) (mine : ℕ) (raw : Option RawOptions) (b : Bool) (p : Page)
    → Turn (gauge p) (get_credential c mine raw b p)
unfolding get_credential
get_credential-Turn c mine none b p = give_up-Turn c mine p.setting.no_options_error p
get_credential-Turn c mine (some raw) b p =
    with_options-Turn c mine (request_options p.setting.atob raw b) p

get_passkey-Turn :
    (c : Ceremony) (mine : ℕ) (raw : Option RawOptions) (p : Page)
    → Turn (gauge p) (get_passkey c mine raw p)
unfolding get_passkey
get_passkey-Turn c mine raw p =
    if-Turn p.setting.can_get _ _ (get_credential-Turn c mine raw false p) (give_up-Turn c mine _ p)

begin-Turn :
    (c : Ceremony) (mine : ℕ) (raw : Option RawOptions) (p : Page)
    → Turn (gauge p) (begin c mine raw p)
unfolding begin
begin-Turn autofill mine raw p =
    if-Turn p.setting.has_mediation (wait (await_mediation mine raw) p)
      (give_up autofill mine "conditional-unsupported" p) (keeps refl)
      (give_up-Turn autofill mine "conditional-unsupported" p)
begin-Turn bound mine raw p = get_passkey-Turn bound mine raw p
begin-Turn discoverable mine raw p = get_passkey-Turn discoverable mine raw p

pub on_options-Turn :
    (c : Ceremony) (mine : ℕ) (r : Outcome Response) (p : Page)
    → Turn (gauge p) (on_options c mine r p)
unfolding on_options
on_options-Turn c mine (thrown msg) p = give_up-Turn c mine msg p
on_options-Turn c mine (ok opts) p =
    if-Turn (stale mine p) _ _ (keeps (leave-gauge c p)) (begin-Turn c mine opts.options p)

pub on_mediation-Turn :
    (mine : ℕ) (raw : Option RawOptions) (r : Outcome Bool) (p : Page)
    → Turn (gauge p) (on_mediation mine raw r p)
unfolding on_mediation
on_mediation-Turn mine raw (ok true) p = get_credential-Turn autofill mine raw true p
on_mediation-Turn mine raw (ok false) p = give_up-Turn autofill mine "conditional-unsupported" p
on_mediation-Turn mine raw (thrown msg) p = give_up-Turn autofill mine msg p

pub on_release-Turn :
    (c : Ceremony) (mine : ℕ) (request : Request) (p : Page)
    → Turn (gauge p) (on_release c mine request p)
unfolding on_release
on_release-Turn c mine request p =
    if-Turn (stale mine p) _
      (wait (await_credential c mine p.ceremonies)
        (record p { ceremony = some p.ceremonies; ceremonies = suc p.ceremonies }))
      (give_up-Turn c mine _ p) (keeps refl)

on_assertion-Turn :
    (c : Ceremony) (mine : ℕ) (a : Credential (List ℕ)) (p : Page)
    → Turn (gauge p) (on_assertion c mine a p)
unfolding on_assertion
on_assertion-Turn c mine a p =
    if-Turn (stale mine p) _
      (post (passkey_verify (assertion_json p.setting.btoa a)) (await_verdict c mine)
        (show Step.verifying p))
      (keeps (leave-gauge c p)) (keeps (show-gauge Step.verifying p))

pub on_credential-Turn :
    (c : Ceremony) (mine id : ℕ) (r : Settled (Credential (List ℕ))) (p : Page)
    → Turn (gauge p) (on_credential c mine id r p)
unfolding on_credential release
on_credential-Turn c mine id (given a) p = on_assertion-Turn c mine a (release id p)
on_credential-Turn c mine id abort_error p = give_up-Turn c mine _ (release id p)
on_credential-Turn c mine id not_allowed_error p = give_up-Turn c mine _ (release id p)
on_credential-Turn c mine id (other_error msg) p = give_up-Turn c mine _ (release id p)

trigger_with-Turn : (o : Option RawOptions) (p : Page) → Turn (gauge p) (trigger_with o p)
unfolding show_error
trigger_with-Turn none p = keeps (show-gauge Step.email _)
trigger_with-Turn (some raw) p =
    get_passkey-Turn bound (suc p.attempt) (some raw) (record p { attempt = suc p.attempt })

pub trigger_passkey-Turn : (p : Page) → Turn (gauge p) (trigger_passkey p)
unfolding trigger_passkey
trigger_passkey-Turn p = trigger_with-Turn p.passkey_options p

pub passkey_action-gauge : (p : Page) → gauge (passkey_action p) ≡ gauge p
unfolding passkey_action request_conditional offer_code show_error email_error
passkey_action-gauge p = show-gauge Step.passkey _

pub finish-IsFinished : (url : String) (p : Page) → IsFinished (finish url p)
unfolding finish
finish-IsFinished url p = left url refl

route_after_terms-IsFinished :
    (url : String) (offer : Bool) (p : Page) → IsFinished (route_after_terms url offer p)
unfolding route_after_terms
route_after_terms-IsFinished url offer p =
    if-IsFinished (offer && p.setting.can_create && not (prompt_dismissed p)) _ _ (off-IsFinished _)
      (finish-IsFinished url p)

-- A URL to go to.
pub data IsUrl : Option String → Type 0 where
  url : (u : String) → nonempty_string u ≡ true → IsUrl (some u)

pub route_if_present-Turn :
    (o : Option String) (offer : Bool) (p : Page) → Turn (gauge p) (route_if_present o offer p)
unfolding route_if_present
route_if_present-Turn none offer p = keeps refl
route_if_present-Turn (some u) offer p =
    if-Turn (nonempty_string u) _ p (finishes (route_after_terms-IsFinished u offer p)) (keeps refl)

route_if_present-IsFinished :
    {o : Option String} (offer : Bool) (p : Page)
    → IsUrl o
    → IsFinished (route_if_present o offer p)
unfolding route_if_present
route_if_present-IsFinished offer p (url u e) = rw e (route_after_terms-IsFinished u offer p)

proceed_after_login-Turn :
    (resp : Response) (p : Page) → Turn (gauge p) (proceed_after_login resp p)
unfolding proceed_after_login
proceed_after_login-Turn resp p =
    if-Turn (is_true resp.needs_tos_acceptance) _ _ (finishes (off-IsFinished _))
      (route_if_present-Turn resp.redirect_url _ p)

-- A granted sign-in asks for the terms or names a place to go to.
pub data Leads (resp : Response) : Type 0 where
  asks_terms : is_true resp.needs_tos_acceptance ≡ true → Leads resp
  names : IsUrl resp.redirect_url → Leads resp

pub proceed_after_login-IsFinished :
    (resp : Response) (p : Page) → Leads resp → IsFinished (proceed_after_login resp p)
unfolding proceed_after_login
proceed_after_login-IsFinished resp p (asks_terms e) = rw e (off-IsFinished _)
proceed_after_login-IsFinished resp p (names h) =
    if-IsFinished (is_true resp.needs_tos_acceptance) _ _ (off-IsFinished _)
      (route_if_present-IsFinished _ p h)

pub on_verdict-Turn :
    (c : Ceremony) (mine : ℕ) (r : Outcome Response) (p : Page)
    → Turn (gauge p) (on_verdict c mine r p)
unfolding on_verdict
on_verdict-Turn c mine (thrown msg) p = give_up-Turn c mine msg p
on_verdict-Turn c mine (ok resp) p = if-Turn (stale mine p) _ _ (keeps (leave-gauge c p)) (
    if-Turn (truthy resp.success) _ _ (leave-Turn c _ (proceed_after_login-Turn resp p)) (
      Turn-along (refuse-gauge c p)
        (give_up-Turn c mine (or_default resp.error (refusal c)) (refuse c p))))
