-- ===== src/FerriskeyLogin/Refines/Start.antt =====
-- The reply to an address, and the captcha.
use oxidt_kit.Kit.{
  ℕ, suc, ◌-◌, ◌<◌, ◌≡◌, refl, ap, sym, subst, ◌∙◌, ltb, true, false, not, String, Text, Option,
  none, some, if◌then◌else◌, arith,
}
use oxidt_kit.Browser.Http.{Response, Outcome, ok, thrown, truthy, is_true, or_default}
use oxidt_kit.Browser.Webauthn.{RawOptions, Request, request_options}
use oxidt_kit.FerriskeyLogin.State.{
  Step, Task, await_credential, await_start, await_captcha_token, await_captcha, Reply, Page,
}
use oxidt_kit.FerriskeyLogin.Ui.{show, set_loading, show_error}
use oxidt_kit.FerriskeyLogin.Ceremony.{
  ceremony_failed, get_credential, with_options, get_passkey, trigger_passkey, back_to,
}
use oxidt_kit.FerriskeyLogin.Forms.{
  captcha_token, reset_captcha, captcha_with, stay, captcha_round, on_captcha_token,
  complete_captcha, captcha_failed, on_captcha, start_with, start_captcha, on_start,
}
use oxidt_kit.FerriskeyLogin.Protocol.{
  View, view, loaded, asking, next_attempt, gives_back, rank, Answer, frees, asks, starts,
  starts_not,
}
use oxidt_kit.FerriskeyLogin.Refines.Views.{show-view, set_loading-view, by-view, if-Answer}
use oxidt_kit.FerriskeyLogin.Refines.Replies.{back_to-Answer, stay-Answer}

captcha_with-Answer :
    (t : Task) (r : Reply t) (i : ℕ) (o : Option Text) (p : Page)
    → suc (60 - i) < rank t
    → Answer t r (view p) (view (captcha_with i o p))
captcha_with-Answer t r i none p lt = asks t (await_captcha_token i) r (view p) refl lt
captcha_with-Answer t r i (some token) p lt = asks t await_captcha r (view p) refl (omega arith)

captcha_round-Answer :
    (t : Task) (r : Reply t) (fetch : gives_back t r ≡ true) (i : ℕ) (p : Page)
    → (i < 60 → suc (60 - i) < rank t)
    → Answer t r (view p) (view (captcha_round i p))
unfolding captcha_round
captcha_round-Answer t r fetch i p lt =
    let late : String = "Verification is still loading. Please wait a moment and try again." in
    if-Answer t r (view p) (ltb i 60) (captcha_with i (captcha_token p) p) (stay late p)
      (λ more. captcha_with-Answer t r i (captcha_token p) p (lt (ground arith)))
      (λ over. stay-Answer t r fetch late p)

pub on_captcha_token-Answer :
    (i : ℕ) (r : Reply (await_captcha_token i)) (p : Page)
    → Answer (await_captcha_token i) r (view p) (view (on_captcha_token i p))
unfolding on_captcha_token
on_captcha_token-Answer i r p =
    captcha_round-Answer (await_captcha_token i) r refl (suc i) p (λ h. omega arith)

pub on_captcha-Answer :
    (r : Reply await_captcha) (o : Outcome Response) (p : Page)
    → Answer await_captcha r (view p) (view (on_captcha o p))
unfolding on_captcha set_loading show_error reset_captcha
on_captcha-Answer r (thrown msg) p = frees await_captcha r (view p) refl
on_captcha-Answer r (ok resp) p =
    let q = show_error none (reset_captcha p) in
    if-Answer await_captcha r (view p) (truthy resp.success) (set_loading false (show Step.otp q))
      (captcha_failed (or_default resp.error "Verification failed") p)
      (λ good.
        by-view await_captcha r (view p) (ap (loaded false) (show-view Step.otp q))
          (frees await_captcha r (view p) refl))
      (λ bad. frees await_captcha r (view p) refl)

-- The ceremony's start, on a page whose controls were freed.
abbrev Started : Reply await_start → View → Page → Type 0
Started r v q = Answer await_start r v (view q)

failed-Started :
    (r : Reply await_start) (mine : ℕ) (msg : String) (v : View) (p : Page)
    → view p ≡ next_attempt (loaded false v)
    → Started r v (ceremony_failed mine msg p)
unfolding ceremony_failed show_error
failed-Started r mine msg v p e =
    if-Answer await_start r v _ p _ (λ h. by-view await_start r v e (starts_not r v))
      (λ h. by-view await_start r v e (starts_not r v))

get_credential-Started :
    (r : Reply await_start) (o : Option Request) (v : View) (p : Page)
    → view p ≡ next_attempt (loaded false v)
    → Started r v (get_credential (suc v.attempt) o p)
get_credential-Started r none v p e = failed-Started r (suc v.attempt) p.setting.atob_error v p e
get_credential-Started r (some request) v p e =
    by-view await_start r v
      (ap
        (λ (w : View). record (asking (await_credential (suc v.attempt) p.ceremonies) w) {
          slot = some p.ceremonies;
        })
        e)
      (starts r v p.ceremonies)

with_options-Started :
    (r : Reply await_start) (raw : Option RawOptions) (v : View) (p : Page)
    → view p ≡ next_attempt (loaded false v)
    → Started r v (with_options (suc v.attempt) raw p)
with_options-Started r none v p e =
    failed-Started r (suc v.attempt) p.setting.no_options_error v p e
with_options-Started r (some raw) v p e =
    get_credential-Started r (request_options p.setting.atob raw false) v p e

get_passkey-Started :
    (r : Reply await_start) (raw : Option RawOptions) (v : View) (p : Page)
    → view p ≡ next_attempt (loaded false v)
    → Started r v (get_passkey (suc v.attempt) raw p)
unfolding get_passkey
get_passkey-Started r raw v p e =
    let msg : String = "Passkeys are not supported in this browser or context." in
    if-Answer await_start r v p.setting.can_get (with_options (suc v.attempt) raw p)
      (ceremony_failed (suc v.attempt) msg p) (λ can. with_options-Started r raw v p e)
      (λ cannot. failed-Started r (suc v.attempt) msg v p e)

trigger_passkey-Started :
    (r : Reply await_start) (v : View) (p : Page)
    → view p ≡ loaded false v
    → Started r v (trigger_passkey p)
unfolding trigger_passkey
trigger_passkey-Started r v p e =
    let q = record p { attempt = suc p.attempt } in
    subst (λ n. Started r v (get_passkey (suc n) p.passkey_options q))
      (sym (ap (λ (w : View). w.attempt) e))
      (get_passkey-Started r p.passkey_options v q (ap next_attempt e))

freed-view :
    (name : Step) (p : Page) → view (set_loading false (show name p)) ≡ loaded false (view p)
freed-view name p = set_loading-view false (show name p) ∙ ap (loaded false) (show-view name p)

start_with-Answer :
    (r : Reply await_start) (resp : Response) (o : Option RawOptions) (p : Page)
    → Started r (view p) (start_with resp o p)
start_with-Answer r resp (some raw) p =
    let q = record p { passkey_options = some raw } in
    trigger_passkey-Started r (view p) (set_loading false (show Step.passkey q))
      (freed-view Step.passkey q)
start_with-Answer r resp none p =
    let msg : String = "Unexpected response from server" in
    let free = λ (name : Step).
      by-view await_start r (view p) (freed-view name p) (frees await_start r (view p) refl) in
    if-Answer await_start r (view p) (truthy resp.has_password)
      (set_loading false (show Step.password p))
      (if truthy resp.otp_sent
        then set_loading false (show Step.otp p)
        else back_to Step.email msg p)
      (λ h. free Step.password)
      (λ h.
        if-Answer await_start r (view p) (truthy resp.otp_sent)
          (set_loading false (show Step.otp p)) (back_to Step.email msg p) (λ g. free Step.otp)
          (λ g. back_to-Answer await_start r refl Step.email msg p))

start_captcha-Answer : (r : Reply await_start) (p : Page) → Started r (view p) (start_captcha p)
unfolding complete_captcha
start_captcha-Answer r p =
    let q = show Step.email p in
    let msg : String = "Verification is unavailable. Please try again later." in
    subst (λ v. Started r v (start_captcha p)) (show-view Step.email p)
      (if-Answer await_start r (view q) p.setting.has_captcha (complete_captcha q) (stay msg q)
        (λ can. captcha_round-Answer await_start r refl 0 q (λ h. omega arith))
        (λ cannot. stay-Answer await_start r refl msg q))

pub on_start-Answer :
    (r : Reply await_start) (o : Outcome Response) (p : Page) → Started r (view p) (on_start o p)
unfolding on_start
on_start-Answer r (thrown msg) p = back_to-Answer await_start r refl Step.email msg p
on_start-Answer r (ok resp) p =
    let q = record p {
      new_user_hidden = not (truthy resp.is_new_user);
      password_hidden = not (truthy resp.has_password);
    } in
    if-Answer await_start r (view p) (is_true resp.captcha_required) (start_captcha q)
      (start_with resp resp.public_key_options q) (λ asked. start_captcha-Answer r q)
      (λ open_. start_with-Answer r resp resp.public_key_options q)
