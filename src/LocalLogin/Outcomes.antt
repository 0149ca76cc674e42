-- ===== src/LocalLogin/Outcomes.antt =====
-- How the handlers of forms and buttons end.
use mathlib.Core.Option.{some-injective, some-ne-none}
use oxidt_kit.Kit.{
  ◌≡◌, refl, ℕ, List, true, not, ◌||◌, Bool, false, Bool-cases, inl, inr, String, Option, none,
  some, [], ◌∙◌, sym, subst, arith, if◌then◌else◌,
}
use oxidt_kit.Browser.Http.{
  Fetched, Response, Outcome, ok, thrown, truthy, is_true, or_default, post_json,
}
use oxidt_kit.Browser.Webauthn.{RawOptions, RawCreation, Creation, Challenge, creation_options}
use oxidt_kit.LocalLogin.State.{Step, Setting, await_password, Page}
use oxidt_kit.LocalLogin.Ui.{
  show, set_loading, set_controls, update_terms, offer_code, arm_conditional, mount_captcha,
  request_conditional, alert_box, show_error,
}
use oxidt_kit.LocalLogin.Flow.{proceed_after_login, route_if_present, route_after_terms, finish}
use oxidt_kit.LocalLogin.Forms.{
  back_to, captcha_failed, reset_captcha, on_start, start_with, on_captcha, on_otp, on_password,
  sign_in_failed, cleared,
}
use oxidt_kit.LocalLogin.Actions.{
  on_code, on_resend, enroll_failed, create_with, create_passkey, on_enroll_options, on_enrolled,
  on_terms,
}
use oxidt_kit.LocalLogin.Run.{resume}

-- What `show` and `setLoading` leave alone.
abbrev pub Kept : Page → Page → Type 0
Kept p q =
    (q.error ≡ p.error)
    × (q.location ≡ p.location)
    × (q.password_field ≡ p.password_field)
    × (q.setting ≡ p.setting)

show_keeps : (name : Step) (p : Page) → Kept p (show name p) × ((show name p).step ≡ name)
unfolding show mount_captcha arm_conditional request_conditional
show_keeps name p = ground arith

-- The buttons can be used, that of the terms once they are ticked, and no spinner is shown.
abbrev pub Enabled : Page → Type 0
Enabled p =
    (p.loading ≡ false)
    × (p.buttons_disabled ≡ false)
    × (p.spinner_hidden ≡ true)
    × (p.terms_disabled ≡ not p.terms_checked)

set_loading_keeps :
    (p : Page)
    → Kept p (set_loading false p)
      × ((set_loading false p).step ≡ p.step)
      × Enabled (set_loading false p)
unfolding set_loading set_controls update_terms arm_conditional request_conditional
set_loading_keeps p = ground arith

-- The handlers that end with the reply to a request of a form or a button: the start with an address,
-- the captcha, the code, the password, the code instead of a passkey, a new code, the options and
-- the check of a new passkey, and the terms.
pub data Handler : Type 0 where
  start captcha otp password code resend enrolling enrolled terms : Handler

unfoldable pub handle : Handler → Outcome Response → Page → Page
handle start r p = on_start r p
handle captcha r p = on_captcha r p
handle otp r p = on_otp r p
handle password r p = on_password r p
handle code r p = on_code r p
handle resend r p = on_resend r p
handle enrolling r p = on_enroll_options r p
handle enrolled r p = on_enrolled r p
handle terms r p = on_terms r p

-- The step that the user is left on.
abbrev pub landing : Handler → Step → Step
landing start s = Step.email
landing code s = Step.email
landing otp s = Step.otp
landing _ s = s

-- The message where the server refuses, of its own or the page's.
abbrev pub refused : String → Response → Option String
refused d resp = if truthy resp.success then none else some (or_default resp.error d)

-- A start that asks for a captcha, has options for a passkey, or leads to the password or to a code
-- goes on; the page knows nothing else to do.
abbrev pub unexpected : Response → Option RawOptions → Option String
unexpected resp (some raw) = none
unexpected resp none =
    if truthy resp.password || truthy resp.otp_sent
    then none
    else some "Unexpected response from server"

-- Why no passkey can be created: the browser cannot, there are no options, or they do not convert.
abbrev pub converted : String → Option (Creation (List ℕ) Challenge) → Option String
converted msg none = some msg
converted msg (some request) = none

abbrev pub uncreated : Setting → Option RawCreation → Option String
uncreated s raw =
    if s.can_create
    then (elim raw [
      | none ↦ some s.no_options_error
      | some o ↦ converted s.atob_error (creation_options s.atob o)
    ])
    else some "Passkeys are not supported in this browser or context."

-- The message of a request that failed, or of a reply that the page cannot go on with.
abbrev pub failure : Handler → Setting → Outcome Response → Option String
failure f s (thrown msg) = some msg
failure start s (ok resp) =
    if is_true resp.captcha_required then none else unexpected resp resp.public_key_options
failure captcha s (ok resp) = refused "Verification failed" resp
failure otp s (ok resp) = refused "Verification failed" resp
failure password s (ok resp) = refused "Sign-in failed" resp
failure code s (ok resp) = none
failure resend s (ok resp) = refused "Failed to resend code" resp
failure enrolling s (ok resp) = uncreated s resp.creation
failure enrolled s (ok resp) = refused "Passkey enrollment failed" resp
failure terms s (ok resp) = refused "Failed to accept terms" resp

abbrev pub Recovered : Step → String → Page → Page → Type 0
Recovered step msg p q =
    Enabled q
    × (q.error ≡ alert_box p.setting (some msg) p.error)
    × (q.step ≡ step)
    × (q.location ≡ p.location)

stay-Recovered :
    (msg : String) (p : Page) → Recovered p.step msg p (set_loading false (show_error (some msg) p))
unfolding show_error
stay-Recovered msg p =
    let k = set_loading_keeps (show_error (some msg) p) in (k.2, k.0.0, k.1, k.0.1)

back_to-Recovered :
    (name : Step) (msg : String) (p : Page) → Recovered name msg p (back_to name msg p)
unfolding show_error
back_to-Recovered name msg p =
    let q = show_error (some msg) p in
    let s = show_keeps name q in
    let k = set_loading_keeps (show name q) in (k.2, k.0.0 ∙ s.0.0, k.1 ∙ s.1, k.0.1 ∙ s.0.1)

captcha_failed-Recovered : (msg : String) (p : Page) → Recovered p.step msg p (captcha_failed msg p)
unfolding show_error reset_captcha
captcha_failed-Recovered msg p =
    let k = set_loading_keeps (reset_captcha (show_error (some msg) p)) in (k.2, k.0.0, k.1, k.0.1)

thrown-Recovered :
    (f : Handler) (msg : String) (p : Page)
    → Recovered (landing f p.step) msg p (handle f (thrown msg) p)
unfolding handle on_start on_captcha on_otp on_password on_code on_resend on_enroll_options
    on_enrolled on_terms
thrown-Recovered start msg p = back_to-Recovered Step.email msg p
thrown-Recovered captcha msg p = captcha_failed-Recovered msg p
thrown-Recovered otp msg p = back_to-Recovered Step.otp msg p
thrown-Recovered password msg p = stay-Recovered msg (cleared p)
thrown-Recovered code msg p = back_to-Recovered Step.email msg p
thrown-Recovered resend msg p = stay-Recovered msg p
thrown-Recovered enrolling msg p = stay-Recovered msg p
thrown-Recovered enrolled msg p = stay-Recovered msg p
thrown-Recovered terms msg p = stay-Recovered msg p

refused_lem :
    (d : String) (resp : Response) (msg : String)
    → refused d resp ≡ some msg
    → (truthy resp.success ≡ false) × (or_default resp.error d ≡ msg)
refused_lem d resp msg e = elim (Bool-cases (truthy resp.success)) [
  | inl good ↦ absurd (some-ne-none msg (sym (rw good at e)))
  | inr bad ↦ (bad, some-injective _ msg (rw bad at e))
]

start_with-Recovered :
    (resp : Response) (raw : Option RawOptions) (msg : String) (p : Page)
    → unexpected resp raw ≡ some msg
    → Recovered Step.email msg p (start_with resp raw p)
start_with-Recovered resp (some raw) msg p e = absurd (some-ne-none msg (sym e))
start_with-Recovered resp none msg p e = ground (arith, back_to-Recovered Step.email msg p)

start-Recovered :
    (resp : Response) (msg : String) (p : Page)
    → failure start p.setting (ok resp) ≡ some msg
    → Recovered Step.email msg p (on_start (ok resp) p)
unfolding on_start offer_code
start-Recovered resp msg p e = elim (Bool-cases (is_true resp.captcha_required)) [
  | inl asks ↦ absurd (some-ne-none msg (sym (rw asks at e)))
  | inr goes ↦ rw goes (start_with-Recovered resp resp.public_key_options msg _ (rw goes at e))
]

enroll_failed-Recovered :
    (said msg : String) (p : Page) → said ≡ msg → Recovered p.step msg p (enroll_failed said p)
enroll_failed-Recovered said msg p e =
    subst (λ m. Recovered p.step m p (enroll_failed said p)) e (stay-Recovered said p)

create_with-Recovered :
    (o : Option (Creation (List ℕ) Challenge)) (msg : String) (p : Page)
    → converted p.setting.atob_error o ≡ some msg
    → Recovered p.step msg p (create_with o p)
create_with-Recovered none msg p e = enroll_failed-Recovered _ msg p (some-injective _ msg e)
create_with-Recovered (some request) msg p e = absurd (some-ne-none msg (sym e))

if-Recovered :
    (b : Bool) (o : Option String) (said msg : String) (p q : Page)
    → (if b then o else some said) ≡ some msg
    → (o ≡ some msg → Recovered p.step msg p q)
    → Recovered p.step msg p (if not b then enroll_failed said p else q)
if-Recovered true o said msg p q e h = h e
if-Recovered false o said msg p q e h = enroll_failed-Recovered said msg p (some-injective _ msg e)

create_passkey-Recovered :
    (raw : Option RawCreation) (msg : String) (p : Page)
    → uncreated p.setting raw ≡ some msg
    → Recovered p.step msg p (create_passkey raw p)
create_passkey-Recovered none msg p e =
    if-Recovered p.setting.can_create _ _ msg p _ e
      (λ m. enroll_failed-Recovered _ msg p (some-injective _ msg m))
create_passkey-Recovered (some o) msg p e =
    if-Recovered p.setting.can_create _ _ msg p _ e (λ m. create_with-Recovered _ msg p m)

-- Where one of the page's forms or buttons asks the server and the request fails, or gets a reply
-- that the page cannot go on with, the page is given back: nothing is loading, the buttons are
-- enabled, that of the terms just when they are ticked, no spinner is shown, the error box says why
-- (an empty message hides it), the step is the one that the handler lands on, and the document goes
-- nowhere. The requests are the start with an address, the captcha, the code, the password, the
-- code instead of a passkey, a new code, the options and the check of a new passkey, and the terms.
-- Such a reply is a refusal; for the start, one that leads nowhere; for the options, that no
-- passkey can be created of them. The reply to the code instead of a passkey has no such case: only
-- the request itself can fail.
pub handle-Recovered :
    (f : Handler) (r : Outcome Response) (msg : String) (p : Page)
    → failure f p.setting r ≡ some msg
    → Recovered (landing f p.step) msg p (handle f r p)
unfolding handle on_captcha on_otp on_password on_resend on_enroll_options on_enrolled on_terms
handle-Recovered f (thrown m) msg p e =
    subst (λ x. Recovered (landing f p.step) x p (handle f (thrown m) p)) (some-injective m msg e)
      (thrown-Recovered f m p)
handle-Recovered start (ok resp) msg p e = start-Recovered resp msg p e
handle-Recovered captcha (ok resp) msg p e =
    let (bad, same) = refused_lem "Verification failed" resp msg e in
    rw (bad, same) (captcha_failed-Recovered msg p)
handle-Recovered otp (ok resp) msg p e =
    let (bad, same) = refused_lem "Verification failed" resp msg e in
    rw (bad, same) (back_to-Recovered Step.otp msg p)
handle-Recovered password (ok resp) msg p e =
    let (bad, same) = refused_lem "Sign-in failed" resp msg e in
    rw (bad, same) (stay-Recovered msg (cleared p))
handle-Recovered code (ok resp) msg p e = absurd (some-ne-none msg (sym e))
handle-Recovered resend (ok resp) msg p e =
    let (bad, same) = refused_lem "Failed to resend code" resp msg e in
    rw (bad, same) (stay-Recovered msg p)
handle-Recovered enrolling (ok resp) msg p e = create_passkey-Recovered resp.creation msg p e
handle-Recovered enrolled (ok resp) msg p e =
    let (bad, same) = refused_lem "Passkey enrollment failed" resp msg e in
    rw (bad, same) (stay-Recovered msg p)
handle-Recovered terms (ok resp) msg p e =
    let (bad, same) = refused_lem "Failed to accept terms" resp msg e in
    rw (bad, same) (stay-Recovered msg p)

route_keeps :
    (url : Option String) (offer : Bool) (p : Page)
    → (route_if_present url offer p).password_field ≡ p.password_field
unfolding route_if_present route_after_terms finish
route_keeps none offer p = refl
route_keeps (some url) offer p = ground (
  arith,
  show_keeps Step.success p,
  show_keeps Step.offer (record p { pending_redirect = some url }),
  set_loading_keeps (show Step.offer (record p { pending_redirect = some url })),
)

proceed_keeps :
    (resp : Response) (p : Page) → (proceed_after_login resp p).password_field ≡ p.password_field
unfolding proceed_after_login
proceed_keeps resp p =
    let q = record p { offer_after_terms = is_true resp.offer_passkey } in
    ground (
      arith,
      show_keeps Step.tos q,
      set_loading_keeps (show Step.tos q),
      route_keeps resp.redirect_url (is_true resp.offer_passkey) p,
    )

sign_in_failed_clears :
    (msg : String) (p : Page) → (sign_in_failed msg (cleared p)).password_field ≡ []
unfolding show_error
sign_in_failed_clears msg p = (set_loading_keeps (show_error (some msg) (cleared p))).0.2

on_password_clears : (r : Outcome Response) (p : Page) → (on_password r p).password_field ≡ []
unfolding on_password
on_password_clears (thrown msg) p = sign_in_failed_clears msg p
on_password_clears (ok resp) p = ground (
  arith,
  proceed_keeps resp (cleared p),
  sign_in_failed_clears (or_default resp.error "Sign-in failed") p,
)

-- Whatever comes of the sign-in, the field does not keep the password.
pub password_field-await_password :
    (r : Fetched) (p : Page) → (resume await_password r p).password_field ≡ []
unfolding resume
password_field-await_password r p = on_password_clears (post_json r) p
