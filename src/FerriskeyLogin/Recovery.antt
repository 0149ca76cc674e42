-- ===== src/FerriskeyLogin/Recovery.antt =====
-- A request that fails, or that the server refuses, gives the page back to the user.
use mathlib.Core.Option.{some-injective, some-ne-none}
use oxidt_kit.Kit.{
  ℕ, ◌≡◌, refl, sym, subst, ◌==◌, Bool, true, false, Bool-cases, inl, inr, String, Option, none,
  some, if◌then◌else◌, arith,
}
use oxidt_kit.Browser.Http.{Response, Outcome, ok, thrown, truthy, or_default, post_json}
use oxidt_kit.FerriskeyLogin.State.{
  Step, Task, await_credential, await_verdict, await_start, await_captcha_token, await_captcha,
  await_otp, await_password, await_resend, await_terms, Reply, Page,
}
use oxidt_kit.FerriskeyLogin.Ui.{alert_box, show, mount_captcha, set_loading, show_error}
use oxidt_kit.FerriskeyLogin.Ceremony.{stale, back_to, on_verdict}
use oxidt_kit.FerriskeyLogin.Forms.{
  reset_captcha, stay, captcha_failed, on_captcha, on_start, on_otp, cleared, on_password,
}
use oxidt_kit.FerriskeyLogin.Run.{on_resend, on_terms, resume}
use oxidt_kit.FerriskeyLogin.Protocol.{view, loaded}
use oxidt_kit.FerriskeyLogin.Refines.Views.{back_to-view}

-- What each request says when the server refuses without a reason.
abbrev pub default_error : Task → String
default_error await_password = "Password verification failed"
default_error await_resend = "Failed to resend code"
default_error await_terms = "Failed to accept terms"
default_error _ = "Verification failed"

-- The message of a request that failed, or that was refused.
abbrev pub refusal : String → Outcome Response → Option String
refusal s (thrown msg) = some msg
refusal s (ok resp) = if truthy resp.success then none else some (or_default resp.error s)

abbrev pub thrown_message : Outcome Response → Option String
thrown_message (thrown msg) = some msg
thrown_message (ok resp) = none

abbrev pub failure : (t : Task) → Reply t → Option String
failure (await_credential mine id) r = none
failure (await_captcha_token i) r = none
failure await_start r = thrown_message (post_json r)
failure (await_verdict mine) r = refusal (default_error (await_verdict mine)) (post_json r)
failure await_captcha r = refusal (default_error await_captcha) (post_json r)
failure await_otp r = refusal (default_error await_otp) (post_json r)
failure await_password r = refusal (default_error await_password) (post_json r)
failure await_resend r = refusal (default_error await_resend) (post_json r)
failure await_terms r = refusal (default_error await_terms) (post_json r)

-- The step that the user is left on.
abbrev pub landing : Task → Step → Step
landing (await_verdict mine) s = Step.passkey
landing await_start s = Step.email
landing await_otp s = Step.otp
landing await_password s = Step.password
landing _ s = s

-- A verdict counts while its ceremony is the page's.
abbrev pub is_current : Task → Page → Bool
is_current (await_verdict mine) p = p.attempt == mine
is_current _ p = true

abbrev pub Recovered : Step → String → Page → Page → Type 0
Recovered name msg p q =
    (view q ≡ loaded false (view p))
    × (q.error ≡ alert_box p.setting (some msg) p.error)
    × (q.step ≡ name)

shown-error-step :
    (name : Step) (p : Page)
    → ((set_loading false (show name p)).error ≡ p.error)
      × ((set_loading false (show name p)).step ≡ name)
unfolding set_loading show mount_captcha
shown-error-step name p = ground arith

back_to-Recovered :
    (name : Step) (msg : String) (p : Page) → Recovered name msg p (back_to name msg p)
unfolding show_error
back_to-Recovered name msg p =
    let shown = shown-error-step name (show_error (some msg) p) in
    (back_to-view name msg p, shown.0, shown.1)

stay-Recovered : (msg : String) (p : Page) → Recovered p.step msg p (stay msg p)
unfolding show_error set_loading
stay-Recovered msg p = (refl, refl, refl)

captcha_failed-Recovered : (msg : String) (p : Page) → Recovered p.step msg p (captcha_failed msg p)
unfolding show_error set_loading reset_captcha
captcha_failed-Recovered msg p = (refl, refl, refl)

-- A handler that comes to `fail` with the message of a refusal.
refusal-Recovered :
    (name : Step) (s msg : String) (o : Outcome Response) (p : Page)
    (handle : Outcome Response → Page) (fail : String → Page)
    → ((m : String) → Recovered name m p (fail m))
    → ((m : String) → handle (thrown m) ≡ fail m)
    → ((resp : Response)
        → truthy resp.success ≡ false
        → handle (ok resp) ≡ fail (or_default resp.error s))
    → refusal s o ≡ some msg
    → Recovered name msg p (handle o)
refusal-Recovered name s msg (thrown m) p handle fail f h g e =
    rw (h m) (subst (λ x. Recovered name x p (fail m)) (some-injective m msg e) (f m))
refusal-Recovered name s msg (ok resp) p handle fail f h g e =
    elim (Bool-cases (truthy resp.success)) [
      | inl good ↦ absurd (some-ne-none msg (sym (rw good at e)))
      | inr bad ↦
          let m = or_default resp.error s in
          rw (g resp bad)
            (subst (λ x. Recovered name x p (fail m)) (some-injective m msg (rw bad at e)) (f m))
    ]

start-Recovered :
    (o : Outcome Response) (msg : String) (p : Page)
    → thrown_message o ≡ some msg
    → Recovered Step.email msg p (on_start o p)
unfolding on_start
start-Recovered (thrown m) msg p e =
    subst (λ x. Recovered Step.email x p (back_to Step.email m p)) (some-injective m msg e)
      (back_to-Recovered Step.email m p)
start-Recovered (ok resp) msg p e = absurd (some-ne-none msg (sym e))

verdict-Recovered :
    (mine : ℕ) (o : Outcome Response) (msg : String) (p : Page)
    → stale mine p ≡ false
    → refusal "Verification failed" o ≡ some msg
    → Recovered Step.passkey msg p (on_verdict mine o p)
unfolding on_verdict
verdict-Recovered mine o msg p new e =
    refusal-Recovered Step.passkey "Verification failed" msg o p (λ o. on_verdict mine o p)
      (λ m. back_to Step.passkey m p) (λ m. back_to-Recovered Step.passkey m p) (λ m. rw new refl)
      (λ resp bad. rw (new, bad) refl) e

-- A request that fails, or that the server refuses, gives the page back: nothing of what the page
-- waits for, of its ceremony and of where it goes has changed, but the controls are enabled, the
-- error box says why, and the user is left on the step that asks again. This is said of every
-- request of the page, of a passkey's verdict while its ceremony is the current one, and of the
-- request for an address where it fails, since its refusals are answers like the others.
pub resume-Recovered :
    (t : Task) (r : Reply t) (msg : String) (p : Page)
    → failure t r ≡ some msg
    → is_current t p ≡ true
    → Recovered (landing t p.step) msg p (resume t r p)
unfolding resume on_captcha on_otp on_password on_resend on_terms
resume-Recovered (await_credential mine id) r msg p e now = absurd (some-ne-none msg (sym e))
resume-Recovered (await_captcha_token i) r msg p e now = absurd (some-ne-none msg (sym e))
resume-Recovered await_start r msg p e now = start-Recovered (post_json r) msg p e
resume-Recovered (await_verdict mine) r msg p e now =
    verdict-Recovered mine (post_json r) msg p (rw now refl) e
resume-Recovered await_captcha r msg p e now =
    refusal-Recovered p.step "Verification failed" msg (post_json r) p (λ o. on_captcha o p)
      (λ m. captcha_failed m p) (λ m. captcha_failed-Recovered m p) (λ m. refl)
      (λ resp bad. rw bad refl) e
resume-Recovered await_otp r msg p e now =
    refusal-Recovered Step.otp "Verification failed" msg (post_json r) p (λ o. on_otp o p)
      (λ m. back_to Step.otp m p) (λ m. back_to-Recovered Step.otp m p) (λ m. refl)
      (λ resp bad. rw bad refl) e
resume-Recovered await_password r msg p e now =
    refusal-Recovered Step.password "Password verification failed" msg (post_json r) p
      (λ o. on_password o p) (λ m. back_to Step.password m (cleared p))
      (λ m. back_to-Recovered Step.password m (cleared p)) (λ m. refl) (λ resp bad. rw bad refl) e
resume-Recovered await_resend r msg p e now =
    refusal-Recovered p.step "Failed to resend code" msg (post_json r) p (λ o. on_resend o p)
      (λ m. stay m p) (λ m. stay-Recovered m p) (λ m. refl) (λ resp bad. rw bad refl) e
resume-Recovered await_terms r msg p e now =
    refusal-Recovered p.step "Failed to accept terms" msg (post_json r) p (λ o. on_terms o p)
      (λ m. stay m p) (λ m. stay-Recovered m p) (λ m. refl) (λ resp bad. rw bad refl) e
