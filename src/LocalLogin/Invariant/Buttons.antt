-- ===== src/LocalLogin/Invariant/Buttons.antt =====
-- The invariant under the buttons.
use Prim.Native.String
use oxidt_kit.Kit.{ℕ, refl, not, true, false, String, Option, none, some, List, []}
use oxidt_kit.Browser.Http.{Response, Outcome, ok, thrown, truthy, or_default}
use oxidt_kit.Browser.Webauthn.{RawCreation, Creation, Challenge, Attestation, creation_options}
use oxidt_kit.LocalLogin.State.{
  Step, await_code_release, await_code, await_resend, await_back_release, await_enroll_options,
  await_created, await_enrolled, await_terms, Settled, given, abort_error, not_allowed_error,
  other_error, Page,
}
use oxidt_kit.LocalLogin.Ui.{set_loading, show_error, show_success, clear_alerts, email_error}
use oxidt_kit.LocalLogin.Flow.{dismiss_prompt}
use oxidt_kit.LocalLogin.Ceremony.{cancel_ceremony}
use oxidt_kit.LocalLogin.Actions.{
  next_attempt, use_code, on_code_release, on_code, resend, on_resend, passkey_back,
  on_back_release, retry, back, offer_add, enroll_failed, create_with, create_passkey,
  on_enroll_options, on_created, url_of, on_enrolled, offer_skip, tos_accept, on_terms,
}
use oxidt_kit.LocalLogin.Invariant.Forms.{plain-Inv, back_to-Inv}
use oxidt_kit.LocalLogin.Invariant.Defs.{Inv}
use oxidt_kit.LocalLogin.Invariant.Ui.{show-Inv, loading-Inv}
use oxidt_kit.LocalLogin.Invariant.Ceremonies.{
  if-Inv, next-Inv, finish-Inv, route_if_present-Inv, trigger_passkey-Inv,
}

pub use_code-Inv : (n : ℕ) (p : Page) → Inv n 0 p → Inv n 0 (use_code p)
unfolding use_code clear_alerts show_error show_success
use_code-Inv n p h =
    plain-Inv n (await_code_release _)
      (cancel_ceremony (clear_alerts (set_loading true (next_attempt p)))) refl refl
      (loading-Inv n 0 true (next_attempt p) (next-Inv n 0 p h))

pub on_code_release-Inv : (n : ℕ) (p : Page) → Inv n 0 p → Inv n 0 (on_code_release p)
unfolding on_code_release
on_code_release-Inv n p h = plain-Inv n await_code p refl refl h

pub on_code-Inv : (n : ℕ) (r : Outcome Response) (p : Page) → Inv n 0 p → Inv n 0 (on_code r p)
unfolding on_code show_success
on_code-Inv n (thrown msg) p h = back_to-Inv n Step.email msg p h
on_code-Inv n (ok resp) p h = loading-Inv n 0 false _ (show-Inv n 0 Step.otp sent h)
  where
    sent : Page
    sent =
        let q = show_success (some "Verification code sent to your email.") p in
        record q { password_field = []; otp_field = [] }

pub resend-Inv : (n : ℕ) (p : Page) → Inv n 0 p → Inv n 0 (resend p)
unfolding resend clear_alerts show_error show_success
resend-Inv n p h =
    plain-Inv n await_resend (clear_alerts (set_loading true p)) refl refl
      (loading-Inv n 0 true p h)

pub on_resend-Inv : (n : ℕ) (r : Outcome Response) (p : Page) → Inv n 0 p → Inv n 0 (on_resend r p)
unfolding on_resend show_error show_success
on_resend-Inv n (thrown msg) p h = loading-Inv n 0 false (show_error (some msg) p) h
on_resend-Inv n (ok resp) p h = loading-Inv n 0 false _ (
    if-Inv n 0 (truthy resp.success)
      (show_success (some "A new code has been sent to your email.") p)
      (show_error (some (or_default resp.error "Failed to resend code")) p) h h)

pub passkey_back-Inv : (n : ℕ) (p : Page) → Inv n 0 p → Inv n 0 (passkey_back p)
unfolding passkey_back clear_alerts show_error show_success
passkey_back-Inv n p h =
    plain-Inv n (await_back_release _) (cancel_ceremony (clear_alerts (next_attempt p))) refl refl
      (next-Inv n 0 p h)

pub on_back_release-Inv : (n : ℕ) (p : Page) → Inv n 0 p → Inv n 0 (on_back_release p)
unfolding on_back_release
on_back_release-Inv n p h = show-Inv n 0 Step.email _ (loading-Inv n 0 false p h)

pub retry-Inv : (n : ℕ) (p : Page) → Inv n 0 p → Inv n 0 (retry p)
unfolding retry show_error
retry-Inv n p h = trigger_passkey-Inv n _ (show-Inv n 0 Step.passkey (show_error none p) h)

pub back-Inv : (n : ℕ) (p : Page) → Inv n 0 p → Inv n 0 (back p)
unfolding back clear_alerts show_error show_success email_error
back-Inv n p h =
    let q = email_error none (clear_alerts p) in
    show-Inv n 0 Step.email (record q { otp_field = []; password_field = [] }) h

pub offer_add-Inv : (n : ℕ) (p : Page) → Inv n 0 p → Inv n 0 (offer_add p)
unfolding offer_add show_error
offer_add-Inv n p h =
    plain-Inv n await_enroll_options (show_error none (set_loading true p)) refl refl
      (loading-Inv n 0 true p h)

enroll_failed-Inv : (n : ℕ) (msg : String) (p : Page) → Inv n 0 p → Inv n 0 (enroll_failed msg p)
unfolding show_error
enroll_failed-Inv n msg p h = loading-Inv n 0 false (show_error (some msg) p) h

create_with-Inv :
    (n : ℕ) (o : Option (Creation (List ℕ) Challenge)) (p : Page)
    → Inv n 0 p
    → Inv n 0 (create_with o p)
create_with-Inv n none p h = enroll_failed-Inv n p.setting.atob_error p h
create_with-Inv n (some request) p h = plain-Inv n await_created p refl refl h

create_passkey-Inv :
    (n : ℕ) (raw : Option RawCreation) (p : Page) → Inv n 0 p → Inv n 0 (create_passkey raw p)
create_passkey-Inv n none p h =
    if-Inv n 0 (not p.setting.can_create) _ _
      (enroll_failed-Inv n "Passkeys are not supported in this browser or context." p h)
      (enroll_failed-Inv n p.setting.no_options_error p h)
create_passkey-Inv n (some o) p h =
    if-Inv n 0 (not p.setting.can_create) _ _
      (enroll_failed-Inv n "Passkeys are not supported in this browser or context." p h)
      (create_with-Inv n (creation_options p.setting.atob o) p h)

pub on_enroll_options-Inv :
    (n : ℕ) (r : Outcome Response) (p : Page) → Inv n 0 p → Inv n 0 (on_enroll_options r p)
unfolding on_enroll_options
on_enroll_options-Inv n (thrown msg) p h = enroll_failed-Inv n msg p h
on_enroll_options-Inv n (ok resp) p h = create_passkey-Inv n resp.creation p h

pub on_created-Inv :
    (n : ℕ) (r : Settled (Attestation (List ℕ))) (p : Page) → Inv n 0 p → Inv n 0 (on_created r p)
unfolding on_created
on_created-Inv n (given c) p h = plain-Inv n await_enrolled p refl refl h
on_created-Inv n abort_error p h =
    enroll_failed-Inv n (String.◌++◌ "Passkey creation error: " p.setting.abort_message) p h
on_created-Inv n not_allowed_error p h =
    enroll_failed-Inv n "Passkey creation was cancelled or timed out." p h
on_created-Inv n (other_error msg) p h =
    enroll_failed-Inv n (String.◌++◌ "Passkey creation error: " msg) p h

pub on_enrolled-Inv :
    (n : ℕ) (r : Outcome Response) (p : Page) → Inv n 0 p → Inv n 0 (on_enrolled r p)
unfolding on_enrolled
on_enrolled-Inv n (thrown msg) p h = enroll_failed-Inv n msg p h
on_enrolled-Inv n (ok resp) p h =
    if-Inv n 0 (truthy resp.success) _ _
      (finish-Inv n 0 (url_of (set_loading false p).pending_redirect) (set_loading false p)
        (loading-Inv n 0 false p h))
      (enroll_failed-Inv n (or_default resp.error "Passkey enrollment failed") p h)

pub offer_skip-Inv : (n : ℕ) (p : Page) → Inv n 0 p → Inv n 0 (offer_skip p)
unfolding offer_skip show_error
offer_skip-Inv n p h =
    let q = show_error none (dismiss_prompt p) in finish-Inv n 0 (url_of q.pending_redirect) q h

pub tos_accept-Inv : (n : ℕ) (p : Page) → Inv n 0 p → Inv n 0 (tos_accept p)
unfolding tos_accept show_error
tos_accept-Inv n p h =
    plain-Inv n await_terms (show_error none (set_loading true p)) refl refl
      (loading-Inv n 0 true p h)

pub on_terms-Inv : (n : ℕ) (r : Outcome Response) (p : Page) → Inv n 0 p → Inv n 0 (on_terms r p)
unfolding on_terms show_error
on_terms-Inv n (thrown msg) p h = loading-Inv n 0 false (show_error (some msg) p) h
on_terms-Inv n (ok resp) p h = loading-Inv n 0 false _ (
    if-Inv n 0 (truthy resp.success) _
      (show_error (some (or_default resp.error "Failed to accept terms")) p)
      (route_if_present-Inv n 0 resp.redirect_url p.offer_after_terms p h) h)
