-- ===== src/FerriskeyLogin/Refines/Replies.antt =====
-- The replies to ceremonies, forms and the terms answer as the protocol says.
use Prim.Native.String
use oxidt_kit.Kit.{
  ℕ, ◌≡◌, ◌≢◌, refl, ap, ◌∙◌, true, false, String, nonempty_string, Option, none, some, List,
  if◌then◌else◌, arith,
}
use oxidt_kit.Browser.Http.{Response, Outcome, ok, thrown, truthy, is_true, or_default, post_json}
use oxidt_kit.Browser.Webauthn.{Credential}
use oxidt_kit.LocalLogin.State.{given, abort_error, not_allowed_error, other_error}
use oxidt_kit.FerriskeyLogin.State.{
  Step, Task, await_credential, await_verdict, await_otp, await_password, await_resend, await_terms,
  Reply, Page,
}
use oxidt_kit.FerriskeyLogin.Ui.{show, set_loading, show_error, show_success}
use oxidt_kit.FerriskeyLogin.Ceremony.{
  leave_for, proceed_after_login, stale, ceremony_failed, release, on_assertion, on_credential,
  back_to, on_verdict,
}
use oxidt_kit.FerriskeyLogin.Forms.{stay, on_otp, cleared, on_password}
use oxidt_kit.FerriskeyLogin.Run.{on_resend, on_terms}
use oxidt_kit.FerriskeyLogin.Protocol.{
  View, view, loaded, asking, destination, verdict, sign_in, stays, gives_back, is_fetch, Answer,
  fails, proves, ignores, frees, stalls, leaves,
}
use oxidt_kit.FerriskeyLogin.Refines.Views.{
  if-view, show-view, set_loading-view, back_to-view, stay-view, by-view, if-Answer,
}

failed-Answer :
    (mine id : ℕ) (r : Reply (await_credential mine id)) (msg : String) (p : Page)
    → Answer (await_credential mine id) r (view p) (view (ceremony_failed mine msg (release id p)))
unfolding ceremony_failed release show_error
failed-Answer mine id r msg p =
    if-Answer (await_credential mine id) r (view p) _ _ _ (λ e. fails mine id r (view p))
      (λ e. fails mine id r (view p))

eq-of-stale : (mine : ℕ) (p : Page) → stale mine p ≡ false → mine ≡ p.attempt
eq-of-stale mine p h = ground arith

ne-of-stale : (mine : ℕ) (p : Page) → stale mine p ≡ true → mine ≢ p.attempt
ne-of-stale mine p h e = ground arith

on_assertion-Answer :
    (mine id : ℕ) (c : Credential (List ℕ)) (p : Page)
    → Answer
        (await_credential mine id)
        (given c)
        (view p)
        (view (on_assertion mine c (release id p)))
unfolding on_assertion release
on_assertion-Answer mine id c p =
    if-Answer (await_credential mine id) (given c) (view p) (stale mine p) _ _
      (λ e. fails mine id (given c) (view p))
      (λ e.
        by-view (await_credential mine id) (given c) (view p)
          (ap (asking (await_verdict mine)) (show-view Step.verifying (release id p)))
          (proves mine id c (view p) (eq-of-stale mine p e)))

pub on_credential-Answer :
    (mine id : ℕ) (r : Reply (await_credential mine id)) (p : Page)
    → Answer (await_credential mine id) r (view p) (view (on_credential mine id r p))
unfolding on_credential
on_credential-Answer mine id (given c) p = on_assertion-Answer mine id c p
on_credential-Answer mine id abort_error p = failed-Answer mine id abort_error "ceremony-aborted" p
on_credential-Answer mine id not_allowed_error p =
    failed-Answer mine id not_allowed_error "Authentication was cancelled or timed out." p
on_credential-Answer mine id (other_error msg) p =
    failed-Answer mine id (other_error msg) (String.◌++◌ "Passkey error: " msg) p

pub back_to-Answer :
    (t : Task) (r : Reply t) (fetch : gives_back t r ≡ true) (name : Step) (msg : String) (p : Page)
    → Answer t r (view p) (view (back_to name msg p))
back_to-Answer t r fetch name msg p =
    by-view t r (view p) (back_to-view name msg p) (frees t r (view p) fetch)

leave_for-Answer :
    (t : Task) (r : Reply t) (o : Option String) (p : Page)
    → sign_in t r ≡ destination o
    → Answer t r (view p) (view (leave_for o p))
leave_for-Answer t r none p e = stalls t r (view p) e
leave_for-Answer t r (some url) p e =
    let q = record (show Step.success p) { location = some url } in
    if-Answer t r (view p) (nonempty_string url) q p
      (λ there.
        by-view t r (view p)
          (ap (λ (v : View). record v { location = some url }) (show-view Step.success p))
          (leaves t r (view p) url (rw there at e)))
      (λ empty. stalls t r (view p) (rw empty at e))

pub stay-Answer :
    (t : Task) (r : Reply t) (fetch : gives_back t r ≡ true) (msg : String) (p : Page)
    → Answer t r (view p) (view (stay msg p))
stay-Answer t r fetch msg p = by-view t r (view p) (stay-view msg p) (frees t r (view p) fetch)

both :
    (t : Task) (r : Reply t)
    → is_fetch t ≡ true
    → stays (sign_in t r) ≡ true
    → gives_back t r ≡ true
both t r fetch stay = rw fetch stay

verdict-stays_for_terms :
    (resp : Response)
    → truthy resp.success ≡ true
    → is_true resp.needs_tos_acceptance ≡ true
    → stays (verdict (ok resp)) ≡ true
verdict-stays_for_terms resp good asked = rw (good, asked) refl

-- A reply that was refused, or a request that failed.
verdict-stays :
    (o : Outcome Response) (resp : Response)
    → o ≡ ok resp
    → truthy resp.success ≡ false
    → stays (verdict o) ≡ true
verdict-stays o resp e bad = ap (λ x. stays (verdict x)) e ∙ rw bad refl

thrown-stays : (o : Outcome Response) (msg : String) → o ≡ thrown msg → stays (verdict o) ≡ true
thrown-stays o msg e = ap (λ x. stays (verdict x)) e

proceed-Answer :
    (t : Task) (r : Reply t) (fetch : is_fetch t ≡ true) (resp : Response) (p : Page)
    → sign_in t r ≡ verdict (ok resp)
    → truthy resp.success ≡ true
    → Answer t r (view p) (view (proceed_after_login resp p))
unfolding proceed_after_login
proceed-Answer t r fetch resp p e good =
    let q = set_loading false (show Step.tos p) in
    if-Answer t r (view p) (is_true resp.needs_tos_acceptance) q (leave_for resp.redirect_url p)
      (λ asked.
        by-view t r (view p)
          (set_loading-view false (show Step.tos p) ∙ ap (loaded false) (show-view Step.tos p))
          (frees t r (view p)
            (both t r fetch (ap stays e ∙ verdict-stays_for_terms resp good asked))))
      (λ settled. leave_for-Answer t r resp.redirect_url p (rw (good, settled) at e))

pub on_verdict-Answer :
    (mine : ℕ) (r : Reply (await_verdict mine)) (o : Outcome Response) (p : Page)
    → post_json r ≡ o
    → Answer (await_verdict mine) r (view p) (view (on_verdict mine o p))
unfolding on_verdict
on_verdict-Answer mine r (thrown msg) p e =
    if-Answer (await_verdict mine) r (view p) (stale mine p) p (back_to Step.passkey msg p)
      (λ old. ignores mine r (view p) (ne-of-stale mine p old))
      (λ new.
        back_to-Answer (await_verdict mine) r (thrown-stays (post_json r) msg e) Step.passkey msg p)
on_verdict-Answer mine r (ok resp) p e =
    let t = await_verdict mine in
    let back = back_to Step.passkey (or_default resp.error "Verification failed") p in
    if-Answer t r (view p) (stale mine p) p
      (if truthy resp.success then proceed_after_login resp p else back)
      (λ old. ignores mine r (view p) (ne-of-stale mine p old))
      (λ new.
        if-Answer t r (view p) (truthy resp.success) (proceed_after_login resp p) back
          (λ good. proceed-Answer t r refl resp p (ap verdict e) good)
          (λ bad.
            back_to-Answer t r (verdict-stays (post_json r) resp e bad) Step.passkey
              (or_default resp.error "Verification failed") p))

-- The replies to the forms and to the terms.
sign_in-Answer :
    (t : Task) (r : Reply t) (fetch : is_fetch t ≡ true) (resp : Response) (p q : Page)
    → sign_in t r ≡ verdict (ok resp)
    → (truthy resp.success ≡ false → Answer t r (view p) (view q))
    → Answer t r (view p) (view (if truthy resp.success then proceed_after_login resp p else q))
sign_in-Answer t r fetch resp p q e a =
    if-Answer t r (view p) (truthy resp.success) (proceed_after_login resp p) q
      (λ good. proceed-Answer t r fetch resp p e good) a

pub on_otp-Answer :
    (r : Reply await_otp) (o : Outcome Response) (p : Page)
    → post_json r ≡ o
    → Answer await_otp r (view p) (view (on_otp o p))
unfolding on_otp
on_otp-Answer r (thrown msg) p e =
    back_to-Answer await_otp r (thrown-stays (post_json r) msg e) Step.otp msg p
on_otp-Answer r (ok resp) p e =
    let msg = or_default resp.error "Verification failed" in
    sign_in-Answer await_otp r refl resp p (back_to Step.otp msg p) (ap verdict e)
      (λ bad. back_to-Answer await_otp r (verdict-stays (post_json r) resp e bad) Step.otp msg p)

pub on_password-Answer :
    (r : Reply await_password) (o : Outcome Response) (p : Page)
    → post_json r ≡ o
    → Answer await_password r (view p) (view (on_password o p))
unfolding on_password
on_password-Answer r (thrown msg) p e =
    back_to-Answer await_password r (thrown-stays (post_json r) msg e) Step.password msg (cleared p)
on_password-Answer r (ok resp) p e =
    let msg = or_default resp.error "Password verification failed" in
    sign_in-Answer await_password r refl resp (cleared p) (back_to Step.password msg (cleared p))
      (ap verdict e)
      (λ bad.
        back_to-Answer await_password r (verdict-stays (post_json r) resp e bad) Step.password msg
          (cleared p))

pub on_terms-Answer :
    (r : Reply await_terms) (o : Outcome Response) (p : Page)
    → post_json r ≡ o
    → Answer await_terms r (view p) (view (on_terms o p))
unfolding on_terms
on_terms-Answer r (thrown msg) p e =
    stay-Answer await_terms r (thrown-stays (post_json r) msg e) msg p
on_terms-Answer r (ok resp) p e =
    let msg = or_default resp.error "Failed to accept terms" in
    sign_in-Answer await_terms r refl resp p (stay msg p) (ap verdict e)
      (λ bad. stay-Answer await_terms r (verdict-stays (post_json r) resp e bad) msg p)

pub on_resend-Answer :
    (r : Reply await_resend) (o : Outcome Response) (p : Page)
    → Answer await_resend r (view p) (view (on_resend o p))
unfolding on_resend set_loading show_success show_error
on_resend-Answer r (thrown msg) p = stay-Answer await_resend r refl msg p
on_resend-Answer r (ok resp) p =
    by-view await_resend r (view p)
      (ap (loaded false) (if-view (truthy resp.success) _ _ refl refl))
      (frees await_resend r (view p) refl)
