-- ===== src/LocalLogin/Mails/Unasked.antt =====
-- How many codes the page asks for: at most one for each click on one of the two buttons for it.
use oxidt_kit.Kit.{
  ℕ, ◌+◌, ◌≤◌, ◌≡◌, refl, ap, Bool, true, false, Bool-cases, inl, inr, Option, List, [], ◌∷◌, ◌++◌,
  arith, if◌then◌else◌,
}
use oxidt_kit.Browser.Http.{post_json}
use oxidt_kit.LocalLogin.State.{
  Step, Setting, Task, await_options, await_mediation, await_release, await_credential,
  await_verdict, await_email_release, await_start, await_captcha_token, await_captcha, await_otp,
  await_password, await_code_release, await_code, await_resend, await_back_release,
  await_enroll_options, await_created, await_enrolled, await_terms, Reply, Page,
}
use oxidt_kit.LocalLogin.Ui.{
  show, set_loading, show_error, clear_alerts, update_terms, email_error, show_success,
}
use oxidt_kit.LocalLogin.Ceremony.{cancel_ceremony}
use oxidt_kit.LocalLogin.Forms.{on_email_release}
use oxidt_kit.LocalLogin.Actions.{use_code, next_attempt, on_code_release, resend}
use oxidt_kit.LocalLogin.Run.{
  resume, Action, passkey, use_code_instead, resend_code, passkey_go_back, try_again, go_back,
  add_passkey, not_now, accept_terms, act, is_disabled, click, Form, email_form, otp_form,
  password_form, submit, Input, type_email, type_otp, type_password, tick, solve, input, blank,
  init, Move, clicks, submits, inputs, hides, settles, rounds,
}
use oxidt_kit.LocalLogin.Progress.Gauge.{counted-add, flag}
use oxidt_kit.LocalLogin.Mails.Kept.{
  is_release, mails, releases, asked, Asks, keeps, count_of, ◌⊙◌, show-asked, set_loading-asked,
  on_options-asked, on_mediation-asked, on_release-asked, on_credential-asked, passkey_action-asked,
}
use oxidt_kit.LocalLogin.Mails.Handlers.{
  on_captcha_token-asked, on_captcha-asked, on_email_submit-asked, on_start-asked,
  on_otp_submit-asked, on_password_submit-asked, on_code-asked, on_resend-asked, passkey_back-asked,
  on_back_release-asked, retry-asked, back-asked, offer_add-asked, tos_accept-asked,
  on_enroll_options-asked, on_created-asked,
}
use oxidt_kit.LocalLogin.Mails.Asked.{
  on_verdict-asked, on_otp-asked, on_password-asked, on_terms-asked, on_enrolled-asked,
  offer_skip-asked,
}

-- The clicks that ask for a code.
abbrev pub asks : {p q : Page} → Move p q → ℕ
asks (clicks use_code_instead p) = 1
asks (clicks resend_code p) = 1
asks _ = 0

-- The pages that events lead to, with how many of those clicks there were.
pub data Run (s : Setting) : ℕ → Page → Type 0 where
  begins : (dismissed : Option Bool) → Run s 0 (init s dismissed)
  goes_on : {p q : Page} (n : ℕ) → Run s n p → (m : Move p q) → Run s (asks m + n) q

abbrev total : Page → ℕ
total p = mails p.posts + releases p.tasks

Asks-total : (p q : Page) → Asks (asked p) q → total q ≡ total p
Asks-total p q h = ap (λ c. c.0 + c.1) (count_of h)

releases-middle :
    (before : List Task) (t : Task) (after : List Task)
    → releases (before ++ t ∷ after) ≡ flag (is_release t) + releases (before ++ after)
releases-middle [] t after = counted-add (is_release t) (releases after)
releases-middle (b ∷ before) t after = omega (
  arith,
  releases-middle before t after,
  counted-add (is_release b) (releases (before ++ t ∷ after)),
  counted-add (is_release b) (releases (before ++ after)),
)

-- Any reply but that to `cancelCeremony` in `use-code`.
resume-asked :
    (t : Task) (r : Reply t) (p : Page) → is_release t ≡ false → Asks (asked p) (resume t r p)
unfolding resume on_email_release
resume-asked (await_options c mine) r p h = on_options-asked c mine (post_json r) p
resume-asked (await_mediation mine raw) r p h = on_mediation-asked mine raw r p
resume-asked (await_release c mine request current) r p h = on_release-asked c mine request p
resume-asked (await_credential c mine id) r p h = on_credential-asked c mine id r p
resume-asked (await_verdict c mine) r p h = on_verdict-asked c mine (post_json r) p
resume-asked (await_email_release value current) r p h = keeps refl
resume-asked await_start r p h = on_start-asked (post_json r) p
resume-asked (await_captcha_token i) r p h = on_captcha_token-asked i p
resume-asked await_captcha r p h = on_captcha-asked (post_json r) p
resume-asked await_otp r p h = on_otp-asked (post_json r) p
resume-asked await_password r p h = on_password-asked (post_json r) p
resume-asked (await_code_release current) r p h = absurd (ground arith)
resume-asked await_code r p h = on_code-asked (post_json r) p
resume-asked await_resend r p h = on_resend-asked (post_json r) p
resume-asked (await_back_release current) r p h = on_back_release-asked p
resume-asked await_enroll_options r p h = on_enroll_options-asked (post_json r) p
resume-asked await_created r p h = on_created-asked r p
resume-asked await_enrolled r p h = on_enrolled-asked (post_json r) p
resume-asked await_terms r p h = on_terms-asked (post_json r) p

released-total :
    (t : Task) (r : Reply t) (p : Page) → is_release t ≡ true → total (resume t r p) ≤ 1 + total p
unfolding resume on_code_release
released-total (await_code_release current) r p h = omega arith
released-total _ r p h = absurd (ground arith)

resume-total :
    (t : Task) (r : Reply t) (p : Page) → total (resume t r p) ≤ flag (is_release t) + total p
resume-total t r p = elim (Bool-cases (is_release t)) [
  | inl on ↦ omega (arith, released-total t r p on, ap flag on)
  | inr off ↦ omega (arith, Asks-total p (resume t r p) (resume-asked t r p off), ap flag off)
]

use_code-total : (p : Page) → total (use_code p) ≡ 1 + total p
unfolding use_code cancel_ceremony clear_alerts show_error show_success
use_code-total p =
    let q = set_loading true (next_attempt p) in
    omega (arith, Asks-total p q (set_loading-asked true (next_attempt p)))

resend-total : (p : Page) → total (resend p) ≡ 1 + total p
unfolding resend clear_alerts show_error show_success
resend-total p = omega (arith, Asks-total p (set_loading true p) (set_loading-asked true p))

act-total : (a : Action) (p : Page) → total (act a p) ≤ asks (clicks a p) + total p
unfolding act
act-total passkey p = omega (arith, Asks-total p (act passkey p) (passkey_action-asked p))
act-total use_code_instead p = omega (arith, use_code-total p)
act-total resend_code p = omega (arith, resend-total p)
act-total passkey_go_back p =
    omega (arith, Asks-total p (act passkey_go_back p) (passkey_back-asked p))
act-total try_again p = omega (arith, Asks-total p (act try_again p) (retry-asked p))
act-total go_back p = omega (arith, Asks-total p (act go_back p) (back-asked p))
act-total add_passkey p = omega (arith, Asks-total p (act add_passkey p) (offer_add-asked p))
act-total not_now p = omega (arith, Asks-total p (act not_now p) (offer_skip-asked p))
act-total accept_terms p = omega (arith, Asks-total p (act accept_terms p) (tos_accept-asked p))

if-total :
    (b : Bool) (p q : Page) (n : ℕ)
    → total q ≤ n + total p
    → total (if b then p else q) ≤ n + total p
if-total true p q n h = omega arith
if-total false p q n h = h

submit-asked : (f : Form) (p : Page) → Asks (asked p) (submit f p)
unfolding submit
submit-asked email_form p = on_email_submit-asked p
submit-asked otp_form p = on_otp_submit-asked p
submit-asked password_form p = on_password_submit-asked p

input-asked : (i : Input) (p : Page) → Asks (asked p) (input i p)
unfolding input email_error update_terms
input-asked (type_email t) p = keeps refl
input-asked (type_otp t) p = keeps refl
input-asked (type_password t) p = keeps refl
input-asked (tick b) p = keeps refl
input-asked (solve t) p = keeps refl

Move-total : {p q : Page} (m : Move p q) → total q ≤ asks m + total p
unfolding click cancel_ceremony
Move-total (clicks a p) = if-total (is_disabled a p) p (act a p) _ (act-total a p)
Move-total (submits f p) = omega (arith, Asks-total p (submit f p) (submit-asked f p))
Move-total (inputs i p) = omega (arith, Asks-total p (input i p) (input-asked i p))
Move-total (hides p) = omega arith
Move-total (settles p before after t r e) = omega (
  arith,
  resume-total t r (record p { tasks = before ++ after }),
  ap releases e,
  releases-middle before t after,
)
Move-total (rounds p found before after tries e) = omega arith

init-total : (s : Setting) (dismissed : Option Bool) → total (init s dismissed) ≡ 0
unfolding init
init-total s dismissed =
    let shown = show Step.email (blank s dismissed) in
    Asks-total (blank s dismissed) (set_loading false shown)
      (set_loading-asked false shown ⊙ show-asked Step.email (blank s dismissed))

Run-total : {s : Setting} {n : ℕ} {p : Page} → Run s n p → total p ≤ n
Run-total {s = s} (begins dismissed) = omega (arith, init-total s dismissed)
Run-total (goes_on n r m) = omega (arith, Run-total r, Move-total m)

-- No code is mailed unasked: the page has sent at most as many requests for a code, for the first
-- one in place of a passkey or for a new one, as the user has clicked on the two buttons for it,
-- however ceremonies fail and replies come in between.
pub mails_asked : {s : Setting} {n : ℕ} {p : Page} → Run s n p → mails p.posts ≤ n
mails_asked r = omega (arith, Run-total r)
