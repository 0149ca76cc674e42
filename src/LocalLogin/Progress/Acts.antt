-- ===== src/LocalLogin/Progress/Acts.antt =====
-- What the user does to the gauge: a function that disables the controls leaves a task that ends it.
use oxidt_kit.Kit.{
  ◌≡◌, refl, not, Bool, true, false, nonempty, trim, none, List, ◌∷◌, if◌then◌else◌,
}
use oxidt_kit.LocalLogin.State.{
  Step, Task, await_email_release, await_code_release, await_enroll_options, await_terms,
  await_resend, await_otp, await_password, Page,
}
use oxidt_kit.LocalLogin.Ui.{update_terms, show_error, show_success, clear_alerts, email_error}
use oxidt_kit.LocalLogin.Ceremony.{cancel_ceremony}
use oxidt_kit.LocalLogin.Forms.{
  email_value, is_address, on_email_submit, on_otp_submit, on_password_submit,
}
use oxidt_kit.LocalLogin.Flow.{dismiss_prompt}
use oxidt_kit.LocalLogin.Actions.{
  use_code, resend, passkey_back, retry, back, offer_add, offer_skip, tos_accept,
}
use oxidt_kit.LocalLogin.Run.{
  Action, passkey, use_code_instead, resend_code, passkey_go_back, try_again, go_back, add_passkey,
  not_now, accept_terms, act, is_disabled, click, Form, email_form, otp_form, password_form, submit,
  Input, type_email, type_otp, type_password, tick, solve, input,
}
use oxidt_kit.LocalLogin.Progress.Gauge.{
  Gauge, is_busy, gauge, IsServed, Turn, keeps, finishes, show-gauge, Turn-along, Turn-IsServed,
  waits-IsServed,
}
use oxidt_kit.LocalLogin.Progress.Ceremonies.{
  trigger_passkey-Turn, passkey_action-gauge, finish-IsFinished,
}

back-gauge : (p : Page) → gauge (back p) ≡ gauge p
unfolding back email_error clear_alerts show_error show_success
back-gauge p = show-gauge Step.email _

passkey_back-gauge : (p : Page) → gauge (passkey_back p) ≡ gauge p
unfolding passkey_back clear_alerts show_error show_success cancel_ceremony
passkey_back-gauge p = refl

retry-Turn : (p : Page) → Turn (gauge p) (retry p)
unfolding retry show_error
retry-Turn p = Turn-along (show-gauge Step.passkey _) (trigger_passkey-Turn _)

offer_skip-Turn : (p : Page) → Turn (gauge p) (offer_skip p)
unfolding offer_skip
offer_skip-Turn p = finishes (finish-IsFinished _ (show_error none (dismiss_prompt p)))

-- What an action does: a turn, or a busy task is pending.
data Effect (g : Gauge) (q : Page) : Type 0 where
  turns : Turn g q → Effect g q
  asks : {ts : List Task} (u : Task) → is_busy u ≡ true → q.tasks ≡ u ∷ ts → Effect g q

Effect-IsServed : {g : Gauge} (q : Page) → Effect g q → IsServed g → IsServed (gauge q)
Effect-IsServed q (turns t) h = Turn-IsServed q t h
Effect-IsServed q (asks u b e) h = waits-IsServed u q b e

if-Effect :
    (b : Bool) (x y : Page) {g : Gauge} → Effect g x → Effect g y → Effect g (if b then x else y)
if-Effect true x y h k = h
if-Effect false x y h k = k

act-Effect : (a : Action) (p : Page) → Effect (gauge p) (act a p)
unfolding act use_code resend offer_add tos_accept
act-Effect passkey p = turns (keeps (passkey_action-gauge p))
act-Effect use_code_instead p = asks (await_code_release _) refl refl
act-Effect resend_code p = asks await_resend refl refl
act-Effect passkey_go_back p = turns (keeps (passkey_back-gauge p))
act-Effect try_again p = turns (retry-Turn p)
act-Effect go_back p = turns (keeps (back-gauge p))
act-Effect add_passkey p = asks await_enroll_options refl refl
act-Effect not_now p = turns (offer_skip-Turn p)
act-Effect accept_terms p = asks await_terms refl refl

submit-Effect : (f : Form) (p : Page) → Effect (gauge p) (submit f p)
unfolding submit on_email_submit on_otp_submit on_password_submit email_error show_error
    show_success
submit-Effect email_form p =
    if-Effect (not (is_address (email_value p))) _ _ (turns (keeps refl))
      (asks (await_email_release _ _) refl refl)
submit-Effect otp_form p =
    if-Effect (nonempty (trim p.otp_field)) _ _ (asks await_otp refl refl) (turns (keeps refl))
submit-Effect password_form p =
    if-Effect (nonempty p.password_field) _ _ (asks await_password refl refl) (turns (keeps refl))

pub click-IsServed : (a : Action) (p : Page) → IsServed (gauge p) → IsServed (gauge (click a p))
unfolding click
click-IsServed a p =
    Effect-IsServed (click a p)
      (if-Effect (is_disabled a p) p (act a p) (turns (keeps refl)) (act-Effect a p))

pub submit-IsServed : (f : Form) (p : Page) → IsServed (gauge p) → IsServed (gauge (submit f p))
submit-IsServed f p = Effect-IsServed (submit f p) (submit-Effect f p)

pub input-IsServed : (i : Input) (p : Page) → IsServed (gauge p) → IsServed (gauge (input i p))
unfolding input email_error update_terms
input-IsServed (type_email t) p h = h
input-IsServed (type_otp t) p h = h
input-IsServed (type_password t) p h = h
input-IsServed (tick b) p h = h
input-IsServed (solve t) p h = h
