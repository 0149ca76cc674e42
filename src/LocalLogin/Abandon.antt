-- ===== src/LocalLogin/Abandon.antt =====
-- Leaving a flow ends its ceremonies for good. And a place where a wait is not
-- followed by the check of the generation.
use oxidt_kit.Kit.{
  refl, ◌∙◌, ap, sym, if◌then◌else◌, ℕ, suc, ◌≤◌, ◌<◌, ◌≡◌, true, false, subst, Option, some, List,
  ◌∷◌, ◌++◌, All, All-remove, arith,
}
use oxidt_kit.LocalLogin.State.{Step, Setting, Released, Task, await_back_release, Reply, Page}
use oxidt_kit.LocalLogin.Ui.{
  show, set_loading, set_controls, arm_conditional, mount_captcha, request_conditional,
  clear_alerts, show_error, show_success, email_error, offer_code,
}
use oxidt_kit.LocalLogin.Ceremony.{passkey_action}
use oxidt_kit.LocalLogin.Forms.{email_value, is_address, on_email_submit}
use oxidt_kit.LocalLogin.Actions.{use_code, passkey_back, on_back_release}
use oxidt_kit.LocalLogin.Run.{
  resume, passkey, use_code_instead, passkey_go_back, act, click, email_form, submit, Move, clicks,
  submits, Reach,
}
use oxidt_kit.LocalLogin.Stale.{generation, rest_of, resume_stale}
use oxidt_kit.LocalLogin.Invariant.Defs.{mine_of, Inv}
use oxidt_kit.LocalLogin.Ceremony.{cancel_ceremony}
use oxidt_kit.LocalLogin.Invariant.Moves.{Move-Inv, Reach-Inv}

-- The user's ways out of a ceremony: the passkey button, "Use email code instead", "Back", and an
-- address that is submitted.
pub data Abandons (p : Page) : Page → Type 0 where
  starts_passkey : p.buttons_disabled ≡ false → Abandons p (click passkey p)
  wants_code : p.buttons_disabled ≡ false → Abandons p (click use_code_instead p)
  goes_back : p.buttons_disabled ≡ false → Abandons p (click passkey_go_back p)
  submits_email : is_address (email_value p) ≡ true → Abandons p (submit email_form p)

pub data Later (p : Page) : Page → Type 0 where
  now : Later p p
  later : {q r : Page} → Later p q → Move q r → Later p r

Abandons-Move : {p q : Page} → Abandons p q → Move p q
Abandons-Move (starts_passkey e) = clicks passkey _
Abandons-Move (wants_code e) = clicks use_code_instead _
Abandons-Move (goes_back e) = clicks passkey_go_back _
Abandons-Move (submits_email e) = submits email_form _

Abandons-lt : {p q : Page} → Abandons p q → p.attempt < q.attempt
unfolding click act submit passkey_action use_code passkey_back on_email_submit set_loading
    set_controls show clear_alerts show_error show_success email_error offer_code
    request_conditional
Abandons-lt (starts_passkey e) = rw e (omega arith)
Abandons-lt (wants_code e) = rw e (omega arith)
Abandons-lt (goes_back e) = rw e (omega arith)
Abandons-lt (submits_email e) = rw e (omega arith)

Later-Inv : (n : ℕ) {p q : Page} → Inv n 0 p → Later p q → Inv n 0 q
Later-Inv n h now = h
Later-Inv n h (later l m) = Move-Inv n m (Later-Inv n h l)

mine-of-generation : (t : Task) (mine : ℕ) → generation t ≡ some mine → mine_of t ≡ mine
mine-of-generation t mine e = ground arith

-- Once the user has left a flow on a page that events led to, whatever happens afterwards and in
-- whatever order, a ceremony that was suspended at that time no longer changes the page when it goes
-- on, sends a request or waits again: only the ceremony slot and the autofill's lock may change.
-- This is said of a ceremony that waits for its options, for the release of another one, for the
-- credential or for the server's verdict, not for `isConditionalMediationAvailable`.
pub resume_abandoned :
    {s : Setting} {p q r : Page} (t : Task) (before after : List Task) (mine : ℕ) (reply : Reply t)
    → Reach s p
    → p.tasks ≡ before ++ t ∷ after
    → generation t ≡ some mine
    → Abandons p q
    → Later q r
    → rest_of (resume t reply r) ≡ rest_of r
resume_abandoned {p = p} {q = q} {r = r} t before after mine reply reach e g left since =
    resume_stale t reply r mine g
      (λ same. absurd (omega (arith, ends_later, mine_le, mine-of-generation t mine g)))
  where
    at_q : Inv 0 0 q
    at_q = Move-Inv 0 (Abandons-Move left) (Reach-Inv reach)

    ends_later : p.attempt < r.attempt
    ends_later =
        (Later-Inv (suc p.attempt) (at_q.0, at_q.1, (at_q.2.0, Abandons-lt left), at_q.3) since).2.1

    mine_le : mine_of t ≤ p.attempt
    mine_le =
        (All-remove _ before t after
          (subst (All (λ u. mine_of u ≤ p.attempt)) e (Reach-Inv reach).1)).0

on_back_release_idle :
    (q : Page)
    → ((on_back_release q).attempt ≡ q.attempt)
      × ((on_back_release q).step ≡ Step.email)
      × ((on_back_release q).loading ≡ false)
      × ((on_back_release q).buttons_disabled ≡ false)
unfolding on_back_release show set_loading set_controls arm_conditional mount_captcha
    request_conditional
on_back_release_idle q = ground arith

passkey_back_enabled : (p : Page) → (passkey_back p).buttons_disabled ≡ p.buttons_disabled
unfolding passkey_back cancel_ceremony clear_alerts show_error show_success
passkey_back_enabled p = refl

use_code_busy : (p : Page) → ((use_code p).loading ≡ true) × ((use_code p).buttons_disabled ≡ true)
unfolding use_code cancel_ceremony clear_alerts show_error show_success set_loading set_controls
use_code_busy p = (refl, refl)

two_clicks :
    (p : Page)
    → p.buttons_disabled ≡ false
    → click use_code_instead (click passkey_go_back p) ≡ use_code (passkey_back p)
unfolding click act
two_clicks p e =
    let q = passkey_back p in
    ap (click use_code_instead) (subst (λ b. (if b then p else q) ≡ q) (sym e) refl)
    ∙ subst (λ b. (if b then q else use_code q) ≡ use_code q) (sym (passkey_back_enabled p ∙ e))
        refl

-- While "Back" waits for the ceremony's release the buttons stay enabled, and "Use email code
-- instead" starts a flow that disables them. When the release comes, `passkey-back` goes to the
-- email step and enables them all the same, in the middle of that flow.
pub back_release_unguarded :
    (current : Option ℕ) (reply : Released) (p : Page)
    → p.buttons_disabled ≡ false
    → let q = click use_code_instead (click passkey_go_back p) in
      let r = resume (await_back_release current) reply q in
      (q.loading ≡ true)
      × (q.buttons_disabled ≡ true)
      × (r.attempt ≡ q.attempt)
      × (r.step ≡ Step.email)
      × (r.loading ≡ false)
      × (r.buttons_disabled ≡ false)
unfolding resume
back_release_unguarded current reply p e =
    let q = use_code (passkey_back p) in
    let (same, on_email, idle, enabled) = on_back_release_idle q in
    let (busy, off) = use_code_busy (passkey_back p) in
    rw (two_clicks p e) (busy, off, same, on_email, idle, enabled)
