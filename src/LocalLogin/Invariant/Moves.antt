-- ===== src/LocalLogin/Invariant/Moves.antt =====
-- Every event keeps the invariant, so it holds of every reachable page.
use oxidt_kit.Kit.{
  ℕ, ◌+◌, ◌≤◌, ◌≡◌, refl, Bool, true, false, Option, none, some, List, [], ◌∷◌, ◌++◌, All,
  All-remove, Bool-cases, inl, inr, ap, subst, arith,
}
use oxidt_kit.LocalLogin.State.{
  Step, Setting, autofill, Task, await_options, await_mediation, await_release, await_credential,
  await_verdict, await_email_release, await_start, await_captcha_token, await_captcha, await_otp,
  await_password, await_code_release, await_code, await_resend, await_back_release,
  await_enroll_options, await_created, await_enrolled, await_terms, Reply, Page,
}
use oxidt_kit.LocalLogin.Ui.{
  show, update_terms, email_error, mount_captcha, arm_conditional, request_conditional,
}
use oxidt_kit.LocalLogin.Ceremony.{cancel_ceremony}
use oxidt_kit.LocalLogin.Run.{
  resume, Action, passkey, use_code_instead, resend_code, passkey_go_back, try_again, go_back,
  add_passkey, not_now, accept_terms, act, is_disabled, click, Form, email_form, otp_form,
  password_form, submit, Input, type_email, type_otp, type_password, tick, solve, input, init,
  blank, Move, clicks, submits, inputs, hides, settles, rounds, Reach, start, next,
}
use oxidt_kit.LocalLogin.Invariant.Defs.{
  autofill_task, autofills, mine_of, is_credential, credentials, Lock, Fresh, Shape, Held, Inv,
}
use oxidt_kit.LocalLogin.Invariant.Ui.{set_loading-Inv}
use oxidt_kit.LocalLogin.Invariant.Ceremonies.{
  if-Inv, on_options-Inv, on_mediation-Inv, on_release-Inv, on_credential-Inv, on_verdict-Inv,
  passkey_action-Inv,
}
use oxidt_kit.LocalLogin.Invariant.Forms.{
  on_captcha_token-Inv, on_captcha-Inv, on_email_submit-Inv, on_email_release-Inv, on_start-Inv,
  on_otp_submit-Inv, on_otp-Inv, on_password_submit-Inv, on_password-Inv,
}
use oxidt_kit.LocalLogin.Invariant.Buttons.{
  use_code-Inv, on_code_release-Inv, on_code-Inv, resend-Inv, on_resend-Inv, passkey_back-Inv,
  on_back_release-Inv, retry-Inv, back-Inv, offer_add-Inv, on_enroll_options-Inv, on_created-Inv,
  on_enrolled-Inv, offer_skip-Inv, tos_accept-Inv, on_terms-Inv,
}

uncounted :
    (t : Task) (o : Option ℕ) (ts : List Task)
    → ((id : ℕ) → is_credential id t ≡ 0)
    → Held o (t ∷ ts)
    → Held o ts
uncounted t none ts no_ids h = tt
uncounted t (some id) ts no_ids h = omega (arith, no_ids id)

-- A task that goes on has its share of the lock, and the slot may hold its ceremony.
module _ (n : ℕ) (p : Page) (fresh : Fresh p) (mirrors : Shape n p) where
  -- For a task that waits for no credential.
  resumed-Inv :
      (t : Task)
      → ((id : ℕ) → is_credential id t ≡ 0)
      → Lock (autofill_task t) p
      → Held p.ceremony (t ∷ p.tasks)
      → Inv n (autofill_task t) p
  resumed-Inv t no_ids lock held =
      (lock, fresh, mirrors, uncounted t p.ceremony p.tasks no_ids held)

  resume-Inv :
      (t : Task) (r : Reply t)
      → mine_of t ≤ p.attempt
      → Lock (autofill_task t) p
      → Held p.ceremony (t ∷ p.tasks)
      → Inv n 0 (resume t r p)
  unfolding resume
  resume-Inv (await_credential c mine id) r m l s =
      on_credential-Inv n c mine id r p m l fresh mirrors s
  resume-Inv (await_options c mine) r m l s =
      on_options-Inv n c mine _ p m (resumed-Inv (await_options c mine) (λ id. refl) l s)
  resume-Inv (await_mediation mine raw) r m l s =
      on_mediation-Inv n mine raw r p m (resumed-Inv (await_mediation mine raw) (λ id. refl) l s)
  resume-Inv (await_release c mine request current) r m l s =
      on_release-Inv n c mine request p m
        (resumed-Inv (await_release c mine request current) (λ id. refl) l s)
  resume-Inv (await_verdict c mine) r m l s =
      on_verdict-Inv n c mine _ p (resumed-Inv (await_verdict c mine) (λ id. refl) l s)
  resume-Inv (await_email_release value current) r m l s =
      on_email_release-Inv n value p
        (resumed-Inv (await_email_release value current) (λ id. refl) l s)
  resume-Inv await_start r m l s = on_start-Inv n _ p (resumed-Inv await_start (λ id. refl) l s)
  resume-Inv (await_captcha_token i) r m l s =
      on_captcha_token-Inv n i p (resumed-Inv (await_captcha_token i) (λ id. refl) l s)
  resume-Inv await_captcha r m l s =
      on_captcha-Inv n _ p (resumed-Inv await_captcha (λ id. refl) l s)
  resume-Inv await_otp r m l s = on_otp-Inv n _ p (resumed-Inv await_otp (λ id. refl) l s)
  resume-Inv await_password r m l s =
      on_password-Inv n _ p (resumed-Inv await_password (λ id. refl) l s)
  resume-Inv (await_code_release current) r m l s =
      on_code_release-Inv n p (resumed-Inv (await_code_release current) (λ id. refl) l s)
  resume-Inv await_code r m l s = on_code-Inv n _ p (resumed-Inv await_code (λ id. refl) l s)
  resume-Inv await_resend r m l s = on_resend-Inv n _ p (resumed-Inv await_resend (λ id. refl) l s)
  resume-Inv (await_back_release current) r m l s =
      on_back_release-Inv n p (resumed-Inv (await_back_release current) (λ id. refl) l s)
  resume-Inv await_enroll_options r m l s =
      on_enroll_options-Inv n _ p (resumed-Inv await_enroll_options (λ id. refl) l s)
  resume-Inv await_created r m l s =
      on_created-Inv n r p (resumed-Inv await_created (λ id. refl) l s)
  resume-Inv await_enrolled r m l s =
      on_enrolled-Inv n _ p (resumed-Inv await_enrolled (λ id. refl) l s)
  resume-Inv await_terms r m l s = on_terms-Inv n _ p (resumed-Inv await_terms (λ id. refl) l s)

autofills-middle :
    (before : List Task) (t : Task) (after : List Task)
    → autofills (before ++ t ∷ after) ≡ autofill_task t + autofills (before ++ after)
autofills-middle [] t after = refl
autofills-middle (b ∷ before) t after = omega (arith, autofills-middle before t after)

credentials-middle :
    (id : ℕ) (before : List Task) (t : Task) (after : List Task)
    → credentials id (before ++ t ∷ after) ≡ credentials id (t ∷ (before ++ after))
credentials-middle id [] t after = refl
credentials-middle id (b ∷ before) t after = omega (arith, credentials-middle id before t after)

Held-middle :
    (o : Option ℕ) (before : List Task) (t : Task) (after : List Task)
    → Held o (before ++ t ∷ after)
    → Held o (t ∷ (before ++ after))
Held-middle none before t after h = tt
Held-middle (some id) before t after h = omega (arith, credentials-middle id before t after)

settles-Inv :
    (n : ℕ) (p : Page) (before after : List Task) (t : Task) (r : Reply t)
    → p.tasks ≡ before ++ t ∷ after
    → Inv n 0 p
    → Inv n 0 (resume t r (record p { tasks = before ++ after }))
settles-Inv n p before after t r e (lock, fresh, mirrors, held) =
    let (mine, older) =
      All-remove _ before t after (subst (All (λ u. mine_of u ≤ p.attempt)) e fresh) in
    resume-Inv n (record p { tasks = before ++ after }) older mirrors t r mine
      (omega (arith, ap autofills e, autofills-middle before t after))
      (Held-middle p.ceremony before t after (subst (Held p.ceremony) e held))

act-Inv : (n : ℕ) (a : Action) (p : Page) → Inv n 0 p → Inv n 0 (act a p)
unfolding act
act-Inv n passkey p h = passkey_action-Inv n p h
act-Inv n use_code_instead p h = use_code-Inv n p h
act-Inv n resend_code p h = resend-Inv n p h
act-Inv n passkey_go_back p h = passkey_back-Inv n p h
act-Inv n try_again p h = retry-Inv n p h
act-Inv n go_back p h = back-Inv n p h
act-Inv n add_passkey p h = offer_add-Inv n p h
act-Inv n not_now p h = offer_skip-Inv n p h
act-Inv n accept_terms p h = tos_accept-Inv n p h

submit-Inv : (n : ℕ) (f : Form) (p : Page) → Inv n 0 p → Inv n 0 (submit f p)
unfolding submit
submit-Inv n email_form p h = on_email_submit-Inv n p h
submit-Inv n otp_form p h = on_otp_submit-Inv n p h
submit-Inv n password_form p h = on_password_submit-Inv n p h

input-Inv : (n : ℕ) (i : Input) (p : Page) → Inv n 0 p → Inv n 0 (input i p)
unfolding input email_error update_terms
input-Inv n (type_email t) p h = h
input-Inv n (type_otp t) p h = h
input-Inv n (type_password t) p h = h
input-Inv n (tick b) p h = (h.0, h.1, ((h.2.0.0, h.2.0.1, refl), h.2.1), h.3)
input-Inv n (solve t) p h = h

-- Every event keeps the invariant.
pub Move-Inv : (n : ℕ) {p q : Page} → Move p q → Inv n 0 p → Inv n 0 q
unfolding click cancel_ceremony
Move-Inv n (clicks a p) h = if-Inv n 0 (is_disabled a p) p (act a p) h (act-Inv n a p h)
Move-Inv n (submits f p) h = submit-Inv n f p h
Move-Inv n (inputs i p) h = input-Inv n i p h
Move-Inv n (hides p) h = h
Move-Inv n (settles p before after t r e) h = settles-Inv n p before after t r e h
Move-Inv n (rounds p found before after tries e) h = h

init-Inv : (s : Setting) (dismissed : Option Bool) → Inv 0 0 (init s dismissed)
unfolding init show mount_captcha arm_conditional request_conditional
init-Inv s dismissed = elim (Bool-cases s.has_captcha) [
  | inl with_captcha ↦
      rw with_captcha
        (set_loading-Inv 0 0 false (armed (0 ∷ [])) refl (omega arith) tt (omega arith))
  | inr without ↦
      rw without (set_loading-Inv 0 0 false (armed []) refl (omega arith) tt (omega arith))
]
  where
    armed : List ℕ → Page
    armed mounts =
        request_conditional (await_options autofill 0)
          (record (blank s dismissed) { step = Step.email; cond_running = true; mounts = mounts })

-- On every page that the events lead to: `condRunning` is set just when one `armConditional` is
-- suspended, and never more than one is; no suspended ceremony is of a later generation than the
-- page; the buttons, the spinner and the button that accepts the terms show what `loading` and the
-- checkbox say; and a ceremony in the slot is one that the browser has not settled yet.
pub Reach-Inv : {s : Setting} {p : Page} → Reach s p → Inv 0 0 p
Reach-Inv {s} (start dismissed) = init-Inv s dismissed
Reach-Inv (next r m) = Move-Inv 0 m (Reach-Inv r)
