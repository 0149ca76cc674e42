-- ===== src/LocalLogin/Progress/Ends.antt =====
-- A page that is loading gets back to the user, or leaves.
use oxidt_kit.Kit.{
  ℕ, zero, suc, ◌+◌, ◌<◌, ◌≡◌, refl, ap, inl, inr, Bool, true, false, Bool-cases, Option, none,
  List, [], ◌∷◌, ◌++◌, arith,
}
use oxidt_kit.Browser.Http.{post_json}
use oxidt_kit.LocalLogin.State.{
  Step, Setting, Task, await_options, await_mediation, await_release, await_credential,
  await_verdict, await_email_release, await_start, await_captcha_token, await_captcha, await_otp,
  await_password, await_code_release, await_code, await_resend, await_back_release,
  await_enroll_options, await_created, await_enrolled, await_terms, Reply, Page,
}
use oxidt_kit.LocalLogin.Ui.{show}
use oxidt_kit.LocalLogin.Ceremony.{cancel_ceremony}
use oxidt_kit.LocalLogin.Forms.{on_email_release}
use oxidt_kit.LocalLogin.Actions.{on_code_release}
use oxidt_kit.LocalLogin.Run.{
  resume, blank, init, Move, clicks, submits, inputs, hides, settles, rounds,
}
use oxidt_kit.LocalLogin.Progress.Gauge.{
  counted-add, is_busy, rank, flag, has_left, busies, gauge, IsServed, Turn, Goes, finished, waits,
  Lower, Turn-IsServed, Goes-IsServed, IsFinished-IsServed, off-IsFinished,
}
use oxidt_kit.LocalLogin.Progress.Ceremonies.{
  on_options-Turn, on_mediation-Turn, on_release-Turn, on_credential-Turn, on_verdict-Turn,
}
use oxidt_kit.LocalLogin.Progress.Handlers.{
  Answered, on_captcha_token-Goes, on_captcha-IsFinished, on_start-Goes, on_otp-IsFinished,
  on_password-IsFinished, on_code-IsFinished, on_resend-IsFinished, on_terms-IsFinished,
  on_back_release-Turn, on_enroll_options-Goes, on_created-Goes, on_enrolled-IsFinished,
}
use oxidt_kit.LocalLogin.Progress.Acts.{click-IsServed, submit-IsServed, input-IsServed}

-- A granted code or password leads somewhere.
abbrev pub Leading : (t : Task) → Reply t → Type 0
Leading await_otp r = Answered (post_json r)
Leading await_password r = Answered (post_json r)
Leading _ r = Unit

abbrev pub Replied : {p q : Page} → Move p q → Type 0
Replied (settles p before after t r e) = Leading t r
Replied _ = Unit

-- The pages that events lead to while the server keeps to `Leading`.
pub data Run (s : Setting) : Page → Type 0 where
  begins : (dismissed : Option Bool) → Run s (init s dismissed)
  goes_on : {p q : Page} → Run s p → (m : Move p q) → Replied m → Run s q

-- A task that does not end the loading.
idle-Turn : (t : Task) (r : Reply t) (p : Page) → is_busy t ≡ false → Turn (gauge p) (resume t r p)
unfolding resume
idle-Turn (await_options c mine) r p idle = on_options-Turn c mine (post_json r) p
idle-Turn (await_mediation mine raw) r p idle = on_mediation-Turn mine raw r p
idle-Turn (await_release c mine request current) r p idle = on_release-Turn c mine request p
idle-Turn (await_credential c mine id) r p idle = on_credential-Turn c mine id r p
idle-Turn (await_verdict c mine) r p idle = on_verdict-Turn c mine (post_json r) p
idle-Turn (await_back_release current) r p idle = on_back_release-Turn p
idle-Turn _ r p idle = absurd (ground arith)

-- One that does.
busy-Goes :
    (t : Task) (r : Reply t) (p : Page)
    → is_busy t ≡ true
    → Leading t r
    → Goes (Lower t) p.tasks (resume t r p)
unfolding resume on_email_release on_code_release
busy-Goes (await_email_release value current) r p busy h =
    waits await_start refl (refl, omega arith)
busy-Goes await_start r p busy h = on_start-Goes (post_json r) p
busy-Goes (await_captcha_token i) r p busy h = on_captcha_token-Goes i p
busy-Goes await_captcha r p busy h = finished (on_captcha-IsFinished (post_json r) p)
busy-Goes await_otp r p busy h = finished (on_otp-IsFinished (post_json r) p h)
busy-Goes await_password r p busy h = finished (on_password-IsFinished (post_json r) p h)
busy-Goes (await_code_release current) r p busy h = waits await_code refl (refl, omega arith)
busy-Goes await_code r p busy h = finished (on_code-IsFinished (post_json r) p)
busy-Goes await_resend r p busy h = finished (on_resend-IsFinished (post_json r) p)
busy-Goes await_enroll_options r p busy h = on_enroll_options-Goes (post_json r) p
busy-Goes await_created r p busy h = on_created-Goes r p
busy-Goes await_enrolled r p busy h = finished (on_enrolled-IsFinished (post_json r) p)
busy-Goes await_terms r p busy h = finished (on_terms-IsFinished (post_json r) p)
busy-Goes _ r p busy h = absurd (ground arith)

-- After at most `n` replies, each one to the task that the one before has left, the page is
-- finished, whatever happens to it between them.
abbrev pub Ends : ℕ → Task → Type 0
Ends zero t = ⊥
Ends (suc n) t = (p : Page) (r : Reply t) → Leading t r → Goes (Ends n) p.tasks (resume t r p)

Goes-map :
    {R T : Task → Type 0} {ts : List Task} {q : Page}
    → ((u : Task) → R u → T u)
    → Goes R ts q
    → Goes T ts q
Goes-map f (finished h) = finished h
Goes-map f (waits u e h) = waits u e (f u h)

busy-Ends : (n : ℕ) (t : Task) → is_busy t ≡ true → rank t < n → Ends n t
busy-Ends zero t busy lt = omega arith
busy-Ends (suc n) t busy lt = λ p r h.
    Goes-map (λ u k. let (b, less) = k in busy-Ends n u b (omega arith)) (busy-Goes t r p busy h)

rank-64 : (t : Task) → rank t < 64
rank-64 t = ground arith

busies-middle :
    (before : List Task) (t : Task) (after : List Task)
    → busies (before ++ t ∷ after) ≡ flag (is_busy t) + busies (before ++ after)
busies-middle [] t after = counted-add (is_busy t) (busies after)
busies-middle (b ∷ before) t after = omega (
  arith,
  busies-middle before t after,
  counted-add (is_busy b) (busies (before ++ t ∷ after)),
  counted-add (is_busy b) (busies (before ++ after)),
)

resume-IsServed :
    (p : Page) (before after : List Task) (t : Task) (r : Reply t)
    → p.tasks ≡ before ++ t ∷ after
    → Leading t r
    → IsServed (gauge p)
    → IsServed (gauge (resume t r (record p { tasks = before ++ after })))
resume-IsServed p before after t r e h served =
    let q = record p { tasks = before ++ after } in
    elim (Bool-cases (is_busy t)) [
      | inl on ↦ Goes-IsServed t (resume t r q) (busy-Goes t r q on h)
      | inr off ↦
          Turn-IsServed (resume t r q) (idle-Turn t r q off)
            (omega (arith, served, ap busies e, busies-middle before t after, ap flag off))
    ]

Move-IsServed : {p q : Page} (m : Move p q) → Replied m → IsServed (gauge p) → IsServed (gauge q)
unfolding cancel_ceremony
Move-IsServed (clicks a p) g h = click-IsServed a p h
Move-IsServed (submits f p) g h = submit-IsServed f p h
Move-IsServed (inputs i p) g h = input-IsServed i p h
Move-IsServed (hides p) g h = h
Move-IsServed (settles p before after t r e) g h = resume-IsServed p before after t r e g h
Move-IsServed (rounds p found before after tries e) g h = h

Run-IsServed : {s : Setting} {p : Page} → Run s p → IsServed (gauge p)
unfolding init
Run-IsServed {s = s} (begins dismissed) =
    IsFinished-IsServed _ (off-IsFinished (show Step.email (blank s dismissed)))
Run-IsServed (goes_on h m replied) = Move-IsServed m replied (Run-IsServed h)

-- A task of the page whose replies bring it to an end.
pub data Awaits (p : Page) : Type 0 where
  awaits :
      (before after : List Task) (t : Task) → p.tasks ≡ before ++ t ∷ after → Ends 64 t → Awaits p

data Busy : List Task → Type 0 where
  busy : (before after : List Task) (t : Task) → is_busy t ≡ true → Busy (before ++ t ∷ after)

Busy-cons : (t : Task) (ts : List Task) → Busy ts → Busy (t ∷ ts)
Busy-cons t ts (busy before after u e) = busy (t ∷ before) after u e

busies-Busy : (ts : List Task) → 0 < busies ts → Busy ts
busies-Busy [] lt = absurd (omega arith)
busies-Busy (t ∷ ts) lt = elim (Bool-cases (is_busy t)) [
  | inl on ↦ busy [] ts t on
  | inr off ↦
      Busy-cons t ts
        (busies-Busy ts (omega (arith, lt, ap flag off, counted-add (is_busy t) (busies ts))))
]

Busy-Awaits : (p : Page) {ts : List Task} → p.tasks ≡ ts → Busy ts → Awaits p
Busy-Awaits p e (busy before after t b) = awaits before after t e (busy-Ends 64 t b (rank-64 t))

-- While every granted code and password names a URL to go to or asks for the terms, a page that is
-- loading and has not left waits for a reply that brings it on: one of its pending tasks ends, after
-- that task's reply and at most 63 more, each one to the task that the reply before it has put in
-- place, with a page whose controls are enabled again or which has left, whatever else happens
-- meanwhile.
pub Run-Awaits :
    (s : Setting) {p : Page} → Run s p → p.loading ≡ true → p.location ≡ none → Awaits p
Run-Awaits s {p} h on here =
    let served = Run-IsServed h in
    Busy-Awaits p refl (busies-Busy p.tasks (omega (arith, served, ap flag on, ap has_left here)))
