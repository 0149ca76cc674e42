-- ===== src/LocalLogin/Progress/Gauge.antt =====
-- The tasks that end the loading of a page, and what leaves them, the loading and the location alone.
use oxidt_kit.Kit.{
  ℕ, suc, ◌+◌, ◌-◌, ◌≤◌, ◌<◌, ◌≡◌, refl, ◌∙◌, sym, ap, subst, Bool, true, false, String, Option,
  none, some, List, [], ◌∷◌, if◌then◌else◌, arith,
}
use oxidt_kit.LocalLogin.State.{
  Step, Task, autofill, await_options, await_email_release, await_start, await_captcha_token,
  await_captcha, await_otp, await_password, await_code_release, await_code, await_resend,
  await_enroll_options, await_created, await_enrolled, await_terms, Page,
}
use oxidt_kit.LocalLogin.Ui.{
  show, set_loading, set_controls, update_terms, arm_conditional, mount_captcha,
  request_conditional, is_email,
}

-- The waits of the functions that have disabled the controls.
abbrev pub is_busy : Task → Bool
is_busy (await_email_release value current) = true
is_busy await_start = true
is_busy (await_captcha_token i) = true
is_busy await_captcha = true
is_busy await_otp = true
is_busy await_password = true
is_busy (await_code_release current) = true
is_busy await_code = true
is_busy await_resend = true
is_busy await_enroll_options = true
is_busy await_created = true
is_busy await_enrolled = true
is_busy await_terms = true
is_busy _ = false

-- How many waits may still follow: the captcha loop makes sixty rounds.
abbrev pub rank : Task → ℕ
rank (await_email_release value current) = 63
rank await_start = 62
rank (await_captcha_token i) = suc (60 - i)
rank (await_code_release current) = 1
rank await_enroll_options = 2
rank await_created = 1
rank _ = 0

abbrev pub flag : Bool → ℕ
flag true = 1
flag false = 0

abbrev pub has_left : Option String → ℕ
has_left none = 0
has_left (some url) = 1

abbrev pub counted : Bool → ℕ → ℕ
counted true n = suc n
counted false n = n

pub counted-add : (b : Bool) (n : ℕ) → counted b n ≡ flag b + n
counted-add true n = omega arith
counted-add false n = omega arith

abbrev pub busies : List Task → ℕ
busies [] = 0
busies (t ∷ ts) = counted (is_busy t) (busies ts)

abbrev pub Gauge : Type 0
Gauge = Bool × Option String × ℕ

abbrev pub gauge : Page → Gauge
gauge p = (p.loading, p.location, busies p.tasks)

-- A page that is loading has left, or waits for a task that ends the loading.
abbrev pub IsServed : Gauge → Type 0
IsServed g = flag g.0 ≤ has_left g.1 + g.2

-- The user can go on, or the page has left.
pub data IsFinished (p : Page) : Type 0 where
  free : p.loading ≡ false → IsFinished p
  left : (url : String) → p.location ≡ some url → IsFinished p

-- An operation leaves the gauge alone, or finishes.
pub data Turn (g : Gauge) (q : Page) : Type 0 where
  keeps : gauge q ≡ g → Turn g q
  finishes : IsFinished q → Turn g q

-- The reply to `t` finishes, or puts one task of a lower rank in its place.
pub data Goes (R : Task → Type 0) (ts : List Task) (q : Page) : Type 0 where
  finished : IsFinished q → Goes R ts q
  waits : (u : Task) → q.tasks ≡ u ∷ ts → R u → Goes R ts q

abbrev pub Lower : Task → Task → Type 0
Lower t u = (is_busy u ≡ true) × (rank u < rank t)

pub if-gauge :
    (b : Bool) (x y : Page) {g : Gauge} → gauge x ≡ g → gauge y ≡ g → gauge (if b then x else y) ≡ g
if-gauge true x y h k = h
if-gauge false x y h k = k

pub if-Turn :
    (b : Bool) (x y : Page) {g : Gauge} → Turn g x → Turn g y → Turn g (if b then x else y)
if-Turn true x y h k = h
if-Turn false x y h k = k

pub if-IsFinished :
    (b : Bool) (x y : Page) → IsFinished x → IsFinished y → IsFinished (if b then x else y)
if-IsFinished true x y h k = h
if-IsFinished false x y h k = k

pub if-Goes :
    {R : Task → Type 0} {ts : List Task} (b : Bool) (x y : Page)
    → (b ≡ true → Goes R ts x)
    → Goes R ts y
    → Goes R ts (if b then x else y)
if-Goes true x y h k = h refl
if-Goes false x y h k = k

arm-gauge : (p : Page) → gauge (arm_conditional p) ≡ gauge p
unfolding arm_conditional request_conditional
arm-gauge p =
    if-gauge _ p
      (request_conditional (await_options autofill p.attempt) (record p { cond_running = true }))
      refl refl

mount-gauge : (p : Page) → gauge (mount_captcha p) ≡ gauge p
unfolding mount_captcha
mount-gauge p = if-gauge p.setting.has_captcha _ p refl refl

pub show-gauge : (name : Step) (p : Page) → gauge (show name p) ≡ gauge p
unfolding show
show-gauge name p = if-gauge (is_email name) _ _ (arm-gauge _ ∙ mount-gauge _) refl

pub set_loading-gauge :
    (on : Bool) (p : Page) → gauge (set_loading on p) ≡ (on, p.location, busies p.tasks)
unfolding set_loading set_controls update_terms
set_loading-gauge on p = if-gauge _ _ _ (arm-gauge _) refl

pub off-IsFinished : (p : Page) → IsFinished (set_loading false p)
off-IsFinished p = free (ap (λ g. g.0) (set_loading-gauge false p))

pub shown-IsFinished : (name : Step) (p : Page) → IsFinished p → IsFinished (show name p)
shown-IsFinished name p (free e) = free (ap (λ g. g.0) (show-gauge name p) ∙ e)
shown-IsFinished name p (left url e) = left url (ap (λ g. g.1) (show-gauge name p) ∙ e)

pub Turn-along : {g h : Gauge} {q : Page} → g ≡ h → Turn g q → Turn h q
Turn-along e (keeps k) = keeps (k ∙ e)
Turn-along e (finishes h) = finishes h

pub Turn-off : {g : Gauge} {q : Page} → g.0 ≡ false → Turn g q → IsFinished q
Turn-off e (keeps k) = free (ap (λ g. g.0) k ∙ e)
Turn-off e (finishes h) = h

pub IsFinished-IsServed : (q : Page) → IsFinished q → IsServed (gauge q)
IsFinished-IsServed q (free e) = omega (arith, ap flag e)
IsFinished-IsServed q (left url e) = ground (arith, ap has_left e)

pub Turn-IsServed : {g : Gauge} (q : Page) → Turn g q → IsServed g → IsServed (gauge q)
Turn-IsServed q (keeps k) h = subst IsServed (sym k) h
Turn-IsServed q (finishes f) h = IsFinished-IsServed q f

flag-le : (b : Bool) → flag b ≤ 1
flag-le true = omega arith
flag-le false = omega arith

pub waits-IsServed :
    {ts : List Task} (u : Task) (q : Page)
    → is_busy u ≡ true
    → q.tasks ≡ u ∷ ts
    → IsServed (gauge q)
waits-IsServed {ts} u q b e =
    omega (arith, flag-le q.loading, ap busies e, ap (λ c. counted c (busies ts)) b)

pub Goes-IsServed :
    (t : Task) {ts : List Task} (q : Page) → Goes (Lower t) ts q → IsServed (gauge q)
Goes-IsServed t q (finished f) = IsFinished-IsServed q f
Goes-IsServed t q (waits u e (b, lt)) = waits-IsServed u q b e
