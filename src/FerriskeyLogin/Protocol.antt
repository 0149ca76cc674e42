-- ===== src/FerriskeyLogin/Protocol.antt =====
-- What the FerrisKey login page promises, without what it shows: a page that is busy or not, with
-- the requests it waits for, the running ceremony, and where it has left for.
pub mod Invariant
pub mod Attempt
pub mod Progress
pub mod Redirect
use oxidt_kit.Kit.{
  ℕ, suc, ◌-◌, ◌<◌, ◌≡◌, ◌≢◌, Bool, true, false, not, ◌||◌, ◌&&◌, String, nonempty_string, Option,
  none, some, List, ◌∷◌, ◌++◌, if◌then◌else◌,
}
use oxidt_kit.Browser.Http.{Response, Outcome, ok, thrown, truthy, is_true, post_json}
use oxidt_kit.Browser.Webauthn.{Credential}
use oxidt_kit.LocalLogin.State.{given}
use oxidt_kit.LocalLogin.Ceremony.{release_slot}
use oxidt_kit.FerriskeyLogin.State.{
  Task, await_credential, await_verdict, await_start, await_captcha_token, await_captcha, await_otp,
  await_password, await_resend, await_terms, Reply, Page,
}

pub record View : Type 0 where
  pub loading : Bool
  pub buttons_disabled : Bool
  pub spinner_hidden : Bool
  pub terms_disabled : Bool
  pub terms_checked : Bool
  pub attempt : ℕ
  pub slot : Option ℕ
  pub tasks : List Task
  pub location : Option String

abbrev pub view : Page → View
view p = record {
  loading = p.loading;
  buttons_disabled = p.buttons_disabled;
  spinner_hidden = p.spinner_hidden;
  terms_disabled = p.terms_disabled;
  terms_checked = p.terms_checked;
  attempt = p.attempt;
  slot = p.ceremony;
  tasks = p.tasks;
  location = p.location;
}

-- The controls, all at once.
abbrev pub loaded : Bool → View → View
loaded on v = record v {
  loading = on;
  buttons_disabled = on;
  spinner_hidden = not on;
  terms_disabled = on || not v.terms_checked;
}

abbrev pub asking : Task → View → View
asking t v = record v { tasks = t ∷ v.tasks }

abbrev pub released : ℕ → View → View
released id v = record v { slot = release_slot id v.slot }

abbrev pub next_attempt : View → View
next_attempt v = record v { attempt = suc v.attempt }

-- What a reply to a sign-in comes to. `nowhere` is a success with no URL to go to.
pub data Verdict : Type 0 where
  refused terms nowhere : Verdict
  to : String → Verdict

abbrev pub destination : Option String → Verdict
destination none = nowhere
destination (some url) = if nonempty_string url then to url else nowhere

abbrev pub verdict : Outcome Response → Verdict
verdict (thrown msg) = refused
verdict (ok resp) =
    if truthy resp.success
    then if is_true resp.needs_tos_acceptance then terms else destination resp.redirect_url
    else refused

-- A sign-in that is refused, or that waits for the terms, gives the page back.
abbrev pub stays : Verdict → Bool
stays refused = true
stays terms = true
stays _ = false

-- The requests that decide on a sign-in; of the others every reply is a refusal.
abbrev pub sign_in : (t : Task) → Reply t → Verdict
sign_in (await_verdict mine) r = verdict (post_json r)
sign_in await_otp r = verdict (post_json r)
sign_in await_password r = verdict (post_json r)
sign_in await_terms r = verdict (post_json r)
sign_in _ r = refused

-- The tasks that the controls are disabled for.
abbrev pub is_busy : Task → Bool
is_busy (await_credential mine id) = false
is_busy (await_verdict mine) = false
is_busy _ = true

-- The tasks that wait for a reply of the server, or for the captcha.
abbrev pub is_fetch : Task → Bool
is_fetch (await_credential mine id) = false
is_fetch _ = true

-- The replies after which the controls may be enabled: those that do not grant a sign-in.
abbrev pub gives_back : (t : Task) → Reply t → Bool
gives_back t r = is_fetch t && stays (sign_in t r)

-- How many replies a busy task is from its end, at most.
abbrev pub rank : Task → ℕ
rank await_start = 63
rank (await_captcha_token i) = suc (60 - i)
rank _ = 0

-- What the reply to a task does to the page, the task taken out.
pub data Answer : (t : Task) → Reply t → View → View → Type 0 where
  fails :
      (mine id : ℕ) (r : Reply (await_credential mine id)) (v : View)
      → Answer (await_credential mine id) r v (released id v)
  proves :
      (mine id : ℕ) (c : Credential (List ℕ)) (v : View)
      → mine ≡ v.attempt
      → Answer (await_credential mine id) (given c) v (asking (await_verdict mine) (released id v))
  ignores :
      (mine : ℕ) (r : Reply (await_verdict mine)) (v : View)
      → mine ≢ v.attempt
      → Answer (await_verdict mine) r v v
  frees :
      (t : Task) (r : Reply t) (v : View) → gives_back t r ≡ true → Answer t r v (loaded false v)
  stalls : (t : Task) (r : Reply t) (v : View) → sign_in t r ≡ nowhere → Answer t r v v
  leaves :
      (t : Task) (r : Reply t) (v : View) (url : String)
      → sign_in t r ≡ to url
      → Answer t r v (record v { location = some url })
  asks :
      (t u : Task) (r : Reply t) (v : View)
      → is_busy u ≡ true
      → rank u < rank t
      → Answer t r v (asking u v)
  starts :
      (r : Reply await_start) (v : View) (id : ℕ)
      → Answer await_start r v
          (record (asking (await_credential (suc v.attempt) id) (next_attempt (loaded false v))) {
            slot = some id;
          })
  starts_not :
      (r : Reply await_start) (v : View) → Answer await_start r v (next_attempt (loaded false v))

-- What the user does to it.
pub data Act : View → View → Type 0 where
  nothing : (v : View) → Act v v
  submits : (t : Task) (v : View) → is_busy t ≡ true → Act v (asking t (loaded true v))
  gives_up : (v : View) → Act v (loaded false (next_attempt v))
  checks :
      (b : Bool) (v : View)
      → Act v (record v { terms_checked = b; terms_disabled = v.loading || not b })

-- The replies are those that `Q` allows.
pub data Step (Q : (t : Task) → Reply t → Type 0) : View → View → Type 0 where
  acts : {v w : View} → Act v w → Step Q v w
  answers :
      (v w : View) (before after : List Task) (t : Task) (r : Reply t)
      → v.tasks ≡ before ++ t ∷ after
      → Q t r
      → Answer t r (record v { tasks = before ++ after }) w
      → Step Q v w
