-- ===== src/FerriskeyLogin/Reached/Abandon.antt =====
-- "Back" ends the running ceremony for good.
use Prim.Native.String
use oxidt_kit.Kit.{
  ℕ, suc, ◌≤◌, ◌<◌, ◌≡◌, refl, ap, ◌∙◌, subst, true, false, Option, none, some, List, ◌∷◌, ◌++◌,
  All, All-remove, arith, if◌then◌else◌, String,
}
use oxidt_kit.Browser.Http.{post_json, Response, Outcome, ok, thrown}
use oxidt_kit.LocalLogin.State.{given, abort_error, not_allowed_error, other_error}
use oxidt_kit.FerriskeyLogin.State.{
  Step, Setting, Task, await_credential, await_verdict, Reply, Page,
}
use oxidt_kit.FerriskeyLogin.Ui.{set_loading, clear_alerts, show_error, show_success}
use oxidt_kit.FerriskeyLogin.Ceremony.{
  stale, cancel_ceremony, ceremony_failed, release, on_assertion, on_credential, on_verdict,
}
use oxidt_kit.FerriskeyLogin.Run.{
  submits, inputs, hides, settles, rounds, back, resume, act, click, go_back, AnyReply, Move,
  clicks, Replied, Reach,
}
use oxidt_kit.FerriskeyLogin.Protocol.{View}
use oxidt_kit.FerriskeyLogin.Protocol.Invariant.{mine_of}
use oxidt_kit.FerriskeyLogin.Protocol.Attempt.{Step-attempt}
use oxidt_kit.FerriskeyLogin.Refines.Views.{show-view}
use oxidt_kit.FerriskeyLogin.Refines.Moves.{Move-Step}
use oxidt_kit.FerriskeyLogin.Reached.Sound.{Reach-IsSound}

pub data Later (p : Page) : Page → Type 0 where
  now : Later p p
  later : {q r : Page} → Later p q → Move q r → Later p r

-- The generation of a ceremony, at each of its waits.
abbrev pub generation : Task → Option ℕ
generation (await_credential mine id) = some mine
generation (await_verdict mine) = some mine
generation _ = none

-- All of the page but the slot of the running ceremony.
abbrev pub rest_of : Page → Page
rest_of p = record p { ceremony = none }

any-Replied : {p q : Page} (m : Move p q) → Replied AnyReply m
any-Replied (clicks a p) = tt
any-Replied (submits f p) = tt
any-Replied (inputs i p) = tt
any-Replied (hides p) = tt
any-Replied (settles p before after t r e) = tt
any-Replied (rounds p found before after tries e) = tt

Move-attempt : {p q : Page} → Move p q → p.attempt ≤ q.attempt
Move-attempt m = Step-attempt AnyReply (Move-Step AnyReply m (any-Replied m))

Later-attempt : {p q : Page} → Later p q → p.attempt ≤ q.attempt
Later-attempt now = omega arith
Later-attempt (later l m) = omega (arith, Later-attempt l, Move-attempt m)

back-attempt : (p : Page) → (back p).attempt ≡ suc p.attempt
unfolding back clear_alerts show_error show_success cancel_ceremony set_loading
back-attempt p = ap (λ (v : View). v.attempt) (show-view Step.email _)

go_back-attempt :
    (p : Page) → p.buttons_disabled ≡ false → (click go_back p).attempt ≡ suc p.attempt
unfolding click act
go_back-attempt p e = ap (λ b. (if b then p else back p).attempt) e ∙ back-attempt p

stale-lt : (mine : ℕ) (p : Page) → mine < p.attempt → stale mine p ≡ true
stale-lt mine p lt = ground arith

failed_stale :
    (mine id : ℕ) (msg : String) (p : Page)
    → stale mine p ≡ true
    → rest_of (ceremony_failed mine msg (release id p)) ≡ rest_of p
unfolding ceremony_failed release
failed_stale mine id msg p h = rw h refl

on_credential-stale :
    (mine id : ℕ) (r : Reply (await_credential mine id)) (p : Page)
    → stale mine p ≡ true
    → rest_of (on_credential mine id r p) ≡ rest_of p
unfolding on_credential on_assertion release
on_credential-stale mine id (given c) p h = rw h refl
on_credential-stale mine id abort_error p h = failed_stale mine id "ceremony-aborted" p h
on_credential-stale mine id not_allowed_error p h =
    failed_stale mine id "Authentication was cancelled or timed out." p h
on_credential-stale mine id (other_error msg) p h =
    failed_stale mine id (String.◌++◌ "Passkey error: " msg) p h

on_verdict-stale :
    (mine : ℕ) (o : Outcome Response) (p : Page) → stale mine p ≡ true → on_verdict mine o p ≡ p
unfolding on_verdict
on_verdict-stale mine (thrown msg) p h = rw h refl
on_verdict-stale mine (ok resp) p h = rw h refl

some-mine : {m n : ℕ} → ◌≡◌ {A = Option ℕ} (some m) (some n) → m ≡ n
some-mine e = ground arith

outdated :
    (t : Task) (r : Reply t) (mine : ℕ) (p : Page)
    → generation t ≡ some mine
    → mine < p.attempt
    → rest_of (resume t r p) ≡ rest_of p
unfolding resume
outdated (await_credential m id) r mine p g lt =
    on_credential-stale m id r p (stale-lt m p (omega (arith, some-mine g)))
outdated (await_verdict m) r mine p g lt =
    ap rest_of (on_verdict-stale m (post_json r) p (stale-lt m p (omega (arith, some-mine g))))
outdated _ r mine p g lt = cc

mine-generation : (t : Task) (mine : ℕ) → generation t ≡ some mine → mine_of t ≡ mine
mine-generation t mine e = ground arith

-- Once the user has clicked "Back", enabled, on a page that events led to, whatever happens
-- afterwards and in whatever order, a passkey ceremony that was waiting at that time for its
-- credential or for the server's verdict changes nothing but the ceremony slot when it goes on: it
-- shows nothing, sends no request, leaves for nowhere and waits for nothing more.
pub back-abandons :
    {s : Setting} {p r : Page} (t : Task) (before after : List Task) (mine : ℕ) (reply : Reply t)
    → Reach AnyReply s p
    → p.buttons_disabled ≡ false
    → p.tasks ≡ before ++ t ∷ after
    → generation t ≡ some mine
    → Later (click go_back p) r
    → rest_of (resume t reply r) ≡ rest_of r
back-abandons {s = s} {p = p} {r = r} t before after mine reply reach enabled e g since =
    outdated t reply mine r g (
      omega
        (arith, go_back-attempt p enabled, Later-attempt since, mine_le, mine-generation t mine g))
  where
    mine_le : mine_of t ≤ p.attempt
    mine_le =
        (All-remove _ before t after
          (subst (All (λ u. mine_of u ≤ p.attempt)) e (Reach-IsSound AnyReply s reach).fresh)).0
