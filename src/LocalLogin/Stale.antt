-- ===== src/LocalLogin/Stale.antt =====
-- A ceremony whose generation is over does nothing to the page.
use oxidt_kit.Kit.{ℕ, ◌≡◌, ◌≢◌, sym, ◌∙◌, String, true, false, Option, none, some, List, arith}
use oxidt_kit.Browser.Http.{Response, Outcome, ok, thrown}
use oxidt_kit.Browser.Webauthn.{Credential, Request}
use oxidt_kit.LocalLogin.State.{
  Ceremony, autofill, bound, discoverable, Task, await_options, await_release, await_credential,
  await_verdict, Reply, Settled, given, abort_error, not_allowed_error, other_error, Page,
}
use oxidt_kit.LocalLogin.Ceremony.{
  give_up, release, on_options, on_release, on_assertion, on_credential, on_verdict, stale,
}
use oxidt_kit.LocalLogin.Run.{resume}

-- All of a page but the slot of the running ceremony and the lock of the autofill: what is shown,
-- the other variables, the requests sent, the tasks left pending, the ceremonies started.
abbrev pub rest_of : Page → Page
rest_of p = record p { ceremony = none; cond_running = false }

-- The generation that a task belongs to, for the tasks that check it as soon as they go on.
abbrev pub generation : Task → Option ℕ
generation (await_options c mine) = some mine
generation (await_release c mine request current) = some mine
generation (await_credential c mine id) = some mine
generation (await_verdict c mine) = some mine
generation _ = none

rest_of-give_up :
    (c : Ceremony) (mine : ℕ) (msg : String) (p : Page)
    → stale mine p ≡ true
    → rest_of (give_up c mine msg p) ≡ rest_of p
unfolding give_up
rest_of-give_up autofill mine msg p h = ground arith
rest_of-give_up bound mine msg p h = ground arith
rest_of-give_up discoverable mine msg p h = ground arith

rest_of-on_options :
    (c : Ceremony) (mine : ℕ) (r : Outcome Response) (p : Page)
    → stale mine p ≡ true
    → rest_of (on_options c mine r p) ≡ rest_of p
unfolding on_options
rest_of-on_options c mine (thrown msg) p h = rest_of-give_up c mine msg p h
rest_of-on_options autofill mine (ok opts) p h = rw h
rest_of-on_options bound mine (ok opts) p h = rw h
rest_of-on_options discoverable mine (ok opts) p h = rw h

rest_of-on_assertion :
    (c : Ceremony) (mine : ℕ) (credential : Credential (List ℕ)) (p : Page)
    → stale mine p ≡ true
    → rest_of (on_assertion c mine credential p) ≡ rest_of p
unfolding on_assertion
rest_of-on_assertion autofill mine credential p h = rw h
rest_of-on_assertion bound mine credential p h = rw h
rest_of-on_assertion discoverable mine credential p h = rw h

rest_of-on_credential :
    (c : Ceremony) (mine id : ℕ) (r : Settled (Credential (List ℕ))) (p : Page)
    → stale mine p ≡ true
    → rest_of (on_credential c mine id r p) ≡ rest_of p
unfolding on_credential release
rest_of-on_credential c mine id (given credential) p h = rest_of-on_assertion c mine credential _ h
rest_of-on_credential c mine id abort_error p h = rest_of-give_up c mine _ _ h
rest_of-on_credential c mine id not_allowed_error p h = rest_of-give_up c mine _ _ h
rest_of-on_credential c mine id (other_error msg) p h = rest_of-give_up c mine _ _ h

rest_of-on_verdict :
    (c : Ceremony) (mine : ℕ) (r : Outcome Response) (p : Page)
    → stale mine p ≡ true
    → rest_of (on_verdict c mine r p) ≡ rest_of p
unfolding on_verdict
rest_of-on_verdict c mine (thrown msg) p h = rest_of-give_up c mine msg p h
rest_of-on_verdict autofill mine (ok resp) p h = rw h
rest_of-on_verdict bound mine (ok resp) p h = rw h
rest_of-on_verdict discoverable mine (ok resp) p h = rw h

rest_of-on_release :
    (c : Ceremony) (mine : ℕ) (request : Request) (p : Page)
    → stale mine p ≡ true
    → rest_of (on_release c mine request p) ≡ rest_of p
unfolding on_release
rest_of-on_release c mine request p h = rw h (rest_of-give_up c mine "ceremony-aborted" p h)

stale-of-ne : (mine : ℕ) (p : Page) → mine ≢ p.attempt → stale mine p ≡ true
stale-of-ne mine p h = ground arith

some-mine : {m n : ℕ} → ◌≡◌ {A = Option ℕ} (some m) (some n) → m ≡ n
some-mine e = ground arith

-- A ceremony whose generation is not the page's, when it goes on with any reply to its request for
-- options, to its wait for a release, from the browser's `get` or to the verdict, shows nothing,
-- changes no variable but the ceremony slot and the autofill's lock, sends no request,
-- starts no ceremony and leaves no task pending.
pub resume_stale :
    (t : Task) (r : Reply t) (p : Page) (mine : ℕ)
    → generation t ≡ some mine
    → mine ≢ p.attempt
    → rest_of (resume t r p) ≡ rest_of p
unfolding resume
resume_stale (await_options c m) r p mine e h =
    rest_of-on_options c m _ p (stale-of-ne m p (λ q. h (sym (some-mine e) ∙ q)))
resume_stale (await_release c m request current) r p mine e h =
    rest_of-on_release c m request p (stale-of-ne m p (λ q. h (sym (some-mine e) ∙ q)))
resume_stale (await_credential c m id) r p mine e h =
    rest_of-on_credential c m id r p (stale-of-ne m p (λ q. h (sym (some-mine e) ∙ q)))
resume_stale (await_verdict c m) r p mine e h =
    rest_of-on_verdict c m _ p (stale-of-ne m p (λ q. h (sym (some-mine e) ∙ q)))
resume_stale _ r p mine e h = cc
