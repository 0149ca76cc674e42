-- ===== src/LocalLogin/Stuck.antt =====
-- The background ceremony's verdict that never comes.
use oxidt_kit.Kit.{ℕ, ◌≡◌, refl, String, List, ◌∷◌, Bool, false, Option}
use oxidt_kit.Browser.Http.{Fetched, thrown, post_json}
use oxidt_kit.Browser.Webauthn.{Credential}
use oxidt_kit.LocalLogin.State.{
  Step, Alert, Task, autofill, given, await_credential, await_verdict, Page,
}
use oxidt_kit.LocalLogin.Ui.{show}
use oxidt_kit.LocalLogin.Ceremony.{stale, release, give_up, on_assertion, on_credential, on_verdict}
use oxidt_kit.LocalLogin.Run.{resume}

-- What the page shows and waits for.
abbrev pub shown : Page → Step × Alert × Alert × Bool × Option String × List Task
shown p = (p.step, p.error, p.success, p.loading, p.location, p.tasks)

-- Of an autofill that the user has not left, whose credential the browser gives: the page shows the
-- step "verifying" and asks the server for its verdict. If that request throws, which it does when
-- the network fails, the server answers with an error status or the body is not JSON, the page
-- still shows "verifying" afterwards, without any message, and waits for nothing that it did not
-- wait for before.
pub verdict_lost :
    (mine id : ℕ) (a : Credential (List ℕ)) (r : Fetched) (msg : String) (p : Page)
    → stale mine p ≡ false
    → post_json r ≡ thrown msg
    → let q = resume (await_credential autofill mine id) (given a) p in
      let w = resume (await_verdict autofill mine) r (record q { tasks = p.tasks }) in
      (q.tasks ≡ await_verdict autofill mine ∷ p.tasks)
      × (shown w ≡ (Step.verifying, p.error, p.success, p.loading, p.location, p.tasks))
unfolding resume on_credential release on_assertion on_verdict give_up show
verdict_lost mine id a r msg p live e = rw live (rw e (refl, refl))
