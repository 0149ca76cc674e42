-- ===== src/LocalLogin/Invariant/Ceremonies.antt =====
-- The invariant under the three functions that run a ceremony. One that is being resumed holds the
-- lock if it is the autofill; `of_autofill` says so.
use Prim.Native.String
use oxidt_kit.Kit.{
  ℕ, suc, ◌≤◌, not, ◌&&◌, Bool, true, false, String, nonempty_string, All-map, Option, none, some,
  List, ◌∷◌, if◌then◌else◌, arith,
}
use oxidt_kit.Browser.Http.{Response, Outcome, ok, thrown, truthy, is_true, or_default}
use oxidt_kit.Browser.Webauthn.{RawOptions, Request, Credential}
use oxidt_kit.LocalLogin.State.{
  Step, Ceremony, autofill, bound, discoverable, Task, await_mediation, await_release,
  await_credential, await_verdict, Settled, given, abort_error, not_allowed_error, other_error,
  Page,
}
use oxidt_kit.LocalLogin.Ui.{wait, show, show_error, email_error}
use oxidt_kit.LocalLogin.Flow.{
  proceed_after_login, route_if_present, route_after_terms, finish, prompt_dismissed,
}
use oxidt_kit.LocalLogin.Ceremony.{
  is_cancel, stale, leave, give_up, run_ceremony, get_passkey, begin, on_options, on_mediation,
  on_release, release, on_assertion, on_credential, on_verdict, trigger_passkey, passkey_action,
  cancel_ceremony, with_options, get_credential, refusal, refuse, release_slot, trigger_with,
}
use oxidt_kit.LocalLogin.Invariant.Defs.{
  of_autofill, autofill_task, mine_of, Lock, Fresh, Shape, Held, Inv,
}
use oxidt_kit.LocalLogin.Invariant.Ui.{Held-cons, show-Inv, loading-Inv}

pub if-Inv :
    (n : ℕ) (k : ℕ) (b : Bool) (p q : Page) → Inv n k p → Inv n k q → Inv n k (if b then p else q)
if-Inv n k true p q h g = h
if-Inv n k false p q h g = g

-- The running function goes on in a task, which takes over its share of the lock.
pub handoff-Inv :
    (n : ℕ) (t : Task) (p : Page)
    → mine_of t ≤ p.attempt
    → Inv n (autofill_task t) p
    → Inv n 0 (wait t p)
handoff-Inv n t p fresh h =
    (omega (arith, h.0), (fresh, h.1), h.2, Held-cons p.ceremony t p.tasks h.3)

leave-Inv : (n : ℕ) (c : Ceremony) (p : Page) → Inv n (of_autofill c) p → Inv n 0 (leave c p)
leave-Inv n autofill p h = (ground (arith, h.0), h.1, h.2, h.3)
leave-Inv n bound p h = h
leave-Inv n discoverable p h = h

give_up-Inv :
    (n : ℕ) (c : Ceremony) (mine : ℕ) (msg : String) (p : Page)
    → Inv n (of_autofill c) p
    → Inv n 0 (give_up c mine msg p)
unfolding give_up show_error
give_up-Inv n autofill mine msg p h = (ground (arith, h.0), h.1, h.2, h.3)
give_up-Inv n bound mine msg p h =
    if-Inv n 0 (stale mine p) p _ h (loading-Inv n 0 false _ (show-Inv n 0 Step.passkey_retry _ h))
give_up-Inv n discoverable mine msg p h =
    if-Inv n 0 (stale mine p) p _ h
      (show-Inv n 0 Step.email _ (if-Inv n 0 (is_cancel msg) p (show_error (some msg) p) h h))

run_ceremony-Inv :
    (n : ℕ) (c : Ceremony) (mine : ℕ) (request : Request) (p : Page)
    → mine ≤ p.attempt
    → Inv n (of_autofill c) p
    → Inv n 0 (run_ceremony c mine request p)
unfolding run_ceremony
run_ceremony-Inv n c mine request p fresh h =
    handoff-Inv n (await_release c mine request p.ceremony) (cancel_ceremony p) fresh h

with_options-Inv :
    (n : ℕ) (c : Ceremony) (mine : ℕ) (o : Option Request) (p : Page)
    → mine ≤ p.attempt
    → Inv n (of_autofill c) p
    → Inv n 0 (with_options c mine o p)
with_options-Inv n c mine none p fresh h = give_up-Inv n c mine _ p h
with_options-Inv n c mine (some request) p fresh h = run_ceremony-Inv n c mine request p fresh h

get_credential-Inv :
    (n : ℕ) (c : Ceremony) (mine : ℕ) (raw : Option RawOptions) (b : Bool) (p : Page)
    → mine ≤ p.attempt
    → Inv n (of_autofill c) p
    → Inv n 0 (get_credential c mine raw b p)
unfolding get_credential
get_credential-Inv n c mine none b p fresh h = give_up-Inv n c mine _ p h
get_credential-Inv n c mine (some raw) b p fresh h = with_options-Inv n c mine _ p fresh h

get_passkey-Inv :
    (n : ℕ) (c : Ceremony) (mine : ℕ) (raw : Option RawOptions) (p : Page)
    → mine ≤ p.attempt
    → Inv n (of_autofill c) p
    → Inv n 0 (get_passkey c mine raw p)
unfolding get_passkey
get_passkey-Inv n c mine raw p fresh h =
    if-Inv n 0 p.setting.can_get _ _ (get_credential-Inv n c mine raw false p fresh h)
      (give_up-Inv n c mine _ p h)

begin-Inv :
    (n : ℕ) (c : Ceremony) (mine : ℕ) (raw : Option RawOptions) (p : Page)
    → mine ≤ p.attempt
    → Inv n (of_autofill c) p
    → Inv n 0 (begin c mine raw p)
unfolding begin
begin-Inv n autofill mine raw p fresh h =
    if-Inv n 0 p.setting.has_mediation _ _ (handoff-Inv n (await_mediation mine raw) p fresh h)
      (give_up-Inv n autofill mine "conditional-unsupported" p h)
begin-Inv n bound mine raw p fresh h = get_passkey-Inv n bound mine raw p fresh h
begin-Inv n discoverable mine raw p fresh h = get_passkey-Inv n discoverable mine raw p fresh h

pub on_options-Inv :
    (n : ℕ) (c : Ceremony) (mine : ℕ) (r : Outcome Response) (p : Page)
    → mine ≤ p.attempt
    → Inv n (of_autofill c) p
    → Inv n 0 (on_options c mine r p)
unfolding on_options
on_options-Inv n c mine (thrown msg) p fresh h = give_up-Inv n c mine msg p h
on_options-Inv n c mine (ok opts) p fresh h =
    if-Inv n 0 (stale mine p) _ _ (leave-Inv n c p h) (begin-Inv n c mine opts.options p fresh h)

pub on_mediation-Inv :
    (n : ℕ) (mine : ℕ) (raw : Option RawOptions) (r : Outcome Bool) (p : Page)
    → mine ≤ p.attempt
    → Inv n 1 p
    → Inv n 0 (on_mediation mine raw r p)
unfolding on_mediation
on_mediation-Inv n mine raw (ok true) p fresh h =
    get_credential-Inv n autofill mine raw true p fresh h
on_mediation-Inv n mine raw (ok false) p fresh h =
    give_up-Inv n autofill mine "conditional-unsupported" p h
on_mediation-Inv n mine raw (thrown msg) p fresh h = give_up-Inv n autofill mine msg p h

pub on_release-Inv :
    (n : ℕ) (c : Ceremony) (mine : ℕ) (request : Request) (p : Page)
    → mine ≤ p.attempt
    → Inv n (of_autofill c) p
    → Inv n 0 (on_release c mine request p)
unfolding on_release
on_release-Inv n c mine request p fresh h =
    if-Inv n 0 (stale mine p) _ _ (give_up-Inv n c mine "ceremony-aborted" p h)
      (omega (arith, h.0), (fresh, h.1), h.2, ground arith)

release_slot-Held :
    (c : Ceremony) (mine id : ℕ) (o : Option ℕ) (ts : List Task)
    → Held o (await_credential c mine id ∷ ts)
    → Held (release_slot id o) ts
release_slot-Held c mine id none ts h = tt
release_slot-Held c mine id (some current) ts h = ground arith

on_assertion-Inv :
    (n : ℕ) (c : Ceremony) (mine : ℕ) (credential : Credential (List ℕ)) (p : Page)
    → mine ≤ p.attempt
    → Inv n (of_autofill c) p
    → Inv n 0 (on_assertion c mine credential p)
unfolding on_assertion show
on_assertion-Inv n c mine credential p fresh h =
    if-Inv n 0 (stale mine p) _ _ (leave-Inv n c p h)
      (handoff-Inv n (await_verdict c mine) (show Step.verifying p) fresh h)

-- The credential's own task is still counted for the slot, and the slot is then given back.
pub on_credential-Inv :
    (n : ℕ) (c : Ceremony) (mine id : ℕ) (r : Settled (Credential (List ℕ))) (p : Page)
    → mine ≤ p.attempt
    → Lock (of_autofill c) p
    → Fresh p
    → Shape n p
    → Held p.ceremony (await_credential c mine id ∷ p.tasks)
    → Inv n 0 (on_credential c mine id r p)
unfolding on_credential release
on_credential-Inv n c mine id r p fresh lock older mirrors held = by_reply r
  where
    freed : Inv n (of_autofill c) (release id p)
    freed = (lock, older, mirrors, release_slot-Held c mine id p.ceremony p.tasks held)

    by_reply : (r : Settled (Credential (List ℕ))) → Inv n 0 (on_credential c mine id r p)
    by_reply (given credential) = on_assertion-Inv n c mine credential (release id p) fresh freed
    by_reply abort_error = give_up-Inv n c mine "ceremony-aborted" (release id p) freed
    by_reply not_allowed_error =
        give_up-Inv n c mine "Authentication was cancelled or timed out." (release id p) freed
    by_reply (other_error msg) =
        give_up-Inv n c mine (String.◌++◌ "Passkey error: " msg) (release id p) freed

pub finish-Inv : (n : ℕ) (k : ℕ) (url : String) (p : Page) → Inv n k p → Inv n k (finish url p)
unfolding finish
finish-Inv n k url p h = show-Inv n k Step.success p h

pub route_if_present-Inv :
    (n : ℕ) (k : ℕ) (url : Option String) (offer_passkey : Bool) (p : Page)
    → Inv n k p
    → Inv n k (route_if_present url offer_passkey p)
unfolding route_if_present route_after_terms
route_if_present-Inv n k none offer_passkey p h = h
route_if_present-Inv n k (some url) offer_passkey p h =
    if-Inv n k (nonempty_string url) _ p
      (if-Inv n k (offer_passkey && p.setting.can_create && not (prompt_dismissed p)) _ _
        (loading-Inv n k false _
          (show-Inv n k Step.offer (record p { pending_redirect = some url }) h))
        (finish-Inv n k url p h))
      h

pub proceed_after_login-Inv :
    (n : ℕ) (k : ℕ) (resp : Response) (p : Page) → Inv n k p → Inv n k (proceed_after_login resp p)
unfolding proceed_after_login
proceed_after_login-Inv n k resp p h =
    if-Inv n k (is_true resp.needs_tos_acceptance) _ _
      (loading-Inv n k false _
        (show-Inv n k Step.tos (record p { offer_after_terms = is_true resp.offer_passkey }) h))
      (route_if_present-Inv n k resp.redirect_url (is_true resp.offer_passkey) p h)

refuse-Inv :
    (n : ℕ) (c : Ceremony) (p : Page) → Inv n (of_autofill c) p → Inv n (of_autofill c) (refuse c p)
refuse-Inv n autofill p h = show-Inv n 1 Step.email p h
refuse-Inv n bound p h = h
refuse-Inv n discoverable p h = h

pub on_verdict-Inv :
    (n : ℕ) (c : Ceremony) (mine : ℕ) (r : Outcome Response) (p : Page)
    → Inv n (of_autofill c) p
    → Inv n 0 (on_verdict c mine r p)
unfolding on_verdict
on_verdict-Inv n c mine (thrown msg) p h = give_up-Inv n c mine msg p h
on_verdict-Inv n c mine (ok resp) p h = if-Inv n 0 (stale mine p) _ _ (leave-Inv n c p h) (
    if-Inv n 0 (truthy resp.success) _ _
      (leave-Inv n c _ (proceed_after_login-Inv n (of_autofill c) resp p h))
      (give_up-Inv n c mine (or_default resp.error (refusal c)) _ (refuse-Inv n c p h)))

pub next-Inv :
    (n : ℕ) (k : ℕ) (p : Page) → Inv n k p → Inv n k (record p { attempt = suc p.attempt })
next-Inv n k p h = (h.0, All-map _ _ p.tasks (λ t le. omega arith) h.1, (h.2.0, omega arith), h.3)

trigger_with-Inv :
    (n : ℕ) (o : Option RawOptions) (p : Page) → Inv n 0 p → Inv n 0 (trigger_with o p)
unfolding show_error
trigger_with-Inv n none p h = show-Inv n 0 Step.email _ h
trigger_with-Inv n (some raw) p h =
    get_passkey-Inv n bound (suc p.attempt) (some raw) _ (omega arith) (next-Inv n 0 p h)

pub trigger_passkey-Inv : (n : ℕ) (p : Page) → Inv n 0 p → Inv n 0 (trigger_passkey p)
unfolding trigger_passkey
trigger_passkey-Inv n p h = trigger_with-Inv n p.passkey_options p h

pub passkey_action-Inv : (n : ℕ) (p : Page) → Inv n 0 p → Inv n 0 (passkey_action p)
unfolding passkey_action show show_error email_error
passkey_action-Inv n p h =
    let older = next-Inv n 0 p h in
    (
      omega (arith, older.0),
      (omega arith, older.1),
      older.2,
      Held-cons p.ceremony _ p.tasks older.3,
    )
