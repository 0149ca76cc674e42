-- ===== src/LocalLogin/Redirect/Flow.antt =====
-- Where `finish` and what leads to it send the page.
use oxidt_kit.Kit.{
  ℕ, ◌≡◌, refl, ◌∙◌, sym, subst, not, ◌&&◌, Bool, true, false, ◌⊎◌, inl, inr, String,
  nonempty_string, Option, none, some, if◌then◌else◌,
}
use oxidt_kit.Browser.Http.{Response, Outcome, ok, thrown, truthy, is_true, or_default}
use oxidt_kit.LocalLogin.State.{Step, Ceremony, Page}
use oxidt_kit.LocalLogin.Ui.{show, set_loading, show_error}
use oxidt_kit.LocalLogin.Flow.{
  prompt_dismissed, dismiss_prompt, finish, route_after_terms, route_if_present,
  proceed_after_login,
}
use oxidt_kit.LocalLogin.Ceremony.{stale, leave, give_up, on_verdict, refusal, refuse}
use oxidt_kit.LocalLogin.Forms.{on_otp, on_password, cleared}
use oxidt_kit.LocalLogin.Actions.{url_of, on_enrolled, offer_skip, accepted, on_terms}
use oxidt_kit.LocalLogin.Redirect.Kept.{
  bound_for, show-bound, set_loading-bound, leave-bound, refuse-bound, give_up-bound,
}
use oxidt_kit.LocalLogin.Redirect.Handlers.{back_to-bound, failed-bound}

module _ (P : String → Type 0) where
  abbrev pub Gives : Option String → Type 0
  Gives none = Unit
  Gives (some url) = P url

  -- The URL of a reply that says that it succeeded.
  abbrev pub Grants : Outcome Response → Type 0
  Grants (thrown msg) = Unit
  Grants (ok resp) = truthy resp.success ≡ true → Gives resp.redirect_url

  -- The document's location, if the page has left for one.
  abbrev pub Leads : Option String → Type 0
  Leads none = Unit
  Leads (some url) = P url ⊎ (url ≡ "null")

  abbrev pub Goes : Option String × Option String → Type 0
  Goes t = Leads t.0 × Gives t.1

  pub kept : {t u : Option String × Option String} → u ≡ t → Goes t → Goes u
  kept e h = subst Goes (sym e) h

  pub if-Goes :
      (b : Bool) (x y : Page)
      → (b ≡ true → Goes (bound_for x))
      → Goes (bound_for y)
      → Goes (bound_for (if b then x else y))
  if-Goes true x y h g = h refl
  if-Goes false x y h g = g

  finish-Goes :
      (url : String) (p : Page)
      → P url ⊎ (url ≡ "null")
      → Goes (bound_for p)
      → Goes (bound_for (finish url p))
  unfolding finish
  finish-Goes url p to h = (to, (kept (show-bound Step.success p) h).1)

  route_after_terms-Goes :
      (url : String) (offer : Bool) (p : Page)
      → P url
      → Goes (bound_for p)
      → Goes (bound_for (route_after_terms url offer p))
  unfolding route_after_terms
  route_after_terms-Goes url offer p to h =
      if-Goes (offer && p.setting.can_create && not (prompt_dismissed p)) _ _
        (λ yes_.
          let q = record p { pending_redirect = some url } in
          kept (set_loading-bound false (show Step.offer q) ∙ show-bound Step.offer q) (h.0, to))
        (finish-Goes url p (inl to) h)

  route_if_present-Goes :
      (o : Option String) (offer : Bool) (p : Page)
      → Gives o
      → Goes (bound_for p)
      → Goes (bound_for (route_if_present o offer p))
  unfolding route_if_present
  route_if_present-Goes none offer p to h = h
  route_if_present-Goes (some url) offer p to h =
      if-Goes (nonempty_string url) _ p (λ e. route_after_terms-Goes url offer p to h) h

  proceed_after_login-Goes :
      (resp : Response) (p : Page)
      → Gives resp.redirect_url
      → Goes (bound_for p)
      → Goes (bound_for (proceed_after_login resp p))
  unfolding proceed_after_login
  proceed_after_login-Goes resp p to h =
      if-Goes (is_true resp.needs_tos_acceptance) _ _
        (λ e.
          let q = record p { offer_after_terms = is_true resp.offer_passkey } in
          kept (set_loading-bound false (show Step.tos q) ∙ show-bound Step.tos q) h)
        (route_if_present-Goes resp.redirect_url (is_true resp.offer_passkey) p to h)

  pub on_verdict-Goes :
      (c : Ceremony) (mine : ℕ) (r : Outcome Response) (p : Page)
      → Grants r
      → Goes (bound_for p)
      → Goes (bound_for (on_verdict c mine r p))
  unfolding on_verdict
  on_verdict-Goes c mine (thrown msg) p g h = kept (give_up-bound c mine msg p) h
  on_verdict-Goes c mine (ok resp) p g h =
      let msg = or_default resp.error (refusal c) in
      let refused = refuse c p in
      let done = proceed_after_login resp p in
      if-Goes (stale mine p) (leave c p)
        (if truthy resp.success then leave c done else give_up c mine msg refused)
        (λ e. kept (leave-bound c p) h)
        (if-Goes (truthy resp.success) (leave c done) (give_up c mine msg refused)
          (λ e. kept (leave-bound c done) (proceed_after_login-Goes resp p (g e) h))
          (kept (give_up-bound c mine msg refused ∙ refuse-bound c p) h))

  pub on_otp-Goes :
      (r : Outcome Response) (p : Page)
      → Grants r
      → Goes (bound_for p)
      → Goes (bound_for (on_otp r p))
  unfolding on_otp
  on_otp-Goes (thrown msg) p g h = kept (back_to-bound Step.otp msg p) h
  on_otp-Goes (ok resp) p g h =
      if-Goes (truthy resp.success) _ _ (λ e. proceed_after_login-Goes resp p (g e) h)
        (let msg = or_default resp.error "Verification failed" in
          kept (back_to-bound Step.otp msg p) h)

  pub on_password-Goes :
      (r : Outcome Response) (p : Page)
      → Grants r
      → Goes (bound_for p)
      → Goes (bound_for (on_password r p))
  unfolding on_password
  on_password-Goes (thrown msg) p g h = kept (failed-bound (some msg) (cleared p)) h
  on_password-Goes (ok resp) p g h =
      if-Goes (truthy resp.success) _ _ (λ e. proceed_after_login-Goes resp (cleared p) (g e) h)
        (let msg = some (or_default resp.error "Sign-in failed") in
          kept (failed-bound msg (cleared p)) h)

  accepted-Goes :
      (resp : Response) (p : Page)
      → (truthy resp.success ≡ true → Gives resp.redirect_url)
      → Goes (bound_for p)
      → Goes (bound_for (accepted resp p))
  unfolding show_error
  accepted-Goes resp p g h =
      if-Goes (truthy resp.success) _ _
        (λ e. route_if_present-Goes resp.redirect_url p.offer_after_terms p (g e) h) h

  pub on_terms-Goes :
      (r : Outcome Response) (p : Page)
      → Grants r
      → Goes (bound_for p)
      → Goes (bound_for (on_terms r p))
  unfolding on_terms
  on_terms-Goes (thrown msg) p g h = kept (failed-bound (some msg) p) h
  on_terms-Goes (ok resp) p g h =
      kept (set_loading-bound false (accepted resp p)) (accepted-Goes resp p g h)

  url_of-Leads : (o : Option String) → Gives o → P (url_of o) ⊎ (url_of o ≡ "null")
  url_of-Leads none h = inr refl
  url_of-Leads (some url) h = inl h

  pub on_enrolled-Goes :
      (r : Outcome Response) (p : Page) → Goes (bound_for p) → Goes (bound_for (on_enrolled r p))
  unfolding on_enrolled
  on_enrolled-Goes (thrown msg) p h = kept (failed-bound (some msg) p) h
  on_enrolled-Goes (ok resp) p h =
      let q = set_loading false p in
      let g : Goes (bound_for q) = kept (set_loading-bound false p) h in
      if-Goes (truthy resp.success) _ _
        (λ e. finish-Goes (url_of q.pending_redirect) q (url_of-Leads q.pending_redirect g.1) g)
        (let msg = some (or_default resp.error "Passkey enrollment failed") in
          kept (failed-bound msg p) h)

  pub offer_skip-Goes : (p : Page) → Goes (bound_for p) → Goes (bound_for (offer_skip p))
  unfolding offer_skip dismiss_prompt show_error
  offer_skip-Goes p h =
      finish-Goes (url_of p.pending_redirect) _ (url_of-Leads p.pending_redirect h.1) h
