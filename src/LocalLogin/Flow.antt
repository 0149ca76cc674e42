-- ===== src/LocalLogin/Flow.antt =====
-- "Flow": what follows a successful sign-in, up to the redirect.
use oxidt_kit.Kit.{
  Bool, true, false, not, ◌&&◌, String, nonempty_string, Option, none, some, if◌then◌else◌,
}
use oxidt_kit.Browser.Http.{Response, is_true}
use oxidt_kit.LocalLogin.State.{Step, Page}
use oxidt_kit.LocalLogin.Ui.{show, set_loading}

-- `promptDismissed`: storage that throws counts as dismissed.
unfoldable pub prompt_dismissed : Page → Bool
prompt_dismissed p = elim p.prompt_dismissed [ none ↦ true | some b ↦ b ]

-- `dismissPrompt`.
unfoldable pub dismiss_prompt : Page → Page
dismiss_prompt p = record p {
  prompt_dismissed = elim p.prompt_dismissed [ none ↦ none | some b ↦ some true ];
}

unfoldable pub finish : String → Page → Page
finish url p = let q = show Step.success p in record q { location = some url }

unfoldable pub route_after_terms : String → Bool → Page → Page
unfolding finish prompt_dismissed
route_after_terms url offer_passkey p =
    if offer_passkey && p.setting.can_create && not (prompt_dismissed p)
    then set_loading false (show Step.offer (record p { pending_redirect = some url }))
    else finish url p

-- `if (redirect_url) routeAfterTerms(redirect_url, offer)`: an absent or empty URL goes nowhere.
unfoldable pub route_if_present : Option String → Bool → Page → Page
unfolding route_after_terms
route_if_present none offer_passkey p = p
route_if_present (some url) offer_passkey p =
    if nonempty_string url then route_after_terms url offer_passkey p else p

unfoldable pub proceed_after_login : Response → Page → Page
unfolding route_if_present
proceed_after_login resp p =
    if is_true resp.needs_tos_acceptance
    then set_loading false
        (show Step.tos (record p { offer_after_terms = is_true resp.offer_passkey }))
    else route_if_present resp.redirect_url (is_true resp.offer_passkey) p
