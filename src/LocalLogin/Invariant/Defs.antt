-- ===== src/LocalLogin/Invariant/Defs.antt =====
-- The invariant of the local login page.
use oxidt_kit.Kit.{
  ℕ, ◌+◌, ◌≤◌, ◌<◌, ◌≡◌, ◌==◌, Bool, true, false, not, ◌||◌, Option, none, some, List, [], ◌∷◌, All,
  if◌then◌else◌,
}
use oxidt_kit.LocalLogin.State.{
  Ceremony, autofill, Task, await_options, await_mediation, await_release, await_credential,
  await_verdict, Page,
}

abbrev pub of_autofill : Ceremony → ℕ
of_autofill autofill = 1
of_autofill _ = 0

-- One for a suspended `armConditional`.
abbrev pub autofill_task : Task → ℕ
autofill_task (await_options c mine) = of_autofill c
autofill_task (await_mediation mine raw) = 1
autofill_task (await_release c mine request current) = of_autofill c
autofill_task (await_credential c mine id) = of_autofill c
autofill_task (await_verdict c mine) = of_autofill c
autofill_task _ = 0

abbrev pub autofills : List Task → ℕ
autofills [] = 0
autofills (t ∷ ts) = autofill_task t + autofills ts

-- The generation of a ceremony's task.
abbrev pub mine_of : Task → ℕ
mine_of (await_options c mine) = mine
mine_of (await_mediation mine raw) = mine
mine_of (await_release c mine request current) = mine
mine_of (await_credential c mine id) = mine
mine_of (await_verdict c mine) = mine
mine_of _ = 0

abbrev pub is_credential : ℕ → Task → ℕ
is_credential id (await_credential c mine current) = if current == id then 1 else 0
is_credential id _ = 0

-- How many tasks wait for the credential of ceremony `id`.
abbrev pub credentials : ℕ → List Task → ℕ
credentials id [] = 0
credentials id (t ∷ ts) = is_credential id t + credentials id ts

abbrev pub flag : Bool → ℕ
flag true = 1
flag false = 0

-- `condRunning` is a lock: with it no more than one `armConditional` runs. `running` counts the one
-- that is being resumed.
abbrev pub Lock : ℕ → Page → Type 0
Lock running p = autofills p.tasks + running ≡ flag p.cond_running

-- No ceremony is of a later generation than the page.
abbrev pub Fresh : Page → Type 0
Fresh p = All (λ t. mine_of t ≤ p.attempt) p.tasks

-- The controls show what `loading` says.
abbrev pub Mirrors : Page → Type 0
Mirrors p =
    (p.buttons_disabled ≡ p.loading)
    × (p.spinner_hidden ≡ not p.loading)
    × (p.terms_disabled ≡ (p.loading || not p.terms_checked))

abbrev pub Held : Option ℕ → List Task → Type 0
Held none ts = Unit {0}
Held (some id) ts = 0 < credentials id ts

-- The slot holds no ceremony that the browser has settled.
abbrev pub Slot : Page → Type 0
Slot p = Held p.ceremony p.tasks

-- The controls are right, and the generation has come at least to `n`.
abbrev pub Shape : ℕ → Page → Type 0
Shape n p = Mirrors p × (n ≤ p.attempt)

abbrev pub Inv : ℕ → ℕ → Page → Type 0
Inv n running p = Lock running p × Fresh p × Shape n p × Slot p
