-- ===== src/FerriskeyLogin/Protocol/Invariant.antt =====
-- What every step of the protocol keeps.
use oxidt_kit.Kit.{
  ℕ, suc, ◌+◌, ◌≤◌, ◌<◌, ◌≡◌, ◌==◌, refl, subst, true, false, not, ◌||◌, Option, none, some, List,
  [], ◌∷◌, ◌++◌, All, All-map, All-remove, Bool-cases, inl, inr, String, arith, if◌then◌else◌,
}
use oxidt_kit.LocalLogin.Ceremony.{release_slot}
use oxidt_kit.FerriskeyLogin.State.{Task, await_credential, await_verdict, await_start, Reply}
use oxidt_kit.FerriskeyLogin.Protocol.{
  nowhere, to, is_fetch, sign_in, gives_back, rank, View, loaded, asking, released, next_attempt,
  is_busy, Answer, fails, proves, ignores, frees, stalls, leaves, asks, starts, starts_not, Act,
  nothing, submits, gives_up, checks, Step, acts, answers,
}

-- The generation of a ceremony's task.
abbrev pub mine_of : Task → ℕ
mine_of (await_credential mine id) = mine
mine_of (await_verdict mine) = mine
mine_of _ = 0

abbrev pub is_credential : ℕ → Task → ℕ
is_credential id (await_credential mine current) = if current == id then 1 else 0
is_credential id _ = 0

-- How many tasks wait for the credential of ceremony `id`.
abbrev pub credentials : ℕ → List Task → ℕ
credentials id [] = 0
credentials id (t ∷ ts) = is_credential id t + credentials id ts

-- The slot holds no ceremony that the browser has settled.
abbrev pub Held : Option ℕ → List Task → Type 0
Held none ts = Unit {0}
Held (some id) ts = 0 < credentials id ts

-- The controls show what `loading` says, no ceremony is of a later generation than the page, and a
-- ceremony in the slot is one that the browser has not settled.
pub record IsSound (v : View) : Type 0 where
  pub buttons : v.buttons_disabled ≡ v.loading
  pub spinner : v.spinner_hidden ≡ not v.loading
  pub terms : v.terms_disabled ≡ (v.loading || not v.terms_checked)
  pub fresh : All (λ t. mine_of t ≤ v.attempt) v.tasks
  pub held : Held v.slot v.tasks

Held-cons : (o : Option ℕ) (t : Task) (ts : List Task) → Held o ts → Held o (t ∷ ts)
Held-cons none t ts h = tt
Held-cons (some id) t ts h = omega arith

older : (n : ℕ) (ts : List Task) → All (λ t. mine_of t ≤ n) ts → All (λ t. mine_of t ≤ suc n) ts
older n ts h = All-map _ _ ts (λ t le. omega arith) h

mine-busy : (t : Task) → is_busy t ≡ true → mine_of t ≡ 0
mine-busy t h = ground arith

Act-IsSound : {v w : View} → Act v w → IsSound v → IsSound w
Act-IsSound (nothing v) s = s
Act-IsSound (submits t v busy) s = record {
  buttons = refl;
  spinner = refl;
  terms = refl;
  fresh = (omega (arith, mine-busy t busy), s.fresh);
  held = Held-cons v.slot t v.tasks s.held;
}
Act-IsSound (gives_up v) s = record {
  buttons = refl;
  spinner = refl;
  terms = refl;
  fresh = older v.attempt v.tasks s.fresh;
  held = s.held;
}
Act-IsSound (checks b v) s = record {
  buttons = s.buttons;
  spinner = s.spinner;
  terms = refl;
  fresh = s.fresh;
  held = s.held;
}

credentials-middle :
    (id : ℕ) (before : List Task) (t : Task) (after : List Task)
    → credentials id (before ++ t ∷ after) ≡ credentials id (t ∷ (before ++ after))
credentials-middle id [] t after = refl
credentials-middle id (b ∷ before) t after = omega (arith, credentials-middle id before t after)

Held-middle :
    (o : Option ℕ) (before : List Task) (t : Task) (after : List Task)
    → Held o (before ++ t ∷ after)
    → Held o (t ∷ (before ++ after))
Held-middle none before t after h = tt
Held-middle (some id) before t after h = omega (arith, credentials-middle id before t after)

-- What is known while the reply to `t` is acted upon: the slot may hold the ceremony of `t`.
record Resumed (t : Task) (v : View) : Type 0 where
  buttons : v.buttons_disabled ≡ v.loading
  spinner : v.spinner_hidden ≡ not v.loading
  terms : v.terms_disabled ≡ (v.loading || not v.terms_checked)
  mine : mine_of t ≤ v.attempt
  fresh : All (λ u. mine_of u ≤ v.attempt) v.tasks
  held : Held v.slot (t ∷ v.tasks)

Held-release :
    (mine id : ℕ) (o : Option ℕ) (ts : List Task)
    → Held o (await_credential mine id ∷ ts)
    → Held (release_slot id o) ts
Held-release mine id none ts h = tt
Held-release mine id (some current) ts h = elim (Bool-cases (current == id)) [
  | inl same ↦ rw same tt
  | inr other ↦ rw other (ground arith)
]

-- Any other task is none that the slot is held for.
Held-fetch :
    (t : Task) (o : Option ℕ) (ts : List Task) → is_fetch t ≡ true → Held o (t ∷ ts) → Held o ts
Held-fetch (await_credential mine id) o ts e h = cc
Held-fetch t none ts e h = tt
Held-fetch t (some id) ts e h = omega arith

fetch-of-gives_back : (t : Task) (r : Reply t) → gives_back t r ≡ true → is_fetch t ≡ true
fetch-of-gives_back (await_credential mine id) r e = e
fetch-of-gives_back t r e = refl

fetch-of-nowhere : (t : Task) (r : Reply t) → sign_in t r ≡ nowhere → is_fetch t ≡ true
fetch-of-nowhere (await_credential mine id) r e = ground arith
fetch-of-nowhere t r e = refl

fetch-of-to : (t : Task) (r : Reply t) (url : String) → sign_in t r ≡ to url → is_fetch t ≡ true
fetch-of-to (await_credential mine id) r url e = ground arith
fetch-of-to t r url e = refl

fetch-of-rank : (n : ℕ) (t : Task) → n < rank t → is_fetch t ≡ true
fetch-of-rank n (await_credential mine id) h = absurd (omega arith)
fetch-of-rank n t h = refl

-- A step that leaves the controls, the generation and the slot alone.
kept-IsSound :
    (t : Task) (v : View) (o : Option String)
    → is_fetch t ≡ true
    → Resumed t v
    → IsSound (record v { location = o })
kept-IsSound t v o fetch s = record {
  buttons = s.buttons;
  spinner = s.spinner;
  terms = s.terms;
  fresh = s.fresh;
  held = Held-fetch t v.slot v.tasks fetch s.held;
}

released-IsSound :
    (mine id : ℕ) (v : View) → Resumed (await_credential mine id) v → IsSound (released id v)
released-IsSound mine id v s = record {
  buttons = s.buttons;
  spinner = s.spinner;
  terms = s.terms;
  fresh = s.fresh;
  held = Held-release mine id v.slot v.tasks s.held;
}

asking-IsSound : (t : Task) (v : View) → mine_of t ≤ v.attempt → IsSound v → IsSound (asking t v)
asking-IsSound t v le s = record {
  buttons = s.buttons;
  spinner = s.spinner;
  terms = s.terms;
  fresh = (le, s.fresh);
  held = Held-cons v.slot t v.tasks s.held;
}

freed-IsSound : (t : Task) (v : View) → is_fetch t ≡ true → Resumed t v → IsSound (loaded false v)
freed-IsSound t v fetch s = record {
  buttons = refl;
  spinner = refl;
  terms = refl;
  fresh = s.fresh;
  held = Held-fetch t v.slot v.tasks fetch s.held;
}

next_attempt-IsSound : (v : View) → IsSound v → IsSound (next_attempt v)
next_attempt-IsSound v s = record {
  buttons = s.buttons;
  spinner = s.spinner;
  terms = s.terms;
  fresh = older v.attempt v.tasks s.fresh;
  held = s.held;
}

started-IsSound :
    (v : View) (id : ℕ)
    → IsSound v
    → IsSound (record (asking (await_credential v.attempt id) v) { slot = some id })
started-IsSound v id s = record {
  buttons = s.buttons;
  spinner = s.spinner;
  terms = s.terms;
  fresh = (omega arith, s.fresh);
  held = ground arith;
}

Answer-IsSound : {t : Task} {r : Reply t} {v w : View} → Answer t r v w → Resumed t v → IsSound w
Answer-IsSound (fails mine id r v) s = released-IsSound mine id v s
Answer-IsSound (proves mine id c v e) s =
    asking-IsSound (await_verdict mine) (released id v) (omega arith) (released-IsSound mine id v s)
Answer-IsSound (ignores mine r v e) s = kept-IsSound (await_verdict mine) v v.location refl s
Answer-IsSound (frees t r v e) s = freed-IsSound t v (fetch-of-gives_back t r e) s
Answer-IsSound (stalls t r v e) s = kept-IsSound t v v.location (fetch-of-nowhere t r e) s
Answer-IsSound (leaves t r v url e) s = kept-IsSound t v (some url) (fetch-of-to t r url e) s
Answer-IsSound (asks t u r v busy lt) s =
    asking-IsSound u v (omega (arith, mine-busy u busy))
      (kept-IsSound t v v.location (fetch-of-rank (rank u) t lt) s)
Answer-IsSound (starts r v id) s =
    started-IsSound (next_attempt (loaded false v)) id
      (next_attempt-IsSound (loaded false v) (freed-IsSound await_start v refl s))
Answer-IsSound (starts_not r v) s =
    next_attempt-IsSound (loaded false v) (freed-IsSound await_start v refl s)

resumed :
    (v : View) (before after : List Task) (t : Task)
    → v.tasks ≡ before ++ t ∷ after
    → IsSound v
    → Resumed t (record v { tasks = before ++ after })
resumed v before after t e s =
    let (mine, fresh) =
      All-remove _ before t after (subst (All (λ u. mine_of u ≤ v.attempt)) e s.fresh) in
    record {
      buttons = s.buttons;
      spinner = s.spinner;
      terms = s.terms;
      mine = mine;
      fresh = fresh;
      held = Held-middle v.slot before t after (subst (Held v.slot) e s.held);
    }

pub Step-IsSound :
    (Q : (t : Task) → Reply t → Type 0) {v w : View} → Step Q v w → IsSound v → IsSound w
Step-IsSound Q (acts a) s = Act-IsSound a s
Step-IsSound Q (answers v w before after t r e q a) s =
    Answer-IsSound a (resumed v before after t e s)
