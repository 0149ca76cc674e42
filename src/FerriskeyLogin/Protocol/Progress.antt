-- ===== src/FerriskeyLogin/Protocol/Progress.antt =====
-- A page that is busy waits for a reply, until it has left.
use oxidt_kit.Kit.{
  ℕ, ◌+◌, ◌≤◌, ◌≡◌, ◌≢◌, refl, ap, Bool, true, false, Option, none, some, List, [], ◌∷◌, ◌++◌,
  String, arith,
}
use oxidt_kit.FerriskeyLogin.State.{Task, Reply}
use oxidt_kit.FerriskeyLogin.Protocol.{
  View, nowhere, sign_in, is_busy, Answer, fails, proves, ignores, frees, stalls, leaves, asks,
  starts, starts_not, Act, nothing, submits, gives_up, checks, Step, acts, answers,
}

abbrev pub flag : Bool → ℕ
flag true = 1
flag false = 0

abbrev pub has_left : Option String → ℕ
has_left none = 0
has_left (some url) = 1

abbrev pub busies : List Task → ℕ
busies [] = 0
busies (t ∷ ts) = flag (is_busy t) + busies ts

-- No success of a sign-in is without a place to go to.
abbrev pub Leads : (t : Task) → Reply t → Type 0
Leads t r = sign_in t r ≢ nowhere

abbrev pub IsServed : View → Type 0
IsServed v = flag v.loading ≤ has_left v.location + busies v.tasks

busies-middle :
    (before : List Task) (t : Task) (after : List Task)
    → busies (before ++ t ∷ after) ≡ busies (t ∷ (before ++ after))
busies-middle [] t after = refl
busies-middle (b ∷ before) t after = omega (arith, busies-middle before t after)

busy-submitted : (t : Task) → is_busy t ≡ true → flag (is_busy t) ≡ 1
busy-submitted t e = rw e refl

flag-le : (b : Bool) (n : ℕ) → flag b ≤ 1 + n
flag-le true n = omega arith
flag-le false n = omega arith

Act-IsServed : {v w : View} → Act v w → IsServed v → IsServed w
Act-IsServed (nothing v) h = h
Act-IsServed (submits t v e) h = omega (arith, busy-submitted t e)
Act-IsServed (gives_up v) h = omega arith
Act-IsServed (checks b v) h = h

Answer-IsServed :
    {t : Task} {r : Reply t} {v w : View}
    → Answer t r v w
    → Leads t r
    → flag v.loading ≤ has_left v.location + flag (is_busy t) + busies v.tasks
    → IsServed w
Answer-IsServed (fails mine id r v) q h = omega arith
Answer-IsServed (proves mine id c v e) q h = omega arith
Answer-IsServed (ignores mine r v e) q h = omega arith
Answer-IsServed (frees t r v e) q h = omega arith
Answer-IsServed (stalls t r v e) q h = absurd (q e)
Answer-IsServed (leaves t r v url e) q h = flag-le v.loading (busies v.tasks)
Answer-IsServed (asks t u r v e lt) q h = omega (arith, busy-submitted u e, flag-le v.loading 0)
Answer-IsServed (starts r v id) q h = omega arith
Answer-IsServed (starts_not r v) q h = omega arith

pub Step-IsServed : {v w : View} → Step Leads v w → IsServed v → IsServed w
Step-IsServed (acts a) h = Act-IsServed a h
Step-IsServed (answers v w before after t r e q a) h =
    Answer-IsServed a q (omega (arith, h, ap busies e, busies-middle before t after))
