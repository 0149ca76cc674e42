-- ===== src/FerriskeyLogin/Protocol/Redirect.antt =====
-- The protocol leaves for a place that a sign-in led to, and for no other.
use oxidt_kit.Kit.{◌≡◌, Option, some, String}
use oxidt_kit.FerriskeyLogin.State.{Task, Reply}
use oxidt_kit.FerriskeyLogin.Protocol.{
  View, to, sign_in, Answer, fails, proves, ignores, frees, stalls, leaves, asks, starts,
  starts_not, Act, nothing, submits, gives_up, checks, Step, acts, answers,
}

-- A sign-in leads to `P` only.
abbrev pub LeadsTo : (P : String → Type 0) (t : Task) → Reply t → Type 0
LeadsTo P t r = (url : String) → sign_in t r ≡ to url → P url

abbrev pub IsAt : (P : String → Type 0) → Option String → Type 0
IsAt P o = (url : String) → o ≡ some url → P url

module _ {P : String → Type 0} where
  Act-IsAt : {v w : View} → Act v w → IsAt P v.location → IsAt P w.location
  Act-IsAt (nothing v) h = h
  Act-IsAt (submits t v e) h = h
  Act-IsAt (gives_up v) h = h
  Act-IsAt (checks b v) h = h

  Answer-IsAt :
      {t : Task} {r : Reply t} {v w : View}
      → Answer t r v w
      → LeadsTo P t r
      → IsAt P v.location
      → IsAt P w.location
  Answer-IsAt (fails mine id r v) q h = h
  Answer-IsAt (proves mine id c v e) q h = h
  Answer-IsAt (ignores mine r v e) q h = h
  Answer-IsAt (frees t r v e) q h = h
  Answer-IsAt (stalls t r v e) q h = h
  Answer-IsAt (leaves t r v url e) q h = λ other eq. q other (cc)
  Answer-IsAt (asks t u r v e lt) q h = h
  Answer-IsAt (starts r v id) q h = h
  Answer-IsAt (starts_not r v) q h = h

  pub Step-IsAt : {v w : View} → Step (LeadsTo P) v w → IsAt P v.location → IsAt P w.location
  Step-IsAt (acts a) h = Act-IsAt a h
  Step-IsAt (answers v w before after t r e q a) h = Answer-IsAt a q h
