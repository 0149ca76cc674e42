-- ===== src/FerriskeyLogin/Protocol/Attempt.antt =====
-- No step takes the generation back.
use oxidt_kit.Kit.{◌≤◌, arith}
use oxidt_kit.FerriskeyLogin.State.{Task, Reply}
use oxidt_kit.FerriskeyLogin.Protocol.{
  View, Answer, fails, proves, ignores, frees, stalls, leaves, asks, starts, starts_not, Act,
  nothing, submits, gives_up, checks, Step, acts, answers,
}

Act-attempt : {v w : View} → Act v w → v.attempt ≤ w.attempt
Act-attempt (nothing v) = omega arith
Act-attempt (submits t v e) = omega arith
Act-attempt (gives_up v) = omega arith
Act-attempt (checks b v) = omega arith

Answer-attempt : {t : Task} {r : Reply t} {v w : View} → Answer t r v w → v.attempt ≤ w.attempt
Answer-attempt (fails mine id r v) = omega arith
Answer-attempt (proves mine id c v e) = omega arith
Answer-attempt (ignores mine r v e) = omega arith
Answer-attempt (frees t r v e) = omega arith
Answer-attempt (stalls t r v e) = omega arith
Answer-attempt (leaves t r v url e) = omega arith
Answer-attempt (asks t u r v e lt) = omega arith
Answer-attempt (starts r v id) = omega arith
Answer-attempt (starts_not r v) = omega arith

pub Step-attempt :
    (Q : (t : Task) → Reply t → Type 0) {v w : View} → Step Q v w → v.attempt ≤ w.attempt
Step-attempt Q (acts a) = Act-attempt a
Step-attempt Q (answers v w before after t r e q a) = Answer-attempt a
