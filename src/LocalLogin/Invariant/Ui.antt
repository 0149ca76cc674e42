-- ===== src/LocalLogin/Invariant/Ui.antt =====
-- The invariant under what changes the page's appearance, and under new tasks.
use oxidt_kit.Kit.{
  ℕ, ◌≤◌, ◌≡◌, refl, not, ◌||◌, Bool, Bool-cases, inl, inr, true, false, Option, none, some, List,
  ◌∷◌, arith,
}
use oxidt_kit.LocalLogin.State.{Step, autofill, await_options, Task, Page}
use oxidt_kit.LocalLogin.Ui.{
  is_email, wait, request_conditional, arm_conditional, mount_captcha, show, set_controls,
  set_loading,
}
use oxidt_kit.LocalLogin.Invariant.Defs.{autofill_task, mine_of, Lock, Fresh, Held, Slot, Inv}

pub Held-cons : (o : Option ℕ) (t : Task) (ts : List Task) → Held o ts → Held o (t ∷ ts)
Held-cons none t ts h = tt
Held-cons (some id) t ts h = omega arith

module _ (n k : ℕ) where
  -- A new task that runs no autofill.
  pub wait-Inv :
      (t : Task) (p : Page)
      → autofill_task t ≡ 0
      → mine_of t ≤ p.attempt
      → Inv n k p
      → Inv n k (wait t p)
  wait-Inv t p none_more fresh h =
      (omega (arith, h.0), (fresh, h.1), h.2, Held-cons p.ceremony t p.tasks h.3)

  -- The autofill is armed with the lock free, and takes it.
  armed-Inv :
      (p : Page)
      → p.cond_running ≡ false
      → Inv n k p
      → Inv n k (
          request_conditional (await_options autofill p.attempt) (record p { cond_running = true }))
  unfolding request_conditional
  armed-Inv p free h =
      (ground (arith, h.0), (omega arith, h.1), h.2, Held-cons p.ceremony _ p.tasks h.3)

  pub arm_conditional-Inv : (p : Page) → Inv n k p → Inv n k (arm_conditional p)
  unfolding arm_conditional
  arm_conditional-Inv p h =
      elim (Bool-cases (not (is_email p.step) || p.cond_running || p.cond_disabled || p.loading)) [
        | inl off ↦ rw off h
        | inr on ↦ rw on (armed-Inv p (ground arith) h)
      ]

  mount_captcha-Inv : (p : Page) → Inv n k p → Inv n k (mount_captcha p)
  unfolding mount_captcha
  mount_captcha-Inv p h = elim (Bool-cases p.setting.has_captcha) [
    | inl yes' ↦ rw yes' h
    | inr no' ↦ rw no' h
  ]

  pub show-Inv : (name : Step) (p : Page) → Inv n k p → Inv n k (show name p)
  unfolding show
  show-Inv Step.email p h =
      arm_conditional-Inv _ (mount_captcha-Inv (record p { step = Step.email }) h)
  show-Inv _ p h = h

  -- `setLoading` is what restores the mirror: it may be off before.
  pub set_loading-Inv :
      (on : Bool) (p : Page)
      → Lock k p
      → Fresh p
      → Slot p
      → n ≤ p.attempt
      → Inv n k (set_loading on p)
  unfolding set_loading
  set_loading-Inv true p lock fresh slot since = (lock, fresh, ((refl, refl, refl), since), slot)
  set_loading-Inv false p lock fresh slot since = elim (Bool-cases (is_email p.step)) [
    | inl here ↦ rw here (
        arm_conditional-Inv (set_controls false p) (lock, fresh, ((refl, refl, refl), since), slot))
    | inr away ↦ rw away (lock, fresh, ((refl, refl, refl), since), slot)
  ]

  pub loading-Inv : (on : Bool) (p : Page) → Inv n k p → Inv n k (set_loading on p)
  loading-Inv on p h = set_loading-Inv on p h.0 h.1 h.3 h.2.1
