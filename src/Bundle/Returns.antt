-- ===== src/Bundle/Returns.antt =====
-- The collection of the notices ends, also where packages depend on each other in a circle.
use oxidt_kit.Kit.{
  ℕ, zero, suc, ◌+◌, ◌≤◌, ◌<◌, ◌≡◌, refl, subst, ap, Bool, true, false, Bool-cases, inl, inr, Text,
  text_eq, text_eq_sound, text_eq_refl, some, List, [], ◌∷◌, All, length, arith,
}
use oxidt_kit.Bundle.{
  Package, Registry, State, Result, done, has, bind, visit_all, noticed, license, collect,
}
use oxidt_kit.Bundle.Complete.{license-Visits}

abbrev flag : Bool → ℕ
flag true = 0
flag false = 1

-- How many names of `xs` are not collected.
abbrev missing : List Text → List Text → ℕ
missing [] ps = 0
missing (x ∷ xs) ps = flag (has x ps) + missing xs ps

flag-kept : (a b : Bool) → (a ≡ true → b ≡ true) → flag b ≤ flag a
flag-kept true b h = rw (h refl) (omega arith)
flag-kept false true h = omega arith
flag-kept false false h = omega arith

missing-kept :
    (xs ps qs : List Text)
    → ((x : Text) → has x ps ≡ true → has x qs ≡ true)
    → missing xs qs ≤ missing xs ps
missing-kept [] ps qs h = omega arith
missing-kept (x ∷ xs) ps qs h =
    omega (arith, flag-kept (has x ps) (has x qs) (h x), missing-kept xs ps qs h)

missing-new :
    (xs ps : List Text) (x : Text)
    → has x xs ≡ true
    → has x ps ≡ false
    → missing xs (x ∷ ps) < missing xs ps
missing-new [] ps x h new = absurd (ground arith)
missing-new (y ∷ ys) ps x h new = elim (Bool-cases (text_eq x y)) [
  | inl same ↦
      let e = text_eq_sound x y same in
      let now : has y (x ∷ ps) ≡ true =
        subst (λ z. has z (x ∷ ps) ≡ true) e (ground (arith, text_eq_refl x)) in
      let before : has y ps ≡ false = subst (λ z. has z ps ≡ false) e new in
      omega
        (arith, ap flag now, ap flag before, missing-kept ys ps (x ∷ ps) (λ z k. ground (arith, k)))
  | inr other ↦ omega (
    arith,
    missing-new ys ps x (ground (arith, h, other)) new,
    flag-kept (has y ps) (has y (x ∷ ps)) (λ k. ground (arith, k)),
  )
]

flag-le : (b : Bool) → flag b ≤ 1
flag-le true = omega arith
flag-le false = omega arith

missing-length : (xs ps : List Text) → missing xs ps ≤ length xs
missing-length [] ps = omega arith
missing-length (x ∷ xs) ps = omega (arith, missing-length xs ps, flag-le (has x ps))

-- `xs` names packages that can be read, and all of their dependencies.
pub record IsClosed (registry : Registry) (xs : List Text) : Type 0 where
  pub readable : (x : Text) → has x xs ≡ true → (pkg : Package) × (registry x ≡ some pkg)
  pub dependent :
      (x : Text) (pkg : Package)
      → has x xs ≡ true
      → registry x ≡ some pkg
      → All (λ d. has d xs ≡ true) pkg.dependencies

pub data IsDone : Result → Type 0 where
  is_done : (s : State) → IsDone (done s)

module _ (registry : Registry) (xs : List Text) (closed : IsClosed registry xs) where
  abbrev Returns : (n : ℕ) → (Text → State → Result) → Type 0
  Returns n f =
      (x : Text) (s : State) → has x xs ≡ true → missing xs s.packages < n → IsDone (f x s)

  bind-IsDone :
      (n m : ℕ) (d : Text) (s : State) (f : State → Result) (q : Result)
      → missing xs s.packages < n
      → ((t : State) → missing xs t.packages < n → IsDone (f t))
      → license registry m d s ≡ q
      → IsDone q
      → IsDone (bind q f)
  bind-IsDone n m d s f q lt k e (is_done t) =
      let (g, in_t) = license-Visits registry m d s t e in
      k t (omega (arith, lt, missing-kept xs s.packages t.packages g.kept))

  visit_all-IsDone :
      (n m : ℕ) (ds : List Text) (s : State)
      → Returns n (license registry m)
      → All (λ d. has d xs ≡ true) ds
      → missing xs s.packages < n
      → IsDone (visit_all (license registry m) ds s)
  visit_all-IsDone n m [] s r h lt = is_done s
  visit_all-IsDone n m (d ∷ ds) s r h lt =
      bind-IsDone n m d s (visit_all (license registry m) ds) (license registry m d s) lt
        (λ t less. visit_all-IsDone n m ds t r h.1 less) refl (r d s h.0 lt)

  license-Returns : (n : ℕ) → Returns n (license registry n)
  unfolding license
  license-Returns zero x s h lt = absurd (omega arith)
  license-Returns (suc n) x s h lt = elim (Bool-cases (has x s.packages)) [
    | inl old ↦ rw old (is_done s)
    | inr new ↦
        let (pkg, found) = closed.readable x h in
        rw (new, found)
          (visit_all-IsDone n n pkg.dependencies (noticed x pkg s) (license-Returns n)
            (closed.dependent x pkg h found) (omega (arith, lt, missing-new xs s.packages x h new)))
  ]

  -- The collection ends with the notices, with fuel for one call more than there are packages: where
  -- the packages that package.json names and their dependencies are finitely many and can be read,
  -- the script neither runs on nor fails, though packages may depend on each other in a circle.
  pub collect-IsDone :
      (roots : List Text)
      → All (λ d. has d xs ≡ true) roots
      → IsDone (collect registry (suc (length xs)) roots)
  unfolding collect
  collect-IsDone roots h =
      visit_all-IsDone (suc (length xs)) (suc (length xs)) roots
        (record { packages = []; notices = [] }) (license-Returns (suc (length xs))) h
        (omega (arith, missing-length xs []))
