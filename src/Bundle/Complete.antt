-- ===== src/Bundle/Complete.antt =====
-- Every package that the bundle may ship is named with its licence.
use oxidt_kit.Kit.{
  ℕ, zero, suc, ◌≡◌, refl, sym, ap, subst, ◌∙◌, ◌⊎◌, inl, inr, Bool, true, false, Bool-cases, Text,
  text_eq, text_eq_sound, text_eq_refl, Option, none, some, List, [], ◌∷◌, All, All-map, arith,
  if◌then◌else◌,
}
use oxidt_kit.Bundle.{
  Package, Registry, State, Result, done, has, set_notice, visit_all, noticed, with_package,
  license, collect,
}
use oxidt_kit.Bundle.Listed.{
  is_listed, set_notice-listed, set_notice-kept, done-done, some-some, bind-done,
}

module _ (registry : Registry) where
  -- The dependencies of `x` are collected.
  abbrev IsExpanded : Text → State → Type 0
  IsExpanded x s =
      (pkg : Package) → registry x ≡ some pkg → All (λ d. has d s.packages ≡ true) pkg.dependencies

  -- Every collected package has its notice.
  abbrev IsNoticed : State → Type 0
  IsNoticed s =
      (x : Text)
      → has x s.packages ≡ true
      → (pkg : Package) × (registry x ≡ some pkg) × (is_listed pkg.license x s.notices ≡ true)

  -- What a visit does: packages stay, and those that come are expanded.
  pub record Grows (s t : State) : Type 0 where
    pub kept : (x : Text) → has x s.packages ≡ true → has x t.packages ≡ true
    pub expanded : (x : Text) → has x t.packages ≡ true → (has x s.packages ≡ true) ⊎ IsExpanded x t
    pub noticed_too : IsNoticed s → IsNoticed t

  Grows-refl : (s : State) → Grows s s
  Grows-refl s = record { kept = λ x h. h; expanded = λ x h. inl h; noticed_too = λ h. h }

  IsExpanded-kept :
      (x : Text) (s t : State)
      → ((y : Text) → has y s.packages ≡ true → has y t.packages ≡ true)
      → IsExpanded x s
      → IsExpanded x t
  IsExpanded-kept x s t kept h = λ pkg e. All-map _ _ pkg.dependencies kept (h pkg e)

  Grows-trans : {s t u : State} → Grows s t → Grows t u → Grows s u
  Grows-trans {s} {t} {u} g h = record {
    kept = λ x k. h.kept x (g.kept x k);
    expanded = λ x k. elim (h.expanded x k) [
      | inl in_t ↦ elim (g.expanded x in_t) [
        | inl in_s ↦ inl in_s
        | inr e ↦ inr (IsExpanded-kept x t u h.kept e)
      ]
      | inr e ↦ inr e
    ];
    noticed_too = λ k. h.noticed_too (g.noticed_too k);
  }

  -- What a function on one package promises, where it succeeds.
  abbrev Visits : (Text → State → Result) → Type 0
  Visits f = (x : Text) (s t : State) → f x s ≡ done t → Grows s t × (has x t.packages ≡ true)

  visit_all-Grows :
      (f : Text → State → Result)
      → Visits f
      → (ds : List Text) (s t : State) → visit_all f ds s ≡ done t
      → Grows s t × All (λ d. has d t.packages ≡ true) ds
  visit_all-Grows f v [] s t e = (subst (Grows s) (done-done e) (Grows-refl s), tt)
  visit_all-Grows f v (d ∷ ds) s t e =
      let (u, first, rest) = bind-done (f d s) (visit_all f ds) t e in
      let (g, has_d) = v d s u first in
      let (h, all_ds) = visit_all-Grows f v ds u t rest in
      (Grows-trans g h, (h.kept d has_d, all_ds))

  -- The package itself, before its dependencies.
  noticed-IsNoticed :
      (x : Text) (pkg : Package) (s : State)
      → registry x ≡ some pkg
      → IsNoticed s
      → IsNoticed (noticed x pkg s)
  noticed-IsNoticed x pkg s e h = λ y k. elim (Bool-cases (text_eq y x)) [
    | inl same ↦ (
      pkg,
      ap registry (text_eq_sound y x same) ∙ e,
      subst (λ z. is_listed pkg.license z (set_notice pkg.license x s.notices) ≡ true)
          (sym (text_eq_sound y x same)) (set_notice-listed pkg.license x s.notices),
    )
    | inr other ↦
        let (old, found, listed) = h y (ground (arith, k, other)) in
        (old, found, set_notice-kept pkg.license x old.license y s.notices listed)
  ]

  visited-Grows :
      (x : Text) (pkg : Package) (s t : State)
      → registry x ≡ some pkg
      → Grows (noticed x pkg s) t
      → All (λ d. has d t.packages ≡ true) pkg.dependencies
      → Grows s t × (has x t.packages ≡ true)
  visited-Grows x pkg s t e g all_ds = (
    record {
      kept = λ y h. g.kept y (ground (arith, h));
      expanded = λ y h. elim (g.expanded y h) [
        | inl in_noticed ↦ elim (Bool-cases (text_eq y x)) [
          | inl same ↦ inr (λ other_pkg found.
              let same_pkg =
                some-some (sym e ∙ (ap registry (sym (text_eq_sound y x same)) ∙ found)) in
              subst (λ (q : Package). All (λ d. has d t.packages ≡ true) q.dependencies) same_pkg
                all_ds)
          | inr other ↦ inl (ground (arith, in_noticed, other))
        ]
        | inr done_ ↦ inr done_
      ];
      noticed_too = λ h. g.noticed_too (noticed-IsNoticed x pkg s e h);
    },
    g.kept x (ground (arith, text_eq_refl x)),
  )

  with_package-Grows :
      (f : Text → State → Result)
      → Visits f
      → (x : Text) (o : Option Package) (s t : State) → registry x ≡ o
      → with_package f x o s ≡ done t
      → Grows s t × (has x t.packages ≡ true)
  with_package-Grows f v x none s t found e = absurd (ground arith)
  with_package-Grows f v x (some pkg) s t found e =
      let (g, all_ds) = visit_all-Grows f v pkg.dependencies (noticed x pkg s) t e in
      visited-Grows x pkg s t found g all_ds

  unless-Grows :
      (b : Bool) (x : Text) (r : Result) (s t : State)
      → has x s.packages ≡ b
      → (if b then done s else r) ≡ done t
      → (r ≡ done t → Grows s t × (has x t.packages ≡ true))
      → Grows s t × (has x t.packages ≡ true)
  unless-Grows true x r s t h e k =
      subst (λ u. Grows s u × (has x u.packages ≡ true)) (done-done e) (Grows-refl s, h)
  unless-Grows false x r s t h e k = k e

  pub license-Visits : (n : ℕ) → Visits (license registry n)
  unfolding license
  license-Visits zero x s t e = absurd (ground arith)
  license-Visits (suc n) x s t e =
      unless-Grows (has x s.packages) x (with_package (license registry n) x (registry x) s) s t
        refl e
        (λ k. with_package-Grows (license registry n) (license-Visits n) x (registry x) s t refl k)

  -- A package that the bundle may hold: one that package.json names, or a dependency of one.
  pub data IsShipped (roots : List Text) : Text → Type 0 where
    root : (x : Text) → has x roots ≡ true → IsShipped roots x
    dependency :
        (x y : Text) (pkg : Package)
        → IsShipped roots x
        → registry x ≡ some pkg
        → has y pkg.dependencies ≡ true
        → IsShipped roots y

  All-has : (P : Text → Type 0) (xs : List Text) → All P xs → (x : Text) → has x xs ≡ true → P x
  All-has P [] h x e = absurd (ground arith)
  All-has P (y ∷ ys) h x e = elim (Bool-cases (text_eq x y)) [
    | inl same ↦ subst P (sym (text_eq_sound x y same)) h.0
    | inr other ↦ All-has P ys h.1 x (ground (arith, e, other))
  ]

  shipped-has :
      {roots : List Text} {t : State}
      → Grows (record { packages = []; notices = [] }) t
      → All (λ d. has d t.packages ≡ true) roots
      → {x : Text} → IsShipped roots x
      → has x t.packages ≡ true
  shipped-has {roots} g h (root x k) = All-has _ roots h x k
  shipped-has g h (dependency x y pkg k found d) = elim (g.expanded x (shipped-has g h k)) [
    | inl before ↦ absurd (ground arith)
    | inr e ↦ All-has _ pkg.dependencies (e pkg found) y d
  ]

  -- No package is left out: where the script collects the notices without an error, every package
  -- that package.json names, and every dependency of one of those, at any depth, can be read and is
  -- named under its licence in what is collected, however the packages depend on each other.
  pub collect_complete :
      (n : ℕ) (roots : List Text) (t : State)
      → collect registry n roots ≡ done t
      → (x : Text) → IsShipped roots x
      → (pkg : Package) × (registry x ≡ some pkg) × (is_listed pkg.license x t.notices ≡ true)
  unfolding collect
  collect_complete n roots t e x shipped =
      let start : State = record { packages = []; notices = [] } in
      let (g, all_roots) =
        visit_all-Grows (license registry n) (license-Visits n) roots start t e in
      g.noticed_too (λ y k. absurd (ground arith)) x (shipped-has g all_roots shipped)
