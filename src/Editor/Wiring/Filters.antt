-- ===== src/Editor/Wiring/Filters.antt =====
-- Filters of a list, one after another.
use oxidt_kit.Kit.{
  ◌≡◌, refl, sym, ◌∙◌, ◌&&◌, Bool, true, Bool-cases, inl, inr, List, [], ◌∷◌, All, arith,
}
use oxidt_kit.Editor.Wiring.{filter}

module _ {ℓ} {A : Type ℓ} where
  pub filter-filter :
      (f g : A → Bool) (xs : List A) → filter f (filter g xs) ≡ filter (λ x. g x && f x) xs
  filter-filter f g [] = refl
  filter-filter f g (x ∷ xs) = ground (arith, filter-filter f g xs)

  pub filter-cong :
      (f g : A → Bool) (xs : List A) → All (λ x. f x ≡ g x) xs → filter f xs ≡ filter g xs
  filter-cong f g [] h = refl
  filter-cong f g (x ∷ xs) h = rw (h.0, filter-cong f g xs h.1) refl

  pub filter-All {κ} :
      (P : A → Type κ) (f : A → Bool) (xs : List A) → All P xs → All P (filter f xs)
  filter-All P f [] h = tt
  filter-All P f (x ∷ xs) h = elim (Bool-cases (f x)) [
    | inl yes_ ↦ rw yes_ (h.0, filter-All P f xs h.1)
    | inr no_ ↦ rw no_ (filter-All P f xs h.1)
  ]

  pub every-All {κ} : {P : A → Type κ} → ((x : A) → P x) → (xs : List A) → All P xs
  every-All h [] = tt
  every-All h (x ∷ xs) = (h x, every-All h xs)

  -- One filter after another, the first of the list first.
  abbrev pub filters : List (A → Bool) → List A → List A
  filters [] xs = xs
  filters (f ∷ fs) xs = filters fs (filter f xs)

  abbrev pub passes : List (A → Bool) → A → Bool
  passes [] x = true
  passes (f ∷ fs) x = f x && passes fs x

  pub filter-true : (xs : List A) → filter (λ x. true) xs ≡ xs
  filter-true [] = refl
  filter-true (x ∷ xs) = rw (filter-true xs) refl

  pub filters-filter : (fs : List (A → Bool)) (xs : List A) → filters fs xs ≡ filter (passes fs) xs
  filters-filter [] xs = sym (filter-true xs)
  filters-filter (f ∷ fs) xs = filters-filter fs (filter f xs) ∙ filter-filter (passes fs) f xs
