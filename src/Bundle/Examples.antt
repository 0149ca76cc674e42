-- ===== src/Bundle/Examples.antt =====
-- Two packages that depend on each other.
use oxidt_kit.Kit.{suc, ◌≡◌, refl, subst, true, Text, codes, some, List, [], ◌∷◌, All, length}
use oxidt_kit.Bundle.{Package, Registry, State, done, has, license, collect, header}
use oxidt_kit.Bundle.Listed.{is_listed, some-some}
use oxidt_kit.Bundle.Complete.{root, dependency, collect_complete}
use oxidt_kit.Bundle.Returns.{IsClosed, IsDone, collect-IsDone}

abbrev both : List Text
both = codes "a" ∷ codes "b" ∷ []

abbrev circular : Package
circular = record { license = codes "MIT"; dependencies = both }

abbrev registry : Registry
registry x = some circular

abbrev roots : List Text
roots = codes "a" ∷ []

abbrev collected : State
collected = record {
  packages = codes "b" ∷ codes "a" ∷ [];
  notices = (codes "MIT", codes "a" ∷ codes "b" ∷ []) ∷ [];
}

collected_run : collect registry 3 roots ≡ done collected
unfolding collect license
collected_run = refl

header_test : header collected ≡ codes "/*!\na, b\n\nMIT\n*/\n"
unfolding header
header_test = refl

collect_complete_example :
    (pkg : Package) × (registry (codes "b") ≡ some pkg)
    × (is_listed pkg.license (codes "b") collected.notices ≡ true)
collect_complete_example =
    collect_complete registry 3 roots collected collected_run (codes "b")
      (dependency (codes "a") (codes "b") circular (root (codes "a") refl) refl refl)

both-IsClosed : IsClosed registry both
both-IsClosed = record {
  readable = λ x h. (circular, refl);
  dependent = λ x pkg h found.
      subst (λ (p : Package). All (λ d. has d both ≡ true) p.dependencies) (some-some found)
        (refl, (refl, tt));
}

collect-IsDone_example : IsDone (collect registry (suc (length both)) roots)
collect-IsDone_example = collect-IsDone registry both both-IsClosed roots (refl, tt)
