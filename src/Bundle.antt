-- ===== src/Bundle.antt =====
-- crates/oxidt-markdown-editor/scripts/build-editor.js: the notices of the packages that the bundle
-- ships, which the script collects from their licences before it writes the bundle. The bundler and
-- the files are not the script's: a registry gives the package that a name stands for.
pub mod Listed
pub mod Complete
pub mod Returns
mod Examples
use oxidt_kit.Kit.{
  ℕ, zero, suc, ◌||◌, Bool, true, false, Text, codes, text_eq, Option, none, some, List, [], ◌∷◌,
  ◌++◌, map, if◌then◌else◌,
}

-- The trimmed text of `LICENSE`, and `Object.keys(pkg.dependencies || {}).sort()`.
pub record Package : Type 0 where
  pub license : Text
  pub dependencies : List Text

-- `none` where a file cannot be read: the script throws.
abbrev pub Registry : Type 0
Registry = Text → Option Package

pub record State : Type 0 where
  pub packages : List Text  -- newest first
  pub notices : List (Text × List Text)  -- a licence and the packages under it

-- `out_of_fuel` is the model's own.
pub data Result : Type 0 where
  done : State → Result
  throws out_of_fuel : Result

-- `packages.has(x)`.
abbrev pub has : Text → List Text → Bool
has x [] = false
has x (y ∷ ys) = text_eq x y || has x ys

-- `notices.set(text, [...(notices.get(text) || []), name])`.
abbrev pub set_notice : Text → Text → List (Text × List Text) → List (Text × List Text)
set_notice t x [] = (t, x ∷ []) ∷ []
set_notice t x ((u, names) ∷ m) =
    let rest = set_notice t x m in
    if text_eq u t then (u, names ++ x ∷ []) ∷ m else (u, names) ∷ rest

abbrev pub bind : Result → (State → Result) → Result
bind (done s) f = f s
bind throws f = throws
bind out_of_fuel f = out_of_fuel

-- `for (const name of names) await license(name)`.
abbrev pub visit_all : (Text → State → Result) → List Text → State → Result
visit_all f [] s = done s
visit_all f (d ∷ ds) s = bind (f d s) (visit_all f ds)

abbrev pub noticed : Text → Package → State → State
noticed x pkg s = record { packages = x ∷ s.packages; notices = set_notice pkg.license x s.notices }

abbrev pub with_package : (Text → State → Result) → Text → Option Package → State → Result
with_package f x none s = throws
with_package f x (some pkg) s = visit_all f pkg.dependencies (noticed x pkg s)

-- `license(name)`, whose calls of itself are no deeper than the fuel.
unfoldable pub license : Registry → ℕ → Text → State → Result
license registry zero x s = out_of_fuel
license registry (suc n) x s =
    if has x s.packages then done s else with_package (license registry n) x (registry x) s

-- The packages that package.json names, one after the other.
unfoldable pub collect : Registry → ℕ → List Text → Result
unfolding license
collect registry n roots =
    visit_all (license registry n) roots (record { packages = []; notices = [] })

-- `names.join(sep)`.
abbrev pub join : Text → List Text → Text
join sep [] = []
join sep (x ∷ []) = x
join sep (x ∷ y ∷ xs) = x ++ (sep ++ join sep (y ∷ xs))

abbrev pub notice : Text × List Text → Text
notice (t, names) = join (codes ", ") names ++ (codes "\n\n" ++ t)

-- What is written before the bundle.
unfoldable pub header : State → Text
header s = codes "/*!\n" ++ (join (codes "\n\n---\n\n") (map notice s.notices) ++ codes "\n*/\n")
