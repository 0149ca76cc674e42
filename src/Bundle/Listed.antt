-- ===== src/Bundle/Listed.antt =====
-- What is listed under a licence, and what a result is.
use oxidt_kit.Kit.{
  ◌≡◌, refl, ap, ◌||◌, ◌&&◌, Bool, true, false, Text, text_eq, text_eq_refl, Option, none, some,
  List, [], ◌∷◌, ◌++◌, arith,
}
use oxidt_kit.Bundle.{Package, State, Result, done, throws, out_of_fuel, has, set_notice, bind}

-- `x` is named under the licence `t`.
abbrev pub is_listed : Text → Text → List (Text × List Text) → Bool
is_listed t x [] = false
is_listed t x ((u, names) ∷ m) = (text_eq u t && has x names) || is_listed t x m

pub has-last : (x : Text) (xs : List Text) → has x (xs ++ x ∷ []) ≡ true
has-last x [] = rw (text_eq_refl x) refl
has-last x (y ∷ ys) = ground (arith, has-last x ys)

pub has-append : (x y : Text) (xs : List Text) → has x xs ≡ true → has x (xs ++ y ∷ []) ≡ true
has-append x y [] h = absurd (ground arith)
has-append x y (z ∷ zs) h = ground (arith, has-append x y zs)

pub set_notice-listed :
    (t x : Text) (m : List (Text × List Text)) → is_listed t x (set_notice t x m) ≡ true
set_notice-listed t x [] = rw (text_eq_refl t, text_eq_refl x) refl
set_notice-listed t x ((u, names) ∷ m) = ground (arith, set_notice-listed t x m, has-last x names)

pub set_notice-kept :
    (t x u y : Text) (m : List (Text × List Text))
    → is_listed u y m ≡ true
    → is_listed u y (set_notice t x m) ≡ true
set_notice-kept t x u y [] h = absurd (ground arith)
set_notice-kept t x u y ((w, names) ∷ m) h =
    ground (arith, set_notice-kept t x u y m, has-append y x names)

abbrev state_of : State → Result → State
state_of s (done t) = t
state_of s _ = s

pub done-done : {s t : State} → done s ≡ done t → s ≡ t
done-done {s} e = ap (state_of s) e

package_of : Package → Option Package → Package
package_of p none = p
package_of p (some q) = q

pub some-some : {p q : Package} → some p ≡ some q → p ≡ q
unfolding package_of
some-some {p} e = ap (package_of p) e

pub bind-done :
    (r : Result) (f : State → Result) (t : State)
    → bind r f ≡ done t
    → (u : State) × (r ≡ done u) × (f u ≡ done t)
bind-done (done s) f t e = (s, refl, e)
bind-done throws f t e = absurd (ground arith)
bind-done out_of_fuel f t e = absurd (ground arith)
