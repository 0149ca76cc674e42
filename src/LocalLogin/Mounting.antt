-- ===== src/LocalLogin/Mounting.antt =====
-- The interval of `mountCaptcha` ends.
use oxidt_kit.Kit.{
  ℕ, zero, suc, ◌+◌, ◌≤◌, ◌≡◌, refl, ap, ◌∙◌, ltb, Bool, true, false, List, [], ◌∷◌, length, take,
  arith, if◌then◌else◌, ◌||◌,
}
use oxidt_kit.LocalLogin.Ui.{Mounting, scanned, gave_up, again, mount_round}

-- The interval after a round for each of the findings whether the widget's script is there.
unfoldable pub mount_rounds : List Bool → ℕ → Mounting
unfolding mount_round
mount_rounds [] tries = again tries
mount_rounds (found ∷ rest) tries = elim (mount_round found tries) [
  | scanned ↦ scanned
  | gave_up ↦ gave_up
  | again n ↦ mount_rounds rest n
]

abbrev pub any : List Bool → Bool
any [] = false
any (b ∷ bs) = b || any bs

abbrev pub ended : Bool → Mounting
ended found = if found then scanned else gave_up

abbrev after : Bool → List Bool → ℕ → Mounting
after b rest tries = elim (if b then gave_up else again (suc tries)) [
  | scanned ↦ scanned
  | gave_up ↦ gave_up
  | again n ↦ mount_rounds rest n
]

mount_rounds-ended :
    (findings : List Bool) (k tries : ℕ)
    → tries + suc k ≡ 101
    → suc k ≤ length findings
    → mount_rounds findings tries ≡ ended (any (take (suc k) findings))
unfolding mount_rounds mount_round
mount_rounds-ended [] k tries e le = absurd (omega arith)
mount_rounds-ended (true ∷ rest) k tries e le = refl
mount_rounds-ended (false ∷ rest) zero tries e le =
    let last : ltb 100 (suc tries) ≡ true = ground arith in ap (λ b. after b rest tries) last
mount_rounds-ended (false ∷ rest) (suc k) tries e le =
    let more : ltb 100 (suc tries) ≡ false = ground arith in
    ap (λ b. after b rest tries) more
    ∙ mount_rounds-ended rest k (suc tries) (omega arith) (omega arith)

-- The interval that mounts the captcha's widget ends within 101 rounds: it has mounted the widget
-- if the script was there in one of them, and has given up otherwise.
pub mounting_ends :
    (findings : List Bool)
    → 101 ≤ length findings
    → mount_rounds findings 0 ≡ ended (any (take 101 findings))
mounting_ends findings enough = mount_rounds-ended findings 100 0 refl enough
