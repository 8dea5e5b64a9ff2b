-- ===== src/Base/Repetition.antt =====
-- Lists without repetition, by an equality test.
use mathlib.Core.Path.{◌≡◌}
use mathlib.Core.Bool.{false}
use mathlib.Core.List.{List, [], ◌∷◌}
use cc_switch_core.Base.Equality.{Eq, contains}

abbrev pub Distinct {ℓ} : {A : Type ℓ} ⦃e : Eq A⦄ → List A → Type 0
Distinct [] = Unit
Distinct (x ∷ xs) = (contains xs x ≡ false) × Distinct xs
