-- ===== src/Base/Equality.antt =====
-- Decidable equality as an interface (Rust's `Eq`), and its instances.
use Prim.Native.Nat.{ℕ}
use Prim.Native.String.{String}
use mathlib.Core.Path.{◌≡◌, refl, ap}
use mathlib.Core.Logic.{◌↔◌, ◌⊎◌, inl, inr}
use mathlib.Core.Bool.{Bool, true, false, ◌&&◌, ◌||◌}
use mathlib.Core.List.{List, [], ◌∷◌}
use mathlib.Core.Option.{Option, none, some}
use native.Mathlib.Omega.{arith}
use text.Mathlib.Text.{◌==◌ as str_beq}
use text.Mathlib.TextEquality.{eq_iff}
use cc_switch_core.Base.Tests.{nat_beq, nat_beq_iff, Bool-cases}

pub record Eq {ℓ} (A : Type ℓ) : Type ℓ where
  pub eqb : A → A → Bool
  pub eqb_iff : (a b : A) → (eqb a b ≡ true) ↔ (a ≡ b)

infix 50 ◌==◌
abbrev pub ◌==◌ {ℓ} : {A : Type ℓ} ⦃e : Eq A⦄ → A → A → Bool
◌==◌ ⦃e⦄ = e.eqb

instance abbrev pub string_eq : Eq String
string_eq = record { eqb = str_beq; eqb_iff = eq_iff }

instance abbrev pub nat_eq : Eq ℕ
nat_eq = record { eqb = nat_beq; eqb_iff = nat_beq_iff }

-- Equality of an enumeration, by an injective numbering.
pub index_beq_iff {ℓ} :
    {A : Type ℓ} (index : A → ℕ)
    → ((a b : A) → index a ≡ index b → a ≡ b)
    → (a b : A) → (nat_beq (index a) (index b) ≡ true) ↔ (a ≡ b)
index_beq_iff index inj a b =
    (λ h. inj a b ((nat_beq_iff _ _).0 h), λ e. (nat_beq_iff _ _).1 (ap index e))

module _ {ℓ} {A : Type ℓ} ⦃e : Eq A⦄ where
  abbrev pub list_beq : List A → List A → Bool
  list_beq [] [] = true
  list_beq [] (y ∷ ys) = false
  list_beq (x ∷ xs) [] = false
  list_beq (x ∷ xs) (y ∷ ys) = x == y && list_beq xs ys

  list_beq_sound : (xs ys : List A) → list_beq xs ys ≡ true → xs ≡ ys
  list_beq_sound [] [] h = refl
  list_beq_sound [] (y ∷ ys) h = cc
  list_beq_sound (x ∷ xs) [] h = cc
  list_beq_sound (x ∷ xs) (y ∷ ys) h = ground (arith, e.eqb_iff x y, list_beq_sound xs ys)

  pub beq_refl : (a : A) → (a == a) ≡ true
  beq_refl a = (e.eqb_iff a a).1 refl

  list_beq_refl : (xs : List A) → list_beq xs xs ≡ true
  list_beq_refl [] = refl
  list_beq_refl (x ∷ xs) = rw (beq_refl x) (list_beq_refl xs)

  pub list_beq_iff : (xs ys : List A) → (list_beq xs ys ≡ true) ↔ (xs ≡ ys)
  list_beq_iff xs ys = (list_beq_sound xs ys, λ p. rw p (list_beq_refl ys))

  abbrev pub option_beq : Option A → Option A → Bool
  option_beq none none = true
  option_beq none (some y) = false
  option_beq (some x) none = false
  option_beq (some x) (some y) = x == y

  pub option_beq_iff : (a b : Option A) → (option_beq a b ≡ true) ↔ (a ≡ b)
  option_beq_iff none none = ground arith
  option_beq_iff none (some y) = ground arith
  option_beq_iff (some x) none = ground arith
  option_beq_iff (some x) (some y) = ground (arith, e.eqb_iff x y)

  -- Equality is decided.
  pub eq_or_ne : (a b : A) → (a ≡ b) ⊎ ¬ (a ≡ b)
  eq_or_ne a b = elim (Bool-cases (a == b)) [
    | inl h ↦ inl ((e.eqb_iff a b).0 h)
    | inr h ↦ inr (λ p. cc ((e.eqb_iff a b).1 p))
  ]

  -- Whether an element occurs in a list, by its equality test.
  abbrev pub contains : List A → A → Bool
  contains [] a = false
  contains (x ∷ xs) a = x == a || contains xs a

instance abbrev pub list_eq {ℓ} : {A : Type ℓ} ⦃e : Eq A⦄ → Eq (List A)
list_eq = record { eqb = list_beq; eqb_iff = list_beq_iff }

instance abbrev pub option_eq {ℓ} : {A : Type ℓ} ⦃e : Eq A⦄ → Eq (Option A)
option_eq = record { eqb = option_beq; eqb_iff = option_beq_iff }
