-- ===== src/Base/Lists.antt =====
-- Lists measured by native numbers, and predicates on all members by recursion.
use Prim.Native.Nat.{ℕ, zero, suc, ◌+◌, ◌-◌, ◌≤◌, ◌<◌}
use mathlib.Core.Logic.{◌↔◌, ◌⊎◌, inl, inr}
use mathlib.Core.Path.{◌≡◌, refl, sym, ap, ◌∙◌, subst}
use mathlib.Core.Bool.{Bool, true, false, ◌&&◌}
use mathlib.Core.List.{List, [], ◌∷◌, ◌++◌, map, reverse, reverse-cons, reverse-reverse}
use mathlib.Core.Option.{Option, none, some}
use native.Mathlib.Omega.{arith}
use cc_switch_core.Base.Tests.{if◌then◌else◌}

module _ {ℓ} {A : Type ℓ} where
  abbrev pub length : List A → ℕ
  length [] = 0
  length (x ∷ xs) = suc (length xs)

  abbrev pub get_elem? : List A → ℕ → Option A
  get_elem? [] i = none
  get_elem? (x ∷ xs) zero = some x
  get_elem? (x ∷ xs) (suc i) = get_elem? xs i

  pub length-append : (xs ys : List A) → length (xs ++ ys) ≡ length xs + length ys
  length-append [] ys = omega arith
  length-append (x ∷ xs) ys = omega (arith, length-append xs ys)

  -- Whether every element passes a test.
  abbrev pub all : (A → Bool) → List A → Bool
  all p [] = true
  all p (x ∷ xs) = p x && all p xs

  -- The first element that passes a test.
  abbrev pub find : (A → Bool) → List A → Option A
  find p [] = none
  find p (x ∷ xs) = if p x then some x else find p xs

  abbrev pub is_empty : List A → Bool
  is_empty [] = Bool.true
  is_empty (x ∷ xs) = false

  pub is_empty_iff : (xs : List A) → (is_empty xs ≡ false) ↔ (0 < length xs)
  is_empty_iff [] = ((λ h. cc), (λ h. elim h [ ]))
  is_empty_iff (x ∷ xs) = ((λ h. omega arith), (λ h. refl))

zero_add : (n : ℕ) → 0 + n ≡ n
zero_add n = omega arith

suc_add : (m n : ℕ) → suc m + n ≡ suc (m + n)
suc_add m n = omega arith

module _ {ℓ} {A : Type ℓ} where
  -- The suffix of a list at a position, `&list[n..]`, and its prefix, `&list[..n]`.
  abbrev pub drop : ℕ → List A → List A
  drop zero xs = xs
  drop (suc n) [] = []
  drop (suc n) (x ∷ xs) = drop n xs

  abbrev pub take : ℕ → List A → List A
  take zero xs = []
  take (suc n) [] = []
  take (suc n) (x ∷ xs) = x ∷ take n xs

  -- `&list[start..end]`
  abbrev pub slice : ℕ → ℕ → List A → List A
  slice start end xs = take (end - start) (drop start xs)

  take_nil : (n : ℕ) → take n [] ≡ []
  take_nil zero = refl
  take_nil (suc n) = refl

  drop_nil : (n : ℕ) → drop n [] ≡ []
  drop_nil zero = refl
  drop_nil (suc n) = refl

  pub drop-drop : (m n : ℕ) (xs : List A) → drop (m + n) xs ≡ drop n (drop m xs)
  drop-drop zero n xs = ap (λ k. drop k xs) (zero_add n)
  drop-drop (suc m) n [] = drop_nil (suc m + n) ∙ sym (drop_nil n)
  drop-drop (suc m) n (x ∷ xs) = ap (λ k. drop k (x ∷ xs)) (suc_add m n) ∙ drop-drop m n xs

  abbrev pub head? : List A → Option A
  head? [] = none
  head? (x ∷ xs) = some x

  pub length-drop-le : (n : ℕ) (xs : List A) → length (drop n xs) ≤ length xs
  length-drop-le zero xs = omega arith
  length-drop-le (suc n) [] = omega arith
  length-drop-le (suc n) (x ∷ xs) = omega (arith, length-drop-le n xs)

  -- An element at a position is before the end.
  pub head?-drop-lt : (n : ℕ) (xs : List A) {x : A} → head? (drop n xs) ≡ some x → n < length xs
  head?-drop-lt zero [] h = cc
  head?-drop-lt zero (x ∷ xs) h = omega arith
  head?-drop-lt (suc n) [] h = cc
  head?-drop-lt (suc n) (x ∷ xs) h = omega (arith, head?-drop-lt n xs h)

  pub length-drop : (n : ℕ) (xs : List A) → n ≤ length xs → n + length (drop n xs) ≡ length xs
  length-drop zero xs h = omega arith
  length-drop (suc n) [] h = omega arith
  length-drop (suc n) (x ∷ xs) h = omega (arith, length-drop n xs)

  pub length-take-le : (n : ℕ) (xs : List A) → length (take n xs) ≤ length xs
  length-take-le zero xs = omega arith
  length-take-le (suc n) [] = omega arith
  length-take-le (suc n) (x ∷ xs) = omega (arith, length-take-le n xs)

  -- A position with an element after it counts the elements before it.
  pub length-take :
      (n : ℕ) (xs : List A) {y : A} {ys : List A} → drop n xs ≡ y ∷ ys → length (take n xs) ≡ n
  length-take zero xs h = refl
  length-take (suc n) [] h = cc
  length-take (suc n) (x ∷ xs) h = ap suc (length-take n xs h)

  pub length-of_drop :
      (n : ℕ) (xs : List A) {y : A} {ys : List A}
      → drop n xs ≡ y ∷ ys
      → length xs ≡ n + suc (length ys)
  length-of_drop zero xs h = ap length h ∙ omega arith
  length-of_drop (suc n) [] h = cc
  length-of_drop (suc n) (x ∷ xs) h = omega (arith, length-of_drop n xs h)

  pub take_add : (m n : ℕ) (xs : List A) → take (m + n) xs ≡ take m xs ++ take n (drop m xs)
  take_add zero n xs = ap (λ k. take k xs) (zero_add n)
  take_add (suc m) n [] = take_nil (suc m + n) ∙ sym (take_nil n)
  take_add (suc m) n (x ∷ xs) =
      ap (λ k. take k (x ∷ xs)) (suc_add m n) ∙ ap (λ l. x ∷ l) (take_add m n xs)

  pub drop-append : (xs ys : List A) → drop (length xs) (xs ++ ys) ≡ ys
  drop-append [] ys = refl
  drop-append (x ∷ xs) ys = drop-append xs ys

  pub take-append : (xs ys : List A) → take (length xs) (xs ++ ys) ≡ xs
  take-append [] ys = refl
  take-append (x ∷ xs) ys = ap (λ l. x ∷ l) (take-append xs ys)

-- To split on a computed list and keep the equation.
pub List-cases {ℓ} : {A : Type ℓ} (l : List A) → (l ≡ []) ⊎ ((x : A) × (xs : List A) × (l ≡ x ∷ xs))
List-cases [] = inl refl
List-cases (x ∷ xs) = inr (x, xs, refl)

module _ {ℓ κ} {A : Type ℓ} where
  -- Every member satisfies a predicate.
  abbrev pub All : (A → Type κ) → List A → Type κ
  All P [] = Unit
  All P (x ∷ xs) = P x × All P xs

  pub All-append : (P : A → Type κ) (xs ys : List A) → All P xs → All P ys → All P (xs ++ ys)
  All-append P [] ys h k = k
  All-append P (x ∷ xs) ys h k = (h.0, All-append P xs ys h.1 k)

  pub All-left : (P : A → Type κ) (xs ys : List A) → All P (xs ++ ys) → All P xs
  All-left P [] ys h = tt
  All-left P (x ∷ xs) ys h = (h.0, All-left P xs ys h.1)

  pub All-right : (P : A → Type κ) (xs ys : List A) → All P (xs ++ ys) → All P ys
  All-right P [] ys h = h
  All-right P (x ∷ xs) ys h = All-right P xs ys h.1

  pub All-reverse : (P : A → Type κ) (xs : List A) → All P xs → All P (reverse xs)
  All-reverse P [] h = tt
  All-reverse P (x ∷ xs) h =
      rw (reverse-cons x xs) (All-append P (reverse xs) (x ∷ []) (All-reverse P xs h.1) (h.0, tt))

  pub All-of_reverse : (P : A → Type κ) (xs : List A) → All P (reverse xs) → All P xs
  All-of_reverse P xs h = subst (All P) (reverse-reverse xs) (All-reverse P (reverse xs) h)

module _ {ℓ κ μ} {A : Type ℓ} {B : Type κ} where
  pub All-map :
      (P : B → Type μ) (f : A → B) (xs : List A) → All (λ x. P (f x)) xs → All P (map f xs)
  All-map P f [] h = tt
  All-map P f (x ∷ xs) h = (h.0, All-map P f xs h.1)

  pub All-of_map :
      (P : B → Type μ) (f : A → B) (xs : List A) → All P (map f xs) → All (λ x. P (f x)) xs
  All-of_map P f [] h = tt
  All-of_map P f (x ∷ xs) h = (h.0, All-of_map P f xs h.1)

module _ {ℓ κ μ} {A : Type ℓ} where
  pub All-mono :
      (P : A → Type κ) (Q : A → Type μ) (xs : List A) → ((x : A) → P x → Q x) → All P xs → All Q xs
  All-mono P Q [] f h = tt
  All-mono P Q (x ∷ xs) f h = (f x h.0, All-mono P Q xs f h.1)

module _ {ℓ κ} {A : Type ℓ} where
  pub All-always : (P : A → Type κ) (xs : List A) → ((x : A) → P x) → All P xs
  All-always P [] f = tt
  All-always P (x ∷ xs) f = (f x, All-always P xs f)
