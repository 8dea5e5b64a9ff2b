-- ===== src/Base/Results.antt =====
-- Rust's `Result`, and computations over a host's state that may fail: what was done before an
-- error stays done, so the state comes back beside the error too.
use mathlib.Core.Path.{◌≡◌, refl, ap}

pub data Result {ℓ κ} (E : Type ℓ) (A : Type κ) : Type (ℓ ⊔ κ) where
  ok : A → Result E A
  err : E → Result E A

infixl 5 ◌>>=◌
abbrev pub ◌>>=◌ {ℓ κ μ} :
    {E : Type ℓ} {A : Type κ} {B : Type μ} → Result E A → (A → Result E B) → Result E B
ok a >>= f = f a
err e >>= f = err e

-- `Result::map_err`
abbrev pub map_err {ℓ κ μ} :
    {E : Type ℓ} {F : Type κ} {A : Type μ} → (E → F) → Result E A → Result F A
map_err f (ok a) = ok a
map_err f (err e) = err (f e)

infixl 5 ◌>>◌
abbrev pub ◌>>◌ {ℓ κ} : {E : Type ℓ} {B : Type κ} → Result E (Unit {0}) → Result E B → Result E B
m >> k = m >>= λ _. k

-- Inversion of a successful bind.
pub >>=-eq-ok {ℓ κ μ} :
    {E : Type ℓ} {A : Type κ} {B : Type μ} (r : Result E A) (next : A → Result E B) {result : B}
    → (r >>= next) ≡ ok result
    → (value : A) × (r ≡ ok value) × (next value ≡ ok result)
>>=-eq-ok (err e) next h = cc
>>=-eq-ok (ok value) next h = (value, refl, h)

pub map_err-eq-ok {ℓ κ μ} :
    {E : Type ℓ} {F : Type κ} {A : Type μ} (f : E → F) (r : Result E A) {a : A}
    → map_err f r ≡ ok a
    → r ≡ ok a
map_err-eq-ok f (ok a) h = cc
map_err-eq-ok f (err e) h = cc

value_or {ℓ κ} : {E : Type ℓ} {A : Type κ} → A → Result E A → A
value_or d (ok a) = a
value_or d (err e) = d

pub ok-injective {ℓ κ} :
    {E : Type ℓ} {A : Type κ} {a b : A} → Path (Result E A) (ok a) (ok b) → a ≡ b
unfolding value_or
ok-injective {a} {b} h = ap (value_or a) h
