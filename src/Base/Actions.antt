-- ===== src/Base/Actions.antt =====
-- Computations over a state that may fail: what was done before an error stays done, so the state
-- comes back beside the error too.
use mathlib.Core.Path.{◌≡◌, subst}
use cc_switch_core.Base.Results.{Result, ok, err, map_err}

module _ {ℓ κ μ} {S : Type ℓ} {E : Type κ} {A : Type μ} where
  abbrev pub continue {ν} :
      {B : Type ν} → Result E A × S → (A → S → Result E B × S) → Result E B × S
  continue (ok a, s) f = f a s
  continue (err e, s) f = (err e, s)

  -- The error of a result changed, its state kept.
  abbrev pub fail_with {ν} : {F : Type ν} → (E → F) → Result E A × S → Result F A × S
  fail_with f (r, s) = (map_err f r, s)

  -- What holds of a result: one predicate for success, one for failure.
  abbrev pub Post {ν} : (A → S → Type ν) → (E → S → Type ν) → Result E A × S → Type ν
  Post Q R (ok a, s) = Q a s
  Post Q R (err e, s) = R e s

module _ {ℓ κ μ ν ξ} {S : Type ℓ} {E : Type κ} {A : Type μ} {B : Type ν} where
  pub Post-continue :
      (Q : A → S → Type ξ) (R : E → S → Type ξ) (Q' : B → S → Type ξ) (r : Result E A × S)
      (f : A → S → Result E B × S)
      → Post Q R r
      → ((a : A) (s : S) → Q a s → Post Q' R (f a s))
      → Post Q' R (continue r f)
  Post-continue Q R Q' (ok a, s) f h k = k a s h
  Post-continue Q R Q' (err e, s) f h k = h

module _ {ℓ κ μ ν ξ} {S : Type ℓ} {E : Type κ} {F : Type ν} {A : Type μ} where
  pub Post-fail_with :
      (Q : A → S → Type ξ) (R : E → S → Type ξ) (R' : F → S → Type ξ) (f : E → F)
      (r : Result E A × S)
      → Post Q R r
      → ((e : E) (s : S) → R e s → R' (f e) s)
      → Post Q R' (fail_with f r)
  Post-fail_with Q R R' f (ok a, s) h k = h
  Post-fail_with Q R R' f (err e, s) h k = k e s h

module _ {ℓ κ μ ν} {S : Type ℓ} {E : Type κ} {A : Type μ} (Q : A → S → Type ν)
    (R : E → S → Type ν) where
  pub Post-ok : {r : Result E A × S} {a : A} {s : S} → Post Q R r → r ≡ (ok a, s) → Q a s
  Post-ok h e = subst (Post Q R) e h

  pub Post-err : {r : Result E A × S} {e : E} {s : S} → Post Q R r → r ≡ (err e, s) → R e s
  Post-err h p = subst (Post Q R) p h

module _ {ℓ κ μ ν ξ} {S : Type ℓ} {E : Type κ} {A : Type μ} where
  pub Post-mono :
      (Q : A → S → Type ν) (R : E → S → Type ν) (Q' : A → S → Type ξ) (R' : E → S → Type ξ)
      (r : Result E A × S)
      → Post Q R r
      → ((a : A) (s : S) → Q a s → Q' a s)
      → ((e : E) (s : S) → R e s → R' e s)
      → Post Q' R' r
  Post-mono Q R Q' R' (ok a, s) h k l = k a s h
  Post-mono Q R Q' R' (err e, s) h k l = l e s h

module _ {ℓ κ μ ν ξ} {S : Type ℓ} {E : Type κ} {A : Type μ} where
  pub Post-both :
      (Q : A → S → Type ν) (R : E → S → Type ν) (Q' : A → S → Type ξ) (R' : E → S → Type ξ)
      (r : Result E A × S)
      → Post Q R r
      → Post Q' R' r
      → Post (λ a s. Q a s × Q' a s) (λ e s. R e s × R' e s) r
  Post-both Q R Q' R' (ok a, s) h k = (h, k)
  Post-both Q R Q' R' (err e, s) h k = (h, k)
