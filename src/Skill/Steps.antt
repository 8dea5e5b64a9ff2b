-- ===== src/Skill/Steps.antt =====
-- An optional step of a skill's live changes (src/skill/write.rs), and what its result says of it.
use cc_switch_core.Base.{
  nat_eq, list_eq, option_eq, string_eq, ◌≡◌, refl, sym, ap, ◌⊎◌, inl, inr, Option, none, some,
  Result, ok, err,
}
use cc_switch_core.Base.{continue}
use cc_switch_core.Skill.Live.{try_each}

module _ {κ μ ν} {B : Type κ} {F : Type μ} {S : Type ν} where
  continued-err :
      (r : Result F B × S) (s' : S) (e : F)
      → continue {A = B} {B = Option B} r (λ b t. (ok (some b), t)) ≡ (err e, s')
      → r ≡ (err e, s')
  continued-err (ok b, t) s' e h = cc (ap (λ p. p.0) h)
  continued-err (err x, t) s' e h = cc (ap (λ p. p.0) h, ap (λ p. p.1) h)

  continued-ok :
      (r : Result F B × S) (s' : S) (o : Option B)
      → continue {A = B} {B = Option B} r (λ b t. (ok (some b), t)) ≡ (ok o, s')
      → (b : B) × (r ≡ (ok b, s')) × (o ≡ some b)
  continued-ok (ok b, t) s' o h = (b, cc (ap (λ p. p.1) h), cc (ap (λ p. p.0) h))
  continued-ok (err x, t) s' o h = cc (ap (λ p. p.0) h)

  module _ {ℓ} {A : Type ℓ} (f : A → S → Result F B × S) where
    -- The step was there, and failed.
    abbrev pub Failed : Option A → S → S → F → Type (ℓ ⊔ κ ⊔ μ ⊔ ν)
    Failed a s s' e = (x : A) × (a ≡ some x) × (f x s ≡ (err e, s'))

    pub try_each-err :
        (a : Option A) (s s' : S) (e : F) → try_each f a s ≡ (err e, s') → Failed a s s' e
    try_each-err none s s' e h = cc (ap (λ p. p.0) h)
    try_each-err (some x) s s' e h = (x, refl, continued-err (f x s) s' e h)

    -- There was no step, or it succeeded with the result.
    abbrev pub Done : Option A → S → S → Option B → Type (ℓ ⊔ κ ⊔ μ ⊔ ν)
    Done a s s' o =
        ((a ≡ none) × (o ≡ none) × (s' ≡ s))
        ⊎ ((x : A) × (b : B) × (a ≡ some x) × (f x s ≡ (ok b, s')) × (o ≡ some b))

    pub try_each-ok :
        (a : Option A) (s s' : S) (o : Option B) → try_each f a s ≡ (ok o, s') → Done a s s' o
    try_each-ok none s s' o h = inl (refl, cc (ap (λ p. p.0) h), sym (ap (λ p. p.1) h))
    try_each-ok (some x) s s' o h =
        let (b, run, e) = continued-ok (f x s) s' o h in inr (x, b, refl, run, e)
