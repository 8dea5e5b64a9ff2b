-- ===== src/Executor/Preflight.antt =====
-- What the two preparing loops establish (src/executor.rs), on a host that nobody else writes
-- beside.
use cc_switch_core.Base.{
  nat_eq, list_eq, option_eq, string_eq, ◌≡◌, refl, sym, ap, subst, ◌∙◌, ◌≢◌, inl, inr, Option,
  none, some, List, [], ◌∷◌, ◌++◌, map, append-nil, append_assoc, arith, Result, ok, err, ◌==◌, Eq,
  All, Bool-cases,
}
use mathlib.Core.List.{map-append}
use cc_switch_core.Base.{continue, fail_with, find, Post, Post-mono, All-append}
use cc_switch_core.Text.{Bytes}
use cc_switch_core.Executor.Host.{OperationHost, IsHost}
use cc_switch_core.Executor.Types.{OperationFailure, resolve_failed, WriteView, PreparedWrite}
use cc_switch_core.Executor.Prepare.{prepare, resolve_writes}

-- The write as the first loop prepares it.
abbrev pub resolved : {Target R : Type 0} → (Target → R) → WriteView Target → PreparedWrite R Target
resolved locate w = record { write = w; resource = locate w.target; original = none }

abbrev pub resources : {Target R : Type 0} → List (PreparedWrite R Target) → List R
resources = map λ p. p.resource

-- No two resources are the same.
abbrev pub Distinct : {R : Type 0} → List R → Type 0
Distinct [] = Unit
Distinct (r ∷ rs) = All (λ q. r ≢ q) rs × Distinct rs

pub Distinct-snoc :
    {R : Type 0} (rs : List R) (r : R)
    → Distinct rs
    → All (λ q. q ≢ r) rs
    → Distinct (rs ++ (r ∷ []))
Distinct-snoc [] r d h = (tt, tt)
Distinct-snoc (q ∷ rs) r d h = (All-append _ rs (r ∷ []) d.0 (h.0, tt), Distinct-snoc rs r d.1 h.1)

module _ {Target R : Type 0} ⦃same_resource : Eq R⦄ where
  not_found :
      (r : R) (l : List (PreparedWrite R Target))
      → find (λ p. p.resource == r) l ≡ none
      → All (λ q. q ≢ r) (resources l)
  not_found r [] h = tt
  not_found r (p ∷ l) h = elim (Bool-cases (p.resource == r)) [
    | inl e ↦ absurd (ground (arith, e, h))
    | inr e ↦ (
      λ same. cc ((same_resource.eqb_iff p.resource r).1 same),
      not_found r l (ground (arith, e, h)),
    )
  ]

module _ {Target R S : Type 0} (docs : S → R → Option Bytes) (locate : Target → R) where
  -- The same documents in both states.
  abbrev pub Same : S → S → Type 0
  Same s s' = (q : R) → docs s' q ≡ docs s q

  -- What the first loop returns, from the writes in `prepared`.
  abbrev pub Resolved :
      List (WriteView Target)
      → List (PreparedWrite R Target)
      → S
      → List (PreparedWrite R Target)
      → S
      → Type 0
  Resolved ws prepared s out s' =
      (out ≡ prepared ++ map (resolved locate) ws) × Distinct (resources out) × Same s s'

module _ {Target R E S : Type 0} ⦃same_resource : Eq R⦄ (host : OperationHost Target R E S)
    (docs : S → R → Option Bytes) (locate : Target → R) (law : IsHost host docs locate) where
  -- The outcomes of the first loop.
  abbrev pub ResolvePost :
      List (WriteView Target)
      → List (PreparedWrite R Target)
      → S
      → Result (OperationFailure E Target) (List (PreparedWrite R Target)) × S
      → Type 0
  ResolvePost ws prepared s =
      Post (Resolved docs locate ws prepared s) (λ e s'. Same docs locate s s')

  after_prepare :
      (w : WriteView Target) (ws : List (WriteView Target))
      (prepared : List (PreparedWrite R Target)) (s s₁ : S) (resource : R)
      (o : Option (PreparedWrite R Target))
      → resource ≡ locate w.target
      → Same docs locate s s₁
      → Distinct (resources prepared)
      → find (λ p. p.resource == resource) prepared ≡ o
      → ((next : List (PreparedWrite R Target)) (s₂ : S)
          → Distinct (resources next)
          → ResolvePost ws next s₂ (resolve_writes host ws next s₂))
      → ResolvePost
          (w ∷ ws)
          prepared
          s
          (continue (prepare host w prepared resource s₁ o) (resolve_writes host ws))
  after_prepare w ws prepared s s₁ resource (some existing) home same d e next = same
  after_prepare w ws prepared s s₁ resource none home same d e next =
      let new : PreparedWrite R Target = record {
        write = w;
        resource = resource;
        original = none;
      } in
      let distinct : Distinct (resources (prepared ++ (new ∷ []))) =
        subst Distinct (sym (map-append _ prepared (new ∷ [])))
          (Distinct-snoc (resources prepared) resource d (not_found resource prepared e)) in
      Post-mono (Resolved docs locate ws (prepared ++ (new ∷ [])) s₁)
        (λ f s'. Same docs locate s₁ s') (Resolved docs locate (w ∷ ws) prepared s)
        (λ f s'. Same docs locate s s') _ (next (prepared ++ (new ∷ [])) s₁ distinct)
        (λ out s' r. (
          r.0
              ∙ (append_assoc prepared (new ∷ []) (map (resolved locate) ws)
                  ∙ ap
                      (λ q.
                        prepared
                        ++ ((let p : PreparedWrite R Target = record {
                          write = w;
                          resource = q;
                          original = none;
                        } in
                              p)
                            ∷ map (resolved locate) ws))
                      home),
          (r.1),
          λ q. r.2 q ∙ same q,
        ))
        (λ f s' same'. λ q. same' q ∙ same q)

  after_resolve :
      (w : WriteView Target) (ws : List (WriteView Target))
      (prepared : List (PreparedWrite R Target)) (s : S) (r : Result E R × S)
      → host.resolve w.target s ≡ r
      → Distinct (resources prepared)
      → ((next : List (PreparedWrite R Target)) (s₂ : S)
          → Distinct (resources next)
          → ResolvePost ws next s₂ (resolve_writes host ws next s₂))
      → ResolvePost (w ∷ ws) prepared s (
          continue (fail_with (resolve_failed w.target) r) λ resource s₁.
            continue
              (prepare host w prepared resource s₁ (find (λ p. p.resource == resource) prepared))
              (resolve_writes host ws))
  after_resolve w ws prepared s (err x, s₁) e d next =
      λ q. sym (ap (λ p. docs p.1 q) e) ∙ law.docs-resolve w.target s q
  after_resolve w ws prepared s (ok resource, s₁) e d next =
      after_prepare w ws prepared s s₁ resource _
        (law.resolve_stable w.target s resource (ap (λ p. p.0) e))
        (λ q. sym (ap (λ p. docs p.1 q) e) ∙ law.docs-resolve w.target s q) d refl next

  -- The first loop finds each write's resource, all different, and changes no document.
  pub resolve_writes-Post :
      (ws : List (WriteView Target)) (prepared : List (PreparedWrite R Target)) (s : S)
      → Distinct (resources prepared)
      → ResolvePost ws prepared s (resolve_writes host ws prepared s)
  unfolding resolve_writes
  resolve_writes-Post [] prepared s d = (sym (append-nil prepared), d, λ q. refl)
  resolve_writes-Post (w ∷ ws) prepared s d =
      after_resolve w ws prepared s (host.resolve w.target s) refl d (resolve_writes-Post ws)
