-- ===== src/Executor/Observe.antt =====
-- What the observing loop establishes (src/executor.rs), on a host that nobody else writes beside.
-- `before` is the documents at the start.
use cc_switch_core.Base.{
  nat_eq, list_eq, option_eq, string_eq, ℕ, ◌≡◌, refl, sym, ap, subst, ◌∙◌, inl, inr, true, not,
  Option, List, [], ◌∷◌, map, Result, ok, err, if◌then◌else◌, length, All, Bool-cases, leb,
}
use cc_switch_core.Base.{continue, Post, Post-continue, leb→le}
use cc_switch_core.Text.{Bytes}
use cc_switch_core.Operation.Digest.{matches}
use cc_switch_core.Operation.Validation.{WithinLimit}
use cc_switch_core.Executor.Host.{OperationRead, absent, contents, too_large, OperationHost, IsHost}
use cc_switch_core.Executor.Types.{conflicting, OperationFailure, PreparedWrite}
use cc_switch_core.Executor.Prepare.{observed, read_for_execution, observe_writes}

-- The write with its original observed.
abbrev pub ready :
    {Target R : Type 0} → (R → Option Bytes) → PreparedWrite R Target → PreparedWrite R Target
ready before p = record p { original = before p.resource }

-- The write's document meets its expectation and is within the limit.
pub record IsExpected {Target R : Type 0} (digest : Bytes → Bytes) (maximum : ℕ)
    (before : R → Option Bytes) (p : PreparedWrite R Target) : Type 0 where
  pub met : matches digest p.write.expected (before p.resource) ≡ true
  pub within_limit : WithinLimit maximum (before p.resource)

module _ {Target R E S : Type 0} (host : OperationHost Target R E S) (maximum : ℕ)
    (digest : Bytes → Bytes) (docs : S → R → Option Bytes) (locate : Target → R)
    (law : IsHost host docs locate) (before : R → Option Bytes) where
  -- The state's documents are those of `before`.
  abbrev pub Holds : S → Type 0
  Holds s = (q : R) → docs s q ≡ before q

  abbrev Seen : R → Option Bytes → S → Type 0
  Seen r o s = (o ≡ before r) × WithinLimit maximum o × Holds s

  Holds-after :
      (r : R) (s : S) {out : Result E OperationRead × S}
      → Holds s
      → host.read r maximum s ≡ out
      → Holds out.1
  Holds-after r s h e q = sym (ap (λ p. docs p.1 q) e) ∙ (law.docs-read r maximum s q ∙ h q)

  observed-Post :
      (r : R) (t : Target) (s : S) (out : Result E OperationRead × S)
      → Holds s
      → host.read r maximum s ≡ out
      → Post (Seen r) (λ e s'. Holds s') (observed host maximum t out)
  observed-Post r t s (ok absent, s₁) h e =
      (sym (law.read_absent r maximum s (ap (λ p. p.0) e)) ∙ h r, tt, Holds-after r s h e)
  observed-Post r t s (ok (contents c), s₁) h e = elim (Bool-cases (leb (length c) maximum)) [
    | inl fits ↦ rw fits (
      sym (law.read_contents r maximum s c (ap (λ p. p.0) e)) ∙ h r,
      leb→le _ _ fits,
      Holds-after r s h e,
    )
    | inr not ↦ rw not (Holds-after r s h e)
  ]
  observed-Post r t s (ok too_large, s₁) h e = Holds-after r s h e
  observed-Post r t s (err x, s₁) h e = Holds-after r s h e

  abbrev pub Observed : List (PreparedWrite R Target) → List (PreparedWrite R Target) → S → Type 0
  Observed ps out s =
      (out ≡ map (ready before) ps) × All (IsExpected digest maximum before) ps × Holds s

  abbrev pub ObservePost :
      List (PreparedWrite R Target)
      → Result (OperationFailure E Target) (List (PreparedWrite R Target)) × S
      → Type 0
  ObservePost ps = Post (Observed ps) (λ e s. Holds s)

  read_for_execution-Post :
      (r : R) (t : Target) (s : S)
      → Holds s
      → Post (Seen r) (λ e s'. Holds s') (read_for_execution host maximum r t s)
  unfolding read_for_execution
  read_for_execution-Post r t s h = observed-Post r t s (host.read r maximum s) h refl

  -- The rest of a round, once the original is read.
  abbrev round :
      PreparedWrite R Target
      → Option Bytes
      → Result (OperationFailure E Target) (List (PreparedWrite R Target)) × S
      → S
      → Result (OperationFailure E Target) (List (PreparedWrite R Target)) × S
  round p original rest s =
      if matches digest p.write.expected original
      then continue rest (λ l s₂. (ok (record p { original = original } ∷ l), s₂))
      else (err (conflicting p.write.target), s)

  matched :
      (p : PreparedWrite R Target) (ps : List (PreparedWrite R Target)) (o : Option Bytes)
      (rest : Result (OperationFailure E Target) (List (PreparedWrite R Target)) × S)
      → o ≡ before p.resource
      → WithinLimit maximum o
      → matches digest p.write.expected o ≡ true
      → ObservePost ps rest
      → ObservePost (p ∷ ps) (continue rest (λ l s₂. (ok (record p { original = o } ∷ l), s₂)))
  matched p ps o (ok l, s₂) same fits met h = (
    ap (λ q. (let w : PreparedWrite R Target = record p { original = q } in w) ∷ l) same
        ∙ ap (λ l. ready before p ∷ l) h.0,
    (
      record {
        met = subst (λ q. matches digest p.write.expected q ≡ true) same met;
        within_limit = subst (WithinLimit maximum) same fits;
      },
      h.1,
    ),
    h.2,
  )
  matched p ps o (err x, s₂) same fits met h = h

  round_post :
      (p : PreparedWrite R Target) (ps : List (PreparedWrite R Target)) (o : Option Bytes) (s : S)
      → Seen p.resource o s
      → ObservePost ps (observe_writes host maximum digest ps s)
      → ObservePost (p ∷ ps) (round p o (observe_writes host maximum digest ps s) s)
  round_post p ps o s seen ih = elim (Bool-cases (matches digest p.write.expected o)) [
    | inl met ↦ rw met (matched p ps o _ seen.0 seen.1 met ih)
    | inr not ↦ rw not seen.2
  ]

  -- The second loop reads each original as it is, holds it to its expectation and to the limit, and
  -- changes no document.
  pub observe_writes-Post :
      (ps : List (PreparedWrite R Target)) (s : S)
      → Holds s
      → ObservePost ps (observe_writes host maximum digest ps s)
  unfolding observe_writes
  observe_writes-Post [] s h = (refl, tt, h)
  observe_writes-Post (p ∷ ps) s h =
      Post-continue (Seen p.resource) (λ e s. Holds s) (Observed (p ∷ ps))
        (read_for_execution host maximum p.resource p.write.target s)
        (λ o s₁. round p o (observe_writes host maximum digest ps s₁) s₁)
        (read_for_execution-Post p.resource p.write.target s h)
        λ o s₁ seen. round_post p ps o s₁ seen (observe_writes-Post ps s₁ seen.2)
