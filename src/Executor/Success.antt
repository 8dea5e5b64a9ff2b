-- ===== src/Executor/Success.antt =====
-- When `execute_writes` succeeds (src/executor.rs).
use cc_switch_core.Base.{
  nat_eq, list_eq, option_eq, string_eq, ℕ, ◌≤◌, ◌≡◌, refl, sym, ap, subst, ◌∙◌, ◌≢◌, inl, inr,
  Option, none, some, List, [], ◌∷◌, ◌++◌, map, append-nil, append_assoc, Result, ok, err, ◌==◌, Eq,
  if◌then◌else◌, length, All, Bool-cases, le→leb, All-right,
}
use mathlib.Core.List.{map-append}
use cc_switch_core.Base.{find}
use cc_switch_core.Text.{Bytes}
use cc_switch_core.Executor.Host.{absent, contents, applied, OperationHost}
use cc_switch_core.Executor.Types.{
  observed_content_too_large, OperationExecutionError, WriteView, PreparedWrite, AppliedWrite,
  RollbackBehavior, OperationReceipt, is_noop,
}
use cc_switch_core.Executor.Prepare.{observed, resolve_writes, observe_writes, read_for_execution}
use cc_switch_core.Executor.Run.{attempt, after_exchange, apply_writes, execute_writes}
use cc_switch_core.Executor.Preflight.{resolved, resources, Distinct, Same}
use cc_switch_core.Executor.Observe.{IsExpected, ready}
use cc_switch_core.Operation.Validation.{WithinLimit}
use cc_switch_core.Executor.Apply.{apply_writes-noop, apply_writes-exchange}

-- A host that does not fail: it resolves every target, reads every document within the limit, and
-- replaces a document that is as expected, and no other.
pub record IsReliable {Target R E S : Type 0} (host : OperationHost Target R E S)
    (docs : S → R → Option Bytes) (locate : Target → R) (maximum : ℕ) : Type 0 where
  pub resolves :
      (t : Target) (s : S)
      → (s' : S) × (host.resolve t s ≡ (ok (locate t), s')) × Same docs locate s s'
  pub reads_absent :
      (r : R) (s : S)
      → docs s r ≡ none
      → (s' : S) × (host.read r maximum s ≡ (ok absent, s')) × Same docs locate s s'
  pub reads_contents :
      (r : R) (s : S) (c : Bytes)
      → docs s r ≡ some c
      → length c ≤ maximum
      → (s' : S) × (host.read r maximum s ≡ (ok (contents c), s')) × Same docs locate s s'
  pub exchanges :
      (r : R) (expected replacement : Option Bytes) (s : S)
      → docs s r ≡ expected
      → (s' : S) × (host.compare_exchange r expected replacement s ≡ (ok applied, s'))
        × ((q : R) → r ≢ q → docs s' q ≡ docs s q)

-- In a list without repetition, what stands before an element differs from it.
Distinct-before :
    {R : Type 0} (rs : List R) (r : R) (later : List R)
    → Distinct (rs ++ r ∷ later)
    → All (λ q. q ≢ r) rs
Distinct-before [] r later d = tt
Distinct-before (q ∷ rs) r later d =
    ((All-right _ rs (r ∷ later) d.0).0, Distinct-before rs r later d.1)

module _ {Target R : Type 0} ⦃same_resource : Eq R⦄ where
  find-none :
      (r : R) (l : List (PreparedWrite R Target))
      → All (λ q. q ≢ r) (resources l)
      → find (λ p. p.resource == r) l ≡ none
  find-none r [] h = refl
  find-none r (p ∷ l) h = elim (Bool-cases (p.resource == r)) [
    | inl same ↦ absurd (h.0 ((same_resource.eqb_iff p.resource r).0 same))
    | inr other ↦ rw other (find-none r l h.1)
  ]

abbrev pub located : {Target R : Type 0} → (Target → R) → List (WriteView Target) → List R
located locate = map (λ w. locate w.target)

module _ {Target R E S : Type 0} ⦃same_resource : Eq R⦄ (digest : Bytes → Bytes)
    (host : OperationHost Target R E S) (behavior : RollbackBehavior) (maximum : ℕ)
    (docs : S → R → Option Bytes) (locate : Target → R)
    (reliable : IsReliable host docs locate maximum) where
  resolve_writes-succeeds :
      (ws : List (WriteView Target)) (prepared : List (PreparedWrite R Target)) (s : S)
      → Distinct (resources prepared ++ located locate ws)
      → (s' : S) × (resolve_writes host ws prepared s
          ≡ (ok (prepared ++ map (resolved locate) ws), s'))
        × Same docs locate s s'
  unfolding resolve_writes
  resolve_writes-succeeds [] prepared s d = (s, rw (append-nil prepared) refl, λ q. refl)
  resolve_writes-succeeds (w ∷ ws) prepared s d =
      let (s₁, run, same) = reliable.resolves w.target s in
      let new = find-none (locate w.target) prepared (Distinct-before (resources prepared) _ _ d) in
      let next = prepared ++ (resolved locate w ∷ []) in
      let names : resources next ++ located locate ws
          ≡ resources prepared ++ locate w.target ∷ located locate ws =
        ap (λ l. l ++ located locate ws) (map-append _ prepared (resolved locate w ∷ []))
        ∙ append_assoc (resources prepared) _ _ in
      let (s₂, rest, same') = resolve_writes-succeeds ws next s₁ (subst Distinct (sym names) d) in
      (
        s₂,
        rw (run, new) (rest ∙ ap (λ l. (ok l, s₂)) (append_assoc prepared _ _)),
        λ q. same' q ∙ same q,
      )

  read_for_execution-succeeds :
      (r : R) (t : Target) (o : Option Bytes) (s : S)
      → docs s r ≡ o
      → WithinLimit maximum o
      → (s' : S) × (read_for_execution host maximum r t s ≡ (ok o, s')) × Same docs locate s s'
  unfolding read_for_execution
  read_for_execution-succeeds r t none s e fits =
      let (s', run, same) = reliable.reads_absent r s e in
      (s', ap (observed host maximum t) run, same)
  read_for_execution-succeeds r t (some c) s e fits =
      let (s', run, same) = reliable.reads_contents r s c e fits in
      (
        s',
        ap (observed host maximum t) run
            ∙ ap
                (λ b.
                  if b then (ok (some c), s') else (err (observed_content_too_large t maximum), s'))
                (le→leb _ _ fits),
        same,
      )

  observe_writes-succeeds :
      (before : R → Option Bytes) (ps : List (PreparedWrite R Target)) (s : S)
      → All (IsExpected digest maximum before) ps
      → ((q : R) → docs s q ≡ before q)
      → (s' : S) × (observe_writes host maximum digest ps s ≡ (ok (map (ready before) ps), s'))
        × ((q : R) → docs s' q ≡ before q)
  unfolding observe_writes read_for_execution
  observe_writes-succeeds before [] s h k = (s, refl, k)
  observe_writes-succeeds before (p ∷ ps) s h k =
      let (s₁, run, same) =
        read_for_execution-succeeds p.resource p.write.target (before p.resource) s (k p.resource)
          h.0.within_limit in
      let (s₂, rest, kept) = observe_writes-succeeds before ps s₁ h.1 (λ q. same q ∙ k q) in
      (s₂, rw (run, h.0.met, rest) refl, kept)

  still :
      (r : R) (ps : List (PreparedWrite R Target)) (s s' : S)
      → ((q : R) → r ≢ q → docs s' q ≡ docs s q)
      → All (λ q. r ≢ q) (resources ps)
      → All (λ p. docs s p.resource ≡ p.original) ps
      → All (λ p. docs s' p.resource ≡ p.original) ps
  still r [] s s' kept d h = tt
  still r (p ∷ ps) s s' kept d h = (kept p.resource d.0 ∙ h.0, still r ps s s' kept d.1 h.1)

  exchanged :
      (a : AppliedWrite R Target) (done : List (AppliedWrite R Target))
      (next : List (AppliedWrite R Target)
        → S
        → Result (OperationExecutionError E Target) (List (AppliedWrite R Target)) × S)
      (s : S)
      → after_exchange host behavior maximum a done next (ok applied, s) ≡ next (done ++ (a ∷ [])) s
  unfolding after_exchange
  exchanged a done next s = refl

  apply_writes-succeeds :
      (ps : List (PreparedWrite R Target)) (done : List (AppliedWrite R Target)) (s : S)
      → Distinct (resources ps)
      → All (λ p. docs s p.resource ≡ p.original) ps
      → (done' : List (AppliedWrite R Target)) × (s' : S) × (apply_writes host behavior maximum ps
            done s
          ≡ (ok done', s'))
  unfolding apply_writes
  apply_writes-succeeds [] done s d h = (done, s, refl)
  apply_writes-succeeds (p ∷ ps) done s d h =
      elim (Bool-cases (is_noop p.write.contents p.original)) [
        | inl noop ↦
            let (done', s', run) = apply_writes-succeeds ps done s d.1 h.1 in
            (done', s', apply_writes-noop host behavior maximum p ps done s noop ∙ run)
        | inr changed ↦
            let (s₁, swap, kept) =
              reliable.exchanges p.resource p.original p.write.contents s h.0 in
            let (done', s', run) =
              apply_writes-succeeds ps (done ++ (attempt p ∷ [])) s₁ d.1
                (still p.resource ps s s₁ kept d.0 h.1) in
            (
              done',
              s',
              apply_writes-exchange host behavior maximum p ps done s changed
                  ∙ (ap
                        (after_exchange host behavior maximum (attempt p) done
                          (apply_writes host behavior maximum ps))
                        swap
                      ∙ exchanged (attempt p) done (apply_writes host behavior maximum ps) s₁
                      ∙ run),
            )
      ]

  resources-ready :
      (before : R → Option Bytes) (ws : List (WriteView Target))
      → resources (map (ready before) (map (resolved locate) ws)) ≡ located locate ws
  resources-ready before [] = refl
  resources-ready before (w ∷ ws) = ap (λ l. locate w.target ∷ l) (resources-ready before ws)

  originals-ready :
      (before : R → Option Bytes) (ps : List (PreparedWrite R Target)) (s : S)
      → ((q : R) → docs s q ≡ before q)
      → All (λ p. docs s p.resource ≡ p.original) (map (ready before) ps)
  originals-ready before [] s k = tt
  originals-ready before (p ∷ ps) s k = (k p.resource, originals-ready before ps s k)

  -- On a host that does not fail, with writes to different documents that are all as expected and
  -- within the limit, `execute_writes` returns a receipt.
  pub execute_writes-succeeds :
      (ws : List (WriteView Target)) (s : S)
      → Distinct (located locate ws)
      → All (IsExpected digest maximum (docs s)) (map (resolved locate) ws)
      → (receipt : OperationReceipt R Target) × (s' : S) × (execute_writes digest host behavior
            maximum ws s
          ≡ (ok receipt, s'))
  unfolding execute_writes
  execute_writes-succeeds ws s d h =
      let (s₁, resolving, same) = resolve_writes-succeeds ws [] s d in
      let (s₂, observing, kept) =
        observe_writes-succeeds (docs s) (map (resolved locate) ws) s₁ h same in
      let (done, s₃, applying) =
        apply_writes-succeeds (map (ready (docs s)) (map (resolved locate) ws)) [] s₂
          (subst Distinct (sym (resources-ready (docs s) ws)) d)
          (originals-ready (docs s) _ s₂ kept) in
      (
        record { applied = done; rollback_behavior = behavior; maximum_content_bytes = maximum },
        s₃,
        rw (resolving, observing, applying) refl,
      )
