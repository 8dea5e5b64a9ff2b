-- ===== src/Executor/Apply.antt =====
-- The applying loop (src/executor.rs), on a host that nobody else writes beside. `before` is the
-- documents at the start.
use cc_switch_core.Base.{
  nat_eq, list_eq, option_eq, string_eq, eq_or_ne, ℕ, ◌≡◌, refl, sym, ap, subst, ◌∙◌, inl, inr,
  true, false, Option, none, List, [], ◌∷◌, ◌++◌, Result, ok, err, Eq, All, Bool-cases, All-right,
  All-left,
}
use cc_switch_core.Base.{Post, All-append}
use cc_switch_core.Text.{Bytes}
use cc_switch_core.Executor.Host.{CompareExchangeOutcome, applied, conflict, OperationHost, IsHost}
use cc_switch_core.Executor.Types.{
  OperationFailure, OperationExecutionError, PreparedWrite, AppliedWrite, RollbackBehavior, is_noop,
}
use cc_switch_core.Executor.Rollback.{failure_with_rollback}
use cc_switch_core.Executor.Recovery.{Recoverable, rollback_applied-recovers}
use cc_switch_core.Executor.Run.{attempt, failing, after_exchange, apply_writes}

module _ {Target R E S : Type 0} (host : OperationHost Target R E S) (behavior : RollbackBehavior)
    (maximum : ℕ) (p : PreparedWrite R Target) (ps : List (PreparedWrite R Target))
    (done : List (AppliedWrite R Target)) (s : S) where
  pub apply_writes-noop :
      is_noop p.write.contents p.original ≡ true
      → apply_writes host behavior maximum (p ∷ ps) done s
        ≡ apply_writes host behavior maximum ps done s
  unfolding apply_writes
  apply_writes-noop h = rw (h, apply_writes)

  pub apply_writes-exchange :
      is_noop p.write.contents p.original ≡ false
      → apply_writes host behavior maximum (p ∷ ps) done s
        ≡ after_exchange host behavior maximum
            (attempt p)
            done
            (apply_writes host behavior maximum ps)
            (host.compare_exchange p.resource p.original p.write.contents s)
  unfolding apply_writes
  apply_writes-exchange h = rw (h, apply_writes)

module _ {Target R E S : Type 0} ⦃same_resource : Eq R⦄ (host : OperationHost Target R E S)
    (behavior : RollbackBehavior) (maximum : ℕ) {docs : S → R → Option Bytes} {locate : Target → R}
    (law : IsHost host docs locate) (before : R → Option Bytes) where
  abbrev pub Rec : List (AppliedWrite R Target) → S → Type 0
  Rec = Recoverable host maximum law before

  -- A failure that leaves nothing to repair has put every document back.
  abbrev pub Recovered : OperationExecutionError E Target → S → Type 0
  Recovered e s = e.rollback_failures ≡ [] → (q : R) → docs s q ≡ before q

  abbrev pub OriginalKept : PreparedWrite R Target → Type 0
  OriginalKept p = before p.resource ≡ p.original

  attempted-Recoverable :
      (p : PreparedWrite R Target) (done : List (AppliedWrite R Target)) (s : S)
      (r : Result E CompareExchangeOutcome × S)
      → OriginalKept p
      → Rec done s
      → host.compare_exchange p.resource p.original p.write.contents s ≡ r
      → Rec (done ++ (attempt p ∷ [])) r.1
  attempted-Recoverable p done s r kept v e = record {
    originals = All-append _ done (attempt p ∷ []) v.originals (kept, tt);
    others = λ q apart.
        sym (ap (λ o. docs o.1 q) e)
        ∙ (law.exchange_other p.resource p.original p.write.contents s q
              (All-right _ done _ apart).0
            ∙ v.others q (All-left _ done _ apart));
  }

  -- A conflicting exchange changes no document.
  conflict-Recoverable :
      (p : PreparedWrite R Target) (done : List (AppliedWrite R Target)) (s s₁ : S)
      → Rec done s
      → host.compare_exchange p.resource p.original p.write.contents s ≡ (ok conflict, s₁)
      → Rec done s₁
  conflict-Recoverable p done s s₁ v e = record {
    originals = v.originals;
    others = λ q apart.
        sym (ap (λ o. docs o.1 q) e)
        ∙ (elim (eq_or_ne p.resource q) [
          | inl same ↦
              subst
                (λ r.
                  docs (host.compare_exchange p.resource p.original p.write.contents s).1 r
                  ≡ docs s r)
                same
                (law.exchange_conflict p.resource p.original p.write.contents s (ap (λ o. o.0) e))
          | inr ne ↦ law.exchange_other p.resource p.original p.write.contents s q ne
        ]
            ∙ v.others q apart);
  }

  failing-Recovered :
      (failure : OperationFailure E Target) (done : List (AppliedWrite R Target))
      (b : Option Target) (s : S)
      → Rec done s
      → Post {A = List (AppliedWrite R Target)} Rec Recovered (
          failing host behavior maximum
            (failure_with_rollback host maximum failure done behavior b s))
  unfolding failure_with_rollback
  failing-Recovered failure done b s v h q =
      rollback_applied-recovers host maximum law before done behavior b s v h q

  after_exchange-Post :
      (p : PreparedWrite R Target) (done : List (AppliedWrite R Target)) (s : S)
      (next : List (AppliedWrite R Target)
        → S
        → Result (OperationExecutionError E Target) (List (AppliedWrite R Target)) × S)
      (r : Result E CompareExchangeOutcome × S)
      → OriginalKept p
      → Rec done s
      → host.compare_exchange p.resource p.original p.write.contents s ≡ r
      → ((done' : List (AppliedWrite R Target)) (s' : S)
          → Rec done' s'
          → Post Rec Recovered (next done' s'))
      → Post Rec Recovered (after_exchange host behavior maximum (attempt p) done next r)
  unfolding after_exchange
  after_exchange-Post p done s next (ok applied, s₁) kept v e ih =
      ih (done ++ (attempt p ∷ [])) s₁ (attempted-Recoverable p done s _ kept v e)
  after_exchange-Post p done s next (ok conflict, s₁) kept v e ih =
      failing-Recovered _ done _ s₁ (conflict-Recoverable p done s s₁ v e)
  after_exchange-Post p done s next (err x, s₁) kept v e ih =
      failing-Recovered _ (done ++ (attempt p ∷ [])) none s₁
        (attempted-Recoverable p done s _ kept v e)

  pub apply_writes-recovers :
      (ps : List (PreparedWrite R Target)) (done : List (AppliedWrite R Target)) (s : S)
      → All OriginalKept ps
      → Rec done s
      → Post Rec Recovered (apply_writes host behavior maximum ps done s)
  apply_writes-recovers [] done s kept v = unfold apply_writes in v
  apply_writes-recovers (p ∷ ps) done s kept v =
      elim (Bool-cases (is_noop p.write.contents p.original)) [
        | inl skip ↦
            rw (apply_writes-noop host behavior maximum p ps done s skip)
              (apply_writes-recovers ps done s kept.1 v)
        | inr go ↦ rw (apply_writes-exchange host behavior maximum p ps done s go) (
            after_exchange-Post p done s (apply_writes host behavior maximum ps) _ kept.0 v refl
              (λ done' s' v'. apply_writes-recovers ps done' s' kept.1 v'))
      ]
