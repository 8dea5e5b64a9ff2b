-- ===== src/Executor/Restore.antt =====
-- What the guarded rollback restores (src/executor.rs), on a host that nobody else writes beside.
use cc_switch_core.Base.{
  nat_eq, list_eq, option_eq, string_eq, option_beq_iff, ℕ, ◌≡◌, refl, sym, ap, subst, ◌∙◌, ◌≢◌,
  ◌⊎◌, inl, inr, Option, none, some, arith, Result, ok, err, Eq,
}
use cc_switch_core.Executor.Rollback.{after_conflict, after_restore, restore}
use cc_switch_core.Executor.Types.{OperationRollbackFailure, AppliedWrite}
use cc_switch_core.Executor.Host.{
  OperationRead, absent, contents, too_large, CompareExchangeOutcome, applied, conflict,
  OperationHost, IsHost,
}
use cc_switch_core.Text.{Bytes}

module _ {Target R E S : Type 0} (host : OperationHost Target R E S) (maximum : ℕ) where
  cleared_absent :
      (a : AppliedWrite R Target)
      → after_conflict host maximum a (ok absent) ≡ none
      → none ≡ a.original
  unfolding after_conflict
  cleared_absent a h = ground arith

  cleared_contents :
      (a : AppliedWrite R Target) (c : Bytes)
      → after_conflict host maximum a (ok (contents c)) ≡ none
      → some c ≡ a.original
  unfolding after_conflict
  cleared_contents a c h = ground (arith, option_beq_iff a.original (some c))

module _ {Target R E S : Type 0} ⦃same_resource : Eq R⦄ (host : OperationHost Target R E S)
    (maximum : ℕ) {docs : S → R → Option Bytes} {locate : Target → R}
    (law : IsHost host docs locate) where
  -- A read after a conflict clears the write only if the resource holds the original.
  after_conflict-original :
      (a : AppliedWrite R Target) (s : S) (r : Result E OperationRead)
      → (host.read a.resource maximum s).0 ≡ r
      → after_conflict host maximum a r ≡ none
      → docs s a.resource ≡ a.original
  unfolding after_conflict
  after_conflict-original a s (ok absent) e h =
      law.read_absent _ _ _ e ∙ cleared_absent host maximum a h
  after_conflict-original a s (ok (contents c)) e h =
      law.read_contents _ _ _ c e ∙ cleared_contents host maximum a c h
  after_conflict-original a s (ok too_large) e h = cc
  after_conflict-original a s (err x) e h = cc

  -- The restoration of a write leaves other documents alone; it leaves the write's own document
  -- alone or puts the original back, and it reports no failure only if the original is there.
  pub record Restores (a : AppliedWrite R Target) (s : S)
      (r : Option (OperationRollbackFailure E Target) × S) : Type 0 where
    pub others : (q : R) → a.resource ≢ q → docs r.1 q ≡ docs s q
    pub own : (docs r.1 a.resource ≡ docs s a.resource) ⊎ (docs r.1 a.resource ≡ a.original)
    pub confirmed : r.0 ≡ none → docs r.1 a.resource ≡ a.original

  after_restore-Restores :
      (a : AppliedWrite R Target) (s : S) (r : Result E CompareExchangeOutcome × S)
      → host.compare_exchange a.resource a.written a.original s ≡ r
      → Restores a s (after_restore host maximum a r)
  after_restore-Restores a s (ok applied, s₁) e =
      let done = law.exchange_applied a.resource a.written a.original s (ap (λ p. p.0) e) in
      let original : docs s₁ a.resource ≡ a.original =
        sym (ap (λ p. docs p.1 a.resource) e) ∙ done.1 in
      record {
        others = λ q ne.
            sym (ap (λ p. docs p.1 q) e)
            ∙ law.exchange_other a.resource a.written a.original s q ne;
        own = inr original;
        confirmed = λ h. original;
      }
  after_restore-Restores a s (ok conflict, s₁) e =
      let kept : docs s₁ a.resource ≡ docs s a.resource =
        sym (ap (λ p. docs p.1 a.resource) e)
        ∙ law.exchange_conflict a.resource a.written a.original s (ap (λ p. p.0) e) in
      record {
        others = λ q ne.
            law.docs-read a.resource maximum s₁ q
            ∙ (sym (ap (λ p. docs p.1 q) e)
                ∙ law.exchange_other a.resource a.written a.original s q ne);
        own = inl (law.docs-read a.resource maximum s₁ a.resource ∙ kept);
        confirmed = λ h.
            law.docs-read a.resource maximum s₁ a.resource
            ∙ after_conflict-original a s₁ (host.read a.resource maximum s₁).0 refl h;
      }
  after_restore-Restores a s (err x, s₁) e = record {
    others = λ q ne.
        sym (ap (λ p. docs p.1 q) e) ∙ law.exchange_other a.resource a.written a.original s q ne;
    own =
        subst (λ p. (docs p.1 a.resource ≡ docs s a.resource) ⊎ (docs p.1 a.resource ≡ a.original))
          e (law.exchange_error a.resource a.written a.original s x (ap (λ p. p.0) e));
    confirmed = λ h. cc;
  }

  pub restore-Restores :
      (a : AppliedWrite R Target) (s : S) → Restores a s (restore host maximum a s)
  unfolding restore
  restore-Restores a s = after_restore-Restores a s _ refl
