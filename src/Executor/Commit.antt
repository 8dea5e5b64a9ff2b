-- ===== src/Executor/Commit.antt =====
-- What a successful applying loop leaves (src/executor.rs), on a host that nobody else writes
-- beside.
use cc_switch_core.Base.{
  nat_eq, list_eq, option_eq, string_eq, ℕ, ◌≡◌, refl, sym, ap, ◌∙◌, ◌≢◌, inl, inr, true, false,
  Option, none, some, List, [], ◌∷◌, ◌++◌, append-nil, append_assoc, Result, ok, err, Eq,
  if◌then◌else◌, All, Bool-cases,
}
use cc_switch_core.Base.{Post, Post-mono}
use cc_switch_core.Text.{Bytes}
use cc_switch_core.Executor.Host.{CompareExchangeOutcome, applied, conflict, OperationHost, IsHost}
use cc_switch_core.Executor.Types.{
  OperationExecutionError, PreparedWrite, AppliedWrite, RollbackBehavior, is_noop,
}
use cc_switch_core.Executor.Run.{attempt, after_exchange, apply_writes}
use cc_switch_core.Executor.Preflight.{Distinct, resources}
use cc_switch_core.Executor.Apply.{apply_writes-noop, apply_writes-exchange}

noop_contents : (new old : Option Bytes) → is_noop new old ≡ true → (new ≡ none) × (old ≡ none)
unfolding is_noop
noop_contents none none h = (refl, refl)
noop_contents none (some c) h = cc
noop_contents (some c) old h = cc

-- The writes that are attempted: all but those that would remove a missing document.
abbrev pub attempts :
    {Target R : Type 0} → List (PreparedWrite R Target) → List (AppliedWrite R Target)
attempts [] = []
attempts (p ∷ ps) =
    if is_noop p.write.contents p.original then attempts ps else attempt p ∷ attempts ps

module _ {Target R E S : Type 0} ⦃same_resource : Eq R⦄ (host : OperationHost Target R E S)
    (behavior : RollbackBehavior) (maximum : ℕ) (docs : S → R → Option Bytes) (locate : Target → R)
    (law : IsHost host docs locate) where
  abbrev pub HoldsOriginal : S → PreparedWrite R Target → Type 0
  HoldsOriginal s p = docs s p.resource ≡ p.original

  pub record Written (ps : List (PreparedWrite R Target)) (s : S)
      (done done' : List (AppliedWrite R Target)) (s' : S) : Type 0 where
    pub written : All (λ p. docs s' p.resource ≡ p.write.contents) ps
    pub others : (q : R) → All (λ r. r ≢ q) (resources ps) → docs s' q ≡ docs s q
    pub log : done' ≡ done ++ attempts ps

  ne_sym : (r : R) (l : List R) → All (λ q. r ≢ q) l → All (λ q. q ≢ r) l
  ne_sym r [] h = tt
  ne_sym r (q ∷ l) h = (λ e. h.0 (sym e), ne_sym r l h.1)

  -- A state that differs at one resource only still has the originals of the other writes.
  originals_kept :
      (s s₁ : S) (r : R) (ps : List (PreparedWrite R Target))
      → ((q : R) → r ≢ q → docs s₁ q ≡ docs s q)
      → All (λ q. r ≢ q) (resources ps)
      → All (HoldsOriginal s) ps
      → All (HoldsOriginal s₁) ps
  originals_kept s s₁ r [] others apart h = tt
  originals_kept s s₁ r (p ∷ ps) others apart h =
      (others p.resource apart.0 ∙ h.0, originals_kept s s₁ r ps others apart.1 h.1)

  abbrev pub CommitPost :
      List (PreparedWrite R Target)
      → List (AppliedWrite R Target)
      → S
      → Result (OperationExecutionError E Target) (List (AppliedWrite R Target)) × S
      → Type 0
  CommitPost ps done s = Post (Written ps s done) (λ e s'. Unit)

  Written-noop :
      (p : PreparedWrite R Target) (ps : List (PreparedWrite R Target))
      (done : List (AppliedWrite R Target)) (s : S)
      → is_noop p.write.contents p.original ≡ true
      → HoldsOriginal s p
      → All (λ q. p.resource ≢ q) (resources ps)
      → (done' : List (AppliedWrite R Target)) (s' : S) → Written ps s done done' s'
      → Written (p ∷ ps) s done done' s'
  Written-noop p ps done s skip kept apart done' s' w =
      let empty = noop_contents p.write.contents p.original skip in
      record {
        written = (
          w.others p.resource (ne_sym p.resource (resources ps) apart)
              ∙ (kept ∙ (empty.1 ∙ sym empty.0)),
          w.written,
        );
        others = λ q h. w.others q h.1;
        log = rw skip w.log;
      }

  Written-exchange :
      (p : PreparedWrite R Target) (ps : List (PreparedWrite R Target))
      (done : List (AppliedWrite R Target)) (s s₁ : S)
      → is_noop p.write.contents p.original ≡ false
      → docs s₁ p.resource ≡ p.write.contents
      → ((q : R) → p.resource ≢ q → docs s₁ q ≡ docs s q)
      → All (λ q. p.resource ≢ q) (resources ps)
      → (done' : List (AppliedWrite R Target)) (s' : S)
      → Written ps s₁ (done ++ (attempt p ∷ [])) done' s'
      → Written (p ∷ ps) s done done' s'
  Written-exchange p ps done s s₁ go now others apart done' s' w = record {
    written = (w.others p.resource (ne_sym p.resource (resources ps) apart) ∙ now, w.written);
    others = λ q h. w.others q h.1 ∙ others q h.0;
    log = rw go (w.log ∙ append_assoc done (attempt p ∷ []) (attempts ps));
  }

  after_exchange-commits :
      (p : PreparedWrite R Target) (ps : List (PreparedWrite R Target))
      (done : List (AppliedWrite R Target)) (s : S) (r : Result E CompareExchangeOutcome × S)
      → is_noop p.write.contents p.original ≡ false
      → host.compare_exchange p.resource p.original p.write.contents s ≡ r
      → Distinct (resources (p ∷ ps))
      → All (HoldsOriginal s) ps
      → ((done' : List (AppliedWrite R Target)) (s₁ : S)
          → All (HoldsOriginal s₁) ps
          → CommitPost ps done' s₁ (apply_writes host behavior maximum ps done' s₁))
      → CommitPost (p ∷ ps) done s (
          after_exchange host behavior maximum
            (attempt p)
            done
            (apply_writes host behavior maximum ps)
            r)
  unfolding after_exchange
  after_exchange-commits p ps done s (ok applied, s₁) go e d kept ih =
      let others : (q : R) → p.resource ≢ q → docs s₁ q ≡ docs s q = λ q ne.
        sym (ap (λ o. docs o.1 q) e)
        ∙ law.exchange_other p.resource p.original p.write.contents s q ne in
      let now : docs s₁ p.resource ≡ p.write.contents =
        sym (ap (λ o. docs o.1 p.resource) e)
        ∙ (law.exchange_applied p.resource p.original p.write.contents s (ap (λ o. o.0) e)).1 in
      Post-mono (Written ps s₁ (done ++ (attempt p ∷ []))) (λ x s'. Unit) (Written (p ∷ ps) s done)
        (λ x s'. Unit) _
        (ih (done ++ (attempt p ∷ [])) s₁ (originals_kept s s₁ p.resource ps others d.0 kept))
        (Written-exchange p ps done s s₁ go now others d.0) (λ x s' u. tt)
  after_exchange-commits p ps done s (ok conflict, s₁) go e d kept ih = tt
  after_exchange-commits p ps done s (err x, s₁) go e d kept ih = tt

  commits_nil :
      (done : List (AppliedWrite R Target)) (s : S)
      → CommitPost [] done s (apply_writes host behavior maximum [] done s)
  unfolding apply_writes
  commits_nil done s = record { written = tt; others = λ q h. refl; log = sym (append-nil done) }

  pub apply_writes-commits :
      (ps : List (PreparedWrite R Target)) (done : List (AppliedWrite R Target)) (s : S)
      → Distinct (resources ps)
      → All (HoldsOriginal s) ps
      → CommitPost ps done s (apply_writes host behavior maximum ps done s)
  apply_writes-commits [] done s d kept = commits_nil done s
  apply_writes-commits (p ∷ ps) done s d kept =
      elim (Bool-cases (is_noop p.write.contents p.original)) [
        | inl skip ↦ rw (apply_writes-noop host behavior maximum p ps done s skip) (
            Post-mono (Written ps s done) (λ x s'. Unit) (Written (p ∷ ps) s done) (λ x s'. Unit) _
              (apply_writes-commits ps done s d.1 kept.1) (Written-noop p ps done s skip kept.0 d.0)
              (λ x s' u. tt))
        | inr go ↦ rw (apply_writes-exchange host behavior maximum p ps done s go) (
            after_exchange-commits p ps done s _ go refl d kept.1
              (λ done' s₁ k. apply_writes-commits ps done' s₁ d.1 k))
      ]
