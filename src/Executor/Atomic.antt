-- ===== src/Executor/Atomic.antt =====
-- `execute_writes` and the receipt's rollback as wholes (src/executor.rs), on a host that
-- nobody else writes beside.
use cc_switch_core.Base.{
  nat_eq, list_eq, option_eq, string_eq, ℕ, ◌≡◌, refl, sym, ap, subst, ◌∙◌, ◌≢◌, Option, List, [],
  ◌∷◌, map, Result, ok, err, Eq, All, All-always,
}
use cc_switch_core.Base.{
  continue, fail_with, Post, Post-mono, Post-both, Post-continue, Post-fail_with, All-map,
  All-of_map,
}
use cc_switch_core.Text.{Bytes}
use cc_switch_core.Executor.Host.{OperationHost, IsHost}
use cc_switch_core.Executor.Types.{
  OperationExecutionError, execution_error, PreparedWrite, AppliedWrite, WriteView,
  RollbackBehavior, OperationReceipt,
}
use cc_switch_core.Executor.Prepare.{resolve_writes, observe_writes}
use cc_switch_core.Executor.Run.{apply_writes, execute_writes}
use cc_switch_core.Executor.Preflight.{
  resolved, resources, Distinct, Same, Resolved, resolve_writes-Post,
}
use cc_switch_core.Executor.Observe.{ready, IsExpected, Observed, observe_writes-Post}
use cc_switch_core.Executor.Recovery.{Recoverable}
use cc_switch_core.Executor.Apply.{Recovered, OriginalKept, apply_writes-recovers}
use cc_switch_core.Executor.Commit.{attempts, HoldsOriginal, Written, apply_writes-commits}

resources-ready :
    {Target R : Type 0} (before : R → Option Bytes) (ps : List (PreparedWrite R Target))
    → resources (map (ready before) ps) ≡ resources ps
resources-ready before [] = refl
resources-ready before (p ∷ ps) = ap (λ l. p.resource ∷ l) (resources-ready before ps)

module _ {Target R E S : Type 0} ⦃same_resource : Eq R⦄ (digest : Bytes → Bytes)
    (host : OperationHost Target R E S) (behavior : RollbackBehavior) (maximum : ℕ)
    (docs : S → R → Option Bytes) (locate : Target → R) (law : IsHost host docs locate) where
  -- The writes as they are applied from a state.
  abbrev pub staged : S → List (WriteView Target) → List (PreparedWrite R Target)
  staged s ws = map (ready (docs s)) (map (resolved locate) ws)

  -- What an execution that succeeds has done.
  pub record Committed (ws : List (WriteView Target)) (s : S) (done : List (AppliedWrite R Target))
      (s' : S) : Type 0 where
    pub distinct : Distinct (resources (map (resolved locate) ws))
    pub expected : All (λ w. IsExpected digest maximum (docs s) (resolved locate w)) ws
    pub written : All (λ w. docs s' (locate w.target) ≡ w.contents) ws
    pub others : (q : R) → All (λ w. locate w.target ≢ q) ws → docs s' q ≡ docs s q
    pub log : done ≡ attempts (staged s ws)
    pub recoverable : Recoverable host maximum law (docs s) done s'

  staged-All :
      (P : PreparedWrite R Target → Type 0) (s : S) (ws : List (WriteView Target))
      → ((w : WriteView Target) → P (ready (docs s) (resolved locate w)))
      → All P (staged s ws)
  staged-All P s ws h =
      All-map P (ready (docs s)) (map (resolved locate) ws)
        (All-map (λ p. P (ready (docs s) p)) (resolved locate) ws (All-always _ ws h))

  staged-Post :
      (ws : List (WriteView Target)) (s s₂ : S)
      → Distinct (resources (map (resolved locate) ws))
      → All (IsExpected digest maximum (docs s)) (map (resolved locate) ws)
      → ((q : R) → docs s₂ q ≡ docs s q)
      → Post
          (Committed ws s)
          (Recovered host behavior maximum law (docs s))
          (apply_writes host behavior maximum (staged s ws) [] s₂)
  staged-Post ws s s₂ d met same =
      let ps = staged s ws in
      let distinct : Distinct (resources ps) =
        subst Distinct (sym (resources-ready (docs s) (map (resolved locate) ws))) d in
      Post-mono _ _ (Committed ws s) (Recovered host behavior maximum law (docs s)) _
        (Post-both (Recoverable host maximum law (docs s))
          (Recovered host behavior maximum law (docs s))
          (Written host behavior maximum docs locate law ps s₂ []) (λ e s'. Unit) _
          (apply_writes-recovers host behavior maximum law (docs s) ps [] s₂
            (staged-All (OriginalKept host behavior maximum law (docs s)) s ws (λ w. refl))
            (record { originals = tt; others = λ q h. same q }))
          (apply_writes-commits host behavior maximum docs locate law ps [] s₂ distinct (
            staged-All (HoldsOriginal host behavior maximum docs locate law s₂) s ws
              (λ w. same (locate w.target)))))
        (λ done s' h. record {
          distinct = d;
          expected = All-of_map _ (resolved locate) ws met;
          written = All-of_map _ (resolved locate) ws (All-of_map _ (ready (docs s)) _ h.1.written);
          others = λ q away.
              h.1.others q (
                All-map (λ r. r ≢ q) (λ p. p.resource) ps
                  (All-map (λ p. p.resource ≢ q) (ready (docs s)) (map (resolved locate) ws)
                    (All-map (λ p. p.resource ≢ q) (resolved locate) ws away)))
              ∙ same q;
          log = h.1.log;
          recoverable = h.0;
        })
        (λ e s' h. h.0)

  -- What an execution returns: a receipt of everything done, or an error.
  abbrev pub Done : List (WriteView Target) → S → OperationReceipt R Target → S → Type 0
  Done ws s receipt s' =
      Committed ws s receipt.applied s'
      × (receipt.rollback_behavior ≡ behavior)
      × (receipt.maximum_content_bytes ≡ maximum)

  abbrev pub ExecutePost :
      List (WriteView Target)
      → S
      → Result (OperationExecutionError E Target) (OperationReceipt R Target) × S
      → Type 0
  ExecutePost ws s = Post (Done ws s) (Recovered host behavior maximum law (docs s))

  finish :
      (ws : List (WriteView Target)) (s : S)
      (r : Result (OperationExecutionError E Target) (List (AppliedWrite R Target)) × S)
      → Post (Committed ws s) (Recovered host behavior maximum law (docs s)) r
      → ExecutePost ws s (
          continue r λ done s₃. (
            ok (record {
              applied = done;
              rollback_behavior = behavior;
              maximum_content_bytes = maximum;
            }),
            s₃,
          ))
  finish ws s (ok done, s₃) h = (h, refl, refl)
  finish ws s (err e, s₃) h = h

  observe_and_apply :
      (ws : List (WriteView Target)) (s s₁ : S) (prepared : List (PreparedWrite R Target))
      → Resolved docs locate ws [] s prepared s₁
      → ExecutePost ws s (
          continue
            (fail_with execution_error (observe_writes host maximum digest prepared s₁))
            λ l s₂. continue (apply_writes host behavior maximum l [] s₂) λ done s₃. (
              ok (record {
                applied = done;
                rollback_behavior = behavior;
                maximum_content_bytes = maximum;
              }),
              s₃,
            ))
  observe_and_apply ws s s₁ prepared h =
      Post-continue (Observed host maximum digest docs locate law (docs s) prepared)
        (Recovered host behavior maximum law (docs s)) (Done ws s) _ _
        (Post-fail_with (Observed host maximum digest docs locate law (docs s) prepared)
          (λ e s'. (q : R) → docs s' q ≡ docs s q) (Recovered host behavior maximum law (docs s))
          execution_error (observe_writes host maximum digest prepared s₁)
          (observe_writes-Post host maximum digest docs locate law (docs s) prepared s₁ h.2)
          (λ e s' same clean. same))
        (λ l s₂ seen. finish ws s _ (
          subst
            (λ l.
              Post (Committed ws s) (Recovered host behavior maximum law (docs s))
                (apply_writes host behavior maximum l [] s₂))
            (sym (seen.0 ∙ ap (map (ready (docs s))) h.0))
            (staged-Post ws s s₂ (subst (λ p. Distinct (resources p)) h.0 h.1)
              (subst (All (IsExpected digest maximum (docs s))) h.0 seen.1) seen.2)))

  pub execute_writes-Post :
      (ws : List (WriteView Target)) (s : S)
      → ExecutePost ws s (execute_writes digest host behavior maximum ws s)
  unfolding execute_writes
  execute_writes-Post ws s =
      Post-continue (Resolved docs locate ws [] s) (Recovered host behavior maximum law (docs s))
        (Done ws s) _ _
        (Post-fail_with (Resolved docs locate ws [] s) (λ e s'. Same docs locate s s')
          (Recovered host behavior maximum law (docs s)) execution_error
          (resolve_writes host ws [] s) (resolve_writes-Post host docs locate law ws [] s tt)
          (λ e s' same clean. same))
        (λ prepared s₁ h. observe_and_apply ws s s₁ prepared h)
