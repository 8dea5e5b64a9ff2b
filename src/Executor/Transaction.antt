-- ===== src/Executor/Transaction.antt =====
-- Theorems on an execution and on its receipt (src/executor.rs), on a host that nobody else
-- writes beside: `IsHost` states what the trait documents of it.
use cc_switch_core.Base.{
  nat_eq, list_eq, option_eq, string_eq, ℕ, ◌≡◌, refl, sym, ap, ◌∙◌, Option, none, List, [], ◌∷◌,
  ok, err, Eq,
}
use cc_switch_core.Base.{Post-ok, Post-err}
use cc_switch_core.Text.{Bytes}
use cc_switch_core.Executor.Host.{OperationHost, IsHost}
use cc_switch_core.Executor.Types.{
  OperationExecutionError, WriteView, RollbackBehavior, OperationReceipt, OperationRollbackFailure,
}
use cc_switch_core.Executor.Rollback.{rollback_applied}
use cc_switch_core.Executor.Run.{execute_writes}
use cc_switch_core.Executor.Receipt.{rollback, unless_failed}
use cc_switch_core.Executor.Recovery.{rollback_applied-recovers}
use cc_switch_core.Executor.Apply.{Recovered}
use cc_switch_core.Executor.Atomic.{Committed, Done, execute_writes-Post}

module _ {Target R E S : Type 0} (host : OperationHost Target R E S) where
  rolled_back :
      (r : List (OperationRollbackFailure E Target) × S) (t : S)
      → unless_failed host r ≡ (ok tt, t)
      → (r.0 ≡ []) × (r.1 ≡ t)
  rolled_back ([], s) t h = (refl, ap (λ p. p.1) h)
  rolled_back (f ∷ fs, s) t h = cc (ap (λ p. p.0) h)

module _ {Target R E S : Type 0} ⦃same_resource : Eq R⦄ (digest : Bytes → Bytes)
    (host : OperationHost Target R E S) (behavior : RollbackBehavior) (maximum : ℕ)
    (docs : S → R → Option Bytes) (locate : Target → R) (law : IsHost host docs locate)
    (ws : List (WriteView Target)) (s s' : S) where
  -- An execution that fails and reports no rollback failure leaves every document as it was,
  -- whatever write it failed at.
  pub execute_writes-atomic :
      (e : OperationExecutionError E Target)
      → execute_writes digest host behavior maximum ws s ≡ (err e, s')
      → e.rollback_failures ≡ []
      → (q : R) → docs s' q ≡ docs s q
  execute_writes-atomic e run =
      Post-err (Done digest host behavior maximum docs locate law ws s)
        (Recovered host behavior maximum law (docs s))
        (execute_writes-Post digest host behavior maximum docs locate law ws s) run

  -- An execution that succeeds found the writes' resources distinct and each document as expected
  -- and within the limit; each document now has the write's contents or is gone as it asks, and no
  -- other document has changed. The receipt records the writes that changed something, in order.
  pub execute_writes-commits :
      (receipt : OperationReceipt R Target)
      → execute_writes digest host behavior maximum ws s ≡ (ok receipt, s')
      → Committed digest host behavior maximum docs locate law ws s receipt.applied s'
        × (receipt.rollback_behavior ≡ behavior)
        × (receipt.maximum_content_bytes ≡ maximum)
  execute_writes-commits receipt run =
      Post-ok (Done digest host behavior maximum docs locate law ws s)
        (Recovered host behavior maximum law (docs s))
        (execute_writes-Post digest host behavior maximum docs locate law ws s) run

  -- Rolling back the receipt of an execution, from any later state with the documents that it left,
  -- brings every document back if it reports success.
  pub rollback-undoes :
      (receipt : OperationReceipt R Target) (t t' : S)
      → execute_writes digest host behavior maximum ws s ≡ (ok receipt, s')
      → ((q : R) → docs t q ≡ docs s' q)
      → rollback host receipt t ≡ (ok tt, t')
      → (q : R) → docs t' q ≡ docs s q
  unfolding rollback
  rollback-undoes receipt t t' run kept back q =
      let done = execute_writes-commits receipt run in
      let (clean, reached) =
        rolled_back host
          (rollback_applied host receipt.maximum_content_bytes receipt.applied
            receipt.rollback_behavior none t)
          t' back in
      sym (ap (λ u. docs u q) reached)
      ∙ rollback_applied-recovers host receipt.maximum_content_bytes law (docs s) receipt.applied
          receipt.rollback_behavior none t
          (record {
            originals = done.0.recoverable.originals;
            others = λ p h. kept p ∙ done.0.recoverable.others p h;
          })
          clean q
