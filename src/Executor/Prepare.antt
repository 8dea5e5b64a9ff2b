-- ===== src/Executor/Prepare.antt =====
-- The two preparing loops of `execute_writes` (src/executor.rs): every write's resource is resolved,
-- then every original is read and held to its expectation. `digest` stands for the SHA-256 hash.
use cc_switch_core.Base.{
  nat_eq, list_eq, option_eq, string_eq, ℕ, Option, none, some, List, [], ◌∷◌, ◌++◌, Result, ok,
  err, ◌==◌, Eq, if◌then◌else◌, length, leb,
}
use cc_switch_core.Base.{continue, fail_with, find}
use cc_switch_core.Text.{Bytes}
use cc_switch_core.Operation.Digest.{matches}
use cc_switch_core.Executor.Host.{OperationRead, absent, contents, too_large, OperationHost}
use cc_switch_core.Executor.Types.{
  OperationFailure, resolve_failed, aliased_targets, conflicting, WriteView, PreparedWrite,
  observed_content_too_large, read_failed,
}

module _ {Target R E S : Type 0} ⦃same_resource : Eq R⦄ (host : OperationHost Target R E S) where
  -- Adds a resolved write to those before it, unless one of them has its resource.
  abbrev pub prepare :
      WriteView Target
      → List (PreparedWrite R Target)
      → R
      → S
      → Option (PreparedWrite R Target)
      → Result (OperationFailure E Target) (List (PreparedWrite R Target)) × S
  prepare w prepared resource s (some existing) =
      (err (aliased_targets existing.write.target w.target), s)
  prepare w prepared resource s none =
      (ok (prepared ++ (record { write = w; resource = resource; original = none } ∷ [])), s)

  -- The first loop of `execute_writes`; `prepared` holds the writes resolved so far.
  unfoldable pub resolve_writes :
      List (WriteView Target)
      → List (PreparedWrite R Target)
      → S
      → Result (OperationFailure E Target) (List (PreparedWrite R Target)) × S
  resolve_writes [] prepared s = (ok prepared, s)
  resolve_writes (w ∷ ws) prepared s =
      continue (fail_with (resolve_failed w.target) (host.resolve w.target s)) λ resource s₁.
        continue (prepare w prepared resource s₁ (find (λ p. p.resource == resource) prepared))
          (resolve_writes ws)

module _ {Target R E S : Type 0} (host : OperationHost Target R E S) (maximum : ℕ) where
  abbrev pub observed :
      Target → Result E OperationRead × S → Result (OperationFailure E Target) (Option Bytes) × S
  observed target (ok absent, s) = (ok none, s)
  observed target (ok (contents c), s) =
      if leb (length c) maximum
      then (ok (some c), s)
      else (err (observed_content_too_large target maximum), s)
  observed target (ok too_large, s) = (err (observed_content_too_large target maximum), s)
  observed target (err e, s) = (err (read_failed target e), s)

  -- `read_for_execution`
  unfoldable pub read_for_execution :
      R → Target → S → Result (OperationFailure E Target) (Option Bytes) × S
  read_for_execution resource target s = observed target (host.read resource maximum s)

  -- The second loop of `execute_writes`: each original is read and held to its expectation.
  unfoldable pub observe_writes :
      (Bytes → Bytes)
      → List (PreparedWrite R Target)
      → S
      → Result (OperationFailure E Target) (List (PreparedWrite R Target)) × S
  observe_writes digest [] s = (ok [], s)
  observe_writes digest (p ∷ ps) s =
      continue (read_for_execution p.resource p.write.target s) λ original s₁.
        if matches digest p.write.expected original
        then continue (observe_writes digest ps s₁)
            (λ rest s₂. (ok (record p { original = original } ∷ rest), s₂))
        else (err (conflicting p.write.target), s₁)
