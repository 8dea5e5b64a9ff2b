-- ===== src/Executor/Examples.antt =====
-- Tests of the executor's model, and its theorems at concrete hosts.
use cc_switch_core.Base.{
  nat_eq, list_eq, option_eq, string_eq, option_beq_iff, ℕ, suc, ◌≡◌, refl, ap, ◌∙◌, true, false,
  none, some, List, [], ◌∷◌, reverse, arith, Result, ok, if◌then◌else◌, length, nat_beq, le→leb,
}
use cc_switch_core.Text.{Bytes}
use cc_switch_core.Operation.Digest.{missing, for_contents, matches, hex_digit, encode, sha256}
use cc_switch_core.Executor.Types.{
  OperationExecutionError, WriteView, best_effort, dependency_ordered, OperationReceipt,
  OperationRollbackFailure, is_noop, OperationFailure,
}
use cc_switch_core.Executor.Prepare.{resolve_writes, observe_writes, read_for_execution}
use cc_switch_core.Executor.Rollback.{
  rollback_applied, rollback_loop, rollback_one, restore, after_conflict, failure_with_rollback,
}
use cc_switch_core.Executor.Run.{execute_writes, apply_writes, after_exchange}
use cc_switch_core.Executor.Receipt.{rollback, try_coalesce_last_write}
use cc_switch_core.Executor.Memory.{
  Memory, update_ne, replaced, read_document, memory_host, memory_host-IsHost,
}
use cc_switch_core.Executor.Transaction.{
  execute_writes-atomic, execute_writes-commits, rollback-undoes,
}
use cc_switch_core.Executor.Ordered.{Ordered, rollback_applied-stops}
use cc_switch_core.Executor.Coalesce.{IsRestorable, try_coalesce-err, try_coalesce-IsRestorable}
use cc_switch_core.Executor.Atomic.{Committed}
use cc_switch_core.Executor.Undo.{rollback-succeeds}
use cc_switch_core.Executor.Success.{IsReliable, execute_writes-succeeds}
use cc_switch_core.Executor.Host.{OperationRead}

-- A stand-in for the hash.
abbrev same_bytes : Bytes → Bytes
same_bytes c = c

-- Document 0 holds "a", document 1 holds "b", the others are missing.
abbrev two_documents : Memory
two_documents = record {
  documents =
      λ r. if nat_beq r 0 then some (97 ∷ []) else if nat_beq r 1 then some (98 ∷ []) else none;
  exchanges = 0;
}

-- Replaces document 0 by "c", removes document 1 and leaves document 2 missing.
abbrev three_writes : List (WriteView ℕ)
three_writes =
    record {
      target = 0;
      expected = for_contents same_bytes (some (97 ∷ []));
      contents = some (99 ∷ []);
    }
    ∷ record { target = 1; expected = for_contents same_bytes (some (98 ∷ [])); contents = none }
    ∷ record { target = 2; expected = missing; contents = none }
    ∷ []

-- The host fails at its second exchange, after the replacement.
abbrev failing_run : Result (OperationExecutionError (Unit {0}) ℕ) (OperationReceipt ℕ ℕ) × Memory
failing_run =
    execute_writes same_bytes (memory_host 2 true) best_effort 10 three_writes two_documents

abbrev second_write_failed : OperationExecutionError (Unit {0}) ℕ
second_write_failed = record {
  failure = OperationFailure.write_failed 1 tt;
  rollback_failures = [];
}

execute_writes-atomic_example : failing_run.1.documents 0 ≡ some (97 ∷ [])
unfolding execute_writes resolve_writes observe_writes read_for_execution apply_writes
    after_exchange failure_with_rollback rollback_applied rollback_loop rollback_one restore
    after_conflict matches for_contents sha256 encode hex_digit is_noop
execute_writes-atomic_example =
    execute_writes-atomic same_bytes (memory_host 2 true) best_effort 10 (λ s. s.documents) (λ t. t)
      (memory_host-IsHost 2 true) three_writes two_documents failing_run.1 second_write_failed refl
      refl 0

-- The same writes on a host that never fails.
abbrev good_run : Result (OperationExecutionError (Unit {0}) ℕ) (OperationReceipt ℕ ℕ) × Memory
good_run = execute_writes same_bytes (memory_host 0 true) best_effort 10 three_writes two_documents

abbrev good_receipt : OperationReceipt ℕ ℕ
good_receipt = record {
  applied =
      record { target = 0; resource = 0; original = some (97 ∷ []); written = some (99 ∷ []) }
      ∷ record { target = 1; resource = 1; original = some (98 ∷ []); written = none }
      ∷ [];
  rollback_behavior = best_effort;
  maximum_content_bytes = 10;
}

execute_writes-commits_example :
    Committed same_bytes
      (memory_host 0 true)
      best_effort
      10
      (λ s. s.documents)
      (λ t. t)
      (memory_host-IsHost 0 true)
      three_writes
      two_documents
      good_receipt.applied
      good_run.1
    × (good_receipt.rollback_behavior ≡ best_effort)
    × (good_receipt.maximum_content_bytes ≡ 10)
unfolding execute_writes resolve_writes observe_writes read_for_execution apply_writes
    after_exchange matches for_contents sha256 encode hex_digit is_noop
execute_writes-commits_example =
    execute_writes-commits same_bytes (memory_host 0 true) best_effort 10 (λ s. s.documents)
      (λ t. t) (memory_host-IsHost 0 true) three_writes two_documents good_run.1 good_receipt refl

-- No exchange has the number 0.
never : (n : ℕ) → nat_beq (suc n) 0 ≡ false
never n = ground arith

-- The memory host that never fails.
memory_host-IsReliable : IsReliable (memory_host 0 true) (λ s. s.documents) (λ (t : ℕ). t) 10
memory_host-IsReliable = record {
  resolves = λ t s. (s, refl, λ q. refl);
  reads_absent = λ r s e. (
    s,
    ap
        (λ o.
          let out : Result (Unit {0}) OperationRead × Memory = (ok (read_document o 10), s) in out)
        e,
    λ q. refl,
  );
  reads_contents = λ r s c e fits. (
    s,
    ap
          (λ o.
            let out : Result (Unit {0}) OperationRead × Memory = (ok (read_document o 10), s) in
            out)
          e
        ∙ rw (le→leb (length c) 10 fits) refl,
    λ q. refl,
  );
  exchanges = λ r e v s same. (
    replaced s r v,
    rw ((option_beq_iff (s.documents r) e).1 same, never s.exchanges) refl,
    λ q ne. update_ne s.documents r v q ne,
  );
}

execute_writes-succeeds_example :
    (receipt : OperationReceipt ℕ ℕ) × (s' : Memory) × (good_run ≡ (ok receipt, s'))
unfolding matches for_contents sha256 encode hex_digit
execute_writes-succeeds_example =
    execute_writes-succeeds same_bytes (memory_host 0 true) best_effort 10 (λ s. s.documents)
      (λ t. t) memory_host-IsReliable three_writes two_documents
      ((ground arith, (ground arith, tt)), ((ground arith, tt), (tt, tt)))
      (
        record { met = refl; within_limit = ground arith },
        (
          record { met = refl; within_limit = ground arith },
          (record { met = refl; within_limit = tt }, tt),
        ),
      )

abbrev good_rollback : Result (List (OperationRollbackFailure (Unit {0}) ℕ)) (Unit {0}) × Memory
good_rollback = rollback (memory_host 0 true) good_receipt good_run.1

rollback-undoes_example : good_rollback.1.documents 1 ≡ some (98 ∷ [])
unfolding rollback execute_writes resolve_writes observe_writes read_for_execution apply_writes
    after_exchange rollback_applied rollback_loop rollback_one restore after_conflict matches
    for_contents sha256 encode hex_digit is_noop
rollback-undoes_example =
    rollback-undoes same_bytes (memory_host 0 true) best_effort 10 (λ s. s.documents) (λ t. t)
      (memory_host-IsHost 0 true) three_writes two_documents good_run.1 good_receipt good_run.1
      good_rollback.1 refl (λ q. refl) refl 1

-- The state after the good run, written out.
abbrev changed_documents : Memory
changed_documents = record {
  documents = λ r. if nat_beq r 0 then some (99 ∷ []) else none;
  exchanges = 2;
}

rollback_applied-stops_example :
    Ordered (memory_host 3 true) 10 none (reverse good_receipt.applied) changed_documents (
      rollback_applied
        (memory_host 3 true)
        10
        good_receipt.applied
        dependency_ordered
        none
        changed_documents)
rollback_applied-stops_example =
    rollback_applied-stops (memory_host 3 true) 10 good_receipt.applied none changed_documents

-- A follow-up that writes document 1 again, and one that writes document 0.
abbrev followup_1 : OperationReceipt ℕ ℕ
followup_1 = record good_receipt {
  applied = record { target = 1; resource = 1; original = none; written = some (100 ∷ []) } ∷ [];
}

abbrev followup_0 : OperationReceipt ℕ ℕ
followup_0 = record good_receipt {
  applied = record { target = 0; resource = 0; original = some (99 ∷ []); written = none } ∷ [];
}

try_coalesce-err_example :
    (followup_0 ≡ followup_0) × ((try_coalesce_last_write good_receipt followup_0).0 ≡ good_receipt)
unfolding try_coalesce_last_write
try_coalesce-err_example = try_coalesce-err good_receipt followup_0 followup_0 refl

abbrev followed_documents : Memory
followed_documents = record {
  documents =
      λ r. if nat_beq r 0 then some (99 ∷ []) else if nat_beq r 1 then some (100 ∷ []) else none;
  exchanges = 3;
}

first_IsRestorable : IsRestorable two_documents.documents changed_documents.documents good_receipt
first_IsRestorable = record {
  distinct = ((ground arith, tt), (tt, tt));
  originals = (refl, (refl, tt));
  others = λ q h. ground (arith, h.0, h.1.0);
  current = (refl, (refl, tt));
  fits_original = (omega arith, (omega arith, tt));
  fits_written = (omega arith, (tt, tt));
}

second_IsRestorable :
    IsRestorable changed_documents.documents followed_documents.documents followup_1
second_IsRestorable = record {
  distinct = (tt, tt);
  originals = (refl, tt);
  others = λ q h. ground (arith, h.0);
  current = (refl, tt);
  fits_original = (tt, tt);
  fits_written = (omega arith, tt);
}

try_coalesce-IsRestorable_example :
    IsRestorable two_documents.documents followed_documents.documents
      (try_coalesce_last_write good_receipt followup_1).0
unfolding try_coalesce_last_write
try_coalesce-IsRestorable_example =
    try_coalesce-IsRestorable two_documents.documents changed_documents.documents
      followed_documents.documents good_receipt followup_1 first_IsRestorable second_IsRestorable
      refl

rollback-succeeds_example :
    (s' : Memory) × (rollback (memory_host 0 true) good_receipt changed_documents ≡ (ok tt, s'))
    × ((q : ℕ) → s'.documents q ≡ two_documents.documents q)
rollback-succeeds_example =
    rollback-succeeds (memory_host 0 true) (λ s. s.documents) (λ t. t) (memory_host-IsHost 0 true)
      10 memory_host-IsReliable two_documents.documents good_receipt changed_documents
      first_IsRestorable
