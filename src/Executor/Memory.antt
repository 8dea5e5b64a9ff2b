-- ===== src/Executor/Memory.antt =====
-- A host that keeps its documents in memory and fails at a chosen exchange, before or after the
-- replacement, for tests and witnesses; it follows the executor's own test host.
use cc_switch_core.Base.{
  nat_eq, list_eq, option_eq, string_eq, option_beq_iff, ℕ, suc, ◌≡◌, refl, sym, ◌≢◌, ◌⊎◌, inl, inr,
  Bool, true, false, Option, none, some, arith, Result, ok, err, ◌==◌, if◌then◌else◌, length,
  Bool-cases, leb, nat_beq,
}
use cc_switch_core.Base.{ok-injective, nat_beq_iff}
use cc_switch_core.Text.{Bytes}
use cc_switch_core.App.Target.{LogicalTarget, target_index}
use cc_switch_core.Executor.Host.{
  absent, contents, conflict, IsHost, OperationRead, absent, contents, too_large,
  CompareExchangeOutcome, applied, conflict, OperationHost, IsHost,
}

pub record Memory : Type 0 where
  pub documents : ℕ → Option Bytes
  pub exchanges : ℕ

abbrev pub update : (ℕ → Option Bytes) → ℕ → Option Bytes → ℕ → Option Bytes
update d r v q = if nat_beq r q then v else d q

abbrev pub read_document : Option Bytes → ℕ → OperationRead
read_document none maximum = absent
read_document (some c) maximum = if leb (length c) maximum then contents c else too_large

abbrev pub replaced : Memory → ℕ → Option Bytes → Memory
replaced s r v = record { documents = update s.documents r v; exchanges = suc s.exchanges }

abbrev counted : Memory → Memory
counted s = record s { exchanges = suc s.exchanges }

absent_none : (o : Option Bytes) (maximum : ℕ) → read_document o maximum ≡ absent → o ≡ none
absent_none o maximum h = ground arith

contents_some :
    (o : Option Bytes) (maximum : ℕ) (c : Bytes) → read_document o maximum ≡ contents c → o ≡ some c
contents_some o maximum c h = ground arith

update_self : (d : ℕ → Option Bytes) (r : ℕ) (v : Option Bytes) → update d r v r ≡ v
update_self d r v = rw ((nat_beq_iff r r).1 refl)

pub update_ne :
    (d : ℕ → Option Bytes) (r : ℕ) (v : Option Bytes) (q : ℕ) → r ≢ q → update d r v q ≡ d q
update_ne d r v q ne = ground (arith, nat_beq_iff r q)

module _ (fail_at : ℕ) (apply_failed : Bool) where
  -- Whether the contents are those expected, and whether this exchange is the one that fails.
  abbrev exchange :
      Bool → Bool → ℕ → Option Bytes → Memory → Result (Unit {0}) CompareExchangeOutcome × Memory
  exchange false fails r v s = (ok conflict, counted s)
  exchange true false r v s = (ok applied, replaced s r v)
  exchange true true r v s = (err tt, if apply_failed then replaced s r v else counted s)

  abbrev pub memory_host : OperationHost ℕ ℕ (Unit {0}) Memory
  memory_host = record {
    resolve = λ t s. (ok t, s);
    read = λ r maximum s. (ok (read_document (s.documents r) maximum), s);
    compare_exchange =
        λ r e v s. exchange (s.documents r == e) (nat_beq (suc s.exchanges) fail_at) r v s;
  }

  exchange_other :
      (same fails : Bool) (r : ℕ) (v : Option Bytes) (s : Memory) (q : ℕ)
      → r ≢ q
      → (exchange same fails r v s).1.documents q ≡ s.documents q
  exchange_other false fails r v s q ne = refl
  exchange_other true false r v s q ne = update_ne s.documents r v q ne
  exchange_other true true r v s q ne = elim (Bool-cases apply_failed) [
    | inl e ↦ rw e (update_ne s.documents r v q ne)
    | inr e ↦ rw e
  ]

  exchange_applied :
      (same fails : Bool) (r : ℕ) (v : Option Bytes) (s : Memory)
      → (exchange same fails r v s).0 ≡ ok applied
      → (same ≡ true) × ((exchange same fails r v s).1.documents r ≡ v)
  exchange_applied false fails r v s h = cc (ok-injective h)
  exchange_applied true false r v s h = (refl, update_self s.documents r v)
  exchange_applied true true r v s h = cc

  exchange_conflict :
      (same fails : Bool) (r : ℕ) (v : Option Bytes) (s : Memory)
      → (exchange same fails r v s).0 ≡ ok conflict
      → (exchange same fails r v s).1.documents r ≡ s.documents r
  exchange_conflict false fails r v s h = refl
  exchange_conflict true false r v s h = cc (ok-injective h)
  exchange_conflict true true r v s h = cc

  exchange_error :
      (same fails : Bool) (r : ℕ) (v : Option Bytes) (s : Memory) (e : Unit {0})
      → (exchange same fails r v s).0 ≡ err e
      → ((exchange same fails r v s).1.documents r ≡ s.documents r)
        ⊎ ((exchange same fails r v s).1.documents r ≡ v)
  exchange_error false fails r v s e h = cc
  exchange_error true false r v s e h = cc
  exchange_error true true r v s e h = elim (Bool-cases apply_failed) [
    | inl b ↦ rw b (inr (update_self s.documents r v))
    | inr b ↦ rw b (inl refl)
  ]

  -- The memory host keeps the trait's contract.
  pub memory_host-IsHost : IsHost memory_host (λ s. s.documents) (λ t. t)
  memory_host-IsHost = record {
    resolve_stable = λ t s r h. sym (ok-injective h);
    docs-resolve = λ t s q. refl;
    docs-read = λ r maximum s q. refl;
    read_absent = λ r maximum s h. absent_none (s.documents r) maximum (ok-injective h);
    read_contents = λ r maximum s c h. contents_some (s.documents r) maximum c (ok-injective h);
    exchange_other = λ r e v s q ne. exchange_other _ _ r v s q ne;
    exchange_applied = λ r e v s h.
        let done = exchange_applied _ _ r v s h in
        ((option_beq_iff (s.documents r) e).0 done.0, done.1);
    exchange_conflict = λ r e v s h. exchange_conflict _ _ r v s h;
    exchange_error = λ r e v s x h. exchange_error _ _ r v s x h;
  }

-- The host in memory, with a resource for each target.
abbrev pub plan_host : ℕ → OperationHost LogicalTarget ℕ (Unit {0}) Memory
plan_host fail_at = record {
  resolve = λ t s. (ok (target_index t), s);
  read = (memory_host fail_at true).read;
  compare_exchange = (memory_host fail_at true).compare_exchange;
}

pub plan_host-IsHost : (fail_at : ℕ) → IsHost (plan_host fail_at) (λ s. s.documents) target_index
plan_host-IsHost fail_at =
    let law = memory_host-IsHost fail_at true in
    record {
      resolve_stable = λ t s r h. sym (ok-injective h);
      docs-resolve = λ t s q. refl;
      docs-read = law.docs-read;
      read_absent = law.read_absent;
      read_contents = law.read_contents;
      exchange_other = law.exchange_other;
      exchange_applied = law.exchange_applied;
      exchange_conflict = law.exchange_conflict;
      exchange_error = law.exchange_error;
    }
