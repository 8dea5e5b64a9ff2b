-- ===== src/Executor/Host.antt =====
-- `OperationHost` and its results (src/executor.rs). The trait's implementations are the hosts':
-- here a host is a record of three operations on a state of its own.
use cc_switch_core.Base.{
  nat_eq, list_eq, option_eq, string_eq, ℕ, ◌≡◌, ◌≢◌, ◌⊎◌, Option, none, some, Result, ok, err,
}
use cc_switch_core.Text.{Bytes}

pub data OperationRead : Type 0 where
  absent : OperationRead
  contents : Bytes → OperationRead
  too_large : OperationRead

pub data CompareExchangeOutcome : Type 0 where
  applied conflict : CompareExchangeOutcome

pub record OperationHost (Target Resource Error State : Type 0) : Type 0 where
  pub resolve : Target → State → Result Error Resource × State
  pub read : Resource → ℕ → State → Result Error OperationRead × State
  pub compare_exchange :
      Resource → Option Bytes → Option Bytes → State → Result Error CompareExchangeOutcome × State

module _ {Target Resource Error State : Type 0} where
  -- What the trait documents of a host that nobody else writes beside: `docs` gives the document of
  -- each resource in a state, and `locate` the resource of each target. An exchange may conflict at
  -- any time, and an error may come before or after the replacement.
  pub record IsHost (host : OperationHost Target Resource Error State)
      (docs : State → Resource → Option Bytes) (locate : Target → Resource) : Type 0 where
    pub resolve_stable :
        (t : Target) (s : State) (r : Resource) → (host.resolve t s).0 ≡ ok r → r ≡ locate t
    pub docs-resolve :
        (t : Target) (s : State) (q : Resource) → docs (host.resolve t s).1 q ≡ docs s q
    pub docs-read :
        (r : Resource) (maximum : ℕ) (s : State) (q : Resource)
        → docs (host.read r maximum s).1 q ≡ docs s q
    pub read_absent :
        (r : Resource) (maximum : ℕ) (s : State)
        → (host.read r maximum s).0 ≡ ok absent
        → docs s r ≡ none
    pub read_contents :
        (r : Resource) (maximum : ℕ) (s : State) (c : Bytes)
        → (host.read r maximum s).0 ≡ ok (contents c)
        → docs s r ≡ some c
    -- No exchange touches another resource.
    pub exchange_other :
        (r : Resource) (expected replacement : Option Bytes) (s : State) (q : Resource)
        → r ≢ q
        → docs (host.compare_exchange r expected replacement s).1 q ≡ docs s q
    pub exchange_applied :
        (r : Resource) (expected replacement : Option Bytes) (s : State)
        → (host.compare_exchange r expected replacement s).0 ≡ ok applied
        → (docs s r ≡ expected)
          × (docs (host.compare_exchange r expected replacement s).1 r ≡ replacement)
    pub exchange_conflict :
        (r : Resource) (expected replacement : Option Bytes) (s : State)
        → (host.compare_exchange r expected replacement s).0 ≡ ok conflict
        → docs (host.compare_exchange r expected replacement s).1 r ≡ docs s r
    pub exchange_error :
        (r : Resource) (expected replacement : Option Bytes) (s : State) (e : Error)
        → (host.compare_exchange r expected replacement s).0 ≡ err e
        → (docs (host.compare_exchange r expected replacement s).1 r ≡ docs s r)
          ⊎ (docs (host.compare_exchange r expected replacement s).1 r ≡ replacement)
