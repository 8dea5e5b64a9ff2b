-- ===== src/Operation/Validation.antt =====
-- Which plans `validate_for` and `validate_with_content_limit` accept (src/operation.rs).
use cc_switch_core.Base.{
  nat_eq, list_eq, option_eq, string_eq, list_beq_iff, ℕ, ◌≤◌, ◌<◌, ◌≡◌, refl, ◌↔◌, true, false,
  not, ◌&&◌, Option, none, some, List, [], ◌∷◌, map, arith, Result, ok, err, ◌>>=◌, length, All,
  contains, nat_beq_iff, find, is_empty_iff, ltb-false→le, le→ltb_false,
}
use cc_switch_core.Text.{Bytes}
use cc_switch_core.App.{AppType, app_eq}
use cc_switch_core.App.Target.{LogicalTarget, app, allows_removal, target_eq}
use cc_switch_core.Registry.Catalog.{as_str}
use cc_switch_core.Registry.Targets.{targets_of, targets_of-contains}
use cc_switch_core.Operation.Digest.{ContentExpectation, missing, sha256_digest, valid_sha256}
use cc_switch_core.Operation.Plan.{
  PlannedWrite, OperationPlan, exceeds, is_removal, is_malformed, check_write,
  operation_contract_major, max_operation_writes, validate_for, OperationPlanError, check_writes,
  validate_plan_with_content_limit,
}

abbrev pub WithinLimit : ℕ → Option Bytes → Type 0
WithinLimit maximum (some contents) = length contents ≤ maximum
WithinLimit maximum none = Unit

-- Only a removable document may be removed.
abbrev pub MayRemove : LogicalTarget → Option Bytes → Type 0
MayRemove target (some contents) = Unit
MayRemove target none = allows_removal target ≡ true

abbrev pub WellFormed : ContentExpectation → Type 0
WellFormed (sha256_digest digest) = valid_sha256 digest ≡ true
WellFormed missing = Unit

pub record IsWritable (a : AppType) (maximum : ℕ) (w : PlannedWrite) : Type 0 where
  pub owned : app w.target ≡ a
  pub within_limit : WithinLimit maximum w.contents
  pub removable : MayRemove w.target w.contents
  pub well_formed : WellFormed w.expected

-- No target is among those of the earlier writes, and none is written twice.
abbrev pub Fresh : List LogicalTarget → List PlannedWrite → Type 0
Fresh seen [] = Unit
Fresh seen (w ∷ ws) = (contains seen w.target ≡ false) × Fresh (w.target ∷ seen) ws

pub record IsValidFor (a : AppType) (maximum : ℕ) (plan : OperationPlan) : Type 0 where
  pub major : plan.contract_major ≡ operation_contract_major
  pub owner : plan.app_id ≡ as_str a
  pub some_writes : 0 < length plan.writes
  pub few_writes : length plan.writes ≤ max_operation_writes
  pub distinct : Fresh [] plan.writes
  pub writable : All (IsWritable a maximum) plan.writes

pub exceeds_iff :
    (maximum : ℕ) (o : Option Bytes) → (exceeds maximum o ≡ false) ↔ WithinLimit maximum o
unfolding exceeds
exceeds_iff maximum none = (λ h. tt, λ h. refl)
exceeds_iff maximum (some c) = ground arith

removal_iff :
    (t : LogicalTarget) (o : Option Bytes)
    → ((is_removal o && not (allows_removal t)) ≡ false) ↔ MayRemove t o
unfolding is_removal
removal_iff t none = ground arith
removal_iff t (some c) = (λ h. tt, λ h. refl)

malformed_iff : (e : ContentExpectation) → (is_malformed e ≡ false) ↔ WellFormed e
unfolding is_malformed
malformed_iff missing = (λ h. tt, λ h. refl)
malformed_iff (sha256_digest d) = ground arith

-- One write passes exactly when it is writable and its target is new.
check_write_iff :
    (a : AppType) (maximum : ℕ) (seen : List LogicalTarget) (w : PlannedWrite)
    → (check_write a maximum seen w ≡ ok tt)
      ↔ (IsWritable a maximum w × (contains seen w.target ≡ false))
unfolding check_write
check_write_iff a maximum seen w = (sound, complete)
  where
    sound :
        check_write a maximum seen w ≡ ok tt
        → IsWritable a maximum w × (contains seen w.target ≡ false)
    sound h = (
      record {
        owned = (app_eq.eqb_iff (app w.target) a).0 (ground arith);
        within_limit = (exceeds_iff maximum w.contents).0 (ground arith);
        removable = (removal_iff w.target w.contents).0 (ground arith);
        well_formed = (malformed_iff w.expected).0 (ground arith);
      },
      ground arith,
    )

    complete :
        IsWritable a maximum w × (contains seen w.target ≡ false)
        → check_write a maximum seen w ≡ ok tt
    complete (v, fresh) = rw (
      (app_eq.eqb_iff _ _).1 v.owned,
      fresh,
      (exceeds_iff _ _).1 v.within_limit,
      (removal_iff _ _).1 v.removable,
      (malformed_iff _).1 v.well_formed,
    )

bind-eq-ok :
    (m : Result OperationPlanError (Unit {0})) (f : Unit {0} → Result OperationPlanError (Unit {0}))
    → (m >>= f) ≡ ok tt
    → (m ≡ ok tt) × (f tt ≡ ok tt)
bind-eq-ok (ok u) f h = (refl, h)
bind-eq-ok (err e) f h = cc

check_writes_iff :
    (a : AppType) (maximum : ℕ) (seen : List LogicalTarget) (ws : List PlannedWrite)
    → (check_writes a maximum seen ws ≡ ok tt) ↔ (All (IsWritable a maximum) ws × Fresh seen ws)
unfolding check_writes
check_writes_iff a maximum seen [] = (λ h. (tt, tt), λ h. refl)
check_writes_iff a maximum seen (w ∷ ws) =
    let first = check_write_iff a maximum seen w in
    let rest = check_writes_iff a maximum (w.target ∷ seen) ws in
    (
      λ h.
          let (now, later) =
            bind-eq-ok (check_write a maximum seen w)
              (λ _. check_writes a maximum (w.target ∷ seen) ws) h in
          let (v, fresh) = first.0 now in
          let (vs, others) = rest.0 later in ((v, vs), (fresh, others)),
      λ h. rw (first.1 (h.0.0, h.1.0)) (rest.1 (h.0.1, h.1.1)),
    )

-- `validate_for` accepts exactly the plans of this application with the supported contract, one
-- to four writes on distinct documents that the application owns, contents within the limit,
-- removals of removable documents only, and well-formed digests.
pub validate_for_iff :
    (plan : OperationPlan) (a : AppType) (maximum : ℕ)
    → (validate_for plan a maximum ≡ ok tt) ↔ IsValidFor a maximum plan
unfolding validate_for
validate_for_iff plan a maximum = (sound, complete)
  where
    sound : validate_for plan a maximum ≡ ok tt → IsValidFor a maximum plan
    sound h =
        let (vs, fresh) = (check_writes_iff a maximum [] plan.writes).0 (ground arith) in
        record {
          major = (nat_beq_iff _ _).0 (ground arith);
          owner = (list_beq_iff _ _).0 (ground arith);
          some_writes = (is_empty_iff plan.writes).0 (ground arith);
          few_writes = ltb-false→le _ _ (ground arith);
          distinct = fresh;
          writable = vs;
        }

    complete : IsValidFor a maximum plan → validate_for plan a maximum ≡ ok tt
    complete v =
        rw
          (
            (nat_beq_iff _ _).1 v.major,
            (list_beq_iff _ _).1 v.owner,
            (is_empty_iff _).1 v.some_writes,
            le→ltb_false _ _ v.few_writes,
          )
          ((check_writes_iff a maximum [] plan.writes).1 (v.writable, v.distinct))

declared :
    (a : AppType) (maximum : ℕ) (ws : List PlannedWrite)
    → All (IsWritable a maximum) ws
    → find (λ target. not (contains (targets_of a) target)) (map (λ w. w.target) ws) ≡ none
declared a maximum [] h = refl
declared a maximum (w ∷ ws) h =
    rw (targets_of-contains a w.target, (app_eq.eqb_iff _ _).1 h.0.owned)
      (declared a maximum ws h.1)

-- The adapter's own check adds nothing: a plan that passes `validate_for` names declared documents
-- only, so `UndeclaredTarget` is never reported.
pub validate_plan-eq-validate_for :
    (a : AppType) (plan : OperationPlan) (maximum : ℕ)
    → validate_plan_with_content_limit a plan maximum ≡ validate_for plan a maximum
unfolding validate_plan_with_content_limit
validate_plan-eq-validate_for a plan maximum = by_result (validate_for plan a maximum) refl
  where
    by_result :
        (r : Result OperationPlanError (Unit {0}))
        → validate_for plan a maximum ≡ r
        → validate_plan_with_content_limit a plan maximum ≡ r
    by_result (ok u) e =
        rw (e, declared a maximum plan.writes ((validate_for_iff plan a maximum).0 e).writable)
    by_result (err e) h = rw h
