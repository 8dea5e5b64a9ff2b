-- ===== src/Operation/Decode.antt =====
-- Bounded decoding of a serialized plan (src/operation.rs). The JSON parser is serde_json's: an
-- argument gives its result on a frame, and others what it makes of each element of a sequence.
use cc_switch_core.Base.{
  nat_eq, list_eq, option_eq, string_eq, ℕ, zero, suc, ◌≤◌, ◌≡◌, refl, sym, ap, subst, inl, inr,
  Option, List, [], ◌∷◌, map, arith, Result, ok, err, ◌>>=◌, if◌then◌else◌, length, Bool-cases, ltb,
}
use cc_switch_core.Base.{◌>>◌, map_err, >>=-eq-ok, map_err-eq-ok, ok-injective, ltb-false→le}
use cc_switch_core.Base.{◌>>◌, map_err, >>=-eq-ok, map_err-eq-ok}
use cc_switch_core.Text.{Text, Bytes}
use cc_switch_core.App.{AppType}
use cc_switch_core.App.Target.{LogicalTarget}
use cc_switch_core.Operation.Digest.{ContentExpectation}
use cc_switch_core.Operation.Plan.{
  OperationPlan, OperationPlanError, max_operation_plan_wire_bytes, max_operation_content_bytes,
  validate,
}
use cc_switch_core.Operation.Validation.{IsValidFor}
use cc_switch_core.Operation.Acceptance.{validate_with_content_limit_iff}

pub record PlannedWriteWire : Type 0 where
  pub target : LogicalTarget
  pub expected : ContentExpectation
  pub contents : Option Bytes

pub record OperationPlanWire : Type 0 where
  pub contract_major : ℕ
  pub app_id : Text
  pub writes : List PlannedWriteWire

pub data OperationPlanDecodeError (E : Type 0) : Type 0 where
  frame_too_large : ℕ → OperationPlanDecodeError E
  malformed : E → OperationPlanDecodeError E
  invalid : OperationPlanError → OperationPlanDecodeError E

unfoldable pub plan_of_wire : OperationPlanWire → OperationPlan
plan_of_wire wire = record {
  contract_major = wire.contract_major;
  app_id = wire.app_id;
  writes =
      map (λ w. record { target = w.target; expected = w.expected; contents = w.contents })
        wire.writes;
}

-- What `decode_json` does with a parsed frame.
unfoldable pub decode_wire :
    {E : Type 0} → OperationPlanWire → Result (OperationPlanDecodeError E) OperationPlan
decode_wire wire = do let plan = plan_of_wire wire; map_err invalid (validate plan); ok plan

module _ {E : Type 0} (from_slice : Bytes → Result E OperationPlanWire) where
  -- `OperationPlan::decode_json`
  unfoldable pub decode_json : Bytes → Result (OperationPlanDecodeError E) OperationPlan
  unfolding decode_wire
  decode_json input =
      if ltb max_operation_plan_wire_bytes (length input)
      then err (frame_too_large max_operation_plan_wire_bytes)
      else map_err malformed (from_slice input) >>= decode_wire

  decode_wire-valid :
      (wire : OperationPlanWire) (plan : OperationPlan)
      → decode_wire {E = E} wire ≡ ok plan
      → validate plan ≡ ok tt
  unfolding decode_wire
  decode_wire-valid wire plan h =
      let (u, valid, same) = >>=-eq-ok (map_err invalid (validate (plan_of_wire wire))) _ h in
      subst (λ p. validate p ≡ ok tt) (ground arith) (map_err-eq-ok invalid _ valid)

  -- A frame that decodes is no longer than the wire limit, and its plan is a valid plan of some
  -- built-in application under the fixed content limit.
  pub decode_json_sound :
      (input : Bytes) (plan : OperationPlan)
      → decode_json input ≡ ok plan
      → (length input ≤ max_operation_plan_wire_bytes)
        × ((a : AppType) × IsValidFor a max_operation_content_bytes plan)
  decode_json_sound input plan h =
      elim (Bool-cases (ltb max_operation_plan_wire_bytes (length input))) [
        | inl e ↦ absurd (unfold decode_json in ground (arith, e, h))
        | inr e ↦
            let parsed : (map_err malformed (from_slice input) >>= decode_wire) ≡ ok plan =
              unfold decode_json in ground (arith, e, h) in
            let (wire, _, decoded) =
              >>=-eq-ok (map_err malformed (from_slice input)) decode_wire parsed in
            (
              ltb-false→le _ _ e,
              (validate_with_content_limit_iff plan max_operation_content_bytes).0
                  (unfold validate in decode_wire-valid wire plan decoded),
            )
      ]

module _ {ℓ κ μ ν} {R : Type ℓ} {W : Type κ} {E : Type μ} (next : R → Result E W)
    (ignore : R → Result E (Unit {0})) (finish : Result E (Unit {0})) (too_long : E) where
  -- `BoundedWrites`' visitor: `next` reads an element, `ignore` one past the last that is kept,
  -- `finish` the end of the sequence, and `too_long` is the error of an over-long sequence. The first
  -- argument counts the room left.
  unfoldable pub visit_seq : ℕ → List R → Result E (List W)
  visit_seq zero [] = finish >> ok []
  visit_seq zero (r ∷ rs) = ignore r >> err too_long
  visit_seq (suc room) [] = finish >> ok []
  visit_seq (suc room) (r ∷ rs) = do write ← next r; writes ← visit_seq room rs; ok (write ∷ writes)

  -- Every element and the end, read in order.
  unfoldable pub read_all : List R → Result E (List W)
  read_all [] = finish >> ok []
  read_all (r ∷ rs) = do write ← next r; writes ← read_all rs; ok (write ∷ writes)

  -- A sequence that fits is read in full, in order.
  pub visit_seq-fits : (room : ℕ) (rs : List R) → length rs ≤ room → visit_seq room rs ≡ read_all rs
  unfolding visit_seq read_all
  visit_seq-fits zero [] h = refl
  visit_seq-fits (suc room) [] h = refl
  visit_seq-fits zero (r ∷ rs) h = absurd (omega arith)
  visit_seq-fits (suc room) (r ∷ rs) h = simp (visit_seq-fits room rs (omega arith))

  -- An accepted sequence has no more elements than there is room for.
  pub visit_seq-bounded :
      (room : ℕ) (rs : List R) (ws : List W)
      → visit_seq room rs ≡ ok ws
      → (length rs ≤ room) × (length ws ≡ length rs)
  unfolding visit_seq
  visit_seq-bounded zero [] ws h =
      let (u, _, e) = >>=-eq-ok finish (λ _. ok []) h in
      (omega arith, sym (ap length (ok-injective e)))
  visit_seq-bounded zero (r ∷ rs) ws h =
      let (u, _, e) = >>=-eq-ok (ignore r) (λ _. err too_long) h in cc
  visit_seq-bounded (suc room) [] ws h =
      let (u, _, e) = >>=-eq-ok finish (λ _. ok []) h in
      (omega arith, sym (ap length (ok-injective e)))
  visit_seq-bounded (suc room) (r ∷ rs) ws h =
      let (w, _, rest) = >>=-eq-ok (next r) _ h in
      let (vs, read, made) = >>=-eq-ok (visit_seq room rs) (λ writes. ok (w ∷ writes)) rest in
      let ih = visit_seq-bounded room rs vs read in
      (omega (arith, ih.0), omega (arith, ih.1, ap length (ok-injective made)))
