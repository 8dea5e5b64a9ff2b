-- ===== src/Operation/Examples.antt =====
-- Tests of the plan's model, and its theorems at concrete inputs.
use cc_switch_core.Base.{
  nat_eq, list_eq, option_eq, string_eq, ℕ, zero, suc, ◌≤◌, ◌<◌, ◌≡◌, refl, ◌↔◌, true, Option, none,
  some, List, [], ◌∷◌, arith, Result, ok, if◌then◌else◌, length, ltb,
}
use mathlib.Core.Option
use cc_switch_core.Text.{Bytes, codes}
use cc_switch_core.App.{AppType, codex, app_eq, app_beq}
use cc_switch_core.App.Target.{codex_auth, codex_config, app, allows_removal, target_eq, target_beq}
use cc_switch_core.Registry.Catalog.{as_str}
use cc_switch_core.Registry.Targets.{targets_of}
use cc_switch_core.Operation.Digest.{IsDigest, matches, for_contents, matches-for_contents, missing}
use cc_switch_core.Operation.Plan.{
  OperationPlan, validate_for, validate_plan_with_content_limit, validate_with_content_limit,
  validate, check_writes, check_write, exceeds, is_removal, is_malformed,
  max_operation_plan_wire_bytes, max_operation_content_bytes,
}
use cc_switch_core.Operation.Validation.{
  IsValidFor, validate_for_iff, validate_plan-eq-validate_for,
}
use cc_switch_core.Operation.Acceptance.{validate_with_content_limit_iff}
use cc_switch_core.Operation.Decode.{
  OperationPlanWire, decode_wire, plan_of_wire, decode_json, decode_json_sound, visit_seq,
  visit_seq-bounded,
}

-- A stand-in for SHA-256: the first byte, then 31 zeros.
abbrev zeros : ℕ → Bytes
zeros zero = []
zeros (suc n) = 0 ∷ zeros n

abbrev first_byte : Bytes → ℕ
first_byte [] = 0
first_byte (b ∷ bs) = if ltb b 256 then b else 0

abbrev short_hash : Bytes → Bytes
short_hash c = first_byte c ∷ zeros 31

first_byte-lt : (c : Bytes) → first_byte c < 256
first_byte-lt [] = omega arith
first_byte-lt (b ∷ bs) = ground arith

short_hash-IsDigest : IsDigest short_hash
short_hash-IsDigest = record { size = λ c. refl; bytes = λ c. (first_byte-lt c, omega arith) }

abbrev observed_a : Option Bytes
observed_a = some (codes "a")

matches-for_contents_example :
    (matches short_hash (for_contents short_hash observed_a) (some (codes "b")) ≡ true)
    ↔ (Option.map short_hash observed_a ≡ Option.map short_hash (some (codes "b")))
matches-for_contents_example =
    matches-for_contents short_hash observed_a (some (codes "b")) short_hash-IsDigest

-- Removes Codex's credentials and writes its configuration.
abbrev codex_plan : OperationPlan
codex_plan = record {
  contract_major = 1;
  app_id = codes "codex";
  writes =
      record { target = codex_auth; expected = missing; contents = none }
      ∷ record { target = codex_config; expected = missing; contents = some (codes "model = 1") }
      ∷ [];
}

validate_for_iff_example :
    (validate_for codex_plan codex 1048576 ≡ ok tt) ↔ IsValidFor codex 1048576 codex_plan
validate_for_iff_example = validate_for_iff codex_plan codex 1048576

validate_plan-eq-validate_for_example :
    validate_plan_with_content_limit codex codex_plan 100 ≡ validate_for codex_plan codex 100
validate_plan-eq-validate_for_example = validate_plan-eq-validate_for codex codex_plan 100

validate_with_content_limit_iff_example :
    (validate_with_content_limit codex_plan 100 ≡ ok tt)
    ↔ ((a : AppType) × IsValidFor a 100 codex_plan)
validate_with_content_limit_iff_example = validate_with_content_limit_iff codex_plan 100

codex_plan_passes : validate codex_plan ≡ ok tt
unfolding validate validate_with_content_limit validate_plan_with_content_limit validate_for
    check_writes check_write exceeds is_removal is_malformed as_str app allows_removal target_beq
    app_beq targets_of
codex_plan_passes = refl

-- A parser that reads every frame as the plan above.
abbrev read_codex_plan : Bytes → Result (Unit {0}) OperationPlanWire
read_codex_plan input = ok (record {
  contract_major = 1;
  app_id = codes "codex";
  writes =
      record { target = codex_auth; expected = missing; contents = none }
      ∷ record { target = codex_config; expected = missing; contents = some (codes "model = 1") }
      ∷ [];
})

codex_plan_decodes : decode_json read_codex_plan (codes "{}") ≡ ok codex_plan
unfolding decode_json decode_wire plan_of_wire validate validate_with_content_limit
    validate_plan_with_content_limit validate_for check_writes check_write exceeds is_removal
    is_malformed as_str app allows_removal target_beq app_beq targets_of
codex_plan_decodes = refl

decode_json_sound_example :
    (length (codes "{}") ≤ max_operation_plan_wire_bytes)
    × ((a : AppType) × IsValidFor a max_operation_content_bytes codex_plan)
decode_json_sound_example =
    decode_json_sound read_codex_plan (codes "{}") codex_plan codex_plan_decodes

abbrev numbers : List ℕ
numbers = 7 ∷ 8 ∷ []

abbrev next_number : ℕ → Result (Unit {0}) ℕ
next_number n = ok n

abbrev skip_number : ℕ → Result (Unit {0}) (Unit {0})
skip_number n = ok tt

visit_seq-bounded_example : (2 ≤ 4) × (length numbers ≡ 2)
unfolding visit_seq
visit_seq-bounded_example =
    visit_seq-bounded {0, 0, 0, 0} next_number skip_number (ok tt) tt 4 numbers numbers refl
