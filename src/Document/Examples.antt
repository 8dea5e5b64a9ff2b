-- ===== src/Document/Examples.antt =====
-- Tests of the live documents' model, and its theorems at concrete inputs.
use cc_switch_core.Base.{
  nat_eq, list_eq, option_eq, string_eq, ◌≡◌, refl, ◌↔◌, List, [], ◌∷◌, ok, All,
}
use cc_switch_core.App.{codex, app_eq, app_beq}
use cc_switch_core.App.Target.{
  codex_auth, codex_config, codex_model_catalog, app, target_eq, target_beq,
}
use cc_switch_core.Text.{codes}
use cc_switch_core.Registry.Targets.{targets_of}
use cc_switch_core.Operation.Plan.{exceeds}
use cc_switch_core.Operation.Validation.{WithinLimit}
use cc_switch_core.Document.{
  ObservedDocument, LiveDocumentSet, present, missing, unobserved, targets,
  try_new_with_content_limit, supply, check_document, remove, order, document, document_of,
}
use cc_switch_core.Document.Snapshot.{IsComplete, try_new-ok, try_new_iff}

-- Codex's documents, not in the adapter's order.
abbrev supplied : List ObservedDocument
supplied =
    present codex_config (codes "model = 1")
    ∷ unobserved codex_model_catalog
    ∷ missing codex_auth
    ∷ []

abbrev snapshot : LiveDocumentSet
snapshot = record {
  app = codex;
  documents =
      missing codex_auth
      ∷ present codex_config (codes "model = 1")
      ∷ unobserved codex_model_catalog
      ∷ [];
}

snapshot_is_made : try_new_with_content_limit codex supplied 100 ≡ ok snapshot
unfolding try_new_with_content_limit supply check_document exceeds order remove targets_of app
    app_beq target_beq
snapshot_is_made = refl

try_new-ok_example :
    (codex ≡ codex)
    × (targets snapshot.documents ≡ targets_of codex)
    × ((t : _) → document snapshot t ≡ document_of t supplied)
    × All (λ d. WithinLimit 100 d.contents) supplied
try_new-ok_example = try_new-ok codex supplied 100 snapshot snapshot_is_made

try_new_iff_example :
    ((set : LiveDocumentSet) × (try_new_with_content_limit codex supplied 100 ≡ ok set))
    ↔ IsComplete codex 100 supplied
try_new_iff_example = try_new_iff codex supplied 100
