-- ===== src/Document.antt =====
-- `ObservedDocument` and `LiveDocumentSet` (src/document.rs). The map of supplied documents is the
-- list of its values in the order of insertion; a target has at most one.
mod Order
pub mod Snapshot
mod Examples
use cc_switch_core.Base.{
  nat_eq, list_eq, option_eq, string_eq, ℕ, Bool, true, false, not, Option, none, some, List, [],
  ◌∷◌, ◌++◌, map, Result, ok, err, ◌>>=◌, ◌==◌, if◌then◌else◌,
}
use cc_switch_core.Text.{Text, Bytes}
use cc_switch_core.App.{AppType, app_eq}
use cc_switch_core.App.Target.{LogicalTarget, app, target_eq}
use cc_switch_core.Registry.Catalog.{as_str}
use cc_switch_core.Registry.Targets.{targets_of}
use cc_switch_core.Operation.Plan.{exceeds, max_operation_content_bytes}
use cc_switch_core.Base.{contains, find}

pub record ObservedDocument : Type 0 where
  pub target : LogicalTarget
  pub observed : Bool
  pub contents : Option Bytes

-- `ObservedDocument::present`
abbrev pub present : LogicalTarget → Bytes → ObservedDocument
present target contents = record { target = target; observed = true; contents = some contents }

-- `ObservedDocument::missing`
abbrev pub missing : LogicalTarget → ObservedDocument
missing target = record { target = target; observed = true; contents = none }

-- `ObservedDocument::unobserved`
abbrev pub unobserved : LogicalTarget → ObservedDocument
unobserved target = record { target = target; observed = false; contents = none }

pub data LiveDocumentSetError : Type 0 where
  wrong_app : LogicalTarget → Text → Text → LiveDocumentSetError
  undeclared_target : LogicalTarget → LiveDocumentSetError
  duplicate_target : LogicalTarget → LiveDocumentSetError
  missing_target : LogicalTarget → LiveDocumentSetError
  content_too_large : LogicalTarget → ℕ → LiveDocumentSetError

pub record LiveDocumentSet : Type 0 where
  pub app : AppType
  pub documents : List ObservedDocument

-- The document of a target: `HashMap::get` on the supplied documents, and
-- `LiveDocumentSet::document` on the ordered ones.
abbrev pub document_of : LogicalTarget → List ObservedDocument → Option ObservedDocument
document_of target documents = find (λ d. d.target == target) documents

abbrev pub targets : List ObservedDocument → List LogicalTarget
targets documents = map (λ d. d.target) documents

-- The checks of the first loop on one document.
unfoldable pub check_document :
    AppType → ℕ → List ObservedDocument → ObservedDocument → Result LiveDocumentSetError (Unit {0})
check_document a maximum supplied d =
    if not (app d.target == a)
    then err (wrong_app d.target (as_str a) (as_str (app d.target)))
    else if not (contains (targets_of a) d.target)
    then err (undeclared_target d.target)
    else if exceeds maximum d.contents
    then err (content_too_large d.target maximum)
    else if contains (targets supplied) d.target
    then err (duplicate_target d.target)
    else ok tt

-- The first loop: every supplied document is checked and inserted.
unfoldable pub supply :
    AppType
    → ℕ
    → List ObservedDocument
    → List ObservedDocument
    → Result LiveDocumentSetError (List ObservedDocument)
supply a maximum supplied [] = ok supplied
supply a maximum supplied (d ∷ ds) =
    check_document a maximum supplied d >>= λ _. supply a maximum (supplied ++ (d ∷ [])) ds

-- `HashMap::remove`: the document of a target, and the others.
unfoldable pub remove :
    LogicalTarget → List ObservedDocument → Option (ObservedDocument × List ObservedDocument)
remove target [] = none
remove target (d ∷ ds) =
    let rest = remove target ds in
    if d.target == target
    then some (d, ds)
    else elim rest [ none ↦ none | some (found, others) ↦ some (found, d ∷ others) ]

-- The second loop: the supplied documents in the adapter's order.
unfoldable pub order :
    List LogicalTarget → List ObservedDocument → Result LiveDocumentSetError (List ObservedDocument)
order [] supplied = ok []
order (t ∷ ts) supplied = elim (remove t supplied) [
  | none ↦ err (missing_target t)
  | some (d, others) ↦ order ts others >>= λ rest. ok (d ∷ rest)
]

-- `LiveDocumentSet::try_new_with_content_limit`
unfoldable pub try_new_with_content_limit :
    AppType → List ObservedDocument → ℕ → Result LiveDocumentSetError LiveDocumentSet
try_new_with_content_limit a documents maximum = do
  supplied ← supply a maximum [] documents
  ordered ← order (targets_of a) supplied
  ok (record { app = a; documents = ordered })

-- `LiveDocumentSet::try_new`
unfoldable pub try_new :
    AppType → List ObservedDocument → Result LiveDocumentSetError LiveDocumentSet
try_new a documents = try_new_with_content_limit a documents max_operation_content_bytes

-- `LiveDocumentSet::document`
unfoldable pub document : LiveDocumentSet → LogicalTarget → Option ObservedDocument
document set target = document_of target set.documents
