-- ===== src/Lib.antt =====
-- cc-switch-core: plans that change the native configuration files of command-line applications, and
-- the executor that carries them out through a host.
--
-- A plan names up to four documents (logical targets) of one application, with what each should hold
-- now (nothing, or bytes with a given SHA-256) and what it should hold afterwards. The registry knows
-- the applications, their identifiers and their documents; the adapter checks a plan against them; the
-- executor resolves, reads and compares every document first, then writes one after the other through
-- the host's compare-and-exchange, and undoes what it wrote when a write fails.
--
-- Base        shared types and lemmas: results, state-passing actions, lists, Boolean equality.
-- Text        str::trim and to_lowercase on lists of code points (Rust's standard library; Unicode's
--             table of lower-case letters is an argument).
-- App         src/app_type.rs, src/resource.rs and the enumerations of src/registry.rs;
--             App/Target: LogicalTarget of src/operation.rs.
-- Registry    src/registry.rs, src/integration.rs and INTEGRATION of each application's file.
--             Catalog: the table and the lookups. Targets: the documents an adapter declares.
-- Operation   src/operation.rs and the plan validation of src/adapter.rs. Digest: sha256,
--             valid_sha256, ContentExpectation. Plan: the checks. Decode: decode_json and the bounded
--             write list. Validation and Acceptance state what the checks accept.
-- Executor    src/executor.rs. Host: the trait OperationHost as a record over a state, and IsHost, its
--             documented contract. Types: failures, writes, receipts. Prepare and Run: the phases of
--             execute_writes. Rollback: rollback_applied. Receipt: coalescing and
--             OperationReceipt::rollback. Plans: the entry points
--             for a whole plan. Memory is a host in memory, for tests and witnesses. The other files
--             are proofs.
-- Document    src/document.rs: ObservedDocument and LiveDocumentSet, the complete snapshot that a host
--             supplies. Snapshot: what is accepted and answered; Order: the ordering loop.
-- ModelFetch  src/model_fetch.rs: candidate URLs, headers and the reading of model ids. The arguments
--             pointer, as_array and as_str are serde_json's. Candidates, Ids and Retain are proofs.
-- JsonPatch   src/mcp/json_patch.rs: edits of an object's fields in a JSON text. Scan, Entries: the
--             scanners; Edit, Merge: the operations. Syntax is JSON's grammar as trees and their
--             print; ScanLaws, CompositeLaws, ValueLaws, MemberLaws, RootLaws relate the two;
--             FieldEdits, FieldTexts, EditLaws, ReadBack say what an edit does; ScanFinish, Finish
--             are the end of the loops.
-- YamlPatch   src/yaml_patch.rs: replacing a sequence of strings in a section of a YAML text. Lines,
--             Scan, Keys, Section, Render, Edit: the code; LineLaws, SectionLaws, EditLaws,
--             Duplicates: the proofs.
-- Skill       src/skill/catalog.rs (Catalog) and of src/skill/write.rs the decision on a re-read row
--             (Switch) and the execution and rollback of the live changes (Live), which runs the
--             executor's plans. The references of src/skill/reference.rs are an argument of which
--             nothing is assumed. CatalogLaws, Steps, LiveLaws, Atomic are the proofs.
-- Mcp         src/mcp/connection.rs: the minimum connection contract; Contract says what passes.
-- Gemini      src/gemini/env.rs: reading and rendering of environment assignments. Assignments,
--             Sorting, RoundTrip are the proofs.
--
-- How code is represented: a &mut host is a state passed along; Result is a type of Base; usize is the
-- native ℕ (no sum of sizes is formed that could overflow); a for loop is a recursion on the list. Two
-- loops of JsonPatch whose cursor jumps take the text's length as fuel, which is enough because each
-- round moves the cursor on (JsonPatch.Finish). A panic of String::replace_range is an error of its
-- own there. A str is its list of UTF-8 bytes where its size matters (the contents of a plan) and its
-- list of code points elsewhere; there, a byte position found in a text is only used to cut the text,
-- so the model gives the part before it. Sha256::digest, serde_json's reader and values and serde_yaml
-- are arguments; the theorems about digests assume that a hash has 32 bytes below 256.
--
-- Not modelled: Debug and Display output and Serialize; the rest of MCP (src/mcp.rs,
-- src/mcp/gemini_codec.rs, src/codex/mcp_document.rs), the reading of skills, their references and the
-- preparation of a switch (src/skill/read.rs, src/skill/reference.rs, src/skill/config.rs, prepare in
-- src/skill/write.rs), projection and import of native documents and the forms (src/projection.rs,
-- src/native_import.rs, src/simple_provider.rs, the rest of the application files), patches of JSON5,
-- the common configuration, file access (src/fs.rs) and the store (crates/cc-switch-store), most of
-- which transform serde_json and toml values or do I/O.

pub mod Base
pub mod Text
pub mod App
pub mod Registry
pub mod Operation
pub mod Executor
pub mod Document
pub mod ModelFetch
pub mod Gemini
pub mod JsonPatch
pub mod Mcp
pub mod Skill
pub mod YamlPatch
