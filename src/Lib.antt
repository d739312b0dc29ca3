-- ===== src/Lib.antt =====
-- A model of the evidence workbench (ewb), with proofs. The program records runs of external
-- verification tools: it reads embedded tool manifests, resolves a caller's parameters and
-- approvals, runs a tool, stores its output as exact bytes, projects a few observations out of
-- that output, and later validates the records again, without trusting the process that wrote
-- them. Documents that arrive from outside are parsed strictly and checked field by field.
--
-- The files, and the code they model:
--
--   Prelude         shared names, the type Outcome of a fallible call, lemmas on tests and lists
--   Text            texts as lists of UTF-8 bytes, and the parts of Rust's str that the code uses
--                   (order, trim, from_utf8, split_inclusive, decimal numbers)
--   Collections     BTreeSet and BTreeMap as ordered lists
--   Json            serde_json::Value, with objects as ordered maps
--   StrictJson      src/strict_json.rs: the visitor (visit_*), parse_strict, pointer
--   Contracts       src/contracts.rs: the records that pass between the parts
--   Validation      src/data_contract_validation.rs: Fields the checks of one field, Topology
--                   validate_audit_topology, Receipt the two checks of an audit receipt, Handoffs the
--                   checks of the IDE handoff and of the evidence handoff
--   Manifests       src/manifests.rs: Registry validate_manifest, load_embedded, get, get_by_ref;
--                   Parameters validate_parameters, with its namesake of src/run_validation.rs
--   Native          src/native.rs: Projection extract_native_result, Capabilities
--                   validate_capability_approval
--   Pins            src/upstream_pins.rs and src/candidate_pins.rs: Records, the checks of Fields,
--                   Candidate and Upstream pins, and in Registry all, get_for_tool and
--                   require_ready_for_planning
--   Workspace       src/workspace.rs: Identifiers; Disk the files; Retry retry_transient; Objects
--                   publish_file_no_replace, commit_content_object and the verification of an
--                   object; Steps the sequence of fallible steps; Capture and Store
--                   import_artifact_bytes, write_json_atomic, load_artifact and the reads
--   RunValidation   src/run_validation.rs: Descriptors and Observations
--   Handoffs        src/evidence_handoffs.rs: create, load_verified, verify and the lineage of a
--                   handoff, with write_evidence_handoff and load_evidence_handoff of src/workspace.rs
--   CallerObservations  src/caller_observations.rs: validate, map_to_phaseledger_v1 and
--                   reject_ewb_synthesized_trust_meter_fields
--   Tests           runs of the code and the theorems at concrete inputs
--
-- How the code corresponds to the model. A String is the list of its UTF-8 bytes. A BTreeSet or
-- BTreeMap is a list in the order of its keys. A function that returns anyhow::Result returns an
-- Outcome: ok, err with the constant part of the message, panic where the source would panic, and
-- diverge where the fuel of a loop ends. `bail!` under an `if` is `ensure`. A `for` loop is a
-- recursive function over the list with the loop's variables as arguments. The one loop without a
-- bound in its form is the `while let` of validate_audit_topology: it has fuel for as many rounds
-- as there are steps, since each round takes a step that no round before it took. `decimal`, which
-- prints a number, has fuel for one digit more than the number's value. A floating-point number of
-- JSON is its 64 bits; `==` of JSON values takes 0.0 and -0.0 for equal, as serde_json does, and
-- the numbers are finite.
--
-- The state of src/workspace.rs is a Disk: which file a name stands for, what each file contains
-- and how many names it has, and `faults`, how the system will meet the coming calls: it does the
-- call, or answers with an error in place of it, or, where the code asks for the metadata of a
-- directory or of a file, says that there is no real directory or no regular file. A call of
-- std::fs meets the next of them first, so a theorem about every Disk is about every way in which
-- the calls may be refused. A Step is a function from a Disk to an outcome and the Disk it leaves,
-- also where it fails. A name is an object's digest, a temporary name, or a registry with an
-- identifier. Directories have no names of their own: what the code learns of one is the system's
-- answer. retry_transient is modelled with Windows' error codes; the store is that of a system
-- other than Windows, where a file is published by a link and an unlink. The 25 attempts of
-- retry_transient and of verify_existing_content_object are the fuel of their loops, and the panic
-- behind the loops is the value at its end, which the theorems exclude. A file is read in one step
-- where the code reads 64 KiB at a time; the bound on the length that the code checks as it reads
-- is checked before and after.
--
-- What is a parameter. serde_json's deserializer and its Value::pointer, the digest of sha2 over
-- serde_json's bytes, chrono's timestamps, new identifiers, and, outside Workspace, the reads and
-- writes of the workspace's files are arguments of the definitions that use them; nothing is
-- assumed of them except where a theorem says so.
--
-- The state of src/evidence_handoffs.rs is the directory of the handoffs, a map from identifiers to
-- the records that serde_json reads from the files; create and verify take it and create returns
-- the directory it leaves. A write creates a file or fails, as write_json_atomic does with
-- `unique`. Runs, plans and artifacts are read through the record Records.
--
-- What is not modelled: processes, handles, locks and the creation of a workspace, other processes
-- that change the store, the command line, the build's identity, qualifications and admissions of
-- runtimes, and subjects. Of src/workspace.rs, import_artifact, the lists of a registry, the copies
-- into execution directories and the branch of write_json_atomic that replaces a file, which no
-- caller takes, are left out.
pub mod Prelude
pub mod Text
pub mod Collections
pub mod Json
pub mod StrictJson
pub mod Contracts
pub mod Validation
pub mod Manifests
pub mod Native
pub mod Pins
pub mod Workspace
pub mod RunValidation
pub mod Handoffs
pub mod CallerObservations
pub mod Tests
