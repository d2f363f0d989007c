-- ===== src/Lib.antt =====
-- A verification library for nazoauthctl, which installs and operates NazoAuth deployments: a
-- controller sends host operations to a target, and the target keeps one operation journal and one
-- state document for each deployment.
--
-- A message is parsed and admitted (src/target/wire.rs: parse_host_operation,
-- HostOperation::validate), and dispatched by its kind (src/target/mod.rs), directly where it only
-- reads, through the journal where it does not.
--
-- The target runs a host operation through its journal (src/target/journal.rs: run_journaled). The
-- journal answers a settled operation from its lines, refuses an id that is used for another
-- request, and otherwise executes the operation between a pending and a terminal line. The
-- execution of a state mutation is a method of the state store
-- (src/target/deployment_state.rs: TargetStateStore), which loads the document, checks the revision
-- that the controller expects, and writes the next document. Both rest on files that may fail.
--
-- Prelude      lists, bytes, UTF-8, and Exec: code that changes a world and may fail.
-- Disk         a file and the fates of the writes to it
--              (crates/nazoauthctl-runtime/src/filesystem.rs). A write is durable, refused, torn, or
--              done and reported as failed; a list of fates is part of the world, so a theorem for
--              every list holds for every failure.
-- Identifiers  validate_identifier, validate_issuer (src/registry.rs), deployment_scope.
-- Wire         the operations, outcomes and results of src/target/wire.rs, and their parts
--              (Payloads). Order: the admission of an install order (src/target/install_exec.rs);
--              Admission: HostOperation::validate, with the bindings that it guarantees; Messages:
--              the bounded encoders and the parsers.
-- Journal      src/target/journal.rs. Reading: read_lines_with and the repair of a torn tail;
--              Compaction: compact_lines; Running: run_journaled with append, compact_if_needed and
--              remove_operation, with the proofs of its answers in the modules below it;
--              View: the operation log.
-- State        src/target/deployment_state.rs. Places: where the path of a scope leads, as the file
--              system walks it; Validation: the structural checks; Steps: what each
--              method does between its load and its write; Mutations: the methods as one type, and
--              the states that they lead to; Store: load_existing, persist, list_deployments and
--              the methods on the store; Bootstrap: bootstrap_with_health; Uninstall:
--              remove_deployment and converge_uninstall_completion; Legacy: src/target/persistence.rs.
-- Target       src/target/mod.rs: the dispatch of every kind of operation. Target: the store beside
--              the rest of the host, which a record of functions stands for; Lifecycle and Backups:
--              the handlers; Dispatch: dispatch_validated_host_operation,
--              execute_journaled_validated and execute_host_operation, which join the admission, the
--              journal and the store.
-- ControllerJournal  src/controller_identity/journal.rs: the slot of the signed request that the
--              controller sent last, and the calls that contend for it.
-- Transfer     the off-host copy of a backup: the record of src/controller/transfer_journal.rs; Chunks:
--              the chunk of a file that src/target/backup_exec.rs reads and writes; Exchange: the
--              requests and the answers; Copying: the loop of src/controller/surface_run.rs
--              (resume_backup_transfer), one function for each of its phases.
-- Tests        the theorems at concrete inputs.
--
-- serde_json, semver, url, uuid, base64, sha2, the operator protocol and the executors of operations
-- are parameters; what the theorems ask of them is a hypothesis: that a line or a document reads back
-- from what is written for it. The executors (InstallExecutor, LifecycleExecutor, DeletionExecutor,
-- ControlOperationExecutor, AdminProvisionExecutor), the runtime backends and the functions of
-- src/target/backup_exec.rs that dispatch calls may do anything to the store and the host. A binding
-- that the code unwraps is an Option, with `none` for the panic.
-- The byte limits are those of the source (default_bounds, max_state_bytes) or any others where a
-- theorem quantifies over them. The loop of a copy runs on fuel; the number of
-- its phases, files and bytes is enough. All other loops are recursions on lists.
--
-- Not modelled: the locks, which make a run or a call one action; the texts of errors and
-- diagnostics; file permissions and symbolic links; the 64-bit bound of a revision; the opening of the journal and the
-- store below the state root; the bodies of the executors and of the other backup functions, which drive
-- databases, containers and files; the controller's recoveries, TLS, the release
-- catalogue, the command line and the conformance suite.
mod Prelude
pub mod Disk
pub mod Identifiers
pub mod Wire
pub mod ControllerJournal
pub mod Target
pub mod Transfer
pub mod Journal
pub mod State
mod Tests
