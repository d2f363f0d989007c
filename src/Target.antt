-- ===== src/Target.antt =====
-- What an operation meets on a target (src/target/mod.rs): the state store, which is modelled, and
-- the rest of the host, which is a parameter: the executors behind the traits InstallExecutor,
-- LifecycleExecutor, DeletionExecutor, ControlOperationExecutor and AdminProvisionExecutor, the runtime
-- backends, and the functions of src/target/backup_exec.rs, src/target/backup.rs and of the
-- file system. Any of these may fail with a code and may change the store and the rest of the host.
pub mod Backups
pub mod Lifecycle
pub mod Dispatch
use nazo_auth_ctl.Prelude.{
  ℕ, String, Bool, true, false, ◌&&◌, Option, none, some, List, [], ◌∷◌, ◌===◌, if◌then◌else◌,
}
use nazo_auth_ctl.Prelude.Exec.{Outcome, ok, err, Exec, pure, fail, ◌>>=◌, ◌>>◌}
use nazo_auth_ctl.Identifiers.{deployment_scope}
use nazo_auth_ctl.State.{
  DeploymentState, RuntimeSurface, RuntimeBackendKind, Resource, ReleaseVersion, Failure,
  deployment_unknown, deployment_exists, rollback_unavailable, rollback_recovery_required,
  config_revision_mismatch, state_reset_required, operation_invalid, ActiveHostOperationRef,
}
use nazo_auth_ctl.State.Steps.{RecoveryFacts}
use nazo_auth_ctl.State.Store.{Codec, Store, load_existing}
use nazo_auth_ctl.Wire.{WireText, InstanceInspection, UpdateBackupPrecondition}
use nazo_auth_ctl.Wire.Payloads.{
  OfficialArtifactRef, StagedConfig, InstallOrder, OffHostCopyReceipt, RecoveryCandidateEndpoint, ℤ,
}

-- The store, with `rest` for whatever else the host holds.
pub record Target (T : Type 0) : Type 0 where
  pub store : Store
  pub rest : T

-- A method that may fail with a stable code.
abbrev pub OnTarget : Type 0 → Type 0 → Type 0
OnTarget T A = Exec (Target T) String A

pub record InstallJob : Type 0 where
  pub deployment_id : String
  pub issuer : String
  pub runtime : RuntimeSurface
  pub config_reference : String
  pub order : InstallOrder

pub record InstallFacts : Type 0 where
  pub artifact_reference : String
  pub release : Option ReleaseVersion

pub record UpdateJob : Type 0 where
  pub operation_id : String
  pub deployment_id : String
  pub issuer : String
  pub runtime_kind : RuntimeBackendKind
  pub runtime_object : String
  pub config_reference : String
  pub port : ℕ
  pub data_root : String
  pub secrets_root : String
  pub runtime_root : Option String
  pub config_schema : String
  pub current_artifact : String
  pub current_version : Option String
  pub expected_revision : ℕ
  pub applied_migration_operation_id : Option String
  pub artifact : OfficialArtifactRef
  pub config : Option StagedConfig
  pub migration_jws : Option String
  pub migration_request_hash : Option String

pub record RollbackJob : Type 0 where
  pub operation_id : String
  pub deployment_id : String
  pub issuer : String
  pub runtime_kind : RuntimeBackendKind
  pub runtime_object : String
  pub config_reference : String
  pub port : ℕ
  pub runtime_root : Option String
  pub config_schema : String
  pub current_artifact : String
  pub previous_artifact : Option String
  pub previous_config_snapshot : Option String
  pub expected_revision : ℕ

-- The facts that dispatch reads of a completed order.
pub record LifecycleFacts : Type 0 where
  pub revision : ℕ
  pub migration_result : Option WireText

pub data UpdateExecution : Type 0 where
  noop : ℕ → UpdateExecution
  activated : LifecycleFacts → UpdateExecution
  migration_failed : WireText → UpdateExecution
  recovery_required : WireText → String → UpdateExecution

pub record DeletionJob : Type 0 where
  pub operation_id : String
  pub deployment_id : String
  pub runtime_kind : RuntimeBackendKind
  pub runtime_object : String
  pub config_reference : String
  pub declared : List Resource
  pub expected_revision : ℕ

pub record ControlJob : Type 0 where
  pub operation_id : String
  pub deployment_id : String
  pub artifact_reference : String
  pub runtime_kind : RuntimeBackendKind
  pub runtime_object : String
  pub config_reference : String
  pub data_root : String
  pub secrets_root : String
  pub transient_state_epoch : Option String
  pub compact_jws : String
  pub change_set : Option (List ℕ)

pub record AdminProvisionJob : Type 0 where
  pub operation_id : String
  pub deployment_id : String
  pub artifact_reference : String
  pub runtime_kind : RuntimeBackendKind
  pub runtime_object : String
  pub config_reference : String
  pub data_root : String
  pub email : String
  pub password : WireText

-- The rest of the host. A directory of a deployment is named by the deployment.
pub record Host (T : Type 0) : Type 0 where
  pub execute_install :
      InstallJob → (InstallFacts → OnTarget T InstanceInspection) → OnTarget T InstanceInspection
  pub execute_update : UpdateJob → OnTarget T UpdateExecution
  pub execute_rollback : RollbackJob → OnTarget T LifecycleFacts
  pub execute_deletion : DeletionJob → OnTarget T (Unit {0})
  pub execute_control : ControlJob → OnTarget T WireText
  pub execute_admin : AdminProvisionJob → OnTarget T WireText
  pub validate_backup_precondition :
      DeploymentState → UpdateBackupPrecondition → OnTarget T (Unit {0})
  pub ensure_scope_dir : String → OnTarget T (Unit {0})
  pub target_identity : OnTarget T String
  pub hello_for : String → WireText
  pub inspect_backup : DeploymentState → Target T → WireText × List String
  pub current_instance_identity : DeploymentState → Target T → Outcome String (Option WireText)
  pub config_revision_marker : String → Target T → Option String
  pub operation_log : String → Target T → Outcome String (List WireText)
  pub read_logs : RuntimeSurface → ℕ → Target T → Outcome String (List String)
  pub redact_log_line : String → String
  pub quiesce_for_recovery : RuntimeSurface → OnTarget T Bool
  pub start : RuntimeSurface → OnTarget T (Unit {0})
  pub snapshot : DeploymentState → String → OnTarget T WireText
  pub restore_test : DeploymentState → String → OnTarget T WireText
  pub recover : DeploymentState → String → String → String → OnTarget T RecoveryFacts
  pub recovery_path_switch_started : String → String → Target T → Outcome String Bool
  pub stage_recovery_candidate :
      DeploymentState → String → String → OfficialArtifactRef → OnTarget T WireText
  pub recovery_candidate_artifact_reference : String → String → OnTarget T String
  pub cleanup_recovery_candidate :
      DeploymentState → RecoveryCandidateEndpoint → OnTarget T (Unit {0})
  pub activate_recovered_runtime :
      DeploymentState → String → String → String → ℤ → OnTarget T (Unit {0})
  pub prepare_export : DeploymentState → String → OnTarget T WireText
  pub prepare_import : String → String → OnTarget T WireText
  pub read_transfer_chunk : String → String → String → ℕ → ℕ → Target T → Outcome String WireText
  pub write_transfer_chunk : String → String → String → ℕ → List ℕ → OnTarget T (Unit {0})
  pub finalize_import : String → String → String → String → String → OnTarget T WireText
  pub record_off_host_copy : String → OffHostCopyReceipt → OnTarget T (Unit {0})
  pub cleanup_transfer : String → String → OnTarget T (Unit {0})

-- The stable codes of the store's failures.
unfoldable pub failure_code : Failure → String
failure_code deployment_unknown = "DEPLOYMENT_UNKNOWN"
failure_code deployment_exists = "DEPLOYMENT_EXISTS"
failure_code rollback_unavailable = "ROLLBACK_UNAVAILABLE"
failure_code rollback_recovery_required = "ROLLBACK_RECOVERY_REQUIRED"
failure_code config_revision_mismatch = "CONFIG_REVISION_MISMATCH"
failure_code state_reset_required = "STATE_RESET_REQUIRED"
failure_code operation_invalid = "OPERATION_INVALID"

abbrev coded : {A : Type 0} → Outcome Failure A → Outcome String A
coded (ok a) = ok a
coded (err failure) = err (failure_code failure)

module _ {T : Type 0} where
  -- A method of the store.
  abbrev pub in_store : {A : Type 0} → Exec Store Failure A → OnTarget T A
  in_store m target =
      let (outcome, store) = m target.store in (coded outcome, record target { store = store })

  abbrev pub read_only : {A : Type 0} → (Target T → Outcome String A) → OnTarget T A
  read_only m target = (m target, target)

  abbrev pub loading : Codec → String → OnTarget T DeploymentState
  loading codec id = in_store (λ store. (load_existing codec id store, store))

  -- The directory of a deployment, whose name is checked.
  abbrev pub scope_dir : String → OnTarget T (Unit {0})
  scope_dir id = if deployment_scope id then pure tt else fail "DEPLOYMENT_UNKNOWN"

  abbrev pub ensure : Bool → String → OnTarget T (Unit {0})
  ensure b code = if b then pure tt else fail code

  abbrev pub require : {A : Type 0} → Option A → String → OnTarget T A
  require none code = fail code
  require (some a) code = pure a

-- The locator of a directory among the resources of a deployment.
unfoldable pub directory_of : String → List Resource → Option String
directory_of id [] = none
directory_of id (resource ∷ resources) =
    let rest = directory_of id resources in
    if resource.resource_id === id && resource.kind === "directory"
    then some resource.locator
    else rest

abbrev producer : Option ActiveHostOperationRef → Option String
producer none = none
producer (some active) = some active.operation_id

abbrev with_diagnostics : WireText × List String → DeploymentState → InstanceInspection
with_diagnostics (backup, diagnostics) state = record {
  diagnostics = diagnostics;
  deployment_id = state.deployment_id;
  issuer = state.issuer;
  observed_at = state.local_health.checked_at;
  revision = state.config.revision;
  runtime = state.runtime;
  artifact = state.artifact;
  config_reference = state.config.reference;
  config_schema = state.config.schema;
  resources = state.resources;
  healthy = state.local_health.healthy;
  health_summary = state.local_health.summary;
  active_host_operation = producer state.active_host_operation;
  config_revision_marker = none;
  current_release = state.current_release;
  current_instance_identity = none;
  backup = backup;
}

unfoldable pub inspection_from_state :
    {T : Type 0} → Host T → DeploymentState → OnTarget T InstanceInspection
inspection_from_state host state = do
  scope_dir state.deployment_id
  read_only (λ target. ok (with_diagnostics (host.inspect_backup state target) state))
