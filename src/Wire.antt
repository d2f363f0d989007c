-- ===== src/Wire.antt =====
-- The host operation contract (src/target/wire.rs): operations, their closed kinds, and results.
-- A payload that no modelled code looks at is carried as its wire text; `detail` texts are left out
-- of a failure, as only the code decides what the program does next.
pub mod Payloads
pub mod Order
pub mod Kinds
pub mod Admission
use nazo_auth_ctl.Prelude.{ℕ, String, Bool, true, false, Option, List, [], ◌∷◌}
use nazo_auth_ctl.State.{RuntimeSurface, ArtifactRefs, Resource, ReleaseVersion}
use nazo_auth_ctl.Wire.Payloads.{
  OfficialArtifactRef, StagedConfig, InstallOrder, OffHostCopyReceipt, RecoveryCandidateEndpoint, ℤ,
}

abbrev pub WireText : Type 0
WireText = String

pub data UpdateBackupPrecondition : Type 0 where
  not_required : UpdateBackupPrecondition
  require : String → ℕ → ℕ → UpdateBackupPrecondition

-- src/target/deployment_state.rs, the closed set of mutations.
pub data StateMutationPayload : Type 0 where
  bootstrap :
      String
      → RuntimeSurface
      → Option ArtifactRefs
      → String
      → String
      → List Resource
      → Option InstallOrder
      → StateMutationPayload
  apply_config : String → String → StateMutationPayload
  update :
      OfficialArtifactRef
      → UpdateBackupPrecondition
      → Option StagedConfig
      → Option String
      → Option String
      → StateMutationPayload
  rollback : StateMutationPayload
  uninstall : StateMutationPayload

pub data HostOperationBody : Type 0 where
  ping : String → HostOperationBody
  hello : HostOperationBody
  state_inspect : HostOperationBody
  state_mutate : StateMutationPayload → HostOperationBody
  control_operation : String → String → Option (List ℕ) → HostOperationBody
  state_list : HostOperationBody
  admin_create : String → String → HostOperationBody
  runtime_logs : ℕ → HostOperationBody
  journal_read : ℕ → HostOperationBody
  backup_snapshot : HostOperationBody
  backup_restore_test : HostOperationBody
  backup_recover : String → String → HostOperationBody
  backup_recovery_candidate_stage : String → String → OfficialArtifactRef → HostOperationBody
  backup_recovery_candidate_control :
      RecoveryCandidateEndpoint → String → String → String → HostOperationBody
  backup_recovery_candidate_cleanup : RecoveryCandidateEndpoint → HostOperationBody
  backup_recovery_activate : String → String → ℤ → HostOperationBody
  backup_export_prepare : HostOperationBody
  backup_import_prepare : HostOperationBody
  backup_transfer_read : String → String → ℕ → ℕ → HostOperationBody
  backup_transfer_write : String → String → ℕ → ℕ → String → List ℕ → HostOperationBody
  backup_import_finalize : String → String → String → String → HostOperationBody
  backup_offhost_record : OffHostCopyReceipt → HostOperationBody
  backup_transfer_cleanup : String → HostOperationBody

pub record HostOperation : Type 0 where
  pub schema : ℕ
  pub operation_id : String
  pub deployment_id : Option String
  pub expected_revision : Option ℕ
  pub operation : HostOperationBody

unfoldable pub kind : HostOperationBody → String
kind (ping _) = "ping"
kind hello = "hello"
kind state_inspect = "state-inspect"
kind (state_mutate _) = "state-mutate"
kind (control_operation _ _ _) = "control-operation"
kind state_list = "state-list"
kind (admin_create _ _) = "admin-create"
kind (runtime_logs _) = "runtime-logs"
kind (journal_read _) = "journal-read"
kind backup_snapshot = "backup-snapshot"
kind backup_restore_test = "backup-restore-test"
kind (backup_recover _ _) = "backup-recover"
kind (backup_recovery_candidate_stage _ _ _) = "backup-recovery-candidate-stage"
kind (backup_recovery_candidate_control _ _ _ _) = "backup-recovery-candidate-control"
kind (backup_recovery_candidate_cleanup _) = "backup-recovery-candidate-cleanup"
kind (backup_recovery_activate _ _ _) = "backup-recovery-activate"
kind backup_export_prepare = "backup-export-prepare"
kind backup_import_prepare = "backup-import-prepare"
kind (backup_transfer_read _ _ _ _) = "backup-transfer-read"
kind (backup_transfer_write _ _ _ _ _ _) = "backup-transfer-write"
kind (backup_import_finalize _ _ _ _) = "backup-import-finalize"
kind (backup_offhost_record _) = "backup-offhost-record"
kind (backup_transfer_cleanup _) = "backup-transfer-cleanup"

abbrev pub host_operation_kinds : List String
host_operation_kinds =
    "hello" ∷ "ping" ∷ "state-inspect" ∷ "state-mutate" ∷ "control-operation" ∷ "state-list"
    ∷ "admin-create" ∷ "runtime-logs" ∷ "journal-read" ∷ "backup-snapshot" ∷ "backup-restore-test"
    ∷ "backup-recover" ∷ "backup-recovery-candidate-stage" ∷ "backup-recovery-candidate-control"
    ∷ "backup-recovery-candidate-cleanup" ∷ "backup-recovery-activate" ∷ "backup-export-prepare"
    ∷ "backup-import-prepare" ∷ "backup-transfer-read" ∷ "backup-transfer-write"
    ∷ "backup-import-finalize" ∷ "backup-offhost-record" ∷ "backup-transfer-cleanup" ∷ []

unfoldable pub requires_journal : HostOperationBody → Bool
requires_journal (ping _) = false
requires_journal hello = false
requires_journal state_inspect = false
requires_journal state_list = false
requires_journal (runtime_logs _) = false
requires_journal (journal_read _) = false
requires_journal (backup_transfer_read _ _ _ _) = false
requires_journal _ = true

-- What an inspection reports; the backup projection and the runtime's identity as their wire text.
pub record InstanceInspection : Type 0 where
  pub diagnostics : List String
  pub deployment_id : String
  pub issuer : String
  pub observed_at : ℕ
  pub revision : ℕ
  pub runtime : RuntimeSurface
  pub artifact : ArtifactRefs
  pub config_reference : String
  pub config_schema : String
  pub resources : List Resource
  pub healthy : Bool
  pub health_summary : String
  pub active_host_operation : Option String
  pub config_revision_marker : Option String
  pub current_release : Option ReleaseVersion
  pub current_instance_identity : Option WireText
  pub backup : WireText

pub data HostCompletionBody : Type 0 where
  ping : String → HostCompletionBody
  hello : WireText → HostCompletionBody
  state_inspect : InstanceInspection → HostCompletionBody
  state_mutate_applied : ℕ → Option WireText → HostCompletionBody
  state_mutate_noop : ℕ → HostCompletionBody
  state_mutate_migration_failed : WireText → HostCompletionBody
  state_mutate_recovery_required : WireText → String → HostCompletionBody
  install_applied : InstanceInspection → HostCompletionBody
  control_operation_executed : WireText → HostCompletionBody
  state_listed : List InstanceInspection → HostCompletionBody
  admin_created : WireText → HostCompletionBody
  runtime_logs : List String → HostCompletionBody
  journal_read : List WireText → HostCompletionBody
  backup_snapshot_created : WireText → HostCompletionBody
  backup_restore_tested : WireText → HostCompletionBody
  backup_recovered : String → String → ℕ → HostCompletionBody
  backup_recovery_candidate_staged : WireText → HostCompletionBody
  backup_recovery_candidate_control_executed : WireText → HostCompletionBody
  backup_recovery_candidate_cleaned : HostCompletionBody
  backup_recovery_activated : HostCompletionBody
  backup_transfer_prepared : WireText → HostCompletionBody
  backup_transfer_chunk : WireText → HostCompletionBody
  backup_transfer_written : HostCompletionBody
  backup_import_finalized : WireText → HostCompletionBody
  backup_offhost_recorded : HostCompletionBody
  backup_transfer_cleaned : HostCompletionBody

pub data HostOutcome : Type 0 where
  completed : HostCompletionBody → HostOutcome
  failed : String → HostOutcome

pub record HostResult : Type 0 where
  pub schema : ℕ
  pub operation_id : String
  pub outcome : HostOutcome

abbrev pub host_protocol_schema : ℕ
host_protocol_schema = 11

-- HostResult::completed
unfoldable pub completed_result : String → HostCompletionBody → HostResult
completed_result operation_id body = record {
  schema = host_protocol_schema;
  operation_id = operation_id;
  outcome = completed body;
}

-- HostResult::failed
unfoldable pub failed_result : String → String → HostResult
failed_result operation_id code = record {
  schema = host_protocol_schema;
  operation_id = operation_id;
  outcome = failed code;
}

-- The password of an AdminCreate never enters the replay identity.
unfoldable pub canonical_operation_value : HostOperation → HostOperation
canonical_operation_value operation = elim operation.operation [
  | admin_create email _ ↦ record operation { operation = admin_create email "<redacted>" }
  | _ ↦ operation
]
