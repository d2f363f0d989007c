-- ===== src/Target/Backups.antt =====
-- The backup operations of a target (src/target/mod.rs: the arms of
-- dispatch_validated_host_operation for backups and recovery, answer_recovery_candidate_control).
use nazo_auth_ctl.Prelude.{
  ℕ, String, Bool, true, false, not, ◌&&◌, ◌||◌, Option, none, some, List, ◌==◌, ◌===◌,
}
use nazo_auth_ctl.Prelude.Exec.{Outcome, ok, err, pure, ◌>>=◌, ◌>>◌}
use nazo_auth_ctl.State.{DeploymentState, RuntimeSurface, is_producer}
use nazo_auth_ctl.State.Steps.{RecoveryFacts}
use nazo_auth_ctl.State.Mutations.{apply_recovery}
use nazo_auth_ctl.State.Store.{Codec, apply}
use nazo_auth_ctl.Wire.{WireText, HostCompletionBody}
use nazo_auth_ctl.Wire.Payloads.{
  OfficialArtifactRef, OffHostCopyReceipt, RecoveryCandidateEndpoint, ℤ,
}
use nazo_auth_ctl.Target.{
  Target, OnTarget, Host, in_store, read_only, loading, scope_dir, ensure, require, directory_of,
}

module _ {T : Type 0} (codec : Codec) (host : Host T) (operation_id id : String) where
  unfoldable pub backup_snapshot : OnTarget T HostCompletionBody
  backup_snapshot = do
    state ← loading codec id
    scope_dir id
    manifest ← host.snapshot state operation_id
    pure (HostCompletionBody.backup_snapshot_created manifest)

  unfoldable pub backup_restore_test : OnTarget T HostCompletionBody
  backup_restore_test = do
    state ← loading codec id
    scope_dir id
    receipt ← host.restore_test state operation_id
    pure (HostCompletionBody.backup_restore_tested receipt)

  unfoldable pub backup_export_prepare : OnTarget T HostCompletionBody
  backup_export_prepare = do
    state ← loading codec id
    scope_dir id
    plan ← host.prepare_export state operation_id
    pure (HostCompletionBody.backup_transfer_prepared plan)

  unfoldable pub backup_import_prepare : OnTarget T HostCompletionBody
  backup_import_prepare = do
    scope_dir id
    plan ← host.prepare_import id operation_id
    pure (HostCompletionBody.backup_transfer_prepared plan)

  unfoldable pub backup_transfer_read : String → String → ℕ → ℕ → OnTarget T HostCompletionBody
  backup_transfer_read transfer file_name offset maximum_bytes = do
    scope_dir id
    chunk ← read_only (host.read_transfer_chunk id transfer file_name offset maximum_bytes)
    pure (HostCompletionBody.backup_transfer_chunk chunk)

  unfoldable pub backup_transfer_write :
      String → String → ℕ → List ℕ → OnTarget T HostCompletionBody
  backup_transfer_write transfer file_name offset bytes = do
    scope_dir id
    host.write_transfer_chunk id transfer file_name offset bytes
    pure HostCompletionBody.backup_transfer_written

  -- The receipt must name this target as the destination.
  unfoldable pub backup_import_finalize :
      String → String → String → String → OnTarget T HostCompletionBody
  backup_import_finalize transfer manifest source destination = do
    local ← host.target_identity
    ensure (destination === local) "OPERATION_INVALID"
    scope_dir id
    receipt ← host.finalize_import id transfer manifest source destination
    pure (HostCompletionBody.backup_import_finalized receipt)

  -- It must name this target as the source, and another one as the destination.
  unfoldable pub backup_offhost_record : OffHostCopyReceipt → OnTarget T HostCompletionBody
  backup_offhost_record receipt = do
    local ← host.target_identity
    ensure (receipt.source_host_id === local && not (receipt.destination_host_id === local))
        "OPERATION_INVALID"
    scope_dir id
    host.record_off_host_copy id receipt
    pure HostCompletionBody.backup_offhost_recorded

  unfoldable pub backup_transfer_cleanup : String → OnTarget T HostCompletionBody
  backup_transfer_cleanup transfer = do
    scope_dir id
    host.cleanup_transfer id transfer
    pure HostCompletionBody.backup_transfer_cleaned

  unfoldable pub backup_recovery_candidate_cleanup :
      RecoveryCandidateEndpoint → OnTarget T HostCompletionBody
  backup_recovery_candidate_cleanup endpoint = do
    state ← loading codec id
    host.cleanup_recovery_candidate state endpoint
    pure HostCompletionBody.backup_recovery_candidate_cleaned

  abbrev is_false : Outcome String Bool → Bool
  is_false (ok b) = not b
  is_false (err code) = false

  -- The failure of a recovery is the answer, whatever the restart of the runtime does.
  abbrev pub restart_after : RuntimeSurface → String → Bool → OnTarget T RecoveryFacts
  restart_after runtime code false target = (err code, target)
  restart_after runtime code true target =
      let (_, target') = host.start runtime target in (err code, target')

  abbrev pub recovered :
      DeploymentState
      → Bool
      → Outcome String RecoveryFacts × Target T
      → Outcome String RecoveryFacts × Target T
  recovered state was_running (ok facts, target) = (ok facts, target)
  recovered state was_running (err code, target) =
      restart_after state.runtime code
        (was_running && is_false (host.recovery_path_switch_started id operation_id target)) target

  abbrev pub recover_or_restart :
      DeploymentState → String → String → Bool → OnTarget T RecoveryFacts
  recover_or_restart state manifest epoch was_running target =
      recovered state was_running (host.recover state manifest epoch operation_id target)

  abbrev quiesced : Outcome String Bool × Target T → Outcome String Bool × Target T
  quiesced (ok running, target) = (ok running, target)
  quiesced (err _, target) = (err "RESTORE_TEST_FAILED", target)

  module _ (expected now : ℕ) where
    unfoldable pub backup_recover : String → String → OnTarget T HostCompletionBody
    backup_recover manifest epoch = do
      state ← loading codec id
      ensure
          (state.config.revision == expected
            || is_producer operation_id state.active_host_operation)
          "CONFIG_REVISION_MISMATCH"
      was_running ← λ target. quiesced (host.quiesce_for_recovery state.runtime target)
      scope_dir id
      facts ← recover_or_restart state manifest epoch was_running
      committed ← in_store (apply codec id expected now (apply_recovery facts operation_id))
      pure (
          HostCompletionBody.backup_recovered facts.snapshot_id facts.manifest_sha256
            committed.config.revision)

  module _ (expected : ℕ) where
    unfoldable pub backup_recovery_candidate_stage :
        String → String → OfficialArtifactRef → OnTarget T HostCompletionBody
    backup_recovery_candidate_stage recovery epoch artifact = do
      state ← loading codec id
      ensure (state.config.revision == expected) "CONFIG_REVISION_MISMATCH"
      scope_dir id
      endpoint ← host.stage_recovery_candidate state recovery epoch artifact
      pure (HostCompletionBody.backup_recovery_candidate_staged endpoint)

    unfoldable pub backup_recovery_activate : String → String → ℤ → OnTarget T HostCompletionBody
    backup_recovery_activate recovery epoch not_before = do
      state ← loading codec id
      ensure (state.config.revision == expected) "CONFIG_REVISION_MISMATCH"
      scope_dir id
      host.activate_recovered_runtime state operation_id recovery epoch not_before
      pure HostCompletionBody.backup_recovery_activated

  -- execute_bound_control_operation: the object, and what a candidate substitutes.
  abbrev or_else : Option String → Option String → Option String
  or_else none other = other
  or_else (some a) other = some a

  unfoldable pub execute_bound_control_operation :
      String
      → DeploymentState
      → String
      → Option (List ℕ)
      → String
      → Option String
      → Option String
      → OnTarget T WireText
  execute_bound_control_operation control state jws change_set object artifact epoch = do
    current_artifact ← require (or_else artifact state.artifact.current) "CONTROL_TARGET_DRIFT"
    data_root ← require (directory_of "app-data" state.resources) "OPERATION_INVALID"
    secrets_root ← require (directory_of "app-secrets" state.resources) "OPERATION_INVALID"
    scope_dir state.deployment_id
    host.execute_control (record {
      operation_id = control;
      deployment_id = state.deployment_id;
      artifact_reference = current_artifact;
      runtime_kind = state.runtime.kind;
      runtime_object = object;
      config_reference = state.config.reference;
      data_root = data_root;
      secrets_root = secrets_root;
      transient_state_epoch = epoch;
      compact_jws = jws;
      change_set = change_set;
    })

  unfoldable pub answer_control_operation : String → Option (List ℕ) → OnTarget T HostCompletionBody
  answer_control_operation jws change_set = do
    state ← loading codec id
    result ←
        execute_bound_control_operation operation_id state jws change_set state.runtime.object none
          none
    pure (HostCompletionBody.control_operation_executed result)

  unfoldable pub answer_recovery_candidate_control :
      ℕ → RecoveryCandidateEndpoint → String → String → String → OnTarget T HostCompletionBody
  answer_recovery_candidate_control expected endpoint epoch control jws = do
    state ← loading codec id
    ensure
        (state.config.revision == expected
          && endpoint.deployment_id === id
          && is_producer endpoint.operation_id state.active_host_operation)
        "CONTROL_TARGET_DRIFT"
    scope_dir id
    artifact ← host.recovery_candidate_artifact_reference id endpoint.operation_id
    result ←
        execute_bound_control_operation control state jws none endpoint.object_id (some artifact)
          (some epoch)
    pure (HostCompletionBody.backup_recovery_candidate_control_executed result)
