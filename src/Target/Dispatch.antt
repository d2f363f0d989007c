-- ===== src/Target/Dispatch.antt =====
-- The dispatch of host operations on a target (src/target/mod.rs: dispatch_validated_host_operation,
-- execute_journaled_validated, execute_host_operation). A binding that the code unwraps with
-- `expect` is `none` here when it is absent: the code panics.
pub mod Bound
pub mod Stale
pub mod Resumed
pub mod Removed
use nazo_auth_ctl.Prelude.{ℕ, String, Bool, true, false, Option, none, some, if◌then◌else◌}
use nazo_auth_ctl.Prelude.Exec.{Outcome, ok, err, Exec, pure, ◌>>=◌, ◌>>◌}
use nazo_auth_ctl.State.Store.{Codec}
use nazo_auth_ctl.State.Uninstall.{converge_uninstall_completion}
use nazo_auth_ctl.Journal
use nazo_auth_ctl.Journal.{JournalBounds, JournalError}
use nazo_auth_ctl.Journal.Running.{World, run_journaled}
use nazo_auth_ctl.Wire.{
  HostOperation, HostOperationBody, StateMutationPayload, HostCompletionBody, HostResult,
  completed_result, failed_result, requires_journal,
}
use nazo_auth_ctl.Wire.Admission.{Formats, RejectionCode, validate_operation}
use nazo_auth_ctl.Target.{Target, OnTarget, Host, in_store}
use nazo_auth_ctl.Target.Backups.{
  backup_snapshot, backup_restore_test, backup_export_prepare, backup_import_prepare,
  backup_transfer_read, backup_transfer_write, backup_import_finalize, backup_offhost_record,
  backup_transfer_cleanup, backup_recovery_candidate_cleanup, backup_recover,
  backup_recovery_candidate_stage, backup_recovery_activate, answer_control_operation,
  answer_recovery_candidate_control,
}
use nazo_auth_ctl.Target.Lifecycle.{
  answer_hello, answer_state_list, answer_inspect, answer_runtime_logs, answer_journal_read,
  answer_admin_create, answer_bootstrap, answer_apply_config, answer_update, answer_rollback,
  answer_uninstall,
}

-- An `expect` on a binding, `none` for the panic.
abbrev pub expect {ℓ} : {A B : Type ℓ} → Option A → (A → B) → Option B
expect none f = none
expect (some a) f = some (f a)

abbrev pub expect_both {ℓ} : {A B C : Type ℓ} → Option A → Option B → (A → B → C) → Option C
expect_both none b f = none
expect_both (some a) none f = none
expect_both (some a) (some b) f = some (f a b)

module _ {T : Type 0} where
  -- A failure is or_state_failure by its code; state_failure
  abbrev pub or_state_failure :
      String → Outcome String HostCompletionBody × Target T → HostResult × Target T
  or_state_failure op (ok body, target) = (completed_result op body, target)
  or_state_failure op (err code, target) = (failed_result op code, target)

  abbrev pub dispatched :
      String → Option (OnTarget T HostCompletionBody) → Target T → Option (HostResult × Target T)
  dispatched op none target = none
  dispatched op (some answer) target = some (or_state_failure op (answer target))

  -- The journal's executor. No admitted operation panics, so the first branch is never taken.
  abbrev pub or_unchanged :
      HostOperation → Target T → Option (HostResult × Target T) → HostResult × Target T
  or_unchanged operation target none = (failed_result operation.operation_id "PANIC", target)
  or_unchanged operation target (some answer) = answer

module _ {T : Type 0} (codec : Codec) (host : Host T) (now : ℕ) where
  abbrev Handler : Type 0
  Handler = Option (OnTarget T HostCompletionBody)

  unfoldable pub mutation_handler :
      String → Option String → Option ℕ → StateMutationPayload → Handler
  mutation_handler op id revision
        (StateMutationPayload.bootstrap issuer runtime artifact reference schema resources
          install) =
      expect id λ id.
        answer_bootstrap codec host id op now issuer runtime reference schema resources install
  mutation_handler op id revision (StateMutationPayload.apply_config reference schema) =
      expect_both id revision
        λ id expected. answer_apply_config codec host id op expected now reference schema
  mutation_handler op id revision
        (StateMutationPayload.update artifact precondition config migration_jws request_hash) =
      expect_both id revision λ id expected.
        answer_update codec host id op expected artifact precondition config migration_jws
          request_hash
  mutation_handler op id revision StateMutationPayload.rollback =
      expect_both id revision λ id expected. answer_rollback codec host id op expected
  mutation_handler op id revision StateMutationPayload.uninstall =
      expect_both id revision λ id expected. answer_uninstall codec host id op expected

  unfoldable pub handler : String → Option String → Option ℕ → HostOperationBody → Handler
  handler op id revision (HostOperationBody.ping nonce) =
      some (pure (HostCompletionBody.ping nonce))
  handler op id revision HostOperationBody.hello = some (answer_hello codec host)
  handler op id revision HostOperationBody.state_list = some (answer_state_list codec host)
  handler op id revision HostOperationBody.state_inspect =
      expect id λ id. answer_inspect codec host id
  handler op id revision (HostOperationBody.admin_create email password) =
      expect id λ id. answer_admin_create codec host id op email password
  handler op id revision (HostOperationBody.runtime_logs limit) =
      expect id λ id. answer_runtime_logs codec host id limit
  handler op id revision (HostOperationBody.journal_read limit) =
      expect id λ id. answer_journal_read codec host id limit
  handler op id revision HostOperationBody.backup_snapshot =
      expect id λ id. backup_snapshot codec host op id
  handler op id revision HostOperationBody.backup_restore_test =
      expect id λ id. backup_restore_test codec host op id
  handler op id revision (HostOperationBody.backup_recover manifest epoch) =
      expect_both id revision
        λ id expected. backup_recover codec host op id expected now manifest epoch
  handler op id revision
        (HostOperationBody.backup_recovery_candidate_stage recovery epoch artifact) =
      expect_both id revision λ id expected.
        backup_recovery_candidate_stage codec host op id expected recovery epoch artifact
  handler op id revision
        (HostOperationBody.backup_recovery_candidate_control endpoint epoch control jws) =
      expect_both id revision λ id expected.
        answer_recovery_candidate_control codec host op id expected endpoint epoch control jws
  handler op id revision (HostOperationBody.backup_recovery_candidate_cleanup endpoint) =
      expect id λ id. backup_recovery_candidate_cleanup codec host op id endpoint
  handler op id revision (HostOperationBody.backup_recovery_activate recovery epoch not_before) =
      expect_both id revision
        λ id expected. backup_recovery_activate codec host op id expected recovery epoch not_before
  handler op id revision HostOperationBody.backup_export_prepare =
      expect id λ id. backup_export_prepare codec host op id
  handler op id revision HostOperationBody.backup_import_prepare =
      expect id λ id. backup_import_prepare codec host op id
  handler op id revision (HostOperationBody.backup_transfer_read transfer file offset maximum) =
      expect id λ id. backup_transfer_read codec host op id transfer file offset maximum
  handler op id revision
        (HostOperationBody.backup_transfer_write transfer file offset total sha256 bytes) =
      expect id λ id. backup_transfer_write codec host op id transfer file offset bytes
  handler op id revision
        (HostOperationBody.backup_import_finalize transfer manifest source destination) =
      expect id λ id. backup_import_finalize codec host op id transfer manifest source destination
  handler op id revision (HostOperationBody.backup_offhost_record receipt) =
      expect id λ id. backup_offhost_record codec host op id receipt
  handler op id revision (HostOperationBody.backup_transfer_cleanup transfer) =
      expect id λ id. backup_transfer_cleanup codec host op id transfer
  handler op id revision (HostOperationBody.control_operation jws expected change_set) =
      expect id λ id. answer_control_operation codec host op id jws change_set
  handler op id revision (HostOperationBody.state_mutate mutation) =
      mutation_handler op id revision mutation

  unfoldable pub dispatch_validated_host_operation :
      HostOperation → Target T → Option (HostResult × Target T)
  dispatch_validated_host_operation operation target =
      dispatched operation.operation_id
        (handler operation.operation_id operation.deployment_id operation.expected_revision
          operation.operation)
        target

  abbrev is_uninstall : HostOperationBody → Bool
  is_uninstall (HostOperationBody.state_mutate StateMutationPayload.uninstall) = true
  is_uninstall _ = false

  -- An uninstall that a proof shows to be complete is or_state_failure from it.
  abbrev pub converged :
      HostOperation → ℕ → Outcome String Bool × Target T → Option (HostResult × Target T)
  converged operation expected (err code, target) =
      some (failed_result operation.operation_id code, target)
  converged operation expected (ok true, target) = some (
    completed_result operation.operation_id (HostCompletionBody.state_mutate_applied expected none),
    target,
  )
  converged operation expected (ok false, target) =
      dispatch_validated_host_operation operation target

  abbrev pub converging :
      HostOperation → Option String → Option ℕ → Target T → Option (HostResult × Target T)
  converging operation none revision target = none
  converging operation (some id) none target = none
  converging operation (some id) (some expected) target =
      converged operation expected
        (in_store (converge_uninstall_completion codec id expected operation.operation_id) target)

  -- What execute_journaled_validated hands to the journal.
  unfoldable pub execute_validated : HostOperation → Target T → Option (HostResult × Target T)
  execute_validated operation target =
      if is_uninstall operation.operation
      then converging operation operation.deployment_id operation.expected_revision target
      else dispatch_validated_host_operation operation target

  unfoldable pub executor : HostOperation → Target T → HostResult × Target T
  executor operation target = or_unchanged operation target (execute_validated operation target)

  module _ (journal : Journal.Codec) (bounds : JournalBounds) (accepted finished : ℕ) where
    abbrev direct : HostOperation → Exec (World (Target T)) JournalError HostResult
    direct operation w =
        let (result, target) =
          or_unchanged operation w.target (dispatch_validated_host_operation operation w.target) in
        (ok result, record w { target = target })

    unfoldable pub execute_journaled_validated :
        HostOperation → Exec (World (Target T)) JournalError HostResult
    execute_journaled_validated operation =
        if requires_journal operation.operation
        then run_journaled journal bounds executor accepted finished operation
        else direct operation

    abbrev admitted_only :
        HostOperation
        → Outcome RejectionCode (Unit {0})
        → Exec (World (Target T)) JournalError HostResult
    admitted_only operation (ok _) = execute_journaled_validated operation
    admitted_only operation (err code) =
        pure (failed_result operation.operation_id "OPERATION_INVALID")

    unfoldable pub execute_host_operation :
        Formats → HostOperation → Exec (World (Target T)) JournalError HostResult
    execute_host_operation formats operation =
        admitted_only operation (validate_operation formats operation)
