-- ===== src/Target/Dispatch/Stale.antt =====
-- An operation against a revision that the deployment no longer holds (src/target/mod.rs:
-- dispatch_validated_host_operation and the `answer_*` functions).
use nazo_auth_ctl.Prelude.{ℕ, ◌≡◌, refl, ◌==◌, String, false, some}
use nazo_auth_ctl.Prelude.Exec.{ok}
use nazo_auth_ctl.State.{DeploymentState, is_producer}
use nazo_auth_ctl.State.Steps.{config_step}
use nazo_auth_ctl.State.Mutations.{mutate}
use nazo_auth_ctl.State.Store.{Codec, load_existing, apply}
use nazo_auth_ctl.Wire.{HostOperation, HostOperationBody, StateMutationPayload, failed_result}
use nazo_auth_ctl.Wire.Payloads.{OfficialArtifactRef, RecoveryCandidateEndpoint, ℤ}
use nazo_auth_ctl.Target.{Target, Host, failure_code}
use nazo_auth_ctl.Target.Backups.{
  backup_recover, backup_recovery_candidate_stage, backup_recovery_activate,
  answer_recovery_candidate_control,
}
use nazo_auth_ctl.Target.Lifecycle.{answer_apply_config, answer_rollback, answer_uninstall}
use nazo_auth_ctl.Target.Dispatch.{
  handler, mutation_handler, dispatched, dispatch_validated_host_operation,
}

-- The code that a stale operation is answered with, for the kinds whose revision dispatch compares:
-- an update's executor compares it itself, and the other kinds carry none.
pub data IsGuarded : HostOperationBody → String → Type 0 where
  config :
      (reference schema : String)
      → IsGuarded
          (HostOperationBody.state_mutate (StateMutationPayload.apply_config reference schema))
          "CONFIG_REVISION_MISMATCH"
  rollback :
      IsGuarded
        (HostOperationBody.state_mutate StateMutationPayload.rollback)
        "CONFIG_REVISION_MISMATCH"
  uninstall :
      IsGuarded
        (HostOperationBody.state_mutate StateMutationPayload.uninstall)
        "CONFIG_REVISION_MISMATCH"
  recover :
      (manifest epoch : String)
      → IsGuarded (HostOperationBody.backup_recover manifest epoch) "CONFIG_REVISION_MISMATCH"
  stage :
      (recovery epoch : String) (artifact : OfficialArtifactRef)
      → IsGuarded
          (HostOperationBody.backup_recovery_candidate_stage recovery epoch artifact)
          "CONFIG_REVISION_MISMATCH"
  activate :
      (recovery epoch : String) (not_before : ℤ)
      → IsGuarded
          (HostOperationBody.backup_recovery_activate recovery epoch not_before)
          "CONFIG_REVISION_MISMATCH"
  control :
      (endpoint : RecoveryCandidateEndpoint) (epoch operation jws : String)
      → IsGuarded
          (HostOperationBody.backup_recovery_candidate_control endpoint epoch operation jws)
          "CONTROL_TARGET_DRIFT"

module _ {T : Type 0} (codec : Codec) (host : Host T) (now : ℕ) where
  stale_dispatch :
      (op id code : String) (expected : ℕ) (body : HostOperationBody) (target : Target T)
      (s : DeploymentState)
      → IsGuarded body code
      → load_existing codec id target.store ≡ ok s
      → (s.config.revision == expected) ≡ false
      → is_producer op s.active_host_operation ≡ false
      → dispatched op (handler codec host now op (some id) (some expected) body) target
        ≡ some (failed_result op code, target)
  unfolding handler mutation_handler failure_code answer_apply_config apply mutate config_step
      answer_rollback answer_uninstall backup_recover backup_recovery_candidate_stage
      backup_recovery_activate answer_recovery_candidate_control
  stale_dispatch op id code expected body target s (config reference schema) l stale other =
      simp (l, stale, other) refl
  stale_dispatch op id code expected body target s rollback l stale other =
      simp (l, stale, other) refl
  stale_dispatch op id code expected body target s uninstall l stale other = simp (l, stale) refl
  stale_dispatch op id code expected body target s (recover m e) l stale other =
      simp (l, stale, other) refl
  stale_dispatch op id code expected body target s (stage r e a) l stale other =
      simp (l, stale) refl
  stale_dispatch op id code expected body target s (activate r e n) l stale other =
      simp (l, stale) refl
  stale_dispatch op id code expected body target s (control e p o j) l stale other =
      simp (l, stale) refl

  -- A stale operation does nothing: where the deployment's revision is not the expected one and the
  -- operation did not produce its state, dispatch answers with the code of its kind and leaves the whole
  -- target as it was, for every kind whose revision it compares.
  pub dispatch-stale :
      (operation : HostOperation) (id code : String) (expected : ℕ) (target : Target T)
      (s : DeploymentState)
      → IsGuarded operation.operation code
      → operation.deployment_id ≡ some id
      → operation.expected_revision ≡ some expected
      → load_existing codec id target.store ≡ ok s
      → (s.config.revision == expected) ≡ false
      → is_producer operation.operation_id s.active_host_operation ≡ false
      → dispatch_validated_host_operation codec host now operation target
        ≡ some (failed_result operation.operation_id code, target)
  unfolding dispatch_validated_host_operation
  dispatch-stale operation id code expected target s g d r l stale other =
      rw (d, r)
        (rw
          (stale_dispatch operation.operation_id id code expected operation.operation target s g l
            stale other)
          refl)
