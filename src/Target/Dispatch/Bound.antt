-- ===== src/Target/Dispatch/Bound.antt =====
-- Admission and dispatch (src/target/wire.rs: HostOperation::validate; src/target/mod.rs:
-- dispatch_validated_host_operation, execute_journaled_validated).
use nazo_auth_ctl.Prelude.{ℕ, ◌≡◌, String, true, false, Option, is_none, arith}
use nazo_auth_ctl.Prelude.Exec.{ok}
use nazo_auth_ctl.State.Store.{Codec}
use nazo_auth_ctl.Wire.{HostOperation, HostOperationBody}
use nazo_auth_ctl.Wire.Admission.{Formats, validate_operation}
use nazo_auth_ctl.Wire.Admission.Bindings.{
  is_met, deployment_presence, revision_presence, validate_operation-bindings,
}
use nazo_auth_ctl.Target.{Target, Host}
use nazo_auth_ctl.Target.Dispatch.{
  handler, mutation_handler, dispatch_validated_host_operation, execute_validated,
}

module _ {T : Type 0} (codec : Codec) (host : Host T) (now : ℕ) where
  handler-bound :
      (op : String) (id : Option String) (revision : Option ℕ) (body : HostOperationBody)
      → is_met (deployment_presence body) id ≡ true
      → is_met (revision_presence body) revision ≡ true
      → is_none (handler codec host now op id revision body) ≡ false
  unfolding handler mutation_handler
  handler-bound op id revision (HostOperationBody.state_mutate mutation) d r = ground (arith, d, r)
  handler-bound op id revision body d r = ground (arith, d, r)

  -- No admitted operation panics on a binding: whatever the rest of the host does, the dispatch of an
  -- operation that `HostOperation::validate` accepts gives an answer, and so does its journaled execution.
  pub dispatch-validated :
      (formats : Formats) (operation : HostOperation) (target : Target T)
      → validate_operation formats operation ≡ ok tt
      → (is_none (dispatch_validated_host_operation codec host now operation target) ≡ false)
        × (is_none (execute_validated codec host now operation target) ≡ false)
  unfolding dispatch_validated_host_operation execute_validated
  dispatch-validated formats operation target v =
      let (_, (_, (d, r))) = validate_operation-bindings formats operation v in
      let bound =
        handler-bound operation.operation_id operation.deployment_id operation.expected_revision
          operation.operation d r in
      (ground (arith, bound), ground (arith, bound, d, r))
