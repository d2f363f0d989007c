-- ===== src/Wire/Admission/Bindings.antt =====
-- What the admission of an operation guarantees to the code behind it (src/target/wire.rs:
-- HostOperation::validate).
use nazo_auth_ctl.Prelude.{
  ℕ, ◌+◌, ◌≤◌, ◌≡◌, String, Bool, true, false, Option, none, some, List, length, arith,
}
use nazo_auth_ctl.Prelude.Exec.{ok}
use nazo_auth_ctl.Wire.{
  HostOperation, HostOperationBody, StateMutationPayload, host_protocol_schema,
}
use nazo_auth_ctl.Wire.Admission.{
  Formats, validate_operation, validate_body, validate_mutation, is_uuid_v7,
  max_backup_transfer_file_bytes,
}

pub data Presence : Type 0 where
  required forbidden : Presence

abbrev pub is_met {ℓ} : {A : Type ℓ} → Presence → Option A → Bool
is_met required none = false
is_met required (some a) = true
is_met forbidden none = true
is_met forbidden (some a) = false

-- The table of what each kind carries.
abbrev pub deployment_presence : HostOperationBody → Presence
deployment_presence (HostOperationBody.ping _) = forbidden
deployment_presence HostOperationBody.hello = forbidden
deployment_presence HostOperationBody.state_list = forbidden
deployment_presence _ = required

abbrev pub revision_presence : HostOperationBody → Presence
revision_presence (HostOperationBody.state_mutate (StateMutationPayload.bootstrap _ _ _ _ _ _ _)) =
    forbidden
revision_presence (HostOperationBody.state_mutate _) = required
revision_presence (HostOperationBody.backup_recover _ _) = required
revision_presence (HostOperationBody.backup_recovery_candidate_stage _ _ _) = required
revision_presence (HostOperationBody.backup_recovery_candidate_control _ _ _ _) = required
revision_presence (HostOperationBody.backup_recovery_activate _ _ _) = required
revision_presence _ = forbidden

module _ (formats : Formats) where
  body_bindings :
      (id : Option String) (revision : Option ℕ) (body : HostOperationBody)
      → validate_body formats id revision body ≡ true
      → (is_met (deployment_presence body) id ≡ true)
        × (is_met (revision_presence body) revision ≡ true)
  unfolding validate_body validate_mutation
  body_bindings id revision (HostOperationBody.state_mutate mutation) h = ground (arith, h)
  body_bindings id revision body h = ground (arith, h)

  -- An admitted operation has the current schema and a UUIDv7, and carries a deployment and an
  -- expected revision exactly where the table of its kind asks for one.
  pub validate_operation-bindings :
      (operation : HostOperation)
      → validate_operation formats operation ≡ ok tt
      → (operation.schema ≡ host_protocol_schema)
        × ((is_uuid_v7 formats operation.operation_id ≡ true)
            × ((is_met (deployment_presence operation.operation) operation.deployment_id ≡ true)
                × (is_met (revision_presence operation.operation) operation.expected_revision
                    ≡ true)))
  unfolding validate_operation
  validate_operation-bindings operation h = ground (
    arith,
    h,
    body_bindings operation.deployment_id operation.expected_revision operation.operation,
  )

  -- An admitted write of a backup chunk ends within the file that it announces, which is no larger
  -- than 64 GiB, in unbounded arithmetic: no offset wraps around the 64 bits of the sum.
  pub validate_operation-transfer_fits :
      (operation : HostOperation) (transfer file_name sha256 : String) (offset total : ℕ)
      (bytes : List ℕ)
      → validate_operation formats operation ≡ ok tt
      → operation.operation
        ≡ HostOperationBody.backup_transfer_write transfer file_name offset total sha256 bytes
      → (offset + length bytes ≤ total) × (total ≤ max_backup_transfer_file_bytes)
  unfolding validate_operation validate_body
  validate_operation-transfer_fits operation transfer file_name sha256 offset total bytes v e =
      ground (arith, v, e)
