-- ===== src/Wire/Admission.antt =====
-- The admission of a host operation (src/target/wire.rs: HostOperation::validate and the checks under
-- it). The detail of a rejection is left out.
pub mod Bindings
pub mod Messages
use Prim.Native.String.{len}
use nazo_auth_ctl.Prelude.{
  ℕ, ◌+◌, ◌*◌, String, Bool, true, false, not, ◌&&◌, ◌||◌, Option, none, some, List, [], ◌∷◌,
  is_none, all, any, length, contains, ltb, leb, ◌==◌, ◌===◌, if◌then◌else◌,
}
use nazo_auth_ctl.Prelude.Bytes.{codes, is_ascii_alphanumeric, is_control}
use nazo_auth_ctl.Prelude.Exec.{Outcome, ok, err}
use nazo_auth_ctl.Prelude.Paths.{split}
use nazo_auth_ctl.Identifiers.{is_lower_sha256, is_version_7}
use nazo_auth_ctl.State.Validation.{if_present, validate_runtime}
use nazo_auth_ctl.Wire.{
  UpdateBackupPrecondition, StateMutationPayload, HostOperationBody, HostOperation, HostResult,
  host_protocol_schema,
}
use nazo_auth_ctl.Wire.Payloads.{ℤ, RecoveryCandidateEndpoint}
use nazo_auth_ctl.Wire.Order.{has_repository, validate_staged_config, validate_order}

pub data RejectionCode : Type 0 where
  operation_oversize operation_malformed operation_schema_unsupported : RejectionCode
  operation_kind_unknown result_oversize result_malformed result_schema_unsupported : RejectionCode

-- What the crates uuid, base64 and serde_json answer. A UUID text has its version number; the kind
-- is the text at `operation.kind` of a document that parses as JSON.
pub record Formats : Type 0 where
  pub uuid_version : String → Option ℕ
  pub decode_base64url : List ℕ → Option (List ℕ)
  pub encode_operation : HostOperation → List ℕ
  pub decode_operation : List ℕ → Option HostOperation
  pub operation_kind : List ℕ → Option String
  pub encode_result : HostResult → List ℕ
  pub decode_result : List ℕ → Option HostResult

abbrev pub max_control_jws_bytes : ℕ
max_control_jws_bytes = 60 * 1024

abbrev pub max_backup_transfer_chunk_bytes : ℕ
max_backup_transfer_chunk_bytes = 256 * 1024

abbrev pub max_backup_transfer_file_bytes : ℕ
max_backup_transfer_file_bytes = 64 * 1024 * 1024 * 1024

-- `u64::checked_add`
abbrev pub checked_add : ℕ → ℕ → Option ℕ
checked_add a b = if leb (a + b) 0xffffffffffffffff then some (a + b) else none

unfoldable pub valid_token : String → ℕ → Bool
valid_token value max_chars =
    not (value === "")
    && leb (len value) max_chars
    && all (λ c. leb 33 c && leb c 126) (codes value)

unfoldable pub valid_compact_jws : String → Bool
valid_compact_jws value =
    not (value === "")
    && leb (len value) max_control_jws_bytes
    && all (λ c. is_ascii_alphanumeric c || (c == b'.' || c == b'_' || c == b'-')) (codes value)
    && length (split b'.' (codes value)) == 3

abbrev backup_transfer_files : List String
backup_transfer_files = "postgresql.dump" ∷ "deployment.tar" ∷ "snapshot-manifest.json" ∷ []

unfoldable pub valid_backup_transfer_file : String → Bool
valid_backup_transfer_file value = contains backup_transfer_files value

-- UpdateBackupPrecondition::validate (src/target/deployment_state.rs)
unfoldable pub validate_precondition : UpdateBackupPrecondition → Bool
validate_precondition UpdateBackupPrecondition.not_required = true
validate_precondition (UpdateBackupPrecondition.require manifest restored max_age_seconds) =
    is_lower_sha256 manifest && not (max_age_seconds == 0) && leb max_age_seconds 31536000

abbrev is_positive : ℤ → Bool
is_positive (ℤ.pos n) = not (n == 0)
is_positive (ℤ.negsuc n) = false

abbrev or_empty : Option String → String
or_empty none = ""
or_empty (some text) = text

abbrev is_bound_to : Option String → String → Bool
is_bound_to none id = false
is_bound_to (some deployment_id) id = deployment_id === id

abbrev is_some {ℓ} : {A : Type ℓ} → Option A → Bool
is_some none = false
is_some (some _) = true

abbrev ends_within : Option ℕ → ℕ → Bool
ends_within none total = false
ends_within (some end) total = leb end total

abbrev differ : Bool → Bool → Bool
differ true b = not b
differ false b = b

module _ (formats : Formats) where
  abbrev pub is_uuid_v7 : String → Bool
  is_uuid_v7 value = is_version_7 (formats.uuid_version value)

  abbrev is_uuid : String → Bool
  is_uuid value = not (is_none (formats.uuid_version value))

  unfoldable pub validate_mutation : Option ℕ → StateMutationPayload → Bool
  validate_mutation revision
        (StateMutationPayload.bootstrap issuer runtime artifact reference schema resources
          install) =
      is_none revision
      && differ (is_some install) (is_some artifact)
      && validate_runtime runtime
      && if_present (validate_order formats.decode_base64url) install
  validate_mutation revision (StateMutationPayload.apply_config reference schema) = is_some revision
  validate_mutation revision
        (StateMutationPayload.update artifact precondition config migration_jws request_hash) =
      is_some revision
      && has_repository artifact
      && if_present validate_staged_config config
      && validate_precondition precondition
  validate_mutation revision StateMutationPayload.rollback = is_some revision
  validate_mutation revision StateMutationPayload.uninstall = is_some revision

  abbrev is_endpoint_of : Option String → RecoveryCandidateEndpoint → Bool
  is_endpoint_of id endpoint =
      is_bound_to id endpoint.deployment_id
      && is_uuid_v7 endpoint.operation_id
      && not (endpoint.object_reference === "")
      && not (endpoint.object_id === "")
      && not (endpoint.loopback_port == 0)

  -- The checks of each kind, on the deployment and the revision that the operation carries.
  unfoldable pub validate_body : Option String → Option ℕ → HostOperationBody → Bool
  validate_body id revision (HostOperationBody.ping nonce) =
      valid_token nonce 128 && (is_none id && is_none revision)
  validate_body id revision HostOperationBody.hello = is_none id && is_none revision
  validate_body id revision HostOperationBody.state_inspect = is_some id && is_none revision
  validate_body id revision HostOperationBody.state_list = is_none id && is_none revision
  validate_body id revision (HostOperationBody.admin_create email password) =
      (is_some id && is_none revision)
      && (not (email === "") && leb (len email) 254 && not (any is_control (codes email)))
  validate_body id revision (HostOperationBody.state_mutate mutation) =
      is_some id && validate_mutation revision mutation
  validate_body id revision HostOperationBody.backup_snapshot = is_some id && is_none revision
  validate_body id revision HostOperationBody.backup_restore_test = is_some id && is_none revision
  validate_body id revision HostOperationBody.backup_export_prepare = is_some id && is_none revision
  validate_body id revision HostOperationBody.backup_import_prepare = is_some id && is_none revision
  validate_body id revision (HostOperationBody.backup_offhost_record receipt) =
      is_some id && is_none revision
  validate_body id revision
        (HostOperationBody.backup_transfer_read transfer file_name offset maximum_bytes) =
      (is_some id && is_none revision)
      && is_uuid_v7 transfer
      && valid_backup_transfer_file file_name
      && not (maximum_bytes == 0)
      && leb maximum_bytes max_backup_transfer_chunk_bytes
  validate_body id revision
        (HostOperationBody.backup_transfer_write transfer file_name offset total sha256 bytes) =
      (is_some id && is_none revision)
      && is_uuid_v7 transfer
      && valid_backup_transfer_file file_name
      && not (total == 0)
      && leb total max_backup_transfer_file_bytes
      && is_lower_sha256 sha256
      && ends_within (checked_add offset (length bytes)) total
  validate_body id revision (HostOperationBody.backup_recover manifest state_epoch) =
      (is_some id && is_some revision) && is_lower_sha256 manifest && is_uuid_v7 state_epoch
  validate_body id revision
        (HostOperationBody.backup_recovery_candidate_stage recovery state_epoch artifact) =
      (is_some id && is_some revision)
      && is_uuid_v7 recovery
      && is_uuid_v7 state_epoch
      && has_repository artifact
  validate_body id revision (HostOperationBody.backup_recovery_candidate_cleanup endpoint) =
      is_endpoint_of id endpoint && is_none revision
  validate_body id revision
        (HostOperationBody.backup_recovery_candidate_control endpoint state_epoch control jws) =
      is_endpoint_of id endpoint
      && is_some revision
      && is_uuid_v7 state_epoch
      && is_uuid_v7 control
      && valid_compact_jws jws
  validate_body id revision
        (HostOperationBody.backup_recovery_activate recovery state_epoch not_before) =
      (is_some id && is_some revision)
      && is_uuid_v7 recovery
      && is_uuid_v7 state_epoch
      && is_positive not_before
  validate_body id revision
        (HostOperationBody.backup_import_finalize transfer manifest source destination) =
      (is_some id && is_none revision)
      && is_uuid transfer
      && is_lower_sha256 manifest
      && is_uuid source
      && is_uuid destination
      && not (source === destination)
  validate_body id revision (HostOperationBody.backup_transfer_cleanup transfer) =
      (is_some id && is_none revision) && is_uuid transfer
  validate_body id revision (HostOperationBody.control_operation jws expected change_set) =
      (is_some id && is_none revision) && valid_compact_jws jws && expected === or_empty id
  validate_body id revision (HostOperationBody.runtime_logs limit) =
      (is_some id && is_none revision) && (leb 1 limit && leb limit 500)
  validate_body id revision (HostOperationBody.journal_read limit) =
      (is_some id && is_none revision) && (leb 1 limit && leb limit 1000)

  -- HostOperation::validate
  unfoldable pub validate_operation : HostOperation → Outcome RejectionCode (Unit {0})
  validate_operation operation =
      if not (operation.schema == host_protocol_schema)
      then err operation_schema_unsupported
      else if not (is_uuid_v7 operation.operation_id)
      then err operation_malformed
      else if not (if_present (λ id. valid_token id 128) operation.deployment_id)
      then err operation_malformed
      else if validate_body operation.deployment_id operation.expected_revision operation.operation
      then ok tt
      else err operation_malformed
