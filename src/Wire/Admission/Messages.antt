-- ===== src/Wire/Admission/Messages.antt =====
-- Messages between the controller and a target (src/target/wire.rs: HostResult::validate, the parsers
-- and the bounded encoders, verify_remote_hello).
use nazo_auth_ctl.Prelude.{
  ℕ, ◌+◌, ◌*◌, ◌≤◌, ◌≡◌, String, not, ◌&&◌, Option, none, some, List, all, length, contains, leb,
  ◌==◌, ◌===◌, if◌then◌else◌, arith,
}
use nazo_auth_ctl.Prelude.Exec.{Outcome, ok, err}
use nazo_auth_ctl.Wire.{HostOperation, HostResult, host_operation_kinds, host_protocol_schema}
use nazo_auth_ctl.Wire.Admission.{
  RejectionCode, operation_oversize, operation_malformed, operation_kind_unknown, result_oversize,
  result_malformed, result_schema_unsupported, Formats, is_uuid_v7, valid_token, validate_operation,
}

abbrev pub max_host_operation_bytes : ℕ
max_host_operation_bytes = 6 * 1024 * 1024

abbrev pub max_host_result_bytes : ℕ
max_host_result_bytes = 4 * 1024 * 1024 + 64 * 1024

-- A target's announcement of itself.
pub record RemoteHello : Type 0 where
  pub product : String
  pub target_id : String
  pub remote_exec_schema : ℕ
  pub version : String
  pub os : String
  pub arch : String
  pub supported_runtimes : List String

-- One for each message of the code.
pub data HelloRefusal : Type 0 where
  invalid_product invalid_target_id invalid_version invalid_platform : HelloRefusal
  invalid_runtimes other_product other_schema : HelloRefusal

module _ (formats : Formats) where
  -- HostResult::validate
  unfoldable pub validate_result : HostResult → Outcome RejectionCode (Unit {0})
  validate_result result =
      if not (result.schema == host_protocol_schema)
      then err result_schema_unsupported
      else if is_uuid_v7 formats result.operation_id
      then ok tt
      else err result_malformed

  abbrev validated : {A : Type 0} → A → Outcome RejectionCode (Unit {0}) → Outcome RejectionCode A
  validated a (ok _) = ok a
  validated a (err code) = err code

  -- An unknown kind keeps its own code.
  abbrev unparsed : Option String → RejectionCode
  unparsed none = operation_malformed
  unparsed (some kind) =
      if contains host_operation_kinds kind then operation_malformed else operation_kind_unknown

  unfoldable pub parse_host_operation : List ℕ → Outcome RejectionCode HostOperation
  parse_host_operation raw =
      if leb (length raw) max_host_operation_bytes
      then elim (formats.decode_operation raw) [
        | none ↦ err (unparsed (formats.operation_kind raw))
        | some operation ↦ validated operation (validate_operation formats operation)
      ]
      else err operation_oversize

  unfoldable pub parse_host_result : List ℕ → Outcome RejectionCode HostResult
  parse_host_result raw =
      if leb (length raw) max_host_result_bytes
      then elim (formats.decode_result raw) [
        | none ↦ err result_malformed
        | some result ↦ validated result (validate_result result)
      ]
      else err result_oversize

  unfoldable pub encode_bounded : List ℕ → ℕ → RejectionCode → Outcome RejectionCode (List ℕ)
  encode_bounded bytes limit oversize = if leb (length bytes) limit then ok bytes else err oversize

  unfoldable pub encode_host_operation : HostOperation → Outcome RejectionCode (List ℕ)
  unfolding encode_bounded
  encode_host_operation operation =
      encode_bounded (formats.encode_operation operation) max_host_operation_bytes
        operation_oversize

  unfoldable pub encode_host_result : HostResult → Outcome RejectionCode (List ℕ)
  unfolding encode_bounded
  encode_host_result result =
      encode_bounded (formats.encode_result result) max_host_result_bytes result_oversize

  unfoldable pub verify_remote_hello : RemoteHello → Outcome HelloRefusal String
  verify_remote_hello hello =
      if not (valid_token hello.product 64)
      then err invalid_product
      else if not (is_uuid_v7 formats hello.target_id)
      then err invalid_target_id
      else if not (valid_token hello.version 64)
      then err invalid_version
      else if not (valid_token hello.os 32 && valid_token hello.arch 32)
      then err invalid_platform
      else if not (
          leb (length hello.supported_runtimes) 16
          && all (λ runtime. valid_token runtime 32) hello.supported_runtimes)
      then err invalid_runtimes
      else if not (hello.product === "nazoauthctl")
      then err other_product
      else if hello.remote_exec_schema == host_protocol_schema
      then ok hello.target_id
      else err other_schema

  -- The operations that a parse can return: the input is within the size limit, it is the text of
  -- that operation, and the operation is admitted.
  parse_host_operation-admits :
      (raw : List ℕ) {operation : HostOperation}
      → parse_host_operation raw ≡ ok operation
      → (length raw ≤ max_host_operation_bytes)
        × ((formats.decode_operation raw ≡ some operation)
            × (validate_operation formats operation ≡ ok tt))
  unfolding parse_host_operation
  parse_host_operation-admits raw h = ground (arith, h)
