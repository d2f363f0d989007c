-- ===== src/Transfer.antt =====
-- The off-host copy of a backup, as the controller drives it between two targets: the durable record
-- of src/controller/transfer_journal.rs, with the rules that it satisfies whenever it is stored.
-- The lock of the journal is held throughout, and an error of the lock itself is left out.
pub mod Chunks
pub mod Exchange
pub mod Copying
use nazo_auth_ctl.Prelude.{
  ℕ, zero, suc, ◌*◌, String, Bool, true, false, not, ◌&&◌, ◌||◌, Option, none, some, is_none, List,
  [], ◌∷◌, all, length, leb, ltb, ◌==◌, ◌===◌, if◌then◌else◌,
}
use nazo_auth_ctl.Prelude.Exec.{Exec, pure, fail, ◌>>=◌}
use nazo_auth_ctl.Disk.{
  Disk, Read, found, missing, oversized, read_secure_regular_file, replace_file, remove_file,
}
use nazo_auth_ctl.Identifiers.{validate_identifier, is_lower_sha256, is_version_7}
use nazo_auth_ctl.Wire.Payloads.{OffHostCopyReceipt}

-- src/target/backup.rs
pub record SnapshotFile : Type 0 where
  pub path : String
  pub size : ℕ
  pub sha256 : String

-- src/target/backup_exec.rs
pub record BackupTransferPlan : Type 0 where
  pub operation_id : String
  pub deployment_id : String
  pub manifest_sha256 : String
  pub files : List SnapshotFile

pub data TransferPhase : Type 0 where
  source_prepare destination_prepare copying finalize : TransferPhase
  record_source_receipt cleanup_source cleanup_destination : TransferPhase

pub record CopyCursor : Type 0 where
  pub file_index : ℕ
  pub offset : ℕ
  pub read_operation_id : String
  pub write_operation_id : String

pub record TransferRecord : Type 0 where
  pub schema : ℕ
  pub deployment_id : String
  pub source_host_id : String
  pub destination_host_id : String
  pub destination_alias : String
  pub transfer_operation_id : String
  pub phase : TransferPhase
  pub source_plan : Option BackupTransferPlan
  pub cursor : Option CopyCursor
  pub finalize_operation_id : String
  pub source_receipt_operation_id : String
  pub source_cleanup_operation_id : String
  pub destination_cleanup_operation_id : String
  pub receipt : Option OffHostCopyReceipt

-- `slice::get`
abbrev pub get_elem? : List SnapshotFile → ℕ → Option SnapshotFile
get_elem? [] n = none
get_elem? (file ∷ files) zero = some file
get_elem? (file ∷ files) (suc n) = get_elem? files n

-- TransferRecord::reset_cursor, with the operation ids that it draws
unfoldable pub reset_cursor : ℕ → ℕ → String → String → TransferRecord → TransferRecord
reset_cursor file_index offset read write transfer = record transfer {
  cursor = some (record {
    file_index = file_index;
    offset = offset;
    read_operation_id = read;
    write_operation_id = write;
  });
}

-- What the crates uuid and serde_json answer.
pub record TransferFormats : Type 0 where
  pub uuid_version : String → Option ℕ
  pub encode : TransferRecord → List ℕ
  pub decode : List ℕ → Option TransferRecord

-- The ways in which a copy stops.
pub data Refusal : Type 0 where
  invalid_record write_failed unreachable mismatched missing_evidence unexpected : Refusal
  failed : String → Refusal

abbrev pub max_bytes : ℕ
max_bytes = 64 * 1024

abbrev is_within : ℕ → Option SnapshotFile → Bool
is_within offset none = false
is_within offset (some file) = ltb offset file.size

-- The evidence that each phase has: a plan, a cursor, a receipt.
unfoldable pub validate_phase : TransferRecord → Bool
validate_phase transfer =
    let no_plan = is_none transfer.source_plan in
    let no_cursor = is_none transfer.cursor in
    let no_receipt = is_none transfer.receipt in
    elim transfer.phase [
      | source_prepare ↦ no_plan && no_cursor && no_receipt
      | destination_prepare ↦ not no_plan && no_cursor && no_receipt
      | copying ↦ not no_plan && not no_cursor && no_receipt
      | finalize ↦ not no_plan && no_cursor && no_receipt
      | record_source_receipt ↦ not no_plan && no_cursor && not no_receipt
      | cleanup_source ↦ not no_plan && no_cursor && not no_receipt
      | cleanup_destination ↦ not no_plan && no_cursor && not no_receipt
    ]

module _ (formats : TransferFormats) where
  abbrev valid_uuid_v7 : String → Bool
  valid_uuid_v7 value = is_version_7 (formats.uuid_version value)

  abbrev valid_plan : TransferRecord → Option BackupTransferPlan → Bool
  valid_plan transfer none = true
  valid_plan transfer (some plan) =
      plan.operation_id === transfer.transfer_operation_id
      && plan.deployment_id === transfer.deployment_id
      && is_lower_sha256 plan.manifest_sha256
      && not (length plan.files == 0)

  abbrev in_range : CopyCursor → Option BackupTransferPlan → Bool
  in_range cursor none = false
  in_range cursor (some plan) = is_within cursor.offset (get_elem? plan.files cursor.file_index)

  abbrev valid_cursor : Option BackupTransferPlan → Option CopyCursor → Bool
  valid_cursor plan none = true
  valid_cursor plan (some cursor) =
      valid_uuid_v7 cursor.read_operation_id
      && valid_uuid_v7 cursor.write_operation_id
      && in_range cursor plan

  unfoldable pub validate_transfer : TransferRecord → Bool
  validate_transfer transfer =
      transfer.schema == 1
      && (validate_identifier transfer.deployment_id 128
          && validate_identifier transfer.source_host_id 128
          && validate_identifier transfer.destination_host_id 128
          && validate_identifier transfer.destination_alias 128)
      && not (transfer.source_host_id === transfer.destination_host_id)
      && all valid_uuid_v7 (
          transfer.transfer_operation_id ∷ transfer.finalize_operation_id
          ∷ transfer.source_receipt_operation_id ∷ transfer.source_cleanup_operation_id
          ∷ transfer.destination_cleanup_operation_id ∷ [])
      && (valid_plan transfer transfer.source_plan
          && valid_cursor transfer.source_plan transfer.cursor)
      && validate_phase transfer

  abbrev checked_transfer : Option TransferRecord → Exec Disk Refusal (Option TransferRecord)
  checked_transfer none = fail invalid_record
  checked_transfer (some transfer) =
      if validate_transfer transfer then pure (some transfer) else fail invalid_record

  abbrev read_transfer : Read → Exec Disk Refusal (Option TransferRecord)
  read_transfer missing = pure none
  read_transfer oversized = fail invalid_record
  read_transfer (found bytes) = checked_transfer (formats.decode bytes)

  -- TransferJournal::load
  unfoldable pub load_transfer : Exec Disk Refusal (Option TransferRecord)
  load_transfer disk = read_transfer (read_secure_regular_file max_bytes disk.file) disk

  -- TransferJournal::store
  unfoldable pub store_transfer : TransferRecord → Exec Disk Refusal (Unit {0})
  store_transfer transfer =
      let bytes = formats.encode transfer in
      if validate_transfer transfer && leb (length bytes) max_bytes
      then replace_file write_failed bytes
      else fail invalid_record

  -- TransferJournal::clear
  unfoldable pub clear_transfer : Exec Disk Refusal (Unit {0})
  clear_transfer = remove_file write_failed
