-- ===== src/Transfer/Copying.antt =====
-- The controller's loop over the phases of a copy (src/controller/surface_run.rs:
-- resume_backup_transfer, copy_one_backup_chunk), with the requests that it sends
-- (src/target/wire.rs: the constructors of HostOperation). Each iteration ends with a durable record.
pub mod Durable
pub mod Advancing
pub mod Ending
use nazo_auth_ctl.Prelude.{
  ℕ, zero, suc, ◌+◌, String, Bool, true, false, not, ◌&&◌, ◌||◌, Option, none, some, List, [], ◌∷◌,
  length, ltb, ◌==◌, ◌===◌, if◌then◌else◌,
}
use nazo_auth_ctl.Prelude.Exec.{Outcome, ok, err, Exec, pure, fail, ◌>>=◌, ◌>>◌}
use nazo_auth_ctl.Disk.{Disk}
use nazo_auth_ctl.Identifiers.{validate_identifier}
use nazo_auth_ctl.Wire.{
  WireText, HostOperationBody, HostOperation, HostCompletionBody, HostOutcome, HostResult,
  completed, host_protocol_schema,
}
use nazo_auth_ctl.Wire.Admission.{checked_add, max_backup_transfer_chunk_bytes}
use nazo_auth_ctl.Wire.Payloads.{OffHostCopyReceipt}
use nazo_auth_ctl.Transfer.{
  SnapshotFile, BackupTransferPlan, TransferPhase, source_prepare, destination_prepare, copying,
  finalize, record_source_receipt, cleanup_source, cleanup_destination, CopyCursor, TransferRecord,
  get_elem?, reset_cursor, TransferFormats, Refusal, unreachable, mismatched, missing_evidence,
  unexpected, store_transfer, clear_transfer,
}
use nazo_auth_ctl.Transfer.Exchange.{
  BackupTransferChunk, World, OnWorld, Targets, transfer_operation, chunk_write, require,
  require_that, plan_of, chunk_of, receipt_of, written_of, recorded_of, cleaned_of, ask, on_disk,
  draw,
}

-- What an iteration leaves: the record to go on with, or the receipt at the end.
pub data Progress : Type 0 where
  goes_on : TransferRecord → Progress
  finished : OffHostCopyReceipt → Progress

unfoldable pub chunk_conforms :
    TransferRecord → CopyCursor → SnapshotFile → BackupTransferChunk → Bool
chunk_conforms transfer cursor file chunk =
    chunk.transfer_operation_id === transfer.transfer_operation_id
    && chunk.file_name === file.path
    && chunk.offset == cursor.offset
    && chunk.total_bytes == file.size
    && chunk.file_sha256 === file.sha256
    && not (length chunk.bytes == 0)

unfoldable pub validate_receipt : TransferRecord → BackupTransferPlan → OffHostCopyReceipt → Bool
validate_receipt transfer plan receipt =
    receipt.schema == 1
    && receipt.deployment_id === transfer.deployment_id
    && receipt.source_host_id === transfer.source_host_id
    && receipt.destination_host_id === transfer.destination_host_id
    && receipt.manifest_sha256 === plan.manifest_sha256
    && validate_identifier receipt.snapshot_id 128

abbrev empty_plan_conforms : TransferRecord → BackupTransferPlan → Bool
empty_plan_conforms transfer plan =
    plan.operation_id === transfer.transfer_operation_id
    && plan.deployment_id === transfer.deployment_id
    && plan.manifest_sha256 === ""
    && length plan.files == 0

abbrev pub continued :
    {T : Type 0}
    → (TransferRecord → OnWorld T (Option OffHostCopyReceipt))
    → Progress
    → OnWorld T (Option OffHostCopyReceipt)
continued rest (goes_on next) = rest next
continued rest (finished receipt) = pure (some receipt)

module _ {T : Type 0} (targets : Targets T) where
  abbrev stored : TransferRecord → OnWorld T Progress
  stored transfer = on_disk (store_transfer targets.formats transfer) >> pure (goes_on transfer)

  -- The record with a cursor that has new operation ids, in the phase of the copy.
  abbrev at_cursor : ℕ → ℕ → TransferRecord → OnWorld T TransferRecord
  at_cursor file_index offset transfer = do
    read ← draw targets
    write ← draw targets
    pure (reset_cursor file_index offset read write transfer)

  abbrev next_cursor :
      TransferRecord → CopyCursor → List SnapshotFile → SnapshotFile → ℕ → OnWorld T TransferRecord
  next_cursor transfer cursor files file next_offset =
      if ltb next_offset file.size
      then at_cursor cursor.file_index next_offset transfer
      else if ltb (cursor.file_index + 1) (length files)
      then at_cursor (cursor.file_index + 1) 0 transfer
      else pure (record transfer { cursor = none; phase = finalize })

  -- From the acknowledgement of a chunk on.
  abbrev pub proceed :
      TransferRecord → CopyCursor → List SnapshotFile → SnapshotFile → ℕ → OnWorld T Progress
  proceed transfer cursor files file consumed = do
    next_offset ← require (checked_add cursor.offset consumed)
    next ← next_cursor transfer cursor files file next_offset
    stored next

  abbrev pub write_chunk : TransferRecord → CopyCursor → BackupTransferChunk → OnWorld T (Unit {0})
  write_chunk transfer cursor chunk = ask targets.destination (written_of targets) (
      transfer_operation cursor.write_operation_id transfer.deployment_id
        (chunk_write transfer.transfer_operation_id chunk))

  abbrev pub deliver :
      TransferRecord
      → CopyCursor
      → List SnapshotFile
      → SnapshotFile
      → BackupTransferChunk
      → OnWorld T Progress
  deliver transfer cursor files file chunk = do
    _ ← require_that (chunk_conforms transfer cursor file chunk) mismatched
    _ ← write_chunk transfer cursor chunk
    proceed transfer cursor files file (length chunk.bytes)

  abbrev pub read_chunk : TransferRecord → CopyCursor → SnapshotFile → OnWorld T BackupTransferChunk
  read_chunk transfer cursor file = ask targets.source (chunk_of targets) (
      transfer_operation cursor.read_operation_id transfer.deployment_id (
        HostOperationBody.backup_transfer_read transfer.transfer_operation_id file.path
          cursor.offset max_backup_transfer_chunk_bytes))

  unfoldable pub copy_one_backup_chunk : TransferRecord → OnWorld T Progress
  copy_one_backup_chunk transfer = do
    plan ← require transfer.source_plan
    cursor ← require transfer.cursor
    file ← require (get_elem? plan.files cursor.file_index)
    chunk ← read_chunk transfer cursor file
    deliver transfer cursor plan.files file chunk

  abbrev prepare_source : TransferRecord → OnWorld T Progress
  prepare_source transfer = do
    plan ← ask targets.source (plan_of targets) (
        transfer_operation transfer.transfer_operation_id transfer.deployment_id
          HostOperationBody.backup_export_prepare)
    stored (record transfer { source_plan = some plan; phase = destination_prepare })

  abbrev prepare_destination : TransferRecord → OnWorld T Progress
  prepare_destination transfer = do
    plan ← ask targets.destination (plan_of targets) (
        transfer_operation transfer.transfer_operation_id transfer.deployment_id
          HostOperationBody.backup_import_prepare)
    _ ← require_that (empty_plan_conforms transfer plan) mismatched
    next ← at_cursor 0 0 transfer
    stored (record next { phase = copying })

  abbrev finalize_import : TransferRecord → OnWorld T Progress
  finalize_import transfer = do
    plan ← require transfer.source_plan
    receipt ← ask targets.destination (receipt_of targets) (
        transfer_operation transfer.finalize_operation_id transfer.deployment_id (
          HostOperationBody.backup_import_finalize transfer.transfer_operation_id
            plan.manifest_sha256 transfer.source_host_id transfer.destination_host_id))
    _ ← require_that (validate_receipt transfer plan receipt) mismatched
    stored (record transfer { receipt = some receipt; phase = record_source_receipt })

  abbrev record_receipt : TransferRecord → OnWorld T Progress
  record_receipt transfer = do
    receipt ← require transfer.receipt
    _ ← ask targets.source (recorded_of targets) (
        transfer_operation transfer.source_receipt_operation_id transfer.deployment_id
          (HostOperationBody.backup_offhost_record receipt))
    stored (record transfer { phase = cleanup_source })

  abbrev clean_source : TransferRecord → OnWorld T Progress
  clean_source transfer = do
    _ ← ask targets.source (cleaned_of targets) (
        transfer_operation transfer.source_cleanup_operation_id transfer.deployment_id
          (HostOperationBody.backup_transfer_cleanup transfer.transfer_operation_id))
    stored (record transfer { phase = cleanup_destination })

  abbrev clean_destination : TransferRecord → OnWorld T Progress
  clean_destination transfer = do
    _ ← ask targets.destination (cleaned_of targets) (
        transfer_operation transfer.destination_cleanup_operation_id transfer.deployment_id
          (HostOperationBody.backup_transfer_cleanup transfer.transfer_operation_id))
    receipt ← require transfer.receipt
    _ ← on_disk (clear_transfer targets.formats)
    pure (finished receipt)

  -- One iteration of the loop of resume_backup_transfer.
  unfoldable pub transfer_step : TransferRecord → OnWorld T Progress
  transfer_step transfer = elim transfer.phase [
    | source_prepare ↦ prepare_source transfer
    | destination_prepare ↦ prepare_destination transfer
    | copying ↦ copy_one_backup_chunk transfer
    | finalize ↦ finalize_import transfer
    | record_source_receipt ↦ record_receipt transfer
    | cleanup_source ↦ clean_source transfer
    | cleanup_destination ↦ clean_destination transfer
  ]

  -- The loop; `none` where the fuel is spent.
  unfoldable pub resume_backup_transfer : ℕ → TransferRecord → OnWorld T (Option OffHostCopyReceipt)
  resume_backup_transfer zero transfer = pure none
  resume_backup_transfer (suc fuel) transfer =
      transfer_step transfer >>= continued (resume_backup_transfer fuel)
