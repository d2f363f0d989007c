-- ===== src/Transfer/Exchange.antt =====
-- What the controller asks of the two targets of a copy, and what it expects of their answers
-- (src/target/wire.rs: the constructors of HostOperation; src/controller/surface_run.rs: expect_*).
use nazo_auth_ctl.Prelude.{ℕ, String, Bool, true, false, Option, none, some, List}
use nazo_auth_ctl.Prelude.Exec.{Outcome, ok, err, Exec, pure, fail}
use nazo_auth_ctl.Disk.{Disk}
use nazo_auth_ctl.Wire.{
  WireText, HostOperationBody, HostOperation, HostCompletionBody, HostOutcome, HostResult,
  completed, host_protocol_schema,
}
use nazo_auth_ctl.Wire.Payloads.{OffHostCopyReceipt}
use nazo_auth_ctl.Transfer.{
  BackupTransferPlan, TransferFormats, Refusal, unreachable, missing_evidence, unexpected,
}

-- src/target/wire.rs
pub record BackupTransferChunk : Type 0 where
  pub transfer_operation_id : String
  pub file_name : String
  pub offset : ℕ
  pub total_bytes : ℕ
  pub file_sha256 : String
  pub bytes : List ℕ

-- The two hosts and what else is outside, beside the controller's journal.
pub record World (T : Type 0) : Type 0 where
  pub disk : Disk
  pub outside : T

abbrev pub OnWorld : Type 0 → Type 0 → Type 0
OnWorld T A = Exec (World T) Refusal A

-- A target answers, or it is not reached; the operation ids are drawn with `Uuid::now_v7`; a
-- completion's payload is read by serde_json.
pub record Targets (T : Type 0) : Type 0 where
  pub formats : TransferFormats
  pub source : HostOperation → T → Option HostResult × T
  pub destination : HostOperation → T → Option HostResult × T
  pub now_v7 : T → String × T
  pub read_plan : WireText → Option BackupTransferPlan
  pub read_chunk : WireText → Option BackupTransferChunk
  pub read_receipt : WireText → Option OffHostCopyReceipt

-- The bodies of the seven requests, with their binding to a deployment.
unfoldable pub transfer_operation : String → String → HostOperationBody → HostOperation
transfer_operation operation_id deployment_id body = record {
  schema = host_protocol_schema;
  operation_id = operation_id;
  deployment_id = some deployment_id;
  expected_revision = none;
  operation = body;
}

abbrev pub chunk_write : String → BackupTransferChunk → HostOperationBody
chunk_write transfer chunk =
    HostOperationBody.backup_transfer_write transfer chunk.file_name chunk.offset chunk.total_bytes
      chunk.file_sha256 chunk.bytes

abbrev expect_read : {A : Type 0} → Option A → Outcome Refusal A
expect_read none = err unexpected
expect_read (some a) = ok a

abbrev pub require : {T A : Type 0} → Option A → OnWorld T A
require none = fail missing_evidence
require (some a) = pure a

abbrev pub require_that : {T : Type 0} → Bool → Refusal → OnWorld T (Unit {0})
require_that true refusal = pure tt
require_that false refusal = fail refusal

module _ {T : Type 0} (targets : Targets T) where
  abbrev pub plan_of : HostOutcome → Outcome Refusal BackupTransferPlan
  plan_of (completed (HostCompletionBody.backup_transfer_prepared text)) =
      expect_read (targets.read_plan text)
  plan_of (HostOutcome.failed code) = err (Refusal.failed code)
  plan_of (completed _) = err unexpected

  abbrev pub chunk_of : HostOutcome → Outcome Refusal BackupTransferChunk
  chunk_of (completed (HostCompletionBody.backup_transfer_chunk text)) =
      expect_read (targets.read_chunk text)
  chunk_of (HostOutcome.failed code) = err (Refusal.failed code)
  chunk_of (completed _) = err unexpected

  abbrev pub receipt_of : HostOutcome → Outcome Refusal OffHostCopyReceipt
  receipt_of (completed (HostCompletionBody.backup_import_finalized text)) =
      expect_read (targets.read_receipt text)
  receipt_of (HostOutcome.failed code) = err (Refusal.failed code)
  receipt_of (completed _) = err unexpected

  abbrev pub written_of : HostOutcome → Outcome Refusal (Unit {0})
  written_of (completed HostCompletionBody.backup_transfer_written) = ok tt
  written_of (HostOutcome.failed code) = err (Refusal.failed code)
  written_of (completed _) = err unexpected

  abbrev pub recorded_of : HostOutcome → Outcome Refusal (Unit {0})
  recorded_of (completed HostCompletionBody.backup_offhost_recorded) = ok tt
  recorded_of (HostOutcome.failed code) = err (Refusal.failed code)
  recorded_of (completed _) = err unexpected

  abbrev pub cleaned_of : HostOutcome → Outcome Refusal (Unit {0})
  cleaned_of (completed HostCompletionBody.backup_transfer_cleaned) = ok tt
  cleaned_of (HostOutcome.failed code) = err (Refusal.failed code)
  cleaned_of (completed _) = err unexpected

  abbrev pub draw : OnWorld T String
  draw world =
      let (id, outside) = targets.now_v7 world.outside in
      (ok id, record world { outside = outside })

abbrev pub answered :
    {A : Type 0} → (HostOutcome → Outcome Refusal A) → Option HostResult → Outcome Refusal A
answered reads none = err unreachable
answered reads (some result) = reads result.outcome

module _ {T : Type 0} where
  -- A request to one of the targets, and the payload that is expected of its answer.
  abbrev pub ask :
      {A : Type 0}
      → (HostOperation → T → Option HostResult × T)
      → (HostOutcome → Outcome Refusal A)
      → HostOperation
      → OnWorld T A
  ask target reads operation world =
      let (result, outside) = target operation world.outside in
      (answered reads result, record world { outside = outside })

  abbrev pub on_disk : {A : Type 0} → Exec Disk Refusal A → OnWorld T A
  on_disk action world =
      let (result, disk) = action world.disk in (result, record world { disk = disk })
